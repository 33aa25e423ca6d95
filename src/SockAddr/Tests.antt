-- ===== src/SockAddr/Tests.antt =====
-- Addresses of both families.
use cpp_interface.Prelude.{ℕ, ◌≡◌, ◌≢◌, ◌++◌, refl, ap, false, some, List, [], ◌∷◌, arith, All}
use cpp_interface.SockAddr.{
  less, equal, SockAddr, inet, inet6, strong_mem_compare, equals, compares, addr_size, any_ipv6,
}
use cpp_interface.SockAddr.Order.{IsByte, IsInet, sort_key, compares-sort_key}
use cpp_interface.SockAddr.Equality.{compares-equals_scope}

abbrev local : SockAddr
local = inet (1 ∷ 2 ∷ []) (127 ∷ 0 ∷ 0 ∷ 1 ∷ []) (0 ∷ [])

abbrev other_port : SockAddr
other_port = inet (1 ∷ 3 ∷ []) (127 ∷ 0 ∷ 0 ∷ 1 ∷ []) (0 ∷ [])

abbrev four : List ℕ
four = 0 ∷ 0 ∷ 0 ∷ 1 ∷ []

-- The scope is given.
abbrev link : List ℕ → SockAddr
link scope = inet6 (1 ∷ 2 ∷ []) four (four ++ (four ++ (four ++ four))) scope

four_bytes : All IsByte (127 ∷ 0 ∷ 0 ∷ 1 ∷ [])
four_bytes = (omega arith, (omega arith, (omega arith, (omega arith, tt))))

local-IsInet : IsInet local
local-IsInet = ((refl, (omega arith, (omega arith, tt))), (refl, four_bytes))

other_port-IsInet : IsInet other_port
other_port-IsInet = ((refl, (omega arith, (omega arith, tt))), (refl, four_bytes))

order_of_ports : compares local other_port ≡ some less
unfolding compares
order_of_ports = refl

compares-sort_key_example :
    compares local other_port ≡ some (strong_mem_compare (sort_key local) (sort_key other_port))
compares-sort_key_example = compares-sort_key local other_port local-IsInet other_port-IsInet

scopes_differ : four ≢ (0 ∷ 0 ∷ 0 ∷ 2 ∷ [])
scopes_differ e = omega (arith, ap last e)
  where
    last : List ℕ → ℕ
    last [] = 0
    last (x ∷ []) = x
    last (x ∷ y ∷ ys) = last (y ∷ ys)

compares-equals_scope_example :
    (compares (link four) (link (0 ∷ 0 ∷ 0 ∷ 2 ∷ [])) ≡ some equal)
    × (equals (link four) (link (0 ∷ 0 ∷ 0 ∷ 2 ∷ [])) ≡ some false)
compares-equals_scope_example =
    compares-equals_scope (1 ∷ 2 ∷ []) four (four ++ (four ++ (four ++ four))) four
      (0 ∷ 0 ∷ 0 ∷ 2 ∷ []) refl scopes_differ

size_of_any : addr_size any_ipv6 ≡ some 28
unfolding addr_size any_ipv6
size_of_any = refl

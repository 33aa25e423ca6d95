-- ===== src/SockAddr.antt =====
-- library/SockAddr.cpp: socket addresses. A field holds its bytes in network order, the high one
-- first; a result of `none` is `std::abort` or a failed assertion.
pub mod Order
pub mod Equality
pub mod Fields
pub mod Construction
mod Tests
use cpp_interface.Prelude.{
  ℕ, ◌+◌, ◌*◌, ◌/◌, ◌%◌, Bool, true, false, Option, none, some, List, [], ◌∷◌, ◌++◌, ◌&&◌, ◌==◌,
  ltb, not, if◌then◌else◌, replicate,
}

pub data Ordering : Type 0 where
  less equal greater : Ordering

-- `m_addr`: a `sockaddr_in`, a `sockaddr_in6`, or a family that is neither.
pub data SockAddr : Type 0 where
  inet : (port addr zero : List ℕ) → SockAddr
  inet6 : (port flowinfo addr scope_id : List ℕ) → SockAddr
  unspecified : (family : ℕ) → SockAddr

abbrev pub af_inet : ℕ
af_inet = 2

abbrev pub af_inet6 : ℕ
af_inet6 = 10

abbrev pub family : SockAddr → ℕ
family (inet port addr zero) = af_inet
family (inet6 port flowinfo addr scope_id) = af_inet6
family (unspecified f) = f

-- `a <=> b` of unsigned numbers.
abbrev pub compare_nat : ℕ → ℕ → Ordering
compare_nat a b = if ltb a b then less else if ltb b a then greater else equal

-- `if (cmp != equal) return cmp;` before what follows.
abbrev pub or_else : Ordering → Ordering → Ordering
or_else less o = less
or_else equal o = o
or_else greater o = greater

-- `memcmp` of as many bytes as both have.
abbrev pub strong_mem_compare : List ℕ → List ℕ → Ordering
strong_mem_compare [] ys = equal
strong_mem_compare (x ∷ xs) [] = equal
strong_mem_compare (x ∷ xs) (y ∷ ys) = or_else (compare_nat x y) (strong_mem_compare xs ys)

abbrev pub is_equal : Ordering → Bool
is_equal less = false
is_equal equal = true
is_equal greater = false

abbrev pub htons : ℕ → List ℕ
htons p = (p / 256) % 256 ∷ p % 256 ∷ []

abbrev pub ntohs : List ℕ → ℕ
ntohs [] = 0
ntohs (high ∷ []) = high
ntohs (high ∷ low ∷ rest) = high * 256 + low

unfoldable pub any_ipv4 : SockAddr
any_ipv4 = inet (htons 0) (replicate 4 0) (replicate 8 0)

unfoldable pub any_ipv6 : SockAddr
any_ipv6 = inet6 (htons 0) (replicate 4 0) (replicate 16 0) (replicate 4 0)

-- `SockAddr::SockAddr (Domain)`
unfoldable pub of_domain : ℕ → Option SockAddr
of_domain domain =
    if domain == af_inet then some any_ipv4 else if domain == af_inet6 then some any_ipv6 else none

-- `SockAddr::SockAddr (sockaddr_storage const &)`
unfoldable pub of_storage : SockAddr → Option SockAddr
of_storage (inet port addr zero) = some (inet port addr zero)
of_storage (inet6 port flowinfo addr scope_id) = some (inet6 port flowinfo addr scope_id)
of_storage (unspecified f) = none

unfoldable pub port : SockAddr → Option ℕ
port (inet p addr zero) = some (ntohs p)
port (inet6 p flowinfo addr scope_id) = some (ntohs p)
port (unspecified f) = none

unfoldable pub set_port : SockAddr → ℕ → Option SockAddr
set_port (inet p addr zero) n = some (inet (htons n) addr zero)
set_port (inet6 p flowinfo addr scope_id) n = some (inet6 (htons n) flowinfo addr scope_id)
set_port (unspecified f) n = none

-- `setAddr (in_addr const &)`
unfoldable pub set_addr : SockAddr → List ℕ → Option SockAddr
set_addr (inet p addr zero) new = some (inet p new zero)
set_addr (inet6 p flowinfo addr scope_id) new = none
set_addr (unspecified f) new = none

-- `setAddr (in6_addr const &)`
unfoldable pub set_addr6 : SockAddr → List ℕ → Option SockAddr
set_addr6 (inet p addr zero) new = none
set_addr6 (inet6 p flowinfo addr scope_id) new = some (inet6 p flowinfo new scope_id)
set_addr6 (unspecified f) new = none

-- `operator==`; the ports are of one family here, so `port ()` does not abort.
unfoldable pub equals : SockAddr → SockAddr → Option Bool
equals (inet p a z) (inet p' a' z') =
    some (if not (ntohs p == ntohs p') then false else is_equal (strong_mem_compare a a'))
equals (inet6 p f a s) (inet6 p' f' a' s') =
    some (is_equal (strong_mem_compare (p ++ (f ++ (a ++ s))) (p' ++ (f' ++ (a' ++ s')))))
equals (unspecified f) (unspecified g) = if f == g then none else some false
equals (inet p a z) (inet6 p' f' a' s') = some false
equals (inet6 p f a s) (inet p' a' z') = some false
equals (inet p a z) (unspecified g) = if af_inet == g then none else some false
equals (inet6 p f a s) (unspecified g) = if af_inet6 == g then none else some false
equals (unspecified f) (inet p' a' z') = if f == af_inet then none else some false
equals (unspecified f) (inet6 p' f' a' s') = if f == af_inet6 then none else some false

-- `operator<=>`; the last comparison is of the flow information again, as in the source.
unfoldable pub compares : SockAddr → SockAddr → Option Ordering
compares (inet p a z) (inet p' a' z') =
    some (or_else (strong_mem_compare a a') (compare_nat (ntohs p) (ntohs p')))
compares (inet6 p f a s) (inet6 p' f' a' s') = some (
    or_else (strong_mem_compare a a') (
      or_else (compare_nat (ntohs p) (ntohs p'))
        (or_else (strong_mem_compare f f') (strong_mem_compare f f'))))
compares (unspecified f) (unspecified g) = if f == g then none else some (compare_nat f g)
compares (inet p a z) (inet6 p' f' a' s') = some (compare_nat af_inet af_inet6)
compares (inet6 p f a s) (inet p' a' z') = some (compare_nat af_inet6 af_inet)
compares (inet p a z) (unspecified g) = if af_inet == g then none else some (compare_nat af_inet g)
compares (inet6 p f a s) (unspecified g) =
    if af_inet6 == g then none else some (compare_nat af_inet6 g)
compares (unspecified f) (inet p' a' z') =
    if f == af_inet then none else some (compare_nat f af_inet)
compares (unspecified f) (inet6 p' f' a' s') =
    if f == af_inet6 then none else some (compare_nat f af_inet6)

unfoldable pub domain : SockAddr → Option ℕ
domain (inet p addr zero) = some af_inet
domain (inet6 p flowinfo addr scope_id) = some af_inet6
domain (unspecified f) = none

-- `sizeof (sockaddr_in)` and `sizeof (sockaddr_in6)`
unfoldable pub addr_size : SockAddr → Option ℕ
addr_size (inet p addr zero) = some 16
addr_size (inet6 p flowinfo addr scope_id) = some 28
addr_size (unspecified f) = none

-- The loop of `resolve` over the addresses that `getaddrinfo` found.
unfoldable pub first_supported : List SockAddr → SockAddr → Bool × SockAddr
first_supported [] out = (false, out)
first_supported (inet p addr zero ∷ infos) out = (true, inet p addr zero)
first_supported (inet6 p flowinfo addr scope_id ∷ infos) out =
    (true, inet6 p flowinfo addr scope_id)
first_supported (unspecified f ∷ infos) out = first_supported infos out

-- `resolve`: `infos` is what `getaddrinfo` found, `none` if it failed.
unfoldable pub resolve : Option (List SockAddr) → SockAddr → Bool × SockAddr
resolve none out = (false, out)
resolve (some infos) out = first_supported infos out

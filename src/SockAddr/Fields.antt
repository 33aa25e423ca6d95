-- ===== src/SockAddr/Fields.antt =====
-- Ports that are set, and addresses that are resolved.
use cpp_interface.Prelude.{
  ℕ, ◌≡◌, refl, ap, ◌<◌, ◌⊎◌, inl, inr, Bool, true, false, none, some, List, [], ◌∷◌, ◌++◌, arith,
  any,
}
use cpp_interface.SockAddr.{
  SockAddr, inet, inet6, unspecified, htons, ntohs, port, set_port, domain, first_supported,
  resolve,
}

-- The family is one of the two.
abbrev pub is_supported : SockAddr → Bool
is_supported (inet p a z) = true
is_supported (inet6 p f a s) = true
is_supported (unspecified f) = false

pub ntohs-htons : (n : ℕ) → n < 65536 → ntohs (htons n) ≡ n
ntohs-htons n h = omega arith

-- On an address of the two families a port of 16 bits is set without abort; it is then read back,
-- and the family stays; on another family both operations abort.
pub port-set_port :
    (a : SockAddr) (n : ℕ)
    → n < 65536
    → ((is_supported a ≡ true)
        × (b : SockAddr) × ((set_port a n ≡ some b) × (port b ≡ some n) × (domain b ≡ domain a)))
      ⊎ ((is_supported a ≡ false) × (set_port a n ≡ none) × (port a ≡ none))
unfolding port set_port domain
port-set_port (inet p a z) n h =
    inl (refl, inet (htons n) a z, (refl, ap some (ntohs-htons n h), refl))
port-set_port (inet6 p f a s) n h =
    inl (refl, inet6 (htons n) f a s, (refl, ap some (ntohs-htons n h), refl))
port-set_port (unspecified g) n h = inr (refl, refl, refl)

-- When `getaddrinfo` succeeds, either `resolve` is true and gives the first address found that has
-- one of the two families, or no address found has one, and it is false and the output stays.
resolve_lem :
    (infos : List SockAddr) (out : SockAddr)
    → ((before after : List SockAddr) × (a : SockAddr) × ((infos ≡ before ++ (a ∷ after))
          × (any is_supported before ≡ false)
          × (is_supported a ≡ true)
          × (resolve (some infos) out ≡ (true, a))))
      ⊎ ((any is_supported infos ≡ false) × (resolve (some infos) out ≡ (false, out)))
unfolding resolve first_supported
resolve_lem [] out = inr (refl, refl)
resolve_lem (inet p a z ∷ infos) out = inl ([], infos, inet p a z, (refl, refl, refl, refl))
resolve_lem (inet6 p f a s ∷ infos) out = inl ([], infos, inet6 p f a s, (refl, refl, refl, refl))
resolve_lem (unspecified g ∷ infos) out = elim (resolve_lem infos out) [
  | inl (before, after, a, (split, skipped, supported, result)) ↦ inl (
    unspecified g ∷ before,
    after,
    a,
    (ap (◌∷◌ (unspecified g)) split, skipped, supported, result),
  )
  | inr nothing ↦ inr nothing
]

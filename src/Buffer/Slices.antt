-- ===== src/Buffer/Slices.antt =====
-- Laws of slices of a buffer, of copies into it, and of the header that two of its bytes spell.
use cpp_interface.Prelude.{
  ℕ, zero, suc, ◌+◌, ◌*◌, ◌≤◌, ◌<◌, ◌^◌, ◌≡◌, refl, ap, ap₂, ◌∙◌, List, [], ◌∷◌, ◌++◌, length, All,
  arith, bit_or-shift, add_size,
}
use cpp_interface.Buffer.{Buffer, IsBytes, set, slice, memcpy, header_at}

pub set_self : (b : Buffer) (k v : ℕ) → set b k v k ≡ v
unfolding set
set_self b k v = ground arith

pub set_ne : (b : Buffer) (k v i : ℕ) → i < k → set b k v i ≡ b i
unfolding set
set_ne b k v i h = ground arith

pub length-slice : (b : Buffer) (k n : ℕ) → length (slice b k n) ≡ n
length-slice b k zero = refl
length-slice b k (suc n) = ap suc (length-slice b (k + 1) n)

pub slice-append : (b : Buffer) (k m n : ℕ) → slice b k (m + n) ≡ slice b k m ++ slice b (k + m) n
slice-append b k zero n = ap₂ (slice b) (omega arith) (omega arith)
slice-append b k (suc m) n =
    let e : suc m + n ≡ suc (m + n) = omega arith in
    let f : k + 1 + m ≡ k + suc m = omega arith in
    ap (slice b k) e
    ∙ ap (◌∷◌ (b k)) (slice-append b (k + 1) m n ∙ ap (λ j. slice b (k + 1) m ++ slice b j n) f)

pub slice_ext :
    (a b : Buffer) (k j n : ℕ)
    → ((i : ℕ) → i < n → a (k + i) ≡ b (j + i))
    → slice a k n ≡ slice b j n
slice_ext a b k j zero h = refl
slice_ext a b k j (suc n) h =
    ap₂ ◌∷◌ (ap a (omega arith) ∙ h 0 (omega arith) ∙ ap b (omega arith)) (
      slice_ext a b (k + 1) (j + 1) n
        (λ i p. ap a (omega arith) ∙ h (i + 1) (omega arith) ∙ ap b (omega arith)))

pub memcpy_below : (xs : List ℕ) (b : Buffer) (k i : ℕ) → i < k → memcpy b k xs i ≡ b i
unfolding memcpy
memcpy_below [] b k i h = refl
memcpy_below (x ∷ xs) b k i h =
    memcpy_below xs (set b k x) (k + 1) i (omega arith) ∙ set_ne b k x i h

pub slice-memcpy : (xs : List ℕ) (b : Buffer) (k : ℕ) → slice (memcpy b k xs) k (length xs) ≡ xs
unfolding memcpy
slice-memcpy [] b k = refl
slice-memcpy (x ∷ xs) b k =
    ap₂ ◌∷◌ (memcpy_below xs (set b k x) (k + 1) k (omega arith) ∙ set_self b k x)
      (slice-memcpy xs (set b k x) (k + 1))

-- A copy leaves what lies below its start as it was.
pub slice-memcpy_below :
    (xs : List ℕ) (b : Buffer) (k j n : ℕ) → j + n ≤ k → slice (memcpy b k xs) j n ≡ slice b j n
slice-memcpy_below xs b k j n h =
    slice_ext (memcpy b k xs) b j j n (λ i p. memcpy_below xs b k (j + i) (omega arith))

pub set-IsBytes : (b : Buffer) (k v : ℕ) → v < 256 → IsBytes b → IsBytes (set b k v)
unfolding set
set-IsBytes b k v h bytes i = ground (arith, bytes i)

pub memcpy-IsBytes :
    (xs : List ℕ) (b : Buffer) (k : ℕ) → All (λ x. x < 256) xs → IsBytes b → IsBytes (memcpy b k xs)
unfolding memcpy
memcpy-IsBytes [] b k h bytes = bytes
memcpy-IsBytes (x ∷ xs) b k h bytes =
    memcpy-IsBytes xs (set b k x) (k + 1) h.1 (set-IsBytes b k x h.0 bytes)

pub slice-bytes : (b : Buffer) (k n : ℕ) → IsBytes b → All (λ x. x < 256) (slice b k n)
slice-bytes b k zero bytes = tt
slice-bytes b k (suc n) bytes = (bytes k, slice-bytes b (k + 1) n bytes)

-- On bytes the shift and the `|` of the source are multiplication and addition.
pub header_at_lem :
    (b : Buffer) (k : ℕ) → IsBytes b → k < 2 ^ 63 → header_at b k ≡ b k * 256 + b (k + 1)
unfolding header_at
header_at_lem b k bytes h =
    let e : add_size k 1 ≡ k + 1 = omega arith in
    bit_or-shift (b k) (b (add_size k 1)) (bytes k) (bytes (add_size k 1))
    ∙ ap (λ j. b k * 2 ^ 8 + b j) e

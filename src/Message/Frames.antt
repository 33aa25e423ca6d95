-- ===== src/Message/Frames.antt =====
-- What a byte stream of messages is, apart from any buffer: a sequence of frames, each a header of
-- two bytes that counts the payload behind it, and a last frame that is not complete yet.
use cpp_interface.Prelude.{
  ℕ, ◌+◌, ◌*◌, ◌<◌, ◌≡◌, refl, ap, ap₂, sym, ◌∙◌, List, [], ◌∷◌, ◌++◌, length, concat,
  concat-append, All-append, All, arith, append_assoc, length-append,
}

-- A complete frame.
abbrev pub IsFrame : List ℕ → Type 0
IsFrame [] = ⊥
IsFrame (a ∷ []) = ⊥
IsFrame (a ∷ b ∷ payload) = length payload ≡ a * 256 + b

-- Too short for its header, or for the payload that its header counts.
abbrev pub IsIncomplete : List ℕ → Type 0
IsIncomplete [] = Unit
IsIncomplete (a ∷ []) = Unit
IsIncomplete (a ∷ b ∷ payload) = length payload < a * 256 + b

-- `stream` is the frames `fs` and then the incomplete `rest`.
pub record Framed (stream : List ℕ) (fs : List (List ℕ)) (rest : List ℕ) : Type 0 where
  pub joined : concat fs ++ rest ≡ stream
  pub complete : All IsFrame fs
  pub pending : IsIncomplete rest

cons_head : {a b : ℕ} {xs ys : List ℕ} → a ∷ xs ≡ b ∷ ys → a ≡ b
cons_head e = cc

cons_tail : {a b : ℕ} {xs ys : List ℕ} → a ∷ xs ≡ b ∷ ys → xs ≡ ys
cons_tail e = cc

-- Lists of one length that begin one list are equal, and so are the rests.
append_cancel :
    (xs ys us vs : List ℕ) → length xs ≡ length ys → xs ++ us ≡ ys ++ vs → (xs ≡ ys) × (us ≡ vs)
append_cancel [] [] us vs h e = (refl, e)
append_cancel [] (y ∷ ys) us vs h e = absurd (omega arith)
append_cancel (x ∷ xs) [] us vs h e = absurd (omega arith)
append_cancel (x ∷ xs) (y ∷ ys) us vs h e =
    let (p, q) = append_cancel xs ys us vs (omega arith) (cons_tail e) in
    (ap₂ ◌∷◌ (cons_head e) p, q)

-- Two complete frames that begin one stream are the same frame.
frame_unique :
    (f g us vs : List ℕ) → IsFrame f → IsFrame g → f ++ us ≡ g ++ vs → (f ≡ g) × (us ≡ vs)
frame_unique [] g us vs hf hg e = absurd hf
frame_unique (a ∷ []) g us vs hf hg e = absurd hf
frame_unique (a ∷ b ∷ f) [] us vs hf hg e = absurd hg
frame_unique (a ∷ b ∷ f) (c ∷ []) us vs hf hg e = absurd hg
frame_unique (a ∷ b ∷ f) (c ∷ d ∷ g) us vs hf hg e =
    append_cancel (a ∷ b ∷ f) (c ∷ d ∷ g) us vs
      (omega (arith, cons_head e, cons_head (cons_tail e))) e

-- No incomplete frame begins with a complete one.
frame_not_incomplete : (f us rest : List ℕ) → IsFrame f → IsIncomplete rest → f ++ us ≡ rest → ⊥
frame_not_incomplete [] us rest hf hr e = hf
frame_not_incomplete (a ∷ []) us rest hf hr e = hf
frame_not_incomplete (a ∷ b ∷ f) us [] hf hr e = cc
frame_not_incomplete (a ∷ b ∷ f) us (c ∷ []) hf hr e = cc
frame_not_incomplete (a ∷ b ∷ f) us (c ∷ d ∷ g) hf hr e = omega (
  arith,
  cons_head e,
  cons_head (cons_tail e),
  ap length (cons_tail (cons_tail e)),
  length-append f us,
)

split_unique :
    (fs gs : List (List ℕ)) (r s : List ℕ)
    → All IsFrame fs
    → All IsFrame gs
    → IsIncomplete r
    → IsIncomplete s
    → concat fs ++ r ≡ concat gs ++ s
    → (fs ≡ gs) × (r ≡ s)
split_unique [] [] r s hf hg hr hs e = (refl, e)
split_unique [] (g ∷ gs) r s hf hg hr hs e =
    absurd (
      frame_not_incomplete g (concat gs ++ s) r hg.0 hr
        (sym (append_assoc g (concat gs) s) ∙ sym e))
split_unique (f ∷ fs) [] r s hf hg hr hs e =
    absurd
      (frame_not_incomplete f (concat fs ++ r) s hf.0 hs (sym (append_assoc f (concat fs) r) ∙ e))
split_unique (f ∷ fs) (g ∷ gs) r s hf hg hr hs e =
    let (p, q) =
      frame_unique f g (concat fs ++ r) (concat gs ++ s) hf.0 hg.0
        (sym (append_assoc f (concat fs) r) ∙ e ∙ append_assoc g (concat gs) s) in
    let (ps, qs) = split_unique fs gs r s hf.1 hg.1 hr hs q in (ap₂ ◌∷◌ p ps, qs)

-- A stream has one reading only.
pub Framed-unique :
    {stream : List ℕ} {fs gs : List (List ℕ)} {r s : List ℕ}
    → Framed stream fs r
    → Framed stream gs s
    → (fs ≡ gs) × (r ≡ s)
Framed-unique {fs = fs} {gs = gs} {r = r} {s = s} a b =
    split_unique fs gs r s a.complete b.complete a.pending b.pending (a.joined ∙ sym b.joined)

-- The reading of a stream goes on where it stopped.
pub Framed-append :
    {s p q : List ℕ} {fs gs : List (List ℕ)} (c : List ℕ)
    → Framed s fs p
    → Framed (p ++ c) gs q
    → Framed (s ++ c) (fs ++ gs) q
Framed-append {s} {p} {q} {fs} {gs} c a b = record {
  joined =
      ap (λ xs. xs ++ q) (concat-append fs gs)
      ∙ append_assoc (concat fs) (concat gs) q
      ∙ ap (λ xs. concat fs ++ xs) b.joined
      ∙ sym (append_assoc (concat fs) p c)
      ∙ ap (λ xs. xs ++ c) a.joined;
  complete = All-append IsFrame fs gs a.complete b.complete;
  pending = b.pending;
}

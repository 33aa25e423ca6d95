-- ===== src/Simulator/Transfers.antt =====
-- `readAll` and `writeAll`, on a kernel that behaves as a stream.
use cpp_interface.Prelude.{
  ℕ, ◌≡◌, refl, ap, ◌∙◌, sym, ◌↔◌, zero, suc, ◌+◌, ◌-◌, ◌≤◌, ◌<◌, ◌^◌, Bool, true, false, Option,
  none, some, List, [], ◌∷◌, ◌++◌, ltb, length, length-append, append_assoc, append-nil, take, drop,
  length-drop, ℤ, arith, pos, negsuc, subst, ltb→lt, le→not_ltb, not_ltb→le, Bool-cases,
  Option-cases, inl, inr, add_size,
}
use cpp_interface.Sockets.{Kernel, sys_recv, sys_send}
use cpp_interface.Simulator.{progress, read_loop, read_all, write_loop, write_all}

take-take-drop :
    {A : Type 0} (m n : ℕ) (xs : List A) → take m xs ++ take n (drop m xs) ≡ take (m + n) xs
take-take-drop zero n xs = let e : n ≡ 0 + n = omega arith in ap (λ k. take k xs) e
take-take-drop (suc m) zero [] = let e : suc m ≡ suc m + 0 = omega arith in ap (λ k. take k []) e
take-take-drop (suc m) (suc n) [] =
    let e : suc (m + suc n) ≡ suc m + suc n = omega arith in ap (λ k. take k []) e
take-take-drop (suc m) n (x ∷ xs) =
    let e : suc (m + n) ≡ suc m + n = omega arith in
    ap (λ ys. x ∷ ys) (take-take-drop m n xs) ∙ ap (λ k. take k (x ∷ xs)) e

module _ {K : Type 0} (kernel : Kernel K) (sock : ℤ) where
  -- What one `recv` did to the bytes that are to come.
  abbrev pub Received : Option ℕ → (size : ℕ) → (bytes before after : List ℕ) → Type 0
  Received none size bytes before after = before ≡ after
  Received (some n) size bytes before after =
      (length bytes ≡ n) × (n ≤ size) × (before ≡ bytes ++ after)

  -- `recv` gives at most as many bytes as are asked for, the next ones of those that are to come;
  -- one that fails, or has met the end, takes none.
  abbrev pub Delivers : (K → List ℕ) → Type 0
  Delivers pending =
      (size : ℕ) (k : K)
      → let r = kernel k (sys_recv sock size false) in
        Received (progress r.0.rc) size r.0.bytes (pending k) (pending r.1)

  -- What one `send` did to the bytes that the peer gets.
  abbrev pub Accepted : Option ℕ → (bytes before after : List ℕ) → Type 0
  Accepted none bytes before after = after ≡ before
  Accepted (some n) bytes before after = (n ≤ length bytes) × (after ≡ before ++ take n bytes)

  -- `send` takes some bytes from the front of those that it is given.
  abbrev pub Accepts : (K → List ℕ) → Type 0
  Accepts taken =
      (bytes : List ℕ) (k : K)
      → let r = kernel k (sys_send sock bytes) in
        Accepted (progress r.0.rc) bytes (taken k) (taken r.1)

  abbrev Reads : (K → List ℕ) → ℕ → (buffer : List ℕ) → K → Option (Bool × ℕ × List ℕ × K) → Type 0
  Reads pending size buffer k o =
      (b : Bool) × (new : List ℕ) × (k' : K) × ((o
          ≡ some (b, length (buffer ++ new), buffer ++ new, k'))
        × (pending k ≡ new ++ pending k')
        × (length (buffer ++ new) ≤ size)
        × ((b ≡ true) ↔ (length (buffer ++ new) ≡ size)))

  progress_positive : (rc : ℤ) (n : ℕ) → progress rc ≡ some n → 1 ≤ n
  progress_positive (pos zero) n e = absurd (ground (arith, e))
  progress_positive (pos (suc m)) n e = ground (arith, e)
  progress_positive (negsuc m) n e = absurd (ground (arith, e))

  -- The loop has all that it was asked for.
  read-Reads :
      (pending : K → List ℕ) (size : ℕ) (buffer : List ℕ) (k : K)
      → length buffer ≡ size
      → Reads pending size buffer k (some (true, length buffer, buffer, k))
  read-Reads pending size buffer k e =
      let same = append-nil buffer in
      (
        true,
        [],
        k,
        (
          λ i. some (true, length (sym same i), sym same i, k),
          refl,
          omega (arith, ap length same, e),
          (λ h. ap length same ∙ e, λ h. refl),
        ),
      )

  -- The loop ends early.
  unread-Reads :
      (pending : K → List ℕ) (size : ℕ) (buffer : List ℕ) (k k' : K)
      → length buffer < size
      → pending k ≡ pending k'
      → Reads pending size buffer k (some (false, length buffer, buffer, k'))
  unread-Reads pending size buffer k k' short same_pending =
      let same = append-nil buffer in
      (
        false,
        [],
        k',
        (
          λ i. some (false, length (sym same i), sym same i, k'),
          same_pending,
          omega (arith, ap length same, short),
          (λ h. absurd (ground (arith, h)), λ h. absurd (omega (arith, ap length same, short, h))),
        ),
      )

  -- A turn of the loop, and those that follow.
  more-Reads :
      (pending : K → List ℕ) (size : ℕ) (buffer bytes : List ℕ) (k k' : K)
      (o : Option (Bool × ℕ × List ℕ × K))
      → pending k ≡ bytes ++ pending k'
      → Reads pending size (buffer ++ bytes) k' o
      → Reads pending size buffer k o
  more-Reads pending size buffer bytes k k' o came (b, new, k'', (done, rest, small, all)) =
      let same = append_assoc buffer bytes new in
      (
        b,
        bytes ++ new,
        k'',
        (
          done ∙ (λ i. some (b, length (same i), same i, k'')),
          came ∙ ap (λ xs. bytes ++ xs) rest ∙ sym (append_assoc bytes new (pending k'')),
          omega (arith, small, ap length same),
          (λ h. sym (ap length same) ∙ all.0 h, λ h. all.1 (ap length same ∙ h)),
        ),
      )

  read_loop-Reads :
      (pending : K → List ℕ) (fuel size : ℕ) (buffer : List ℕ) (k : K)
      → Delivers pending
      → size < 2 ^ 64
      → length buffer ≤ size
      → size ≤ length buffer + fuel
      → Reads pending size buffer k (read_loop kernel fuel sock size (length buffer) buffer k)
  unfolding read_loop
  read_loop-Reads pending zero size buffer k delivers fits within fuel_ok =
      rw (le→not_ltb (length buffer) size (omega (arith, fuel_ok)))
        (read-Reads pending size buffer k (omega arith))
  read_loop-Reads pending (suc fuel) size buffer k delivers fits within fuel_ok =
      let (a, k') = kernel k (sys_recv sock (size - length buffer) false) in
      elim (Bool-cases (ltb (length buffer) size)) [
        | inr full ↦
            rw full (
              read-Reads pending size buffer k
                (omega (arith, not_ltb→le (length buffer) size full)))
        | inl short ↦ elim (Option-cases (progress a.rc)) [
          | inl stuck ↦
              rw (short, stuck)
                (unread-Reads pending size buffer k k' (ltb→lt (length buffer) size short) (
                  subst (λ o. Received o (size - length buffer) a.bytes (pending k) (pending k'))
                    stuck (delivers (size - length buffer) k)))
          | inr (n, moved) ↦
              let came =
                subst (λ o. Received o (size - length buffer) a.bytes (pending k) (pending k'))
                  moved (delivers (size - length buffer) k) in
              let long = length-append buffer a.bytes in
              let some_came = progress_positive a.rc n moved in
              let under = ltb→lt (length buffer) size short in
              let count : length (buffer ++ a.bytes) ≡ add_size (length buffer) n =
                omega (arith, long, came.0, came.1, under, fits) in
              rw (short, moved)
                (more-Reads pending size buffer a.bytes k k' _ came.2 (
                  subst
                    (λ c.
                      Reads pending size (buffer ++ a.bytes) k'
                        (read_loop kernel fuel sock size c (buffer ++ a.bytes) k'))
                    count
                    (read_loop-Reads pending fuel size (buffer ++ a.bytes) k' delivers fits
                      (omega (arith, long, came.0, came.1, under))
                      (omega (arith, long, came.0, some_came)))))
        ]
      ]

  -- On a stream of bytes, and for a size of 64 bits, `readAll` ends after at most as many calls as
  -- bytes are asked for; it takes the bytes that it puts into the buffer off the front of the
  -- stream, never more than it is asked for, and says true just when it has them all.
  pub read_all-Delivers :
      (pending : K → List ℕ) (size : ℕ) (k : K)
      → Delivers pending
      → size < 2 ^ 64
      → (b : Bool) × (new : List ℕ) × (k' : K) × ((read_all kernel sock size k
            ≡ some (b, length new, new, k'))
          × (pending k ≡ new ++ pending k')
          × (length new ≤ size)
          × ((b ≡ true) ↔ (length new ≡ size)))
  unfolding read_all
  read_all-Delivers pending size k delivers fits =
      read_loop-Reads pending size size [] k delivers fits (omega arith) (omega arith)

  abbrev Writes :
      (K → List ℕ) → (buffer : List ℕ) → (start : List ℕ) → Option (Bool × ℕ × K) → Type 0
  Writes taken buffer start o =
      (b : Bool) × (count : ℕ) × (k' : K) × ((o ≡ some (b, count, k'))
        × (taken k' ≡ start ++ take count buffer)
        × (count ≤ length buffer)
        × ((b ≡ true) ↔ (count ≡ length buffer)))

  write_loop-Writes :
      (taken : K → List ℕ) (fuel : ℕ) (buffer start : List ℕ) (count : ℕ) (k : K)
      → Accepts taken
      → length buffer < 2 ^ 64
      → taken k ≡ start ++ take count buffer
      → count ≤ length buffer
      → length buffer ≤ count + fuel
      → Writes taken buffer start (write_loop kernel fuel sock buffer count k)
  unfolding write_loop
  write_loop-Writes taken zero buffer start count k accepts fits sofar within fuel_ok =
      let all : count ≡ length buffer = omega (arith, within, fuel_ok) in
      rw (le→not_ltb count (length buffer) (omega (arith, fuel_ok)))
        (true, count, k, (refl, sofar, within, (λ h. all, λ h. refl)))
  write_loop-Writes taken (suc fuel) buffer start count k accepts fits sofar within fuel_ok =
      let (a, k') = kernel k (sys_send sock (drop count buffer)) in
      elim (Bool-cases (ltb count (length buffer))) [
        | inr full ↦
            let all : count ≡ length buffer =
              omega (arith, within, not_ltb→le count (length buffer) full) in
            rw full (true, count, k, (refl, sofar, within, (λ h. all, λ h. refl)))
        | inl short ↦ elim (Option-cases (progress a.rc)) [
          | inl stuck ↦
              let kept =
                subst (λ o. Accepted o (drop count buffer) (taken k) (taken k')) stuck
                  (accepts (drop count buffer) k) in
              rw (short, stuck)
                (
                  false,
                  count,
                  k',
                  (
                    refl,
                    kept ∙ sofar,
                    within,
                    (
                      λ h. absurd (ground (arith, h)),
                      λ h. absurd (omega (arith, h, ltb→lt count (length buffer) short)),
                    ),
                  ),
                )
          | inr (n, moved) ↦
              let went =
                subst (λ o. Accepted o (drop count buffer) (taken k) (taken k')) moved
                  (accepts (drop count buffer) k) in
              let some_went = progress_positive a.rc n moved in
              let left = length-drop count buffer in
              let next : count + n ≡ add_size count n = omega (arith, went.0, left, within, fits) in
              rw (short, moved)
                (write_loop-Writes taken fuel buffer start (add_size count n) k' accepts fits
                  (went.1
                    ∙ ap (λ xs. xs ++ take n (drop count buffer)) sofar
                    ∙ append_assoc start (take count buffer) (take n (drop count buffer))
                    ∙ ap (λ xs. start ++ xs) (take-take-drop count n buffer)
                    ∙ ap (λ c. start ++ take c buffer) next)
                  (omega (arith, went.0, left, within, fits))
                  (omega (arith, went.0, left, within, fits, fuel_ok, some_went)))
        ]
      ]

  -- To a peer that takes bytes from the front of those that it is given, `writeAll` of fewer than
  -- 2 ^ 64 bytes ends after at most as many calls as there are bytes; the peer has then taken the
  -- first `count` bytes of the buffer, in order, and the result is true just when those are all.
  write_all-Accepts :
      (taken : K → List ℕ) (buffer : List ℕ) (k : K)
      → Accepts taken
      → length buffer < 2 ^ 64
      → (b : Bool) × (count : ℕ) × (k' : K) × ((write_all kernel sock buffer k
            ≡ some (b, count, k'))
          × (taken k' ≡ taken k ++ take count buffer)
          × (count ≤ length buffer)
          × ((b ≡ true) ↔ (count ≡ length buffer)))
  unfolding write_all
  write_all-Accepts taken buffer k accepts fits =
      write_loop-Writes taken (length buffer) buffer (taken k) 0 k accepts fits
        (sym (append-nil (taken k))) (omega arith) (omega arith)

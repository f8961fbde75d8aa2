-- ===== src/Codec/Bytes/Elements.antt =====
-- Arrays read element by element.
use meeting.Prelude.{
  ℕ, zero, suc, ◌+◌, ◌-◌, ◌≤◌, ◌<◌, ◌≡◌, refl, ap, ◌∙◌, List, [], ◌∷◌, ◌++◌, some, true, length,
  take, drop, get_elem?, length-append, length-take, length-drop, leb, arith,
}
use meeting.Codec.Bytes.{write}

module _ {ℓ} {A : Type ℓ} where
  pub get_elem?-append_left :
      (xs ys : List A) (i : ℕ) → i < length xs → get_elem? (xs ++ ys) i ≡ get_elem? xs i
  get_elem?-append_left [] ys i h = absurd (omega arith)
  get_elem?-append_left (x ∷ xs) ys zero h = refl
  get_elem?-append_left (x ∷ xs) ys (suc i) h = get_elem?-append_left xs ys i (omega arith)

  pub get_elem?-append_right :
      (xs ys : List A) (i : ℕ)
      → length xs ≤ i
      → get_elem? (xs ++ ys) i ≡ get_elem? ys (i - length xs)
  get_elem?-append_right [] ys i h = let e : i - 0 ≡ i = omega arith in rw e
  get_elem?-append_right (x ∷ xs) ys zero h = absurd (omega arith)
  get_elem?-append_right (x ∷ xs) ys (suc i) h =
      let e : suc i - suc (length xs) ≡ i - length xs = omega arith in
      rw e (get_elem?-append_right xs ys i (omega arith))

  pub get_elem?-take :
      (n : ℕ) (xs : List A) (i : ℕ) → i < n → get_elem? (take n xs) i ≡ get_elem? xs i
  get_elem?-take zero xs i h = absurd (omega arith)
  get_elem?-take (suc n) [] i h = refl
  get_elem?-take (suc n) (x ∷ xs) zero h = refl
  get_elem?-take (suc n) (x ∷ xs) (suc i) h = get_elem?-take n xs i (omega arith)

  pub get_elem?-drop :
      (n : ℕ) (xs : List A) (i : ℕ) → get_elem? (drop n xs) i ≡ get_elem? xs (n + i)
  get_elem?-drop zero xs i = let e : 0 + i ≡ i = omega arith in rw e
  get_elem?-drop (suc n) [] i = refl
  get_elem?-drop (suc n) (x ∷ xs) i =
      let e : suc n + i ≡ suc (n + i) = omega arith in rw e (get_elem?-drop n xs i)

  -- Lists of one length that agree at each index are the same.
  pub get_elem?_ext :
      (xs ys : List A)
      → length xs ≡ length ys
      → ((i : ℕ) → i < length xs → get_elem? xs i ≡ get_elem? ys i)
      → xs ≡ ys
  get_elem?_ext [] [] e h = refl
  get_elem?_ext [] (y ∷ ys) e h = absurd (omega arith)
  get_elem?_ext (x ∷ xs) [] e h = absurd (omega arith)
  get_elem?_ext (x ∷ xs) (y ∷ ys) e h =
      let head = h 0 (omega arith) in
      let tail = get_elem?_ext xs ys (omega arith) (λ i p. h (suc i) (omega arith)) in cc

-- What a write in range leaves at each index.
pub overlay : List ℕ → List ℕ → ℕ → List ℕ
overlay target source offset =
    take offset target ++ (source ++ drop (offset + length source) target)

module _ (target source : List ℕ) (offset : ℕ) (fits : offset + length source ≤ length target) where
  pub write-overlay : write target source offset ≡ some (overlay target source offset)
  unfolding write overlay
  write-overlay = let t : leb (offset + length source) (length target) ≡ true = ground arith in rw t

  length-take_offset : length (take offset target) ≡ offset
  length-take_offset = omega (arith, length-take offset target)

  pub length-overlay : length (overlay target source offset) ≡ length target
  unfolding overlay
  length-overlay =
      let rest = drop (offset + length source) target in
      omega (
        arith,
        length-append (take offset target) (source ++ rest),
        length-append source rest,
        length-drop (offset + length source) target,
        length-take_offset,
      )

  pub overlay-inside :
      (i : ℕ)
      → offset ≤ i
      → i < offset + length source
      → get_elem? (overlay target source offset) i ≡ get_elem? source (i - offset)
  unfolding overlay
  overlay-inside i lo hi =
      let front = take offset target in
      let rest = drop (offset + length source) target in
      get_elem?-append_right front (source ++ rest) i (omega (arith, length-take_offset))
      ∙ ap (λ n. get_elem? (source ++ rest) (i - n)) length-take_offset
      ∙ get_elem?-append_left source rest (i - offset) (omega arith)

  pub overlay-before :
      (i : ℕ) → i < offset → get_elem? (overlay target source offset) i ≡ get_elem? target i
  unfolding overlay
  overlay-before i h =
      let front = take offset target in
      let rest = source ++ drop (offset + length source) target in
      get_elem?-append_left front rest i (omega (arith, length-take_offset))
      ∙ get_elem?-take offset target i h

  pub overlay-after :
      (i : ℕ)
      → offset + length source ≤ i
      → get_elem? (overlay target source offset) i ≡ get_elem? target i
  unfolding overlay
  overlay-after i h =
      let front = take offset target in
      let rest = drop (offset + length source) target in
      let e : offset + length source + (i - offset - length source) ≡ i = omega arith in
      get_elem?-append_right front (source ++ rest) i (omega (arith, length-take_offset))
      ∙ ap (λ n. get_elem? (source ++ rest) (i - n)) length-take_offset
      ∙ get_elem?-append_right source rest (i - offset) (omega arith)
      ∙ get_elem?-drop (offset + length source) target (i - offset - length source)
      ∙ ap (get_elem? target) e

-- ===== src/Codec/Decoder/Numbers.antt =====
-- Rows of chunk numbers and their rearrangements.
use mathlib.Core.Logic.{∥∥₁_elim}
use mathlib.Core.List.{Perm, Permᴰ}
use native.Mathlib.Nat.{ℕ_set}
use meeting.Prelude.{
  ℕ, zero, suc, ◌+◌, ◌≤◌, ◌<◌, ◌≡◌, refl, ap, ◌∙◌, sym, List, [], ◌∷◌, Bool, true, length, arith,
}
use meeting.Codec.Worker.Chunks.{up_from}
use meeting.Codec.Decoder.Step.{elem}

-- Two arrangements of the same numbers.
same_length : {xs ys : List ℕ} → Permᴰ xs ys → length xs ≡ length ys
same_length Permᴰ.nil = refl
same_length (Permᴰ.cons e r) = ap suc (same_length r)
same_length (Permᴰ.swap e f) = refl
same_length (Permᴰ.trans q r) = same_length q ∙ same_length r

same_elem : (c : ℕ) {xs ys : List ℕ} → Permᴰ xs ys → elem c xs ≡ elem c ys
same_elem c Permᴰ.nil = refl
same_elem c (Permᴰ.cons {a} {b} {l₁} {l₂} e r) = ground (arith, e, same_elem c r)
same_elem c (Permᴰ.swap {a} {b} {a'} {b'} {l} e f) = ground (arith, e, f)
same_elem c (Permᴰ.trans q r) = same_elem c q ∙ same_elem c r

length-up_from : (c n : ℕ) → length (up_from c n) ≡ n
length-up_from c zero = refl
length-up_from c (suc n) = ap suc (length-up_from (c + 1) n)

elem-up_from : (j c n : ℕ) → c ≤ j → j < c + n → elem j (up_from c n) ≡ true
elem-up_from j c zero lo hi = absurd (omega arith)
elem-up_from j c (suc n) lo hi = ground (arith, elem-up_from j (c + 1) n)

elem_bound : (j c n : ℕ) → elem j (up_from c n) ≡ true → j < c + n
elem_bound j c zero h = cc
elem_bound j c (suc n) h = ground (arith, elem_bound j (c + 1) n)

abbrev pub AllBelow : ℕ → List ℕ → Type 0
AllBelow n [] = Unit
AllBelow n (c ∷ cs) = (c < n) × AllBelow n cs

all_below : (n : ℕ) (xs : List ℕ) → ((j : ℕ) → elem j xs ≡ true → j < n) → AllBelow n xs
all_below n [] h = tt
all_below n (x ∷ xs) h = (h x (ground arith), all_below n xs (λ j m. h j (ground arith)))

Bool-set : IsSet Bool
Bool-set = hlevel

module _ (n : ℕ) (xs : List ℕ) (arranged : Perm xs (up_from 0 n)) where
  pub length_of_perm : length xs ≡ n
  length_of_perm = ∥∥₁_elim arranged (ℕ_set _ _) (λ r. same_length r ∙ length-up_from 0 n)

  same_elem_of_perm : (j : ℕ) → elem j xs ≡ elem j (up_from 0 n)
  same_elem_of_perm j = ∥∥₁_elim arranged (Bool-set _ _) (λ r. same_elem j r)

  pub elem_of_perm : (j : ℕ) → j < n → elem j xs ≡ true
  elem_of_perm j h = same_elem_of_perm j ∙ elem-up_from j 0 n (omega arith) (omega arith)

  pub below_of_perm : AllBelow n xs
  below_of_perm =
      all_below n xs (λ j m. omega (arith, elem_bound j 0 n (sym (same_elem_of_perm j) ∙ m)))

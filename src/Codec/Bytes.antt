-- ===== src/Codec/Bytes.antt =====
-- Byte arrays: `new Uint8Array(n)`, `set` and `slice`.
pub mod Elements
use meeting.Prelude.{
  ℕ, zero, suc, ◌+◌, ◌-◌, ◌≤◌, ◌≡◌, refl, ap, List, [], ◌∷◌, ◌++◌, Option, none, some, true, length,
  take, drop, replicate, length-append, length-replicate, leb, if◌then◌else◌, arith,
}

abbrev pub zeros : ℕ → List ℕ
zeros n = replicate n 0

pub length-zeros : (n : ℕ) → length (zeros n) ≡ n
length-zeros n = length-replicate n 0

-- `target.set(source, offset)`: `none` is the RangeError of a write past the end.
unfoldable pub write : List ℕ → List ℕ → ℕ → Option (List ℕ)
write target source offset =
    let end = offset + length source in
    if leb end (length target)
    then some (take offset target ++ (source ++ drop end target))
    else none

-- `bytes.slice(start, end)`
abbrev pub slice : List ℕ → ℕ → ℕ → List ℕ
slice bytes start end = take (end - start) (drop start bytes)

module _ {ℓ} {A : Type ℓ} where
  pub take-append_length : (xs ys : List A) → take (length xs) (xs ++ ys) ≡ xs
  take-append_length [] ys = refl
  take-append_length (x ∷ xs) ys = ap (λ r. x ∷ r) (take-append_length xs ys)

  pub drop-append_length : (xs ys : List A) → drop (length xs) (xs ++ ys) ≡ ys
  drop-append_length [] ys = refl
  drop-append_length (x ∷ xs) ys = drop-append_length xs ys

  pub drop_all : (n : ℕ) (xs : List A) → length xs ≤ n → drop n xs ≡ []
  drop_all zero [] h = refl
  drop_all zero (x ∷ xs) h = absurd (omega arith)
  drop_all (suc n) [] h = refl
  drop_all (suc n) (x ∷ xs) h = drop_all n xs (omega arith)

  pub drop-drop : (n m : ℕ) (xs : List A) → drop (n + m) xs ≡ drop m (drop n xs)
  drop-drop zero m xs = let e : 0 + m ≡ m = omega arith in ap (λ k. drop k xs) e
  drop-drop (suc n) zero [] = let e : suc n + 0 ≡ suc n = omega arith in rw e
  drop-drop (suc n) (suc m) [] = let e : suc n + suc m ≡ suc (n + suc m) = omega arith in rw e
  drop-drop (suc n) m (x ∷ xs) =
      let e : suc n + m ≡ suc (n + m) = omega arith in rw e (drop-drop n m xs)

pub drop-append_add : (xs ys : List ℕ) (n : ℕ) → drop (length xs + n) (xs ++ ys) ≡ drop n ys
drop-append_add [] ys n = let e : 0 + n ≡ n = omega arith in ap (λ m. drop m ys) e
drop-append_add (x ∷ xs) ys n =
    let e : suc (length xs) + n ≡ suc (length xs + n) = omega arith in
    rw e (drop-append_add xs ys n)

drop-replicate : (n m : ℕ) → drop n (zeros (n + m)) ≡ zeros m
drop-replicate zero m = let e : 0 + m ≡ m = omega arith in ap zeros e
drop-replicate (suc n) m =
    let e : suc n + m ≡ suc (n + m) = omega arith in rw e (drop-replicate n m)

-- Writing just behind what is written, where the rest is still zero.
pub write_behind :
    (before source : List ℕ) (m : ℕ)
    → write (before ++ zeros (length source + m)) source (length before)
      ≡ some (before ++ (source ++ zeros m))
unfolding write
write_behind before source m =
    let fits : leb (length before + length source) (length (before ++ zeros (length source + m)))
        ≡ true =
      ground (
        arith,
        length-append before (zeros (length source + m)),
        length-zeros (length source + m),
      ) in
    rw (fits, take-append_length, drop-append_add, drop-replicate) refl

-- ===== src/Prelude/Decimal.antt =====
-- A number in a text: `'' + n` for a number that is a natural number.
use Prim.Native.Nat.{ℕ, zero, suc, ◌+◌, ◌-◌, ◌*◌, ◌/◌, ◌%◌, ◌≤◌, ◌<◌}
use Prim.Native.Char.{Char, code}
use Prim.Native.String
use Prim.Native.String.{String}
use mathlib.Core.Path.{◌≡◌, refl, ap, ap₂, ◌∙◌, sym, subst}
use mathlib.Core.Logic.{inl, inr}
use mathlib.Core.List.{List, [], ◌∷◌, ◌++◌}
use native.Mathlib.Omega.{arith}
use text.Mathlib.TextEquality.{Char-path}
use text.Mathlib.TextLemmas.{nil-append, cons-append}
use meeting.Prelude.Tests.{if◌then◌else◌, ltb, Bool-cases}

-- The code points of a text.
abbrev pub codes : String → List ℕ
codes String.[] = []
codes (String.◌∷◌ c s) = code c ∷ codes s

digit : ℕ → Char
digit zero = "0"
digit (suc zero) = "1"
digit (suc (suc zero)) = "2"
digit (suc (suc (suc zero))) = "3"
digit (suc (suc (suc (suc zero)))) = "4"
digit (suc (suc (suc (suc (suc zero))))) = "5"
digit (suc (suc (suc (suc (suc (suc zero)))))) = "6"
digit (suc (suc (suc (suc (suc (suc (suc zero))))))) = "7"
digit (suc (suc (suc (suc (suc (suc (suc (suc zero)))))))) = "8"
digit _ = "9"

code-digit : (d : ℕ) → d < 10 → code (digit d) ≡ 48 + d
unfolding digit
code-digit zero h = refl
code-digit (suc zero) h = refl
code-digit (suc (suc zero)) h = refl
code-digit (suc (suc (suc zero))) h = refl
code-digit (suc (suc (suc (suc zero)))) h = refl
code-digit (suc (suc (suc (suc (suc zero))))) h = refl
code-digit (suc (suc (suc (suc (suc (suc zero)))))) h = refl
code-digit (suc (suc (suc (suc (suc (suc (suc zero))))))) h = refl
code-digit (suc (suc (suc (suc (suc (suc (suc (suc zero)))))))) h = refl
code-digit (suc (suc (suc (suc (suc (suc (suc (suc (suc zero))))))))) h = refl
code-digit (suc (suc (suc (suc (suc (suc (suc (suc (suc (suc d)))))))))) h = absurd (omega arith)

-- Digits from the lowest up, in front of `tail`; the fuel is the number itself.
decimal_upto : ℕ → ℕ → String → String
decimal_upto zero n tail = String.◌∷◌ (digit (n % 10)) tail
decimal_upto (suc f) n tail =
    let longer = decimal_upto f (n / 10) (String.◌∷◌ (digit (n % 10)) tail) in
    if ltb n 10 then String.◌∷◌ (digit (n % 10)) tail else longer

unfoldable pub decimal : ℕ → String
unfolding decimal_upto digit
decimal n = decimal_upto n n ""

-- The number that a row of digits stands for, behind those already read.
abbrev value_from : ℕ → List ℕ → ℕ
value_from acc [] = acc
value_from acc (c ∷ cs) = value_from (acc * 10 + (c - 48)) cs

value-decimal_upto :
    (f n : ℕ) (tail : String)
    → n ≤ f
    → value_from 0 (codes (decimal_upto f n tail)) ≡ value_from n (codes tail)
unfolding decimal_upto
value-decimal_upto zero n tail h =
    let e : 0 * 10 + (code (digit (n % 10)) - 48) ≡ n =
      omega (arith, code-digit (n % 10) (omega arith)) in
    ap (λ a. value_from a (codes tail)) e
value-decimal_upto (suc f) n tail h = elim (Bool-cases (ltb n 10)) [
  | inl short ↦
      let e : 0 * 10 + (code (digit (n % 10)) - 48) ≡ n =
        ground (arith, code-digit (n % 10) (omega arith)) in
      rw short (ap (λ a. value_from a (codes tail)) e)
  | inr long ↦
      let e : n / 10 * 10 + (code (digit (n % 10)) - 48) ≡ n =
        omega (arith, code-digit (n % 10) (omega arith)) in
      rw long (
        value-decimal_upto f (n / 10) (String.◌∷◌ (digit (n % 10)) tail) (ground arith)
        ∙ ap (λ a. value_from a (codes tail)) e)
]

-- Two numbers that are written alike are the same.
pub decimal-injective : (m n : ℕ) → decimal m ≡ decimal n → m ≡ n
unfolding decimal
decimal-injective m n e =
    sym (value-decimal_upto m m "" (omega arith))
    ∙ ap (λ s. value_from 0 (codes s)) e
    ∙ value-decimal_upto n n "" (omega arith)

abbrev AreDigits : List ℕ → Type 0
AreDigits [] = Unit
AreDigits (c ∷ cs) = (48 ≤ c) × (c ≤ 57) × AreDigits cs

digits-decimal_upto :
    (f n : ℕ) (tail : String) → AreDigits (codes tail) → AreDigits (codes (decimal_upto f n tail))
unfolding decimal_upto
digits-decimal_upto zero n tail h =
    let e = code-digit (n % 10) (omega arith) in (omega arith, omega arith, h)
digits-decimal_upto (suc f) n tail h =
    let e = code-digit (n % 10) (omega arith) in
    let here : AreDigits (codes (String.◌∷◌ (digit (n % 10)) tail)) =
      (omega arith, omega arith, h) in
    elim (Bool-cases (ltb n 10)) [
      | inl short ↦ rw short here
      | inr long ↦ rw long (digits-decimal_upto f (n / 10) (String.◌∷◌ (digit (n % 10)) tail) here)
    ]

digits-decimal : (n : ℕ) → AreDigits (codes (decimal n))
unfolding decimal
digits-decimal n = digits-decimal_upto n n "" tt

no_separator : (xs ys : List ℕ) → ¬ AreDigits (xs ++ 95 ∷ ys)
no_separator [] ys h = omega arith
no_separator (x ∷ xs) ys h = no_separator xs ys h.2

-- What stands behind the last separator is determined, where that is no digit.
split_at_separator :
    (xs ys xs' ys' : List ℕ)
    → AreDigits ys
    → AreDigits ys'
    → xs ++ 95 ∷ ys ≡ xs' ++ 95 ∷ ys'
    → (xs ≡ xs') × (ys ≡ ys')
split_at_separator [] ys [] ys' d d' e = (refl, cc)
split_at_separator [] ys (x ∷ xs') ys' d d' e =
    let e' : ys ≡ xs' ++ 95 ∷ ys' = cc in absurd (no_separator xs' ys' (subst AreDigits e' d))
split_at_separator (x ∷ xs) ys [] ys' d d' e =
    let e' : ys' ≡ xs ++ 95 ∷ ys = cc in absurd (no_separator xs ys (subst AreDigits e' d'))
split_at_separator (x ∷ xs) ys (x' ∷ xs') ys' d d' e =
    let ih = split_at_separator xs ys xs' ys' d d' (cc) in let h : x ≡ x' = cc in (cc (ih.0), ih.1)

pub codes-injective : (s t : String) → codes s ≡ codes t → s ≡ t
codes-injective String.[] String.[] e = refl
codes-injective String.[] (String.◌∷◌ d t) e = cc
codes-injective (String.◌∷◌ c s) String.[] e = cc
codes-injective (String.◌∷◌ c s) (String.◌∷◌ d t) e =
    ap₂ String.◌∷◌ (Char-path c d (cc)) (codes-injective s t (cc))

pub codes-append : (s t : String) → codes (String.◌++◌ s t) ≡ codes s ++ codes t
codes-append String.[] t = ap codes (nil-append t)
codes-append (String.◌∷◌ c s) t =
    ap codes (cons-append c s t) ∙ ap (λ r. code c ∷ r) (codes-append s t)

-- A name and a number, joined by an underscore: `name + '_' + n`.
unfoldable pub numbered : String → ℕ → String
unfolding decimal
numbered name n = String.◌++◌ name (String.◌++◌ "_" (decimal n))

codes-numbered :
    (name : String) (n : ℕ) → codes (numbered name n) ≡ codes name ++ 95 ∷ codes (decimal n)
unfolding numbered
codes-numbered name n =
    codes-append name (String.◌++◌ "_" (decimal n))
    ∙ ap (λ r. codes name ++ r) (codes-append "_" (decimal n))

-- The name and the number can be read back: no two pairs are joined to the same text.
pub numbered-injective : (s t : String) (m n : ℕ) → numbered s m ≡ numbered t n → (s ≡ t) × (m ≡ n)
numbered-injective s t m n e =
    let h =
      split_at_separator (codes s) (codes (decimal m)) (codes t) (codes (decimal n))
        (digits-decimal m) (digits-decimal n)
        (sym (codes-numbered s m) ∙ ap codes e ∙ codes-numbered t n) in
    (codes-injective s t h.0, decimal-injective m n (codes-injective (decimal m) (decimal n) h.1))

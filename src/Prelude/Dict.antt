-- ===== src/Prelude/Dict.antt =====
-- An object used as a map from strings, `Record<string, V>`: its own entries, in the order in which
-- they were added. A write to a key that is there keeps its place. (JavaScript lists keys that are
-- integers first; nothing modelled here depends on the order.)
use Prim.Native.String.{String}
use mathlib.Core.Path.{◌≡◌, refl}
use mathlib.Core.Option.{Option, none, some}
use mathlib.Core.List.{List, [], ◌∷◌, map}
use native.Mathlib.Omega.{arith}
use text.Mathlib.Text.{◌==◌}
use text.Mathlib.TextEquality.{eq_iff}
use meeting.Prelude.Tests.{if◌then◌else◌, Bool-cases}
use mathlib.Core.Logic.{◌⊎◌, inl, inr}
use mathlib.Core.Bool.{Bool, true, false, ◌||◌}

pub record Dict {ℓ} (V : Type ℓ) : Type ℓ where
  pub entries : List (String × V)

module _ {ℓ} {V : Type ℓ} where
  unfoldable pub find : String → List (String × V) → Option V
  find k [] = none
  find k ((j, v) ∷ rest) = if j == k then some v else find k rest

  unfoldable pub assign : String → V → List (String × V) → List (String × V)
  assign k v [] = (k, v) ∷ []
  assign k v ((j, w) ∷ rest) = if j == k then (j, v) ∷ rest else (j, w) ∷ assign k v rest

  unfoldable pub without : String → List (String × V) → List (String × V)
  without k [] = []
  without k ((j, w) ∷ rest) =
      let others = without k rest in if j == k then others else (j, w) ∷ others

  find-assign :
      (k j : String) (v : V) (l : List (String × V))
      → find j (assign k v l) ≡ (if k == j then some v else find j l)
  unfolding find assign
  find-assign k j v [] = refl
  find-assign k j v ((i, w) ∷ rest) =
      ground (arith, eq_iff k j, eq_iff i k, eq_iff i j, find-assign k j v rest)

  find-without :
      (k j : String) (l : List (String × V))
      → find j (without k l) ≡ (if k == j then none else find j l)
  unfolding find without
  find-without k j [] = ground arith
  find-without k j ((i, w) ∷ rest) =
      ground (arith, eq_iff k j, eq_iff i k, eq_iff i j, find-without k j rest)

  abbrev pub empty : Dict V
  empty = record { entries = [] }

  -- d[k]
  unfoldable pub get : String → Dict V → Option V
  unfolding find
  get k d = find k d.entries

  -- d[k] = v, and { ...d, [k]: v }
  unfoldable pub put : String → V → Dict V → Dict V
  unfolding assign
  put k v d = record { entries = assign k v d.entries }

  -- delete d[k], and omit(d, [k])
  unfoldable pub remove : String → Dict V → Dict V
  unfolding without
  remove k d = record { entries = without k d.entries }

  -- Object.keys(d)
  unfoldable pub keys : Dict V → List String
  keys d = map (λ e. e.0) d.entries

  pub get-put :
      (k j : String) (v : V) (d : Dict V) → get j (put k v d) ≡ (if k == j then some v else get j d)
  unfolding get put
  get-put k j v d = find-assign k j v d.entries

  pub get-remove :
      (k j : String) (d : Dict V) → get j (remove k d) ≡ (if k == j then none else get j d)
  unfolding get remove
  get-remove k j d = find-without k j d.entries

unfoldable pub has_key : String → List String → Bool
has_key k [] = false
has_key k (j ∷ js) = (j == k) || has_key k js

find-keys {ℓ} :
    {V : Type ℓ} (k : String) (l : List (String × V))
    → (find k l ≡ none) ⊎ (has_key k (map (λ e. e.0) l) ≡ true)
unfolding find has_key
find-keys k [] = inl refl
find-keys k ((j, v) ∷ rest) = elim (Bool-cases (j == k)) [
  | inl e ↦ inr (rw e refl)
  | inr e ↦ rw e (find-keys k rest)
]

-- A key that is not listed has no value.
pub get-keys {ℓ} :
    {V : Type ℓ} (k : String) (d : Dict V) → (get k d ≡ none) ⊎ (has_key k (keys d) ≡ true)
unfolding get keys
get-keys k d = find-keys k d.entries

pub get-empty {ℓ} : {V : Type ℓ} (k : String) → get k (empty {V = V}) ≡ none
unfolding get
get-empty k = refl

pub ruleset dict_laws = (get-put, get-remove)

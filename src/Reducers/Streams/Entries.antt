-- ===== src/Reducers/Streams/Entries.antt =====
-- The entries of the users: which streams they hold, and that each stream has an object of its own.
use text.Mathlib.Text.{◌==◌}
use text.Mathlib.TextEquality.{eq_iff}
use mathlib.Core.Option.{some-injective}
use meeting.Prelude.{
  ℕ, ◌+◌, ◌≤◌, ◌<◌, ◌≡◌, ◌≢◌, ◌⊎◌, refl, sym, ap, subst, ◌∙◌, String, List, [], ◌∷◌, ◌++◌, Option,
  none, some, Bool, true, false, if◌then◌else◌, Bool-cases, Option-cases, inl, inr, arith, ◌>>=◌,
  ==_iff,
}
use meeting.Prelude.Dict.{Dict, get, put, get-put, get-remove}
use meeting.Reducers.Streams.{
  StreamWithUrl, UserStreams, find_stream, without_stream, is_empty, put_streams,
}

abbrev pub InStreams : StreamWithUrl → List StreamWithUrl → Type 0
InStreams x [] = ⊥
InStreams x (y ∷ ys) = (y ≡ x) ⊎ InStreams x ys

pub find_stream-In :
    (i : String) (x : StreamWithUrl) (xs : List StreamWithUrl)
    → find_stream i xs ≡ some x
    → InStreams x xs × (x.stream_id ≡ i)
unfolding find_stream
find_stream-In i x [] e = cc
find_stream-In i x (y ∷ ys) e = elim (Bool-cases (y.stream_id == i)) [
  | inl h ↦
      let same : y ≡ x = some-injective y x (rw h at e) in
      (inl same, ap (λ s. s.stream_id) (sym same) ∙ (eq_iff y.stream_id i).0 h)
  | inr h ↦ let rest = find_stream-In i x ys (rw h at e) in (inr rest.0, rest.1)
]

pub without_stream-In :
    (r : ℕ) (x : StreamWithUrl) (xs : List StreamWithUrl)
    → InStreams x (without_stream r xs)
    → InStreams x xs
unfolding without_stream
without_stream-In r x [] h = h
without_stream-In r x (y ∷ ys) h = elim (Bool-cases (meeting.Prelude.◌==◌ y.stream r)) [
  | inl e ↦ inr (without_stream-In r x ys (rw e at h))
  | inr e ↦ elim (rw e at h) [ inl p ↦ inl p | inr p ↦ inr (without_stream-In r x ys p) ]
]

pub find_stream-without_stream :
    (i : String) (r : ℕ) (x : StreamWithUrl) (xs : List StreamWithUrl)
    → find_stream i xs ≡ some x
    → x.stream ≢ r
    → find_stream i (without_stream r xs) ≡ some x
unfolding find_stream without_stream
find_stream-without_stream i r x [] e n = cc
find_stream-without_stream i r x (y ∷ ys) e n = elim (Bool-cases (y.stream_id == i)) [
  | inl h ↦
      let same : y ≡ x = some-injective y x (rw h at e) in
      elim (Bool-cases (meeting.Prelude.◌==◌ y.stream r)) [
        | inl k ↦ absurd (n (ap (λ s. s.stream) (sym same) ∙ (==_iff y.stream r).0 k))
        | inr k ↦ rw (k, h) (ap some same)
      ]
  | inr h ↦
      let rest = find_stream-without_stream i r x ys (rw h at e) n in
      elim (Bool-cases (meeting.Prelude.◌==◌ y.stream r)) [
        | inl k ↦ rw k rest
        | inr k ↦ rw (k, h) rest
      ]
]

-- A stream of a user.
abbrev pub Entry : Dict UserStreams → String → StreamWithUrl → Type 0
Entry d u x = (us : UserStreams) × (get u d ≡ some us) × InStreams x us.streams

-- The stream of a user with an id.
abbrev pub locate : Dict UserStreams → String → String → Option StreamWithUrl
locate d u i = get u d >>= λ us. find_stream i us.streams

pub locate-Entry :
    (d : Dict UserStreams) (u i : String) (x : StreamWithUrl)
    → locate d u i ≡ some x
    → Entry d u x × (x.stream_id ≡ i)
locate-Entry d u i x e = elim (Option-cases (get u d)) [
  | inl h ↦ absurd (cc (rw h at e))
  | inr (us, h) ↦ let p = find_stream-In i x us.streams (rw h at e) in ((us, h, p.0), p.1)
]

-- Numbers of objects are below a bound, and two streams with one object are of one user with one id.
pub record Shape (d : Dict UserStreams) (n : ℕ) : Type 0 where
  pub bounded : (u : String) (x : StreamWithUrl) → Entry d u x → x.stream < n
  pub own :
      (u v : String) (x y : StreamWithUrl)
      → Entry d u x
      → Entry d v y
      → x.stream ≡ y.stream
      → (u ≡ v) × (x.stream_id ≡ y.stream_id)

pub Shape-shrinks :
    (d e : Dict UserStreams) (n : ℕ)
    → ((u : String) (x : StreamWithUrl) → Entry e u x → Entry d u x)
    → Shape d n
    → Shape e n
Shape-shrinks d e n f s = record {
  bounded = λ u x h. s.bounded u x (f u x h);
  own = λ u v x y h k p. s.own u v x y (f u x h) (f v y k) p;
}

module _ (u : String) (user : UserStreams) (xs : List StreamWithUrl) (d : Dict UserStreams) where
  pub put-Entry :
      (v : String) (y : StreamWithUrl)
      → Entry (put u (record user { streams = xs }) d) v y
      → ((u ≡ v) × InStreams y xs) ⊎ Entry d v y
  put-Entry v y (us, e, h) = elim (Bool-cases (u == v)) [
    | inl same ↦
        let p =
          some-injective (record user { streams = xs }) us
            (sym (rw same at (get-put u v (record user { streams = xs }) d)) ∙ e) in
        inl ((eq_iff u v).0 same, subst (λ w. InStreams y w.streams) (sym p) h)
    | inr other ↦ inr (us, sym (rw other at (get-put u v (record user { streams = xs }) d)) ∙ e, h)
  ]

  pub put_streams-Entry :
      (v : String) (y : StreamWithUrl)
      → Entry (put_streams u user xs d) v y
      → ((u ≡ v) × InStreams y xs) ⊎ Entry d v y
  unfolding put_streams
  put_streams-Entry v y h = elim (Bool-cases (is_empty xs)) [
    | inl e ↦
        let (us, g, k) = rw e at h in
        elim (Bool-cases (u == v)) [
          | inl same ↦ absurd (cc (sym (rw same at (get-remove u v d)) ∙ g))
          | inr other ↦ inr (us, sym (rw other at (get-remove u v d)) ∙ g, k)
        ]
    | inr e ↦ put-Entry v y (rw e at h)
  ]

  pub locate-put_streams_other :
      (v i : String) → (u == v) ≡ false → locate (put_streams u user xs d) v i ≡ locate d v i
  unfolding put_streams
  locate-put_streams_other v i n = elim (Bool-cases (is_empty xs)) [
    | inl e ↦ rw (e, get-remove u v d, n) refl
    | inr e ↦ rw (e, get-put u v (record user { streams = xs }) d, n) refl
  ]

  find-ne-empty :
      (i : String) (y : StreamWithUrl) (zs : List StreamWithUrl)
      → find_stream i zs ≡ some y
      → is_empty zs ≡ false
  unfolding find_stream is_empty
  find-ne-empty i y [] e = cc
  find-ne-empty i y (z ∷ zs) e = refl

  pub locate-put_streams :
      (i : String) (y : StreamWithUrl)
      → find_stream i xs ≡ some y
      → locate (put_streams u user xs d) u i ≡ some y
  unfolding put_streams
  locate-put_streams i y e =
      rw (find-ne-empty i y xs e, get-put u u (record user { streams = xs }) d, (eq_iff u u).1 refl)
        e

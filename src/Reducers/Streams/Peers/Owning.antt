-- ===== src/Reducers/Streams/Peers/Owning.antt =====
-- The keys of a peer are told from those of another by the separator (src/client/reducers/streams.ts, the filter of
-- `removePeer`).
use Prim.Native.String
use meeting.Prelude.{
  ℕ, ◌≡◌, ◌≢◌, refl, sym, ap, ap₂, subst, ◌∙◌, String, List, [], ◌∷◌, ◌++◌, Option, none, some,
  Bool, true, false, ◌&&◌, if◌then◌else◌, Bool-cases, Option-cases, inl, inr, ==_iff,
}
use meeting.Prelude.Decimal.{codes, codes-append, codes-injective}
use meeting.Reducers.Messages.{starts_with}
use meeting.Reducers.Streams.{get_peer_id_mid}
use meeting.Reducers.Streams.Peers.{is_of_peer}

-- No colon among some characters.
abbrev pub AllPlain : List ℕ → Type 0
AllPlain [] = Unit
AllPlain (c ∷ cs) = (c ≢ 58) × AllPlain cs

starts_with_self : (xs ys : List ℕ) → starts_with xs (xs ++ ys) ≡ true
unfolding starts_with
starts_with_self [] ys = refl
starts_with_self (x ∷ xs) ys = rw ((==_iff x x).1 refl) (starts_with_self xs ys)

head_is : (a b : ℕ) (c : Bool) → (meeting.Prelude.◌==◌ a b && c) ≡ true → (a ≡ b) × (c ≡ true)
head_is a b c h = elim (Bool-cases (meeting.Prelude.◌==◌ a b)) [
  | inl e ↦ ((==_iff a b).0 e, rw e at h)
  | inr e ↦ absurd (cc (rw e at h))
]

-- The separator ends a name without colons.
starts_with-separator :
    (xs ys zs : List ℕ)
    → AllPlain xs
    → AllPlain ys
    → starts_with (xs ++ (58 ∷ 58 ∷ [])) (ys ++ (58 ∷ 58 ∷ zs)) ≡ true
    → xs ≡ ys
unfolding starts_with
starts_with-separator [] [] zs p q h = refl
starts_with-separator [] (y ∷ ys) zs p q h = absurd (q.0 (sym (head_is 58 y _ h).0))
starts_with-separator (x ∷ xs) [] zs p q h = absurd (p.0 (head_is x 58 _ h).0)
starts_with-separator (x ∷ xs) (y ∷ ys) zs p q h =
    let (e, rest) = head_is x y _ h in
    ap₂ (λ a bs. a ∷ bs) e (starts_with-separator xs ys zs p.1 q.1 rest)

codes-key :
    (user_id mid : String)
    → codes (get_peer_id_mid user_id mid) ≡ codes user_id ++ (58 ∷ 58 ∷ codes mid)
unfolding get_peer_id_mid
codes-key user_id mid =
    codes-append user_id (String.◌++◌ "::" mid)
    ∙ ap (λ r. codes user_id ++ r) (codes-append "::" mid)

append_assoc : (xs ys zs : List ℕ) → (xs ++ ys) ++ zs ≡ xs ++ (ys ++ zs)
append_assoc [] ys zs = refl
append_assoc (x ∷ xs) ys zs = ap (λ r. x ∷ r) (append_assoc xs ys zs)

pub is_of_peer-own :
    (user_id mid : String) → is_of_peer user_id (get_peer_id_mid user_id mid) ≡ true
unfolding is_of_peer
is_of_peer-own user_id mid =
    rw (codes-append user_id "::", codes-key user_id mid)
      (ap (starts_with (codes user_id ++ (58 ∷ 58 ∷ [])))
          (sym (append_assoc (codes user_id) (58 ∷ 58 ∷ []) (codes mid)))
        ∙ starts_with_self (codes user_id ++ (58 ∷ 58 ∷ [])) (codes mid))

as_lists :
    (user_id other_id mid : String)
    → is_of_peer user_id (get_peer_id_mid other_id mid) ≡ true
    → starts_with (codes user_id ++ (58 ∷ 58 ∷ [])) (codes other_id ++ (58 ∷ 58 ∷ codes mid)) ≡ true
unfolding is_of_peer
as_lists user_id other_id mid h =
    ap₂ starts_with (sym (codes-append user_id "::")) (sym (codes-key other_id mid)) ∙ h

pub is_of_peer-other :
    (user_id other_id mid : String)
    → AllPlain (codes user_id)
    → AllPlain (codes other_id)
    → user_id ≢ other_id
    → is_of_peer user_id (get_peer_id_mid other_id mid) ≡ false
is_of_peer-other user_id other_id mid p q n =
    elim (Bool-cases (is_of_peer user_id (get_peer_id_mid other_id mid))) [
      | inl h ↦ absurd (
          n (
            codes-injective user_id other_id (
              starts_with-separator (codes user_id) (codes other_id) (codes mid) p q
                (as_lists user_id other_id mid h))))
      | inr h ↦ h
    ]

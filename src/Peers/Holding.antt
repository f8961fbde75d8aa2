-- ===== src/Peers/Holding.antt =====
-- The peers of the store are alive or about to leave it: what the handlers of src/client/actions/PeerActions.ts call
-- keeps this.
use text.Mathlib.Text.{◌==◌}
use text.Mathlib.TextEquality.{eq_iff}
use mathlib.Core.Option.{some-injective}
use meeting.Prelude.{
  ℕ, zero, suc, ◌<◌, ◌≡◌, ◌≢◌, ◌⊎◌, refl, sym, ap, ◌∙◌, String, List, [], ◌∷◌, Option, none, some,
  Bool, false, length, get_elem?, get_elem?-set_self, set, ◌++◌, subst, true, if◌then◌else◌,
  Bool-cases, inl, inr, arith,
}
use meeting.Prelude.Dict.{Dict, get, get-put, get-remove}
use meeting.Peers.{
  info, warning, notify, Action, as_destroyed, closing_after, new_peer, clean_up, peer_add,
  peer_remove, PeerObject, Call, act, peers_after, dispatch, destroy, destroy_found, create_peer,
  handle_close,
}
use meeting.Codec.Bytes.Elements.{get_elem?-append_left}
use meeting.Peers.Creating.{fresh, get_elem?-last, get_elem?-as_destroyed}
use meeting.Peers.Socket.{create_peers}

-- The event of a peer is to come.
abbrev pub IsClosing : ℕ → List ℕ → Type 0
IsClosing n [] = ⊥
IsClosing n (m ∷ ms) = (m ≡ n) ⊎ IsClosing n ms

in_bounds :
    (xs : List PeerObject) (n : ℕ) (o : PeerObject) → get_elem? xs n ≡ some o → n < length xs
in_bounds [] n o e = absurd (cc e)
in_bounds (x ∷ xs) zero o e = omega arith
in_bounds (x ∷ xs) (suc n) o e = let l = in_bounds xs n o e in omega arith

closing_after-keeps :
    (o : Option PeerObject) (p n : ℕ) (xs : List ℕ)
    → IsClosing n xs
    → IsClosing n (closing_after o p xs)
unfolding closing_after
closing_after-keeps none p n xs h = h
closing_after-keeps (some o) p n xs h = elim (Bool-cases o.destroyed) [
  | inl e ↦ rw e h
  | inr e ↦ rw e (inr h)
]

closing_after_self :
    (o : PeerObject) (p : ℕ) (xs : List ℕ)
    → (o.destroyed ≡ false) ⊎ IsClosing p xs
    → IsClosing p (closing_after (some o) p xs)
unfolding closing_after
closing_after_self o p xs (inl e) = rw e (inl refl)
closing_after_self o p xs (inr h) = elim (Bool-cases o.destroyed) [
  | inl e ↦ rw e h
  | inr e ↦ rw e (inl refl)
]

IsClosing-others :
    (p n : ℕ) (xs ys : List ℕ) → p ≢ n → IsClosing n (xs ++ (p ∷ ys)) → IsClosing n (xs ++ ys)
IsClosing-others p n [] ys h (inl e) = absurd (h e)
IsClosing-others p n [] ys h (inr k) = k
IsClosing-others p n (x ∷ xs) ys h (inl e) = inl e
IsClosing-others p n (x ∷ xs) ys h (inr k) = inr (IsClosing-others p n xs ys h k)

module _ {Message : Type 0} where
  -- A peer of that user, that is not destroyed or whose `close` event is to come.
  abbrev pub Held : Call Message → String → ℕ → Type 0
  Held c id n =
      (o : PeerObject) × (get_elem? c.objects n ≡ some o)
      × (o.user_id ≡ id)
      × ((o.destroyed ≡ false) ⊎ IsClosing n c.closing)

  abbrev pub Alive : Call Message → Type 0
  Alive c = (id : String) (n : ℕ) → get id c.peers ≡ some n → Held c id n

  -- An action that is only told leaves the store as it is.
  pub told_lem :
      (a : Action Message) (c : Call Message)
      → ((p : Dict ℕ) → peers_after a p ≡ p)
      → Alive c
      → Alive (dispatch a c)
  unfolding dispatch act
  told_lem a c k h id n e = h id n (ap (get id) (sym (k c.peers)) ∙ e)

  Held-next :
      (c d : Call Message) (id : String) (n : ℕ)
      → get_elem? d.objects n ≡ get_elem? c.objects n
      → (IsClosing n c.closing → IsClosing n d.closing)
      → Held c id n
      → Held d id n
  Held-next c d id n e f (o, at, u, inl a) = (o, e ∙ at, u, inl a)
  Held-next c d id n e f (o, at, u, inr a) = (o, e ∙ at, u, inr (f a))

  pub same-Alive :
      (c d : Call Message)
      → d.peers ≡ c.peers
      → d.objects ≡ c.objects
      → d.closing ≡ c.closing
      → Alive c
      → Alive d
  same-Alive c d e f g h id n k =
      Held-next c d id n (ap (λ xs. get_elem? xs n) f) (subst (IsClosing n) (sym g))
        (h id n (ap (get id) (sym e) ∙ k))

  -- The one entry that may be of the destroyed peer has its event to come.
  pub destroy-Alive : (peer : ℕ) (c : Call Message) → Alive c → Alive (destroy peer c)
  unfolding destroy as_destroyed
  destroy-Alive peer c h id n e =
      let (o, at, u, a) = h id n e in
      let keeps = closing_after-keeps (get_elem? c.objects peer) peer n c.closing in
      elim (Bool-cases (meeting.Prelude.◌==◌ peer n)) [
        | inl same ↦
            let p = (meeting.Prelude.==_iff peer n).0 same in
            let here : get_elem? c.objects peer ≡ some o =
              subst (λ m. get_elem? c.objects m ≡ some o) (sym p) at in
            subst (λ m. Held (destroy peer c) id m) p
              (
                record o { destroyed = true },
                ap (λ x. get_elem? (as_destroyed x peer c.objects) peer) here
                    ∙ get_elem?-set_self c.objects peer (record o { destroyed = true })
                        (in_bounds c.objects peer o here),
                u,
                inr (
                    subst (λ x. IsClosing peer (closing_after x peer c.closing)) (sym here)
                      (closing_after_self o peer c.closing (elim a [
                        | inl l ↦ inl l
                        | inr g ↦ inr (subst (λ m. IsClosing m c.closing) (sym p) g)
                      ]))),
              )
        | inr differ ↦
            Held-next c (destroy peer c) id n
              (get_elem?-as_destroyed (get_elem? c.objects peer) peer n c.objects
                (λ q. absurd (cc ((meeting.Prelude.==_iff peer n).1 q, differ))))
              keeps (o, at, u, a)
      ]

  pub destroy_found-Alive : (o : Option ℕ) (c : Call Message) → Alive c → Alive (destroy_found o c)
  unfolding destroy_found
  destroy_found-Alive none c h = h
  destroy_found-Alive (some peer) c h = destroy-Alive peer c h

  pub removed-Alive :
      (id : String) (c : Call Message) → Alive c → Alive (dispatch (peer_remove id) c)
  unfolding dispatch act peers_after
  removed-Alive id c h j n e = elim (Bool-cases (id == j)) [
    | inl same ↦ absurd (cc (sym (rw same at (get-remove id j c.peers)) ∙ e))
    | inr differ ↦ h j n (sym (rw differ at (get-remove id j c.peers)) ∙ e)
  ]

  clean_up-Alive :
      (o : Option ℕ) (id : String) (c : Call Message) → Alive c → Alive (clean_up o id c)
  unfolding clean_up peers_after
  clean_up-Alive none id c h = h
  clean_up-Alive (some old) id c h = removed-Alive id _ (
      destroy-Alive old _
        (told_lem (notify info "Cleaning up old connection..." none) c (λ p. refl) h))

  -- A new peer in the store.
  added-Alive :
      (id : String) (b : Bool) (c : Call Message)
      → Alive c
      → Alive (dispatch (peer_add id (length c.objects)) (new_peer id b c))
  unfolding new_peer dispatch act peers_after
  added-Alive id b c h j n e = elim (Bool-cases (id == j)) [
    | inl same ↦
        let n_is =
          some-injective (length c.objects) n
            (sym (rw same at (get-put id j (length c.objects) c.peers)) ∙ e) in
        (
          fresh id b,
          ap (get_elem? (c.objects ++ (fresh id b ∷ []))) (sym n_is)
              ∙ get_elem?-last c.objects (fresh id b),
          (eq_iff id j).0 same,
          inl refl,
        )
    | inr differ ↦
        let (o, at, u, a) =
          h j n (sym (rw differ at (get-put id j (length c.objects) c.peers)) ∙ e) in
        (
          o,
          get_elem?-append_left c.objects (fresh id b ∷ []) n (in_bounds c.objects n o at) ∙ at,
          u,
          a,
        )
  ]

  pub create_peer-Alive :
      (id : String) (b : Bool) (c : Call Message) → Alive c → Alive (create_peer id b c)
  unfolding create_peer peers_after
  create_peer-Alive id b c h =
      let begun = dispatch (notify warning "Connecting to peer..." none) c in
      let cleaned = clean_up (get id begun.peers) id begun in
      added-Alive id b cleaned (
        clean_up-Alive (get id begun.peers) id begun
          (told_lem (notify warning "Connecting to peer..." none) c (λ p. refl) h))

  pub create_peers-Alive :
      (ids : List String) (b : Bool) (c : Call Message) → Alive c → Alive (create_peers b ids c)
  unfolding create_peers
  create_peers-Alive [] b c h = h
  create_peers-Alive (id ∷ ids) b c h =
      create_peers-Alive ids b (create_peer id b c) (create_peer-Alive id b c h)

  -- The event of one peer has come, and the entry of its user is gone.
  pub closes-Alive :
      (c : Call Message) (peer : ℕ) (o : PeerObject) (before after : List ℕ)
      → c.closing ≡ before ++ (peer ∷ after)
      → get_elem? c.objects peer ≡ some o
      → Alive c
      → Alive (handle_close o.user_id (record c { closing = before ++ after }))
  unfolding handle_close dispatch act peers_after
  closes-Alive c peer o before after e at h j n f = elim (Bool-cases (o.user_id == j)) [
    | inl same ↦ absurd (cc (sym (rw same at (get-remove o.user_id j c.peers)) ∙ f))
    | inr differ ↦
        let (x, here, u, a) = h j n (sym (rw differ at (get-remove o.user_id j c.peers)) ∙ f) in
        let apart : peer ≢ n = λ p.
          let same = some-injective o x (sym at ∙ ap (get_elem? c.objects) p ∙ here) in
          cc (differ, (eq_iff o.user_id j).1 (ap (λ y. y.user_id) same ∙ u)) in
        (
          x,
          here,
          u,
          elim a [
            | inl l ↦ inl l
            | inr g ↦ inr (IsClosing-others peer n before after apart (subst (IsClosing n) e g))
          ],
        )
  ]

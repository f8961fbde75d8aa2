-- ===== src/Peers/Users.antt =====
-- After the list of users each of them has a peer.
use text.Mathlib.Text.{◌==◌}
use text.Mathlib.TextEquality.{eq_iff}
use mathlib.Core.Option.{some-injective}
use meeting.Prelude.{
  ℕ, ◌≤◌, ◌<◌, ◌≡◌, ◌≢◌, refl, sym, ap, subst, ◌∙◌, String, List, [], ◌∷◌, none, some, Bool, true,
  false, ◌&&◌, length, get_elem?, Bool-cases, Option-cases, inl, inr, arith,
}
use meeting.Prelude.Dict.{get, keys, has_key}
use meeting.Prelude.Decimal.{decimal}
use meeting.Peers.{info, notify, nicknames_set, Call, act, peers_after, dispatch, create_peer}
use meeting.Peers.Socket.{
  SocketHandler, Users, RecordCallback, handle_record_callback, is_missing, is_new, new_ids,
  create_peers, handle_users,
}
use meeting.Peers.Creating.{fresh, create_peer-Created, has_key-new_ids}

and_left : (a b : Bool) → (a && b) ≡ true → a ≡ true
and_left true b h = refl
and_left false b h = h

module _ {Message : Type 0} where
  -- While peers are made for new users: the others' peers and objects stay, and a new user has no peer yet or a
  -- fresh one.
  record Calling (c d : Call Message) (b : Bool) (new : String → Bool) : Type 0 where
    size : length c.objects ≤ length d.objects
    objects : (m : ℕ) → m < length c.objects → get_elem? d.objects m ≡ get_elem? c.objects m
    peers : (id : String) → new id ≡ false → get id d.peers ≡ get id c.peers
    live :
        (id : String) (n : ℕ)
        → new id ≡ true
        → get id d.peers ≡ some n
        → (length c.objects ≤ n)
          × (n < length d.objects)
          × (get_elem? d.objects n ≡ some (fresh id b))

  create_peer-Calling :
      (c d : Call Message) (b : Bool) (new : String → Bool) (id : String)
      → new id ≡ true
      → Calling c d b new
      → Calling c (create_peer id b d) b new
  create_peer-Calling c d b new id e h =
      let k = create_peer-Created id b d in
      record {
        size = (let s = k.size in let l = h.size in omega arith);
        objects = λ m l.
            k.kept m (let s = h.size in omega arith)
              (λ old f same. let lo = (h.live id old e f).0 in absurd (omega arith))
            ∙ h.objects m l;
        peers = λ j f. elim (Bool-cases (id == j)) [
          | inl same ↦ absurd (cc (e, f, (eq_iff id j).0 same))
          | inr differ ↦ k.others j differ ∙ h.peers j f
        ];
        live = λ j n f g. elim (Bool-cases (id == j)) [
          | inl same ↦
              let j_is = (eq_iff id j).0 same in
              let n_is : length d.objects ≡ n =
                some-injective (length d.objects) n
                  (sym k.own ∙ ap (λ i. get i (create_peer id b d).peers) j_is ∙ g) in
              let s = k.size in
              let l = h.size in
              (
                omega arith,
                omega arith,
                subst (λ m. get_elem? (create_peer id b d).objects m ≡ some (fresh j b)) n_is
                    (k.new ∙ ap (λ i. some (fresh i b)) j_is),
              )
          | inr differ ↦
              let (lo, hi, at) = h.live j n f (sym (k.others j differ) ∙ g) in
              let s = k.size in
              (
                lo,
                omega arith,
                k.kept n hi (λ old i same.
                      let mine = (h.live id old e i).2 in
                      let both =
                        some-injective (fresh id b) (fresh j b)
                          (sym mine ∙ ap (get_elem? d.objects) same ∙ at) in
                      absurd (cc (differ, (eq_iff id j).1 (ap (λ o. o.user_id) both))))
                    ∙ at,
              )
        ];
      }

  create_peers-Calling :
      (c d : Call Message) (b : Bool) (new : String → Bool) (ids : List String)
      → ((id : String) → has_key id ids ≡ true → new id ≡ true)
      → Calling c d b new
      → let last = create_peers b ids d in
        Calling c last b new
        × ((id : String) → get id d.peers ≢ none → get id last.peers ≢ none)
        × ((id : String) → has_key id ids ≡ true → get id last.peers ≢ none)
  unfolding create_peers has_key
  create_peers-Calling c d b new [] all h = (h, λ id n. n, λ id k. absurd (cc k))
  create_peers-Calling c d b new (id ∷ ids) all h =
      let k = create_peer-Created id b d in
      let next = create_peer-Calling c d b new id (all id (rw ((eq_iff id id).1 refl) refl)) h in
      let (last, stay, made) =
        create_peers-Calling c (create_peer id b d) b new ids (λ j l. all j (rw l (ground arith)))
          next in
      let there : (j : String)
          → get j d.peers ≢ none
          → get j (create_peer id b d).peers ≡ none
          → ⊥ =
        λ j n f. elim (Bool-cases (id == j)) [
          | inl same ↦ absurd (
              cc
                (sym k.own ∙ ap (λ i. get i (create_peer id b d).peers) ((eq_iff id j).0 same) ∙ f))
          | inr differ ↦ n (sym (k.others j differ) ∙ f)
        ] in
      (
        last,
        λ j n. stay j (there j n),
        λ j l. elim (Bool-cases (id == j)) [
          | inl same ↦ stay j (λ f.
              cc
                (sym k.own ∙ ap (λ i. get i (create_peer id b d).peers) ((eq_iff id j).0 same) ∙ f))
          | inr differ ↦ made j (rw differ at l)
        ],
      )

  create_peers-others :
      (id : String) (b : Bool) (ids : List String) (d : Call Message)
      → has_key id ids ≡ false
      → get id (create_peers b ids d).peers ≡ get id d.peers
  unfolding create_peers has_key
  create_peers-others id b [] d n = refl
  create_peers-others id b (j ∷ js) d n = elim (Bool-cases (j == id)) [
    | inl same ↦ absurd (cc (rw same at n))
    | inr differ ↦
        create_peers-others id b js (create_peer j b d) (rw differ at n)
        ∙ (create_peer-Created j b d).others id differ
  ]

  pub record_callback-same :
      (h : SocketHandler) (p : RecordCallback) (c : Call Message)
      → ((handle_record_callback h p c).peers ≡ c.peers)
        × ((handle_record_callback h p c).objects ≡ c.objects)
        × ((handle_record_callback h p c).closing ≡ c.closing)
  unfolding handle_record_callback dispatch act peers_after
  record_callback-same h p c = elim (Bool-cases p.successful) [
    | inl s ↦ elim (Bool-cases p.record_status) [
      | inl t ↦ rw (s, t) (refl, refl, refl)
      | inr t ↦ rw (s, t) (refl, refl, refl)
    ]
    | inr f ↦ rw f (refl, refl, refl)
  ]

  same-Calling :
      (c d : Call Message) (b : Bool) (ids : List String) (h : SocketHandler)
      → d.peers ≡ c.peers
      → d.objects ≡ c.objects
      → Calling c d b (is_new h c.peers)
  unfolding is_new is_missing
  same-Calling c d b ids h e f = record {
    size = rw f (omega arith);
    objects = λ m l. ap (λ xs. get_elem? xs m) f;
    peers = λ id n. ap (get id) e;
    live = λ id n new g. absurd (cc (rw (ap (get id) (sym e) ∙ g) at new));
  }

  -- Whatever the state, after the list of users each of them without a peer, this user aside, has a new one that is
  -- not destroyed and initiates if the server says so; everyone else's entry is as it was, and no peer that was
  -- there before is changed.
  pub handle_users_lem :
      (h : SocketHandler) (u : Users) (c : Call Message)
      → let d = handle_users h u c in
        ((id : String)
          → has_key id u.peer_ids ≡ true
          → is_new h c.peers id ≡ true
          → (n : ℕ) × (get id d.peers ≡ some n)
            × (length c.objects ≤ n)
            × (get_elem? d.objects n ≡ some (fresh id (u.initiator == h.user_id))))
        × ((id : String)
            → (is_new h c.peers id && has_key id u.peer_ids) ≡ false
            → get id d.peers ≡ get id c.peers)
        × ((m : ℕ) → m < length c.objects → get_elem? d.objects m ≡ get_elem? c.objects m)
  unfolding handle_users dispatch act peers_after
  handle_users_lem h u c =
      let told =
        dispatch (notify info "Connected users: {0}" (some (decimal (length (keys u.nicknames)))))
          c in
      let answer : RecordCallback = record {
        successful = u.record_status;
        record_status = u.record_status;
        url = u.record_url;
      } in
      let (peers, objects, _) = record_callback-same h answer told in
      let begun = dispatch (nicknames_set u.nicknames) (handle_record_callback h answer told) in
      let b = u.initiator == h.user_id in
      let ids = new_ids h c.peers u.peer_ids in
      let key = λ (id : String). has_key-new_ids h c.peers id u.peer_ids in
      let first = same-Calling c begun b ids h peers objects in
      let (last, _, made) =
        create_peers-Calling c begun b (is_new h c.peers) ids
          (λ id k. and_left (is_new h c.peers id) (has_key id u.peer_ids) (sym (key id) ∙ k))
          first in
      (
        λ id k n. elim (Option-cases (get id (create_peers b ids begun).peers)) [
          | inl gone ↦ absurd (made id (key id ∙ rw (n, k) refl) gone)
          | inr (i, e) ↦ let (lo, _, at) = last.live id i n e in (i, e, lo, at)
        ],
        λ id f. create_peers-others id b ids begun (key id ∙ f) ∙ ap (get id) peers,
        last.objects,
      )

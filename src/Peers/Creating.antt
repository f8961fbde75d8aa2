-- ===== src/Peers/Creating.antt =====
-- What `createPeer` does to the peers and their objects.
use text.Mathlib.Text.{◌==◌}
use text.Mathlib.TextEquality.{eq_iff}
use meeting.Prelude.{
  ℕ, suc, ◌<◌, ◌≡◌, ◌≢◌, refl, sym, ap, subst, ◌∙◌, String, List, [], ◌∷◌, ◌++◌, Option, none, some,
  Bool, true, false, ◌&&◌, length, get_elem?, length-set, length-append, get_elem?-set_ne,
  Bool-cases, inl, inr, arith,
}
use meeting.Prelude.Dict.{Dict, get, has_key, get-put, get-remove}
use meeting.Codec.Bytes.Elements.{get_elem?-append_left}
use meeting.Peers.{
  PeerObject, Call, act, peers_after, dispatch, as_destroyed, destroy, clean_up, new_peer,
  create_peer,
}
use meeting.Peers.Socket.{SocketHandler, is_new, new_ids}

abbrev pub fresh : String → Bool → PeerObject
fresh user_id initiator = record { user_id = user_id; initiator = initiator; destroyed = false }

length-as_destroyed :
    (o : Option PeerObject) (n : ℕ) (xs : List PeerObject)
    → length (as_destroyed o n xs) ≡ length xs
unfolding as_destroyed
length-as_destroyed none n xs = refl
length-as_destroyed (some o) n xs = length-set xs n (record o { destroyed = true })

pub get_elem?-as_destroyed :
    (o : Option PeerObject) (n m : ℕ) (xs : List PeerObject)
    → n ≢ m
    → get_elem? (as_destroyed o n xs) m ≡ get_elem? xs m
unfolding as_destroyed
get_elem?-as_destroyed none n m xs h = refl
get_elem?-as_destroyed (some o) n m xs h = get_elem?-set_ne xs (record o { destroyed = true }) h

pub get_elem?-last {ℓ} :
    {A : Type ℓ} (xs : List A) (x : A) → get_elem? (xs ++ (x ∷ [])) (length xs) ≡ some x
get_elem?-last [] x = refl
get_elem?-last (y ∷ ys) x = get_elem?-last ys x

pub has_key-new_ids :
    (h : SocketHandler) (peers : Dict ℕ) (id : String) (ids : List String)
    → has_key id (new_ids h peers ids) ≡ (is_new h peers id && has_key id ids)
unfolding has_key new_ids
has_key-new_ids h peers id [] = ground arith
has_key-new_ids h peers id (j ∷ js) = elim (Bool-cases (j == id)) [
  | inl same ↦
      let e = ap (is_new h peers) ((eq_iff j id).0 same) in
      elim (Bool-cases (is_new h peers j)) [
        | inl new ↦ rw (new, same, sym e ∙ new) refl
        | inr old ↦ rw (old, same, has_key-new_ids h peers id js, sym e ∙ old) refl
      ]
  | inr other ↦ elim (Bool-cases (is_new h peers j)) [
    | inl new ↦ rw (new, other) (has_key-new_ids h peers id js)
    | inr old ↦ rw (old, other) (has_key-new_ids h peers id js)
  ]
]

module _ {Message : Type 0} where
  clean_up_lem :
      (o : Option ℕ) (id : String) (c : Call Message)
      → (length (clean_up o id c).objects ≡ length c.objects)
        × ((j : String) → (id == j) ≡ false → get j (clean_up o id c).peers ≡ get j c.peers)
        × ((m : ℕ)
            → ((old : ℕ) → o ≡ some old → old ≢ m)
            → get_elem? (clean_up o id c).objects m ≡ get_elem? c.objects m)
  unfolding clean_up destroy dispatch act peers_after
  clean_up_lem none id c = (refl, λ j n. refl, λ m h. refl)
  clean_up_lem (some old) id c = (
    length-as_destroyed (get_elem? c.objects old) old c.objects,
    λ j n. get-remove id j c.peers ∙ rw n refl,
    λ m h. get_elem?-as_destroyed (get_elem? c.objects old) old m c.objects (h old refl),
  )

  -- The new peer is the entry of its user, and a peer that was there is the only other one that changes.
  pub record Created (id : String) (b : Bool) (c d : Call Message) : Type 0 where
    pub own : get id d.peers ≡ some (length c.objects)
    pub others : (j : String) → (id == j) ≡ false → get j d.peers ≡ get j c.peers
    pub size : length d.objects ≡ suc (length c.objects)
    pub new : get_elem? d.objects (length c.objects) ≡ some (fresh id b)
    pub kept :
        (m : ℕ)
        → m < length c.objects
        → ((old : ℕ) → get id c.peers ≡ some old → old ≢ m)
        → get_elem? d.objects m ≡ get_elem? c.objects m

  pub create_peer-Created :
      (id : String) (b : Bool) (c : Call Message) → Created id b c (create_peer id b c)
  unfolding create_peer new_peer dispatch act peers_after
  create_peer-Created id b c =
      let begun =
        dispatch (meeting.Peers.notify meeting.Peers.warning "Connecting to peer..." none) c in
      let cleaned = clean_up (get id c.peers) id begun in
      let (size, others, kept) = clean_up_lem (get id c.peers) id begun in
      record {
        own =
            get-put id id (length cleaned.objects) cleaned.peers
            ∙ rw ((eq_iff id id).1 refl) (ap some size);
        others = λ j n. get-put id j (length cleaned.objects) cleaned.peers ∙ rw n (others j n);
        size = length-append cleaned.objects (fresh id b ∷ []) ∙ (omega arith);
        new =
            subst (λ n. get_elem? (cleaned.objects ++ (fresh id b ∷ [])) n ≡ some (fresh id b)) size
              (get_elem?-last cleaned.objects (fresh id b));
        kept = λ m l h.
            get_elem?-append_left cleaned.objects (fresh id b ∷ []) m
              (subst (λ n. m < n) (sym size) l)
            ∙ kept m h;
      }

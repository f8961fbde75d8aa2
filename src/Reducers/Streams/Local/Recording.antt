-- ===== src/Reducers/Streams/Local/Recording.antt =====
-- While the page records, each local stream has a recorder.
use text.Mathlib.Text.{◌==◌}
use text.Mathlib.TextEquality.{eq_iff}
use mathlib.Core.Option.{some-injective}
use meeting.Prelude.{
  ◌≡◌, refl, sym, ap, subst, ◌∙◌, String, List, [], ◌∷◌, ◌++◌, Option, none, some, Bool, true,
  false, ◌||◌, if◌then◌else◌, Bool-cases, inl, inr, arith, bind_some,
}
use meeting.Prelude.Dict.{get, put, find, get-put, get-remove}
use meeting.Reducers.Streams.{MediaPlatform}
use meeting.Reducers.Streams.Local.{
  RecorderPlatform, StreamType, State, LocalStream, AddLocalStreamPayload, RecordLocalStreamPayload,
  has_id, without_id, name_of, stop_stream, stop_existing, initialize_media_recorder, record_all,
  record_additional, stop_record_additional, recorders_with, recorders_without, remove_existing,
  with_url, add_local_stream,
}

has_id-without_id :
    (i j : String) (xs : List String)
    → (i == j) ≡ false
    → has_id j xs ≡ true
    → has_id j (without_id i xs) ≡ true
unfolding has_id without_id
has_id-without_id i j [] n h = h
has_id-without_id i j (x ∷ xs) n h = elim (Bool-cases (i == x)) [
  | inl e ↦
      let other_one : (x == j) ≡ false = subst (λ y. (y == j) ≡ false) ((eq_iff i x).0 e) n in
      rw e (has_id-without_id i j xs n (rw other_one at h))
  | inr e ↦ elim (Bool-cases (x == j)) [
    | inl f ↦ rw (e, f) refl
    | inr f ↦ rw (e, f) (has_id-without_id i j xs n (rw f at h))
  ]
]

has_id-last :
    (i j : String) (xs : List String) → has_id j (xs ++ (i ∷ [])) ≡ ((i == j) || has_id j xs)
unfolding has_id
has_id-last i j [] = refl
has_id-last i j (x ∷ xs) =
    rw (has_id-last i j xs)
      (elim (Bool-cases (x == j)) [ inl e ↦ rw e (ground arith) | inr e ↦ rw e refl ])

module _ {Peer : Type 0} (platform : MediaPlatform) (r : RecorderPlatform Peer) where
  -- A recorder for each stream of a list of entries.
  pub record_all-has_id :
      (p : RecordLocalStreamPayload) (es : List (String × LocalStream)) (peer : Option Peer)
      (ids : List String) (last : Option Peer)
      → record_all r p es peer ≡ some (ids, last)
      → (k : String) (x : LocalStream) → find k es ≡ some x
      → has_id x.stream_id ids ≡ true
  unfolding record_all find has_id
  record_all-has_id p [] peer ids last e k x f = absurd (cc f)
  record_all-has_id p ((j, s) ∷ es) peer ids last e k x f =
      let (now, g, h) =
        bind_some (initialize_media_recorder r p.room_id p.user_id s peer) _ (ids, last) e in
      let (rest, i, l) = bind_some (record_all r p es (some now)) _ (ids, last) h in
      let ids_are : s.stream_id ∷ rest.0 ≡ ids =
        ap (λ y. y.0) (some-injective (s.stream_id ∷ rest.0, rest.1) (ids, last) l) in
      subst (λ y. has_id x.stream_id y ≡ true) ids_are
        (elim (Bool-cases (j == k)) [
          | inl same ↦
              let x_is : s ≡ x = some-injective s x (rw same at f) in
              rw ((eq_iff s.stream_id x.stream_id).1 (ap (λ y. y.stream_id) x_is)) refl
          | inr differ ↦
              rw (record_all-has_id p es (some now) rest.0 rest.1 i k x (rw differ at f))
                (ground arith)
        ])

  module _ (type_of : String → String) where
    pub record Recorded (s : State Peer) : Type 0 where
      pub typed :
          (k : String) (x : LocalStream) → get k s.local_streams ≡ some x → type_of x.stream_id ≡ k
      pub recorded :
          (k : String) (x : LocalStream)
          → get k s.local_streams ≡ some x
          → s.is_recording ≡ true
          → has_id x.stream_id s.local_recorders ≡ true

    -- Nothing of the local streams and their recorders changes.
    pub Recorded-same :
        (s t : State Peer)
        → t.local_streams ≡ s.local_streams
        → t.local_recorders ≡ s.local_recorders
        → t.is_recording ≡ s.is_recording
        → Recorded s
        → Recorded t
    Recorded-same s t e f g h = record {
      typed = λ k x i. h.typed k x (ap (get k) (sym e) ∙ i);
      recorded = λ k x i j.
          ap (has_id x.stream_id) f ∙ h.recorded k x (ap (get k) (sym e) ∙ i) (sym g ∙ j);
    }

    -- The entry of one type is set to a stream of that type, with a recorder if the page records.
    pub Recorded-put :
        (s t : State Peer) (kind : StreamType) (x : LocalStream)
        → t.local_streams ≡ put (name_of kind) x s.local_streams
        → t.is_recording ≡ s.is_recording
        → type_of x.stream_id ≡ name_of kind
        → (s.is_recording ≡ true → has_id x.stream_id t.local_recorders ≡ true)
        → ((i : String)
            → s.is_recording ≡ true
            → has_id i s.local_recorders ≡ true
            → has_id i t.local_recorders ≡ true)
        → Recorded s
        → Recorded t
    Recorded-put s t kind x e f ty rec keeps h =
        let at = λ (k : String). ap (get k) e ∙ get-put (name_of kind) k x s.local_streams in
        record {
          typed = λ k y i. elim (Bool-cases (name_of kind == k)) [
            | inl same ↦
                ap (λ z. type_of z.stream_id)
                  (sym (some-injective x y (sym (rw same at (at k)) ∙ i)))
                ∙ ty
                ∙ (eq_iff (name_of kind) k).0 same
            | inr differ ↦ h.typed k y (sym (rw differ at (at k)) ∙ i)
          ];
          recorded = λ k y i on. elim (Bool-cases (name_of kind == k)) [
            | inl same ↦
                subst (λ z. has_id z.stream_id t.local_recorders ≡ true)
                  (some-injective x y (sym (rw same at (at k)) ∙ i)) (rec (sym f ∙ on))
            | inr differ ↦
                keeps y.stream_id (sym f ∙ on)
                  (h.recorded k y (sym (rw differ at (at k)) ∙ i) (sym f ∙ on))
          ];
        }

    recorders_with_lem :
        (b : Bool) (s t : State Peer) (x : LocalStream)
        → recorders_with r b s x ≡ some t
        → (t.local_streams ≡ s.local_streams)
          × (t.is_recording ≡ s.is_recording)
          × (b ≡ true → has_id x.stream_id t.local_recorders ≡ true)
          × ((i : String) → has_id i s.local_recorders ≡ true → has_id i t.local_recorders ≡ true)
    unfolding recorders_with record_additional
    recorders_with_lem true s t x e =
        let (peer, f, g) = bind_some (initialize_media_recorder r "" "" x s.peer_instance) _ t e in
        let t_is = some-injective _ t g in
        let has = λ (i : String).
          ap (λ u. has_id i u.local_recorders) (sym t_is)
          ∙ has_id-last x.stream_id i s.local_recorders in
        (
          ap (λ u. u.local_streams) (sym t_is),
          ap (λ u. u.is_recording) (sym t_is),
          λ _. has x.stream_id ∙ rw ((eq_iff x.stream_id x.stream_id).1 refl) refl,
          λ i h. has i ∙ rw h (ground arith),
        )
    recorders_with_lem false s t x e =
        let t_is = some-injective s t e in
        (
          ap (λ u. u.local_streams) (sym t_is),
          ap (λ u. u.is_recording) (sym t_is),
          λ b. absurd (cc b),
          λ i h. ap (λ u. has_id i u.local_recorders) (sym t_is) ∙ h,
        )

    stop_existing_lem :
        (o : Option LocalStream) (s : State Peer)
        → ((stop_existing o s).local_streams ≡ s.local_streams)
          × ((stop_existing o s).is_recording ≡ s.is_recording)
          × ((stop_existing o s).local_recorders ≡ s.local_recorders)
    unfolding stop_existing stop_stream
    stop_existing_lem none s = (refl, refl, refl)
    stop_existing_lem (some x) s = (refl, refl, refl)

    pub add-Recorded :
        (s t : State Peer) (p : AddLocalStreamPayload)
        → type_of p.stream_id ≡ name_of p.stream_type
        → add_local_stream r platform s p ≡ some t
        → Recorded s
        → Recorded t
    unfolding add_local_stream with_url
    add-Recorded s t p ty e h =
        let x = with_url r platform s.remote p in
        let old = get (name_of p.stream_type) s.local_streams in
        let (next, f, g) =
          bind_some (recorders_with r s.is_recording (stop_existing old s) x) _ t e in
        let (l1, b1, r1) = stop_existing_lem old s in
        let (l2, b2, has, keeps) =
          recorders_with_lem s.is_recording (stop_existing old s) next x f in
        let t_is = some-injective _ t g in
        let recorders = ap (λ u. u.local_recorders) (sym t_is) in
        Recorded-put s t p.stream_type x
          (ap (λ u. u.local_streams) (sym t_is) ∙ ap (put (name_of p.stream_type) x) (l2 ∙ l1))
          (ap (λ u. u.is_recording) (sym t_is) ∙ b2 ∙ b1) ty
          (λ on. ap (has_id x.stream_id) recorders ∙ has on)
          (λ i on k. ap (has_id i) recorders ∙ keeps i (ap (has_id i) r1 ∙ k)) h

    recorders_without_lem :
        (b : Bool) (s t : State Peer) (x : LocalStream)
        → recorders_without r b s x ≡ some t
        → (t.is_recording ≡ s.is_recording)
          × (b ≡ true → t.local_recorders ≡ without_id x.stream_id s.local_recorders)
    unfolding recorders_without stop_record_additional
    recorders_without_lem true s t x e =
        let (peer, f, g) = bind_some s.peer_instance _ t e in
        let (left, i, j) = bind_some (r.remove_stream x.stream peer) _ t g in
        (
          ap (λ u. u.is_recording) (sym (some-injective _ t j)),
          λ _. ap (λ u. u.local_recorders) (sym (some-injective _ t j)),
        )
    recorders_without_lem false s t x e =
        (ap (λ u. u.is_recording) (sym (some-injective _ t e)), λ b. absurd (cc b))

    stays :
        (kind : StreamType) (k : String) (y : LocalStream) (s t : State Peer)
        → get k t.local_streams ≡ (if name_of kind == k then none else get k s.local_streams)
        → get k t.local_streams ≡ some y
        → ((name_of kind == k) ≡ false) × (get k s.local_streams ≡ some y)
    stays kind k y s t e l = elim (Bool-cases (name_of kind == k)) [
      | inl same ↦ absurd (cc (sym (rw same at e) ∙ l))
      | inr differ ↦ (differ, sym (rw differ at e) ∙ l)
    ]

    pub remove-Recorded :
        (o : Option LocalStream) (s t : State Peer) (kind : StreamType)
        → get (name_of kind) s.local_streams ≡ o
        → remove_existing r o s kind ≡ some t
        → Recorded s
        → Recorded t
    unfolding remove_existing
    remove-Recorded none s t kind e f h = subst Recorded (some-injective s t f) h
    remove-Recorded (some x) s t kind e f h =
        let (next, g, i) = bind_some (recorders_without r s.is_recording s x) _ t f in
        let t_is = some-injective _ t i in
        let (b, left) = recorders_without_lem s.is_recording s next x g in
        let recording : t.is_recording ≡ s.is_recording = ap (λ u. u.is_recording) (sym t_is) ∙ b in
        let at = λ (k : String).
          ap (λ u. get k u.local_streams) (sym t_is)
          ∙ get-remove (name_of kind) k s.local_streams in
        let stayed = λ (k : String) (y : LocalStream) (l : get k t.local_streams ≡ some y).
          stays kind k y s t (at k) l in
        record {
          typed = λ k y l. h.typed k y (stayed k y l).1;
          recorded = λ k y l on.
              let (differ, here) = stayed k y l in
              let apart : (x.stream_id == y.stream_id) ≡ false =
                elim (Bool-cases (x.stream_id == y.stream_id)) [
                  | inl same ↦
                      let p =
                        sym (h.typed (name_of kind) x e)
                        ∙ ap type_of ((eq_iff x.stream_id y.stream_id).0 same)
                        ∙ h.typed k y here in
                      absurd (cc (sym differ ∙ (eq_iff (name_of kind) k).1 p))
                  | inr n ↦ n
                ] in
              ap (λ u. has_id y.stream_id u.local_recorders) (sym t_is)
              ∙ ap (has_id y.stream_id) (left (sym recording ∙ on))
              ∙ has_id-without_id x.stream_id y.stream_id s.local_recorders apart
                  (h.recorded k y here (sym recording ∙ on));
        }

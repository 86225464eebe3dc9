-- ===== src/Stammer/Recipients.antt =====
-- stammer/src/routing_table.rs: the recipients of a voice packet.
use atof.Prelude.{
  ℕ, ◌≡◌, ◌≢◌, ◌↔◌, refl, sym, ap, subst, ◌∙◌, inl, inr, List, [], ◌∷◌, map, true, false, some,
  arith, Option-cases, Bool-cases, ok, if◌then◌else◌, ℕ_discrete,
}
use atof.Prelude.Maps.{lookup, member, NoRepeat}
use atof.Stammer.RoutingTable.{
  Session, RoutingTable, members_of, is_excluded, sender, room_id, member_senders, room_senders,
  target_senders,
}
use atof.Stammer.Membership.{in_room, Valid}

-- The members of a room but one.
abbrev others : ℕ → List ℕ → List ℕ
others away [] = []
others away (k ∷ ks) =
    let rest = others away ks in if is_excluded (some away) k then rest else k ∷ rest

member-others-false :
    (away k : ℕ) (ks : List ℕ) → member k ks ≡ false → member k (others away ks) ≡ false
member-others-false away k [] h = refl
member-others-false away k (j ∷ ks) h = ground (arith, member-others-false away k ks)

NoRepeat-others : (away : ℕ) (ks : List ℕ) → NoRepeat ks → NoRepeat (others away ks)
NoRepeat-others away [] h = tt
NoRepeat-others away (k ∷ ks) (out, h) = elim (Bool-cases (is_excluded (some away) k)) [
  | inl same ↦ rw same (NoRepeat-others away ks h)
  | inr differ ↦ rw differ (member-others-false away k ks out, NoRepeat-others away ks h)
]

member-others : (away k : ℕ) (ks : List ℕ) → away ≢ k → member k (others away ks) ≡ member k ks
member-others away k [] h = refl
member-others away k (j ∷ ks) h = ground (arith, member-others away k ks h)

member-others_self : (away : ℕ) (ks : List ℕ) → member away (others away ks) ≡ false
member-others_self away [] = refl
member-others_self away (j ∷ ks) = ground (arith, member-others_self away ks)

module _ {Version Sender : Type 0} (t : RoutingTable Version Sender) where
  -- Another session of the same room.
  abbrev pub IsPeer : ℕ → ℕ → ℕ → Type 0
  IsPeer room session_id peer =
      (session_id ≢ peer)
      × (s : Session Version Sender) × (lookup peer t.sessions ≡ some s)
      × (s.room_id ≡ room)

  -- The senders of the other sessions of the same room, each once.
  pub record PeerSenders (room session_id : ℕ) (senders : List Sender) : Type 0 where
    pub peers : List ℕ
    pub distinct : NoRepeat peers
    pub all_peers : (k : ℕ) → (member k peers ≡ true) ↔ IsPeer room session_id k
    pub in_turn : map some senders ≡ map (sender t) peers

  lookup-sender :
      (k : ℕ) (s : Session Version Sender)
      → lookup k t.sessions ≡ some s
      → sender t k ≡ some s.sender
  unfolding sender
  lookup-sender k s e = rw (sender, e) refl

  member_senders-others :
      (away : ℕ) (ks : List ℕ)
      → ((k : ℕ) → member k ks ≡ true → (x : Sender) × (sender t k ≡ some x))
      → map some (member_senders t (some away) ks) ≡ map (sender t) (others away ks)
  unfolding member_senders
  member_senders-others away [] held = refl
  member_senders-others away (k ∷ ks) held =
      let rest = member_senders-others away ks λ j inside.
        held j (elim (ℕ_discrete j k) [ yes same ↦ ground arith | no apart ↦ ground arith ]) in
      let (x, found) = held k (ground arith) in
      elim (Bool-cases (is_excluded (some away) k)) [
        | inl out ↦ rw (member_senders, out) rest
        | inr kept ↦ rw (member_senders, kept, found) (ap (◌∷◌ (some x)) rest)
      ]

  member_senders-PeerSenders :
      (v : Valid t) (session_id room : ℕ)
      → PeerSenders room session_id (member_senders t (some session_id) (members_of room t.rooms))
  member_senders-PeerSenders v session_id room = record {
    peers = others session_id (members_of room t.rooms);
    distinct = NoRepeat-others session_id (members_of room t.rooms) (v.distinct room);
    all_peers = λ k. (there k, back k);
    in_turn = member_senders-others session_id (members_of room t.rooms) (λ k inside.
        let (s, held, _) = v.enrolled k room inside in (s.sender, lookup-sender k s held));
  }
    where
      there :
          (k : ℕ)
          → member k (others session_id (members_of room t.rooms)) ≡ true
          → IsPeer room session_id k
      there k inside = elim (ℕ_discrete session_id k) [
        | yes same ↦
            let inside' =
              subst (λ (j : ℕ). member j (others session_id (members_of room t.rooms)) ≡ true)
                (sym same) inside in
            let out = member-others_self session_id (members_of room t.rooms) in absurd cc
        | no apart ↦
            let same = member-others session_id k (members_of room t.rooms) apart in
            let (s, held, home) = v.enrolled k room (sym same ∙ inside) in (apart, s, held, home)
      ]

      back :
          (k : ℕ)
          → IsPeer room session_id k
          → member k (others session_id (members_of room t.rooms)) ≡ true
      back k (apart, s, held, home) =
          member-others session_id k (members_of room t.rooms) apart
          ∙ subst (λ (r : ℕ). in_room r k t.rooms ≡ true) home (v.joined k s held)

-- On a valid table, a voice packet to target 0 from a session that the table holds reaches exactly
-- the senders of the other sessions of its room, each once. There is no panic.
pub target_senders-PeerSenders :
    {Version Sender : Type 0} (t : RoutingTable Version Sender) (session_id : ℕ)
    (s : Session Version Sender)
    → Valid t
    → lookup session_id t.sessions ≡ some s
    → (senders : List Sender) × (target_senders t session_id 0 ≡ some (ok senders))
      × PeerSenders t s.room_id session_id senders
target_senders-PeerSenders t session_id s v held = elim (Option-cases (lookup s.room_id t.rooms)) [
  | inl absent ↦
      let inside : false ≡ true =
        rw (in_room, members_of, absent) at (v.joined session_id s held) in
      absurd cc
  | inr (members, present) ↦
      let all : members_of s.room_id t.rooms ≡ members = rw (members_of, present) refl in
      (
        member_senders t (some session_id) members,
        unfold target_senders room_id room_senders in
            rw (target_senders, room_id, held, room_senders, present) refl,
        subst
            (λ (ms : List ℕ).
              PeerSenders t s.room_id session_id (member_senders t (some session_id) ms))
            all (member_senders-PeerSenders t v session_id s.room_id),
      )
]

-- ===== src/Stammer/Membership.antt =====
-- stammer/src/routing_table.rs: when the sessions and the rooms of a table agree.
mod Moves
pub use Moves.{in_room, leave_room-some}
use Moves.{
  in_room-join_self, in_room-join_other, in_room-leave_self, in_room-leave_other, NoRepeat-join,
  NoRepeat-leave,
}
use atof.Prelude.{
  ℕ, ◌≡◌, ◌≢◌, sym, ap, subst, ◌∙◌, inl, inr, List, true, false, none, some, Bool-cases, ℕ_discrete,
}
use atof.Prelude.Maps.{
  lookup, insert, remove, remove_member, lookup-insert_self, lookup-insert_other,
  lookup-remove_self, lookup-remove_other, NoRepeat,
}
use atof.Stammer.RoutingTable.{Rooms, Session, RoutingTable, default, members_of, join_room}

module _ {Version Sender : Type 0} where
  -- Every session is in its room, and every member of a room has a session with that room. A room
  -- has no member twice.
  pub record Valid (t : RoutingTable Version Sender) : Type 0 where
    pub joined :
        (id : ℕ) (s : Session Version Sender)
        → lookup id t.sessions ≡ some s
        → in_room s.room_id id t.rooms ≡ true
    pub enrolled :
        (id room : ℕ)
        → in_room room id t.rooms ≡ true
        → (s : Session Version Sender) × (lookup id t.sessions ≡ some s) × (s.room_id ≡ room)
    pub distinct : (room : ℕ) → NoRepeat (members_of room t.rooms)

  -- The same but for one session, which is in no room.
  pub record ValidExcept (away : ℕ) (sessions : List (ℕ × Session Version Sender)) (rooms : Rooms)
      : Type 0 where
    joined :
        (id : ℕ) (s : Session Version Sender)
        → id ≢ away
        → lookup id sessions ≡ some s
        → in_room s.room_id id rooms ≡ true
    enrolled :
        (id room : ℕ)
        → id ≢ away
        → in_room room id rooms ≡ true
        → (s : Session Version Sender) × (lookup id sessions ≡ some s) × (s.room_id ≡ room)
    outside : (room : ℕ) → in_room room away rooms ≡ false
    distinct : (room : ℕ) → NoRepeat (members_of room rooms)

  pub default-Valid : Valid default
  default-Valid = record {
    joined = λ id s e. cc;
    enrolled = λ id room e. cc;
    distinct = λ room. tt;
  }

  pub unheld-ValidExcept :
      (t : RoutingTable Version Sender) (id : ℕ)
      → Valid t
      → lookup id t.sessions ≡ none
      → ValidExcept id t.sessions t.rooms
  unheld-ValidExcept t id v absent = record {
    joined = λ k s differ e. v.joined k s e;
    enrolled = λ k room differ e. v.enrolled k room e;
    outside = λ room. elim (Bool-cases (in_room room id t.rooms)) [
      | inr out ↦ out
      | inl inside ↦ let (s, found, _) = v.enrolled id room inside in cc
    ];
    distinct = v.distinct;
  }

  -- A session that leaves its room is in none.
  pub leave-ValidExcept :
      (t : RoutingTable Version Sender) (id : ℕ) (s : Session Version Sender)
      → Valid t
      → lookup id t.sessions ≡ some s
      → ValidExcept id t.sessions
          (insert s.room_id (remove_member id (members_of s.room_id t.rooms)) t.rooms)
  leave-ValidExcept t id s v found = record {
    joined = λ k other differ e.
        in_room-leave_other other.room_id s.room_id k id t.rooms (inr differ) ∙ v.joined k other e;
    enrolled = λ k room differ e.
        v.enrolled k room (sym (in_room-leave_other room s.room_id k id t.rooms (inr differ)) ∙ e);
    outside = λ room. elim (ℕ_discrete room s.room_id) [
      | yes same ↦
          subst
            (λ (r : ℕ).
              in_room r id
                (insert s.room_id (remove_member id (members_of s.room_id t.rooms)) t.rooms)
              ≡ false)
            (sym same) (in_room-leave_self s.room_id id t.rooms)
      | no apart ↦
          in_room-leave_other room s.room_id id id t.rooms (inl apart)
          ∙ (elim (Bool-cases (in_room room id t.rooms)) [
            | inr out ↦ out
            | inl inside ↦
                let (s', found', there) = v.enrolled id room inside in
                let one : s' ≡ s = cc in
                absurd (apart (sym there ∙ ap (λ (x : Session Version Sender). x.room_id) one))
          ])
    ];
    distinct = NoRepeat-leave s.room_id id t.rooms v.distinct;
  }

  pub removed-Valid :
      (id : ℕ) (sessions : List (ℕ × Session Version Sender)) (rooms : Rooms)
      → ValidExcept id sessions rooms
      → Valid (record { sessions = remove id sessions; rooms = rooms })
  removed-Valid id sessions rooms v = record {
    joined = λ k s e. elim (ℕ_discrete k id) [
      | yes same ↦
          let e' = sym (ap (λ (j : ℕ). lookup j (remove id sessions)) same) ∙ e in
          let gone = lookup-remove_self id sessions in cc
      | no differ ↦ v.joined k s differ (sym (lookup-remove_other k id sessions differ) ∙ e)
    ];
    enrolled = λ k room e. elim (ℕ_discrete k id) [
      | yes same ↦
          let e' = sym (ap (λ (j : ℕ). in_room room j rooms) same) ∙ e in
          let out = v.outside room in cc
      | no differ ↦
          let (s, found, there) = v.enrolled k room differ e in
          (s, lookup-remove_other k id sessions differ ∙ found, there)
    ];
    distinct = v.distinct;
  }

  pub joined-Valid :
      (id : ℕ) (new : Session Version Sender) (sessions : List (ℕ × Session Version Sender))
      (rooms : Rooms)
      → ValidExcept id sessions rooms
      → Valid (record { sessions = insert id new sessions; rooms = join_room new.room_id id rooms })
  joined-Valid id new sessions rooms v = record {
    joined = λ k s e. elim (ℕ_discrete k id) [
      | yes same ↦
          let e' = sym (ap (λ (j : ℕ). lookup j (insert id new sessions)) same) ∙ e in
          let here = lookup-insert_self id new sessions in
          let one : s ≡ new = cc in rw (same, one) (in_room-join_self new.room_id id rooms)
      | no differ ↦
          in_room-join_other s.room_id new.room_id k id rooms (inr differ)
          ∙ v.joined k s differ (sym (lookup-insert_other k id new sessions differ) ∙ e)
    ];
    enrolled = λ k room e. elim (ℕ_discrete k id) [
      | yes same ↦ elim (ℕ_discrete room new.room_id) [
        | yes home ↦ (
          new,
          ap (λ (j : ℕ). lookup j (insert id new sessions)) same
              ∙ lookup-insert_self id new sessions,
          sym home,
        )
        | no apart ↦
            let e' =
              sym (ap (λ (j : ℕ). in_room room j (join_room new.room_id id rooms)) same) ∙ e in
            let other = in_room-join_other room new.room_id id id rooms (inl apart) in
            let out = v.outside room in absurd cc
      ]
      | no differ ↦
          let inside = sym (in_room-join_other room new.room_id k id rooms (inr differ)) ∙ e in
          let (s, found, there) = v.enrolled k room differ inside in
          (s, lookup-insert_other k id new sessions differ ∙ found, there)
    ];
    distinct = NoRepeat-join new.room_id id rooms v.distinct;
  }

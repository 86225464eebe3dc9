-- ===== src/Stammer/Operations.antt =====
-- stammer/src/routing_table.rs: enrolling, expelling and moving a session, in a valid table.
use atof.Prelude.{
  ℕ, ◌≡◌, ◌≢◌, refl, inl, inr, true, false, none, some, Option-cases, Result, ok, err,
}
use atof.Prelude.Maps.{
  lookup, insert, remove, contains_key, remove_member, lookup-insert_self, lookup-remove_self,
  lookup-remove_other,
}
use atof.Stammer.RoutingTable.{
  TableError, unknown_session, Session, RoutingTable, members_of, join_room, holds_session,
  enroll_session, expel_session, move_session,
}
use atof.Stammer.Membership.{
  in_room, Valid, leave-ValidExcept, unheld-ValidExcept, leave_room-some, removed-Valid,
  joined-Valid,
}

module _ {Version Sender : Type 0} where
  unheld :
      (id : ℕ) (t : RoutingTable Version Sender)
      → holds_session t id ≡ false
      → lookup id t.sessions ≡ none
  unheld id t h = elim (Option-cases (lookup id t.sessions)) [
    | inl absent ↦ absent
    | inr (s, found) ↦ let h' : true ≡ false = rw (holds_session, contains_key, found) at h in cc
  ]

  -- Enrolling a session that the table does not hold keeps the table valid.
  pub enroll_session-Valid :
      (t : RoutingTable Version Sender) (id : ℕ) (version : Version) (sender : Sender)
      → Valid t
      → holds_session t id ≡ false
      → Valid (enroll_session t id version sender)
  unfolding enroll_session
  enroll_session-Valid t id version sender v h =
      joined-Valid id (record { room_id = 0; version = version; sender = sender }) t.sessions
        t.rooms (unheld-ValidExcept t id v (unheld id t h))

  -- What is left when a session that the table holds is expelled.
  expel-held :
      (t : RoutingTable Version Sender) (id : ℕ) (s : Session Version Sender)
      → Valid t
      → lookup id t.sessions ≡ some s
      → expel_session t id
        ≡ some (
          record {
            sessions = remove id t.sessions;
            rooms = insert s.room_id (remove_member id (members_of s.room_id t.rooms)) t.rooms;
          },
          ok tt,
        )
  unfolding expel_session
  expel-held t id s v found =
      rw (expel_session, found, leave_room-some s.room_id id t.rooms (v.joined id s found)) refl

  -- On a valid table, `expel_session` does not panic. It leaves a valid table that does not hold
  -- the session, with every other session as it was, and on an error the table is unchanged.
  pub expel_session-Valid :
      (t : RoutingTable Version Sender) (id : ℕ)
      → Valid t
      → (t' : RoutingTable Version Sender) × (result : Result TableError (Unit {0}))
        × (expel_session t id ≡ some (t', result))
        × Valid t'
        × (lookup id t'.sessions ≡ none)
        × ((other : ℕ) → other ≢ id → lookup other t'.sessions ≡ lookup other t.sessions)
        × ((e : TableError) → result ≡ err e → t' ≡ t)
  expel_session-Valid t id v = elim (Option-cases (lookup id t.sessions)) [
    | inl absent ↦ (
      t,
      err (unknown_session id),
      unfold expel_session in (rw (expel_session, absent) refl),
      v,
      absent,
      λ other differ. refl,
      λ e failed. refl,
    )
    | inr (s, found) ↦ (
      record {
        sessions = remove id t.sessions;
        rooms = insert s.room_id (remove_member id (members_of s.room_id t.rooms)) t.rooms;
      },
      ok tt,
      expel-held t id s v found,
      removed-Valid id t.sessions _ (leave-ValidExcept t id s v found),
      lookup-remove_self id t.sessions,
      λ other differ. lookup-remove_other other id t.sessions differ,
      λ e failed. absurd cc,
    )
  ]

  -- On a valid table, `move_session` does not panic and leaves a valid table: the session it was
  -- asked to move, if the table holds it, is then in the destination room.
  pub move_session-Valid :
      (t : RoutingTable Version Sender) (id dest : ℕ)
      → Valid t
      → (t' : RoutingTable Version Sender) × (result : Result TableError (Unit {0})) × (move_session
            t id dest
          ≡ some (t', result))
        × Valid t'
        × (holds_session t id ≡ true → in_room dest id t'.rooms ≡ true)
  move_session-Valid t id dest v = elim (Option-cases (lookup id t.sessions)) [
    | inl absent ↦ (
      t,
      err (unknown_session id),
      unfold move_session in (rw (move_session, absent) refl),
      v,
      λ h. let h' : false ≡ true = rw (holds_session, contains_key, absent) at h in cc,
    )
    | inr (s, found) ↦
        let rooms = insert s.room_id (remove_member id (members_of s.room_id t.rooms)) t.rooms in
        let new : Session Version Sender = record s { room_id = dest } in
        let valid = joined-Valid id new t.sessions rooms (leave-ValidExcept t id s v found) in
        (
          record { sessions = insert id new t.sessions; rooms = join_room dest id rooms },
          ok tt,
          unfold move_session in
              (rw (move_session, found, leave_room-some s.room_id id t.rooms (v.joined id s found))
                refl),
          valid,
          λ h. valid.joined id new (lookup-insert_self id new t.sessions),
        )
  ]

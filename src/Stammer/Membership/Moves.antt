-- ===== src/Stammer/Membership/Moves.antt =====
-- stammer/src/routing_table.rs: who is in a room after a session joined or left one.
use atof.Prelude.{
  ℕ, ◌≡◌, ◌≢◌, refl, sym, ap, subst, ◌∙◌, ◌⊎◌, inl, inr, List, Bool, true, false, some,
  Option-cases, ℕ_discrete,
}
use atof.Prelude.Maps.{
  lookup, insert, member, remove_member, lookup-insert_self, lookup-insert_other, member-add_self,
  member-add_other, member-remove_self, member-remove_other, NoRepeat, NoRepeat-add,
  NoRepeat-remove,
}
use atof.Stammer.RoutingTable.{Rooms, members_of, join_room, leave_room}

abbrev pub in_room : ℕ → ℕ → Rooms → Bool
in_room room session rooms = member session (members_of room rooms)

members_of-insert_self :
    (room : ℕ) (members : List ℕ) (rooms : Rooms)
    → members_of room (insert room members rooms) ≡ members
members_of-insert_self room members rooms =
    rw (members_of, lookup-insert_self room members rooms) refl

members_of-insert_other :
    (room dest : ℕ) (members : List ℕ) (rooms : Rooms)
    → room ≢ dest
    → members_of room (insert dest members rooms) ≡ members_of room rooms
members_of-insert_other room dest members rooms h =
    rw (members_of, lookup-insert_other room dest members rooms h) refl

pub in_room-join_self :
    (room session : ℕ) (rooms : Rooms) → in_room room session (join_room room session rooms) ≡ true
in_room-join_self room session rooms =
    ap (member session) (members_of-insert_self room _ rooms)
    ∙ member-add_self session (members_of room rooms)

pub in_room-join_other :
    (room dest session joiner : ℕ) (rooms : Rooms)
    → (room ≢ dest) ⊎ (session ≢ joiner)
    → in_room room session (join_room dest joiner rooms) ≡ in_room room session rooms
in_room-join_other room dest session joiner rooms (inl differ) =
    ap (member session) (members_of-insert_other room dest _ rooms differ)
in_room-join_other room dest session joiner rooms (inr differ) = elim (ℕ_discrete room dest) [
  | no apart ↦ ap (member session) (members_of-insert_other room dest _ rooms apart)
  | yes same ↦
      subst
        (λ (r : ℕ). in_room room session (join_room r joiner rooms) ≡ in_room room session rooms)
        same
        (ap (member session) (members_of-insert_self room _ rooms)
          ∙ member-add_other session joiner (members_of room rooms) differ)
]

-- A session can leave a room that it is in.
pub leave_room-some :
    (room session : ℕ) (rooms : Rooms)
    → in_room room session rooms ≡ true
    → leave_room room session rooms
      ≡ some (insert room (remove_member session (members_of room rooms)) rooms)
leave_room-some room session rooms h = elim (Option-cases (lookup room rooms)) [
  | inl absent ↦ let h' : false ≡ true = rw (members_of, absent) at h in cc
  | inr (members, present) ↦ rw (leave_room, members_of, present) refl
]

pub in_room-leave_self :
    (room session : ℕ) (rooms : Rooms)
    → in_room room session (insert room (remove_member session (members_of room rooms)) rooms)
      ≡ false
in_room-leave_self room session rooms =
    ap (member session) (members_of-insert_self room _ rooms)
    ∙ member-remove_self session (members_of room rooms)

pub in_room-leave_other :
    (room dest session leaver : ℕ) (rooms : Rooms)
    → (room ≢ dest) ⊎ (session ≢ leaver)
    → in_room room session (insert dest (remove_member leaver (members_of dest rooms)) rooms)
      ≡ in_room room session rooms
in_room-leave_other room dest session leaver rooms (inl differ) =
    ap (member session) (members_of-insert_other room dest _ rooms differ)
in_room-leave_other room dest session leaver rooms (inr differ) = elim (ℕ_discrete room dest) [
  | no apart ↦ ap (member session) (members_of-insert_other room dest _ rooms apart)
  | yes same ↦
      subst
        (λ (r : ℕ).
          in_room room session (insert r (remove_member leaver (members_of r rooms)) rooms)
          ≡ in_room room session rooms)
        same
        (ap (member session) (members_of-insert_self room _ rooms)
          ∙ member-remove_other session leaver (members_of room rooms) differ)
]

-- A room's members stay without repetition when the members of one room change.
NoRepeat-insert :
    (dest : ℕ) (members : List ℕ) (rooms : Rooms)
    → NoRepeat members
    → ((room : ℕ) → NoRepeat (members_of room rooms))
    → (room : ℕ) → NoRepeat (members_of room (insert dest members rooms))
NoRepeat-insert dest members rooms new old room = elim (ℕ_discrete room dest) [
  | no apart ↦
      subst NoRepeat (sym (members_of-insert_other room dest members rooms apart)) (old room)
  | yes same ↦
      subst NoRepeat
        (sym (
          ap (λ (r : ℕ). members_of r (insert dest members rooms)) same
          ∙ members_of-insert_self dest members rooms))
        new
]

pub NoRepeat-join :
    (dest session : ℕ) (rooms : Rooms)
    → ((room : ℕ) → NoRepeat (members_of room rooms))
    → (room : ℕ) → NoRepeat (members_of room (join_room dest session rooms))
NoRepeat-join dest session rooms old =
    NoRepeat-insert dest _ rooms (NoRepeat-add session (members_of dest rooms) (old dest)) old

pub NoRepeat-leave :
    (dest session : ℕ) (rooms : Rooms)
    → ((room : ℕ) → NoRepeat (members_of room rooms))
    → (room : ℕ)
    → NoRepeat (members_of room (insert dest (remove_member session (members_of dest rooms)) rooms))
NoRepeat-leave dest session rooms old =
    NoRepeat-insert dest _ rooms (NoRepeat-remove session (members_of dest rooms) (old dest)) old

-- ===== src/Stammer/RoutingTable.antt =====
-- stammer/src/routing_table.rs. A client's version and the sending half of a channel are of any
-- types. `none` is a panic. A fallible operation returns the table as it leaves it, and its result.
use atof.Prelude.{
  ℕ, List, [], ◌∷◌, Option, none, some, Bool, false, ◌==◌, if◌then◌else◌, Result, ok, err,
}
use atof.Prelude.Maps.{lookup, insert, remove, contains_key, add_member, remove_member}

pub data TableError : Type 0 where
  unknown_session : ℕ → TableError

-- The members of a room, by the room's id.
abbrev pub Rooms : Type 0
Rooms = List (ℕ × List ℕ)

-- `rooms.entry(room_id).or_insert(Room::default()).members.insert(session_id)`
abbrev pub members_of : ℕ → Rooms → List ℕ
members_of room_id rooms = elim (lookup room_id rooms) [ some members ↦ members | none ↦ [] ]

abbrev pub join_room : ℕ → ℕ → Rooms → Rooms
join_room room_id session_id rooms =
    insert room_id (add_member session_id (members_of room_id rooms)) rooms

-- `rooms.get_mut(&room_id).expect("bad memberships").members.remove(&session_id)`
abbrev pub leave_room : ℕ → ℕ → Rooms → Option Rooms
leave_room room_id session_id rooms = elim (lookup room_id rooms) [
  | some members ↦ some (insert room_id (remove_member session_id members) rooms)
  | none ↦ none
]

-- `filter_map` over the members: all but the excluded one that have a session.
abbrev pub is_excluded : Option ℕ → ℕ → Bool
is_excluded none session_id = false
is_excluded (some excluded) session_id = excluded == session_id

abbrev pub keep : {A : Type 0} → Option A → List A → List A
keep none senders = senders
keep (some s) senders = s ∷ senders

module _ (Version Sender : Type 0) where
  pub record Session : Type 0 where
    pub room_id : ℕ
    pub version : Version
    pub sender : Sender

  pub record RoutingTable : Type 0 where
    pub sessions : List (ℕ × Session)
    pub rooms : Rooms

  abbrev pub TableResult : Type 0
  TableResult = Option (RoutingTable × Result TableError (Unit {0}))

module _ {Version Sender : Type 0} where
  -- `RoutingTable::default()`
  abbrev pub default : RoutingTable Version Sender
  default = record { sessions = []; rooms = [] }

  abbrev pub holds_session : RoutingTable Version Sender → ℕ → Bool
  holds_session t session_id = contains_key session_id t.sessions

  unfoldable pub enroll_session :
      RoutingTable Version Sender → ℕ → Version → Sender → RoutingTable Version Sender
  enroll_session t session_id version sender = record {
    sessions =
        insert session_id (record { room_id = 0; version = version; sender = sender }) t.sessions;
    rooms = join_room 0 session_id t.rooms;
  }

  unfoldable pub expel_session : RoutingTable Version Sender → ℕ → TableResult Version Sender
  expel_session t session_id = elim (lookup session_id t.sessions) [
    | none ↦ some (t, err (unknown_session session_id))
    | some session ↦ elim (leave_room session.room_id session_id t.rooms) [
      | none ↦ none
      | some rooms ↦ some (record { sessions = remove session_id t.sessions; rooms = rooms }, ok tt)
    ]
  ]

  unfoldable pub move_session : RoutingTable Version Sender → ℕ → ℕ → TableResult Version Sender
  move_session t session_id dest_room_id = elim (lookup session_id t.sessions) [
    | none ↦ some (t, err (unknown_session session_id))
    | some session ↦ elim (leave_room session.room_id session_id t.rooms) [
      | none ↦ none
      | some rooms ↦ some (
        record {
          sessions = insert session_id (record session { room_id = dest_room_id }) t.sessions;
          rooms = join_room dest_room_id session_id rooms;
        },
        ok tt,
      )
    ]
  ]

  unfoldable pub sender : RoutingTable Version Sender → ℕ → Option Sender
  sender t session_id = elim (lookup session_id t.sessions) [
    | some session ↦ some session.sender
    | none ↦ none
  ]

  unfoldable pub room_id : RoutingTable Version Sender → ℕ → Result TableError ℕ
  room_id t session_id = elim (lookup session_id t.sessions) [
    | some session ↦ ok session.room_id
    | none ↦ err (unknown_session session_id)
  ]

  unfoldable pub member_senders : RoutingTable Version Sender → Option ℕ → List ℕ → List Sender
  member_senders t exclude [] = []
  member_senders t exclude (session_id ∷ members) =
      let rest = member_senders t exclude members in
      if is_excluded exclude session_id then rest else keep (sender t session_id) rest

  unfoldable pub room_senders : RoutingTable Version Sender → ℕ → Option ℕ → Option (List Sender)
  room_senders t room_id exclude = elim (lookup room_id t.rooms) [
    | some members ↦ some (member_senders t exclude members)
    | none ↦ none
  ]

  -- A target other than 0 is `unimplemented!`.
  unfoldable pub target_senders :
      RoutingTable Version Sender → ℕ → ℕ → Option (Result TableError (List Sender))
  target_senders t session_id target =
      if target == 0
      then (elim (room_id t session_id) [
        | err e ↦ some (err e)
        | ok room ↦ elim (room_senders t room (some session_id)) [
          | some senders ↦ some (ok senders)
          | none ↦ none
        ]
      ])
      else none

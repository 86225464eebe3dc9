-- ===== src/Stammer/Tests.antt =====
-- A server with three sessions, and the theorems of its table at it. A sender is a number.
mod Runs
use atof.Prelude.{ℕ, ◌≡◌, ◌≢◌, refl, List, [], ◌∷◌, none, some, Result, ok, err}
use atof.Prelude.Maps.{lookup}
use atof.Control.Packet.{version}
use atof.Stammer.RoutingTable.{
  TableError, Session, RoutingTable, default, enroll_session, expel_session, target_senders,
  room_id, room_senders, member_senders, sender,
}
use atof.Stammer.Membership.{Valid, default-Valid}
use atof.Stammer.Operations.{enroll_session-Valid, expel_session-Valid}

abbrev pub one_session : RoutingTable (List ℕ) ℕ
one_session = enroll_session default 1 [] 101

abbrev pub three_sessions : RoutingTable (List ℕ) ℕ
three_sessions = enroll_session (enroll_session one_session 2 [] 102) 3 [] 103

one_session-Valid : Valid one_session
one_session-Valid = enroll_session-Valid default 1 [] 101 default-Valid refl

pub three_sessions-Valid : Valid three_sessions
unfolding enroll_session
three_sessions-Valid =
    enroll_session-Valid (enroll_session one_session 2 [] 102) 3 [] 103
      (enroll_session-Valid one_session 2 [] 102 one_session-Valid refl) refl

send_to_two : target_senders three_sessions 2 0 ≡ some (ok (103 ∷ 101 ∷ []))
unfolding enroll_session target_senders room_id room_senders member_senders sender
send_to_two = refl

abbrev pub second : Session (List ℕ) ℕ
second = record { room_id = 0; version = []; sender = 102 }

pub second_held : lookup 2 three_sessions.sessions ≡ some second
unfolding enroll_session
second_held = refl

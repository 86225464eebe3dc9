-- ===== src/Stammer/System/Stopping.antt =====
-- stammer/src/task_control.rs: how the control task ends once the accept task has stopped.
use atof.Prelude.{
  ◌≡◌, refl, sym, ap, subst, ◌∙◌, List, [], ◌∷◌, ◌++◌, append_assoc, Bool, true, false, some,
}
use atof.Control.Packet.{Protobuf}
use atof.Stammer.Membership.{Valid}
use atof.Stammer.RoutingTask.{TextFields}
use atof.Stammer.ControlTask.{
  ControlMessage, packet, add_session, remove_session, RoutingMessage, ControlState, control_step,
}
use atof.Stammer.Enrollment.{control_step-Step, Step-follows}
use atof.Stammer.System.{
  System, FromSession, Moves, control_message, voice_message, text_message, accept_stops,
  control_task, control_ends, routing_task, Reachable, start, moves,
}
use atof.Stammer.System.Coherence.{Reachable-Coherent}
use atof.Stammer.System.Shutdown.{Quiet, control_step-Quiet}

module _ {protobuf : Protobuf} (fields : TextFields protobuf) (Sender : Type 0) where
  -- Whether the channel is closed after a message, and after all of them.
  abbrev closed_after : ControlMessage protobuf Sender → Bool → Bool
  closed_after ControlMessage.shutdown closed = true
  closed_after _ closed = closed

  abbrev closed_in_the_end : Bool → List (ControlMessage protobuf Sender) → Bool
  closed_in_the_end closed [] = closed
  closed_in_the_end closed (m ∷ ms) = closed_in_the_end (closed_after m closed) ms

  closed_in_the_end-append :
      (closed : Bool) (ms : List (ControlMessage protobuf Sender))
      (m : ControlMessage protobuf Sender)
      → closed_in_the_end closed (ms ++ (m ∷ [])) ≡ closed_after m (closed_in_the_end closed ms)
  closed_in_the_end-append closed [] m = refl
  closed_in_the_end-append closed (n ∷ ms) m = closed_in_the_end-append (closed_after n closed) ms m

  closed_after-true :
      (m : ControlMessage protobuf Sender) (closed : Bool)
      → closed ≡ true
      → closed_after m closed ≡ true
  closed_after-true ControlMessage.shutdown closed h = refl
  closed_after-true (packet _ _) closed h = h
  closed_after-true (add_session _ _) closed h = h
  closed_after-true (remove_session _) closed h = h

  session_step-closed :
      (m : ControlMessage protobuf Sender) (s c : ControlState protobuf Sender)
      (sent : List (RoutingMessage protobuf Sender))
      → FromSession fields Sender m
      → control_step protobuf Sender m s ≡ some (c, sent)
      → c.closed ≡ s.closed
  session_step-closed m s c sent own e =
      let quiet : Quiet fields Sender s.closed (some (c, sent)) =
        rw e at (control_step-Quiet fields Sender m s own) in
      quiet.0

  control_step-closed :
      (m : ControlMessage protobuf Sender) (s c : ControlState protobuf Sender)
      (sent : List (RoutingMessage protobuf Sender))
      → control_step protobuf Sender m s ≡ some (c, sent)
      → c.closed ≡ closed_after m s.closed
  unfolding control_step
  control_step-closed ControlMessage.shutdown s c sent e =
      let same : record s { closed = true } ≡ c = cc in
      ap (λ (x : ControlState protobuf Sender). x.closed) (sym same)
  control_step-closed (packet id p) s c sent e = session_step-closed (packet id p) s c sent tt e
  control_step-closed (add_session id x) s c sent e =
      session_step-closed (add_session id x) s c sent tt e
  control_step-closed (remove_session id) s c sent e =
      session_step-closed (remove_session id) s c sent tt e

  -- The control task that still runs after the accept task has been asked to stop.
  abbrev Stopping : System fields Sender → Type 0
  Stopping s =
      s.accepting ≡ false
      → s.control_runs ≡ true
      → closed_in_the_end s.control.closed s.to_control ≡ true

  Moves-Stopping :
      {s s' : System fields Sender} → Moves fields Sender s s' → Stopping s → Stopping s'
  Moves-Stopping {s = s} (control_message m own open_channel) h stopped runs =
      closed_in_the_end-append s.control.closed s.to_control m
      ∙ closed_after-true m _ (h stopped runs)
  Moves-Stopping (voice_message id p open_channel) h stopped runs = h stopped runs
  Moves-Stopping (text_message id msg open_channel) h stopped runs = h stopped runs
  Moves-Stopping {s = s} (accept_stops accepts) h stopped runs =
      closed_in_the_end-append s.control.closed s.to_control ControlMessage.shutdown
  Moves-Stopping {s = s} (control_task m ms c sent running next stepped) h stopped runs =
      let all : closed_in_the_end s.control.closed (m ∷ ms) ≡ true =
        subst
          (λ (l : List (ControlMessage protobuf Sender)).
            closed_in_the_end s.control.closed l ≡ true)
          next (h stopped runs) in
      rw (control_step-closed m s.control c sent stepped) all
  Moves-Stopping (control_ends running closed empty) h stopped runs = absurd cc
  Moves-Stopping (routing_task m ms t sent next stepped) h stopped runs = h stopped runs

  Reachable-Stopping : (s : System fields Sender) → Reachable fields Sender s → Stopping s
  Reachable-Stopping s start stopped runs = absurd cc
  Reachable-Stopping s (moves {s = s0} before step) stopped runs =
      Moves-Stopping step (Reachable-Stopping s0 before) stopped runs

  abbrev IsControlStep : {s s' : System fields Sender} → Moves fields Sender s s' → Type 0
  IsControlStep (control_task _ _ _ _ _ _ _) = Unit {0}
  IsControlStep (control_ends _ _ _) = Unit {0}
  IsControlStep _ = ⊥

  -- Steps of the control task, one after the other.
  pub data ControlSteps : System fields Sender → System fields Sender → Type 0 where
    no_step : {s : System fields Sender} → ControlSteps s s
    step_before :
        {s s1 s2 : System fields Sender} (step : Moves fields Sender s s1)
        → IsControlStep step
        → ControlSteps s1 s2
        → ControlSteps s s2

  -- The control task handles the messages that wait for it, and ends.
  ending :
      (s : System fields Sender) (ms : List (ControlMessage protobuf Sender))
      → s.to_control ≡ ms
      → s.control_runs ≡ true
      → Valid s.control.rtbl
      → closed_in_the_end s.control.closed ms ≡ true
      → (s' : System fields Sender) × ControlSteps s s'
        × (s'.control_runs ≡ false)
        × (s'.to_control ≡ [])
        × (sent : List (RoutingMessage protobuf Sender)) × (s'.to_routing
            ≡ s.to_routing ++ (sent ++ (RoutingMessage.shutdown ∷ [])))
  ending s [] next runs valid closed = (
    record s { control_runs = false; to_routing = s.to_routing ++ (RoutingMessage.shutdown ∷ []) },
    step_before (control_ends runs closed next) tt no_step,
    refl,
    next,
    [],
    refl,
  )
  ending s (m ∷ ms) next runs valid closed =
      let (c, sent, stepped, valid', _) =
        Step-follows s.control (control_step-Step m s.control valid) valid in
      let s1 : System fields Sender = record s {
        control = c;
        to_control = ms;
        to_routing = s.to_routing ++ sent;
      } in
      let closed' : closed_in_the_end c.closed ms ≡ true =
        rw (control_step-closed m s.control c sent stepped) closed in
      let (s', steps, ended, empty, later, queue) = ending s1 ms refl runs valid' closed' in
      (
        s',
        step_before (control_task m ms c sent runs next stepped) tt steps,
        ended,
        empty,
        sent ++ later,
        queue ∙ simp append_assoc,
      )

  -- Once the accept task has stopped, the control task can always end: from every state that the
  -- server comes to in which the control task still runs, its steps alone lead to a state in which
  -- it has ended and has handled every message that waited for it. What it sends follows what waited
  -- for the routing task, with the request to shut down as the last message.
  pub Reachable-ends :
      (s : System fields Sender)
      → Reachable fields Sender s
      → s.accepting ≡ false
      → s.control_runs ≡ true
      → (s' : System fields Sender) × ControlSteps s s'
        × (s'.control_runs ≡ false)
        × (s'.to_control ≡ [])
        × (sent : List (RoutingMessage protobuf Sender)) × (s'.to_routing
            ≡ s.to_routing ++ (sent ++ (RoutingMessage.shutdown ∷ [])))
  Reachable-ends s reachable stopped runs =
      ending s s.to_control refl runs (Reachable-Coherent fields Sender s reachable).control_valid
        (Reachable-Stopping s reachable stopped runs)

-- ===== src/Stammer/System/Shutdown.antt =====
-- stammer/src/lib.rs, task_accept.rs and task_control.rs: the channels on which an `expect` relies
-- are open.
use atof.Prelude.{
  ℕ, ◌≡◌, refl, subst, ◌∙◌, inl, inr, List, [], ◌∷◌, Bool, true, false, Option, none, some,
  Bool-cases, Option-cases, All, All-append, Result, ok, err,
}
use atof.Prelude.Maps.{lookup}
use atof.Voice.Packet.{serverbound}
use atof.Control.Packet.{Protobuf, ControlPacket}
use atof.Stammer.RoutingTable.{TableError, holds_session, expel_session}
use atof.Stammer.RoutingTask.{TextFields}
use atof.Stammer.ControlTask.{
  ControlMessage, packet, add_session, remove_session, RoutingMessage, voice, text, update,
  ControlState, Table, is_authenticate, handle_packet, after_expel, control_step,
}
use atof.Stammer.System.{
  System, FromSession, closes, Moves, control_message, voice_message, text_message, accept_stops,
  control_task, control_ends, routing_task, Reachable, start, moves,
}

module _ {protobuf : Protobuf} (fields : TextFields protobuf) (Sender : Type 0) where
  abbrev pub NoShutdown : RoutingMessage protobuf Sender → Type 0
  NoShutdown RoutingMessage.shutdown = ⊥
  NoShutdown _ = Unit {0}

  -- While the accept task runs, the control task does, its channel is open, and no shutdown waits in
  -- it. While the control task runs, the routing task's channel is open, and no shutdown waits in it.
  pub record Open (s : System fields Sender) : Type 0 where
    pub control_runs : s.accepting ≡ true → s.control_runs ≡ true
    pub control_open : s.accepting ≡ true → s.control.closed ≡ false
    pub no_control_shutdown : s.accepting ≡ true → All (FromSession fields Sender) s.to_control
    pub routing_open : s.control_runs ≡ true → s.routing_closed ≡ false
    pub no_routing_shutdown : s.control_runs ≡ true → All NoShutdown s.to_routing

  -- What a step of the control task leaves: its channel as it was, and no shutdown is sent.
  abbrev pub Quiet :
      Bool → Option (ControlState protobuf Sender × List (RoutingMessage protobuf Sender)) → Type 0
  Quiet closed none = Unit {0}
  Quiet closed (some (c, sent)) = (c.closed ≡ closed) × All NoShutdown sent

  abbrev Sends :
      Option (ControlState protobuf Sender × List (RoutingMessage protobuf Sender)) → Type 0
  Sends none = Unit {0}
  Sends (some (c, sent)) = All NoShutdown sent

  packet-Quiet :
      (id : ℕ) (p : ControlPacket protobuf serverbound) (s : ControlState protobuf Sender)
      → Quiet s.closed (control_step protobuf Sender (packet id p) s)
  unfolding control_step handle_packet
  packet-Quiet id p s = elim (Bool-cases (holds_session s.rtbl id)) [
    | inl held ↦ rw (control_step, handle_packet, held) (refl, tt)
    | inr fresh ↦ elim (Option-cases (lookup id s.unauth)) [
      | inl unknown ↦ rw (control_step, handle_packet, fresh, unknown) (refl, tt)
      | inr (session, found) ↦ elim (Bool-cases (is_authenticate protobuf Sender p)) [
        | inl auth ↦ rw (control_step, handle_packet, fresh, found, auth) (refl, (tt, tt))
        | inr bad ↦ rw (control_step, handle_packet, fresh, found, bad) (refl, tt)
      ]
    ]
  ]

  after_expel-Quiet :
      (s : ControlState protobuf Sender)
      (expelled : Option (Table protobuf Sender × Result TableError (Unit {0})))
      → Quiet s.closed (after_expel protobuf Sender s expelled)
  after_expel-Quiet s none = tt
  after_expel-Quiet s (some (rtbl, err e)) = (refl, tt)
  after_expel-Quiet s (some (rtbl, ok done)) = (refl, (tt, tt))

  pub control_step-Quiet :
      (m : ControlMessage protobuf Sender) (s : ControlState protobuf Sender)
      → FromSession fields Sender m
      → Quiet s.closed (control_step protobuf Sender m s)
  unfolding control_step
  control_step-Quiet (packet id p) s h = packet-Quiet id p s
  control_step-Quiet (add_session id session) s h = (refl, tt)
  control_step-Quiet (remove_session id) s h = elim (Option-cases (lookup id s.unauth)) [
    | inr (session, found) ↦ rw (found, control_step) (refl, tt)
    | inl absent ↦ rw (absent, control_step) (after_expel-Quiet s (expel_session s.rtbl id))
  ]
  control_step-Quiet ControlMessage.shutdown s h = elim h [ ]

  Quiet-Sends :
      (closed : Bool)
      (outcome : Option (ControlState protobuf Sender × List (RoutingMessage protobuf Sender)))
      → Quiet closed outcome
      → Sends outcome
  Quiet-Sends closed none h = tt
  Quiet-Sends closed (some (c, sent)) h = h.1

  control_step-Sends :
      (m : ControlMessage protobuf Sender) (s : ControlState protobuf Sender)
      → Sends (control_step protobuf Sender m s)
  unfolding control_step
  control_step-Sends ControlMessage.shutdown s = tt
  control_step-Sends (packet id p) s =
      Quiet-Sends s.closed (control_step protobuf Sender (packet id p) s)
        (control_step-Quiet (packet id p) s tt)
  control_step-Sends (add_session id x) s =
      Quiet-Sends s.closed (control_step protobuf Sender (add_session id x) s)
        (control_step-Quiet (add_session id x) s tt)
  control_step-Sends (remove_session id) s =
      Quiet-Sends s.closed (control_step protobuf Sender (remove_session id) s)
        (control_step-Quiet (remove_session id) s tt)

  NoShutdown-closes :
      (m : RoutingMessage protobuf Sender) (closed : Bool)
      → NoShutdown m
      → closes fields Sender m closed ≡ closed
  NoShutdown-closes RoutingMessage.shutdown closed h = elim h [ ]
  NoShutdown-closes (voice _ _) closed h = refl
  NoShutdown-closes (text _ _) closed h = refl
  NoShutdown-closes (update _) closed h = refl

  Moves-Open : {s s' : System fields Sender} → Moves fields Sender s s' → Open s → Open s'
  Moves-Open {s = s} (control_message m own open_channel) h = record {
    control_runs = h.control_runs;
    control_open = h.control_open;
    no_control_shutdown = λ on.
        All-append (FromSession fields Sender) s.to_control (m ∷ []) (h.no_control_shutdown on)
          (own, tt);
    routing_open = h.routing_open;
    no_routing_shutdown = h.no_routing_shutdown;
  }
  Moves-Open {s = s} (voice_message id p open_channel) h = record {
    control_runs = h.control_runs;
    control_open = h.control_open;
    no_control_shutdown = h.no_control_shutdown;
    routing_open = h.routing_open;
    no_routing_shutdown = λ on.
        All-append NoShutdown s.to_routing (voice id p ∷ []) (h.no_routing_shutdown on) (tt, tt);
  }
  Moves-Open {s = s} (text_message id msg open_channel) h = record {
    control_runs = h.control_runs;
    control_open = h.control_open;
    no_control_shutdown = h.no_control_shutdown;
    routing_open = h.routing_open;
    no_routing_shutdown = λ on.
        All-append NoShutdown s.to_routing (text id msg ∷ []) (h.no_routing_shutdown on) (tt, tt);
  }
  Moves-Open (accept_stops accepts) h = record {
    control_runs = λ on. absurd cc;
    control_open = λ on. absurd cc;
    no_control_shutdown = λ on. absurd cc;
    routing_open = h.routing_open;
    no_routing_shutdown = h.no_routing_shutdown;
  }
  Moves-Open {s = s} (control_task m ms c sent runs next stepped) h = record {
    control_runs = h.control_runs;
    control_open = λ on.
        let waiting = subst (All (FromSession fields Sender)) next (h.no_control_shutdown on) in
        let quiet : Quiet s.control.closed (some (c, sent)) =
          rw stepped at (control_step-Quiet m s.control waiting.0) in
        quiet.0 ∙ h.control_open on;
    no_control_shutdown =
        λ on. (subst (All (FromSession fields Sender)) next (h.no_control_shutdown on)).1;
    routing_open = h.routing_open;
    no_routing_shutdown = λ on.
        let sends : Sends (some (c, sent)) = rw stepped at (control_step-Sends m s.control) in
        All-append NoShutdown s.to_routing sent (h.no_routing_shutdown on) sends;
  }
  Moves-Open (control_ends runs closed empty) h = record {
    control_runs = λ on. let open_channel = h.control_open on in absurd cc;
    control_open = h.control_open;
    no_control_shutdown = h.no_control_shutdown;
    routing_open = λ on. absurd cc;
    no_routing_shutdown = λ on. absurd cc;
  }
  Moves-Open {s = s} (routing_task m ms t sent next stepped) h = record {
    control_runs = h.control_runs;
    control_open = h.control_open;
    no_control_shutdown = h.no_control_shutdown;
    routing_open = λ on.
        let waiting = subst (All NoShutdown) next (h.no_routing_shutdown on) in
        NoShutdown-closes m s.routing_closed waiting.0 ∙ h.routing_open on;
    no_routing_shutdown = λ on. (subst (All NoShutdown) next (h.no_routing_shutdown on)).1;
  }

  -- However the tasks of the server take turns: while the accept task runs, the control task runs and
  -- its channel is open, and while the control task runs, the routing task's channel is open. So no
  -- `expect` on a send fails.
  pub Reachable-Open : (s : System fields Sender) → Reachable fields Sender s → Open s
  Reachable-Open s start = record {
    control_runs = λ on. refl;
    control_open = λ on. refl;
    no_control_shutdown = λ on. tt;
    routing_open = λ on. refl;
    no_routing_shutdown = λ on. tt;
  }
  Reachable-Open s (moves {s = s0} before step) = Moves-Open step (Reachable-Open s0 before)

-- ===== src/Stammer/System/Coherence.antt =====
-- stammer/src/task_control.rs and task_routing.rs: in every interleaving, the two tasks' tables.
use atof.Prelude.{
  ◌≡◌, refl, sym, ap, subst, ◌∙◌, inl, inr, List, [], ◌∷◌, ◌++◌, Option, none, some, Option-cases,
  Result, ok, err,
}
use atof.Voice.Packet.{clientbound, ping, audio}
use atof.Control.Packet.{Protobuf, ControlPacket, tunnel}
use atof.Stammer.RoutingTable.{TableError, target_senders}
use atof.Stammer.Membership.{Valid, default-Valid}
use atof.Stammer.RoutingTask.{
  TextFields, Sent, route_voice, both, session_senders, rooms_senders, route_text, routing_step,
}
use atof.Stammer.ControlTask.{RoutingMessage, voice, text, update, ControlState, Table}
use atof.Stammer.Enrollment.{Step, same_table, new_table, control_step-Step}
use atof.Stammer.System.{
  System, Moves, control_message, voice_message, text_message, accept_stops, control_task,
  control_ends, routing_task, Reachable, start, moves,
}

module _ {protobuf : Protobuf} (fields : TextFields protobuf) (Sender : Type 0) where
  -- The table that the routing task will have when it has handled the messages.
  abbrev pub pending :
      List (RoutingMessage protobuf Sender) → Table protobuf Sender → Table protobuf Sender
  pending [] t = t
  pending (update rtbl ∷ ms) t = pending ms rtbl
  pending (voice _ _ ∷ ms) t = pending ms t
  pending (text _ _ ∷ ms) t = pending ms t
  pending (RoutingMessage.shutdown ∷ ms) t = pending ms t

  -- Every table that waits to be taken over is valid.
  abbrev pub ValidUpdates : List (RoutingMessage protobuf Sender) → Type 0
  ValidUpdates [] = Unit {0}
  ValidUpdates (update rtbl ∷ ms) = Valid rtbl × ValidUpdates ms
  ValidUpdates (voice _ _ ∷ ms) = ValidUpdates ms
  ValidUpdates (text _ _ ∷ ms) = ValidUpdates ms
  ValidUpdates (RoutingMessage.shutdown ∷ ms) = ValidUpdates ms

  pub record Coherent (s : System fields Sender) : Type 0 where
    pub control_valid : Valid s.control.rtbl
    pub table_valid : Valid s.table
    pub updates_valid : ValidUpdates s.to_routing
    pub agree : pending s.to_routing s.table ≡ s.control.rtbl

  pending-append :
      (ms ns : List (RoutingMessage protobuf Sender)) (t : Table protobuf Sender)
      → pending (ms ++ ns) t ≡ pending ns (pending ms t)
  pending-append [] ns t = refl
  pending-append (update rtbl ∷ ms) ns t = pending-append ms ns rtbl
  pending-append (voice _ _ ∷ ms) ns t = pending-append ms ns t
  pending-append (text _ _ ∷ ms) ns t = pending-append ms ns t
  pending-append (RoutingMessage.shutdown ∷ ms) ns t = pending-append ms ns t

  ValidUpdates-append :
      (ms ns : List (RoutingMessage protobuf Sender))
      → ValidUpdates ms
      → ValidUpdates ns
      → ValidUpdates (ms ++ ns)
  ValidUpdates-append [] ns h k = k
  ValidUpdates-append (update rtbl ∷ ms) ns h k = (h.0, ValidUpdates-append ms ns h.1 k)
  ValidUpdates-append (voice _ _ ∷ ms) ns h k = ValidUpdates-append ms ns h k
  ValidUpdates-append (text _ _ ∷ ms) ns h k = ValidUpdates-append ms ns h k
  ValidUpdates-append (RoutingMessage.shutdown ∷ ms) ns h k = ValidUpdates-append ms ns h k

  ValidUpdates-pending :
      (ms : List (RoutingMessage protobuf Sender)) (t : Table protobuf Sender)
      → ValidUpdates ms
      → Valid t
      → Valid (pending ms t)
  ValidUpdates-pending [] t h v = v
  ValidUpdates-pending (update rtbl ∷ ms) t h v = ValidUpdates-pending ms rtbl h.1 h.0
  ValidUpdates-pending (voice _ _ ∷ ms) t h v = ValidUpdates-pending ms t h v
  ValidUpdates-pending (text _ _ ∷ ms) t h v = ValidUpdates-pending ms t h v
  ValidUpdates-pending (RoutingMessage.shutdown ∷ ms) t h v = ValidUpdates-pending ms t h v

  ValidUpdates-cons :
      (m : RoutingMessage protobuf Sender) (ms : List (RoutingMessage protobuf Sender))
      → ValidUpdates (m ∷ ms)
      → ValidUpdates (m ∷ []) × ValidUpdates ms
  ValidUpdates-cons (update rtbl) ms h = ((h.0, tt), h.1)
  ValidUpdates-cons (voice _ _) ms h = (tt, h)
  ValidUpdates-cons (text _ _) ms h = (tt, h)
  ValidUpdates-cons RoutingMessage.shutdown ms h = (tt, h)

  abbrev Leads :
      ControlState protobuf Sender
      → ControlState protobuf Sender × List (RoutingMessage protobuf Sender)
      → Type 0
  Leads s (c, sent) = Valid c.rtbl × ValidUpdates sent × (pending sent s.rtbl ≡ c.rtbl)

  -- What a step of the control task sends leads from its old table to its new one.
  Step-pending :
      {s c : ControlState protobuf Sender} {sent : List (RoutingMessage protobuf Sender)}
      {outcome : Option (ControlState protobuf Sender × List (RoutingMessage protobuf Sender))}
      → Step s outcome
      → outcome ≡ some (c, sent)
      → Valid s.rtbl
      → Leads s (c, sent)
  Step-pending {s = s} {c = c} {sent = sent} (same_table s' same) e v =
      let got : (s', []) ≡ (c, sent) = cc in
      subst (Leads s) got (subst Valid (sym same) v, tt, sym same)
  Step-pending {s = s} {c = c} {sent = sent} (new_table s' valid) e v =
      let got : (s', update s'.rtbl ∷ []) ≡ (c, sent) = cc in
      subst (Leads s) got (valid, (valid, tt), refl)

  route_voice-table :
      (t0 t : Table protobuf Sender) (p : ControlPacket protobuf clientbound)
      (found : Option (Result TableError (List Sender))) (sent : List (Sent fields Sender))
      → route_voice fields Sender t0 p found ≡ some (t, sent)
      → t ≡ t0
  route_voice-table t0 t p none sent e = absurd cc
  route_voice-table t0 t p (some (err x)) sent e = cc
  route_voice-table t0 t p (some (ok senders)) sent e = cc

  -- A step of the routing task takes over a table, or leaves its own.
  routing_step-pending :
      (m : RoutingMessage protobuf Sender) (t0 t : Table protobuf Sender)
      (sent : List (Sent fields Sender))
      → routing_step fields Sender m t0 ≡ some (t, sent)
      → t ≡ pending (m ∷ []) t0
  unfolding routing_step route_text
  routing_step-pending (update rtbl) t0 t sent e = cc
  routing_step-pending RoutingMessage.shutdown t0 t sent e = cc
  routing_step-pending (voice id (ping _)) t0 t sent e = absurd cc
  routing_step-pending (voice id (audio target _ seq_num payload position_info)) t0 t sent e =
      route_voice-table t0 t (tunnel (audio target id seq_num payload position_info))
        (target_senders t0 id target) sent e
  routing_step-pending (text id msg) t0 t sent e =
      let msg' = fields.set_actor msg id in
      elim (Option-cases (
        both fields Sender (some (session_senders fields Sender t0 (fields.get_session msg')))
          (rooms_senders fields Sender t0 (fields.get_channel_id msg')))) [
            | inl panic ↦ let e' = rw (routing_step, route_text, panic) at e in absurd cc
            | inr (senders, found) ↦ let e' = rw (routing_step, route_text, found) at e in cc
          ]

  Moves-Coherent :
      {s s' : System fields Sender} → Moves fields Sender s s' → Coherent s → Coherent s'
  Moves-Coherent (control_message m own open_channel) h = record {
    control_valid = h.control_valid;
    table_valid = h.table_valid;
    updates_valid = h.updates_valid;
    agree = h.agree;
  }
  Moves-Coherent {s = s} (voice_message id packet open_channel) h = record {
    control_valid = h.control_valid;
    table_valid = h.table_valid;
    updates_valid = ValidUpdates-append s.to_routing (voice id packet ∷ []) h.updates_valid tt;
    agree = pending-append s.to_routing (voice id packet ∷ []) s.table ∙ h.agree;
  }
  Moves-Coherent {s = s} (text_message id msg open_channel) h = record {
    control_valid = h.control_valid;
    table_valid = h.table_valid;
    updates_valid = ValidUpdates-append s.to_routing (text id msg ∷ []) h.updates_valid tt;
    agree = pending-append s.to_routing (text id msg ∷ []) s.table ∙ h.agree;
  }
  Moves-Coherent (accept_stops accepts) h = record {
    control_valid = h.control_valid;
    table_valid = h.table_valid;
    updates_valid = h.updates_valid;
    agree = h.agree;
  }
  Moves-Coherent {s = s} (control_ends runs closed empty) h = record {
    control_valid = h.control_valid;
    table_valid = h.table_valid;
    updates_valid =
        ValidUpdates-append s.to_routing (RoutingMessage.shutdown ∷ []) h.updates_valid tt;
    agree = pending-append s.to_routing (RoutingMessage.shutdown ∷ []) s.table ∙ h.agree;
  }
  Moves-Coherent {s = s} (control_task m ms c sent runs next stepped) h =
      let (valid, updates, leads) =
        Step-pending (control_step-Step m s.control h.control_valid) stepped h.control_valid in
      record {
        control_valid = valid;
        table_valid = h.table_valid;
        updates_valid = ValidUpdates-append s.to_routing sent h.updates_valid updates;
        agree = pending-append s.to_routing sent s.table ∙ ap (pending sent) h.agree ∙ leads;
      }
  Moves-Coherent {s = s} (routing_task m ms t sent next stepped) h =
      let taken = routing_step-pending m s.table t sent stepped in
      let waiting : ValidUpdates (m ∷ ms) = subst ValidUpdates next h.updates_valid in
      let (first, rest) = ValidUpdates-cons m ms waiting in
      record {
        control_valid = h.control_valid;
        table_valid =
            subst Valid (sym taken) (ValidUpdates-pending (m ∷ []) s.table first h.table_valid);
        updates_valid = rest;
        agree =
            ap (pending ms) taken
            ∙ sym (pending-append (m ∷ []) ms s.table)
            ∙ ap (λ (q : List (RoutingMessage protobuf Sender)). pending q s.table) (sym next)
            ∙ h.agree;
      }

  -- However the steps of the sessions, of the control task and of the routing task follow one
  -- another from the server's start: the tables of both tasks are valid, and so is every table that
  -- waits for the routing task. The routing task will have the control task's table when it has
  -- handled the messages that wait for it.
  pub Reachable-Coherent : (s : System fields Sender) → Reachable fields Sender s → Coherent s
  Reachable-Coherent s start = record {
    control_valid = default-Valid;
    table_valid = default-Valid;
    updates_valid = tt;
    agree = refl;
  }
  Reachable-Coherent s (moves {s = s0} before step) =
      Moves-Coherent step (Reachable-Coherent s0 before)

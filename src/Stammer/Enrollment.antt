-- ===== src/Stammer/Enrollment.antt =====
-- stammer/src/task_control.rs and task_routing.rs: the two tasks' copies of the routing table.
use atof.Prelude.{
  ℕ, ◌≡◌, refl, sym, subst, inl, inr, List, [], ◌∷◌, ◌++◌, false, Option, some, Option-cases,
  Bool-cases, Result, ok, err,
}
use atof.Prelude.Maps.{lookup}
use atof.Voice.Packet.{serverbound}
use atof.Control.Packet.{Protobuf, ControlPacket}
use atof.Stammer.RoutingTable.{TableError, holds_session}
use atof.Stammer.Membership.{Valid}
use atof.Stammer.Operations.{enroll_session-Valid, expel_session-Valid}
use atof.Stammer.RoutingTask.{TextFields, routing_step, run_routing_task}
use atof.Stammer.ControlTask.{
  UnAuthSession, ControlMessage, packet, add_session, remove_session, RoutingMessage, update,
  ControlState, Table, is_authenticate, handle_packet, after_expel, control_step, run_control_task,
}

module _ {protobuf : Protobuf} {Sender : Type 0} where
  -- A step that is taken: the new state's table is valid, and the messages sent are an update to
  -- that table, or none if the table is the old one.
  pub data Step (s : ControlState protobuf Sender)
      : Option (ControlState protobuf Sender × List (RoutingMessage protobuf Sender)) → Type 0 where
    same_table : (s' : ControlState protobuf Sender) → s'.rtbl ≡ s.rtbl → Step s (some (s', []))
    new_table :
        (s' : ControlState protobuf Sender)
        → Valid s'.rtbl
        → Step s (some (s', update s'.rtbl ∷ []))

  authenticate-Step :
      (s : ControlState protobuf Sender) (id : ℕ) (session : UnAuthSession protobuf Sender)
      (p : ControlPacket protobuf serverbound)
      → Valid s.rtbl
      → holds_session s.rtbl id ≡ false
      → lookup id s.unauth ≡ some session
      → Step s (control_step protobuf Sender (packet id p) s)
  unfolding control_step handle_packet
  authenticate-Step s id session p v h found =
      elim (Bool-cases (is_authenticate protobuf Sender p)) [
        | inl auth ↦
            rw (control_step, handle_packet, h, found, auth)
              (new_table _ (enroll_session-Valid s.rtbl id session.version session.send v h))
        | inr bad ↦ rw (control_step, handle_packet, h, found, bad) (same_table _ refl)
      ]

  packet-Step :
      (s : ControlState protobuf Sender) (id : ℕ) (p : ControlPacket protobuf serverbound)
      → Valid s.rtbl
      → Step s (control_step protobuf Sender (packet id p) s)
  unfolding control_step handle_packet
  packet-Step s id p v = elim (Bool-cases (holds_session s.rtbl id)) [
    | inl held ↦ rw (control_step, handle_packet, held) (same_table _ refl)
    | inr fresh ↦ elim (Option-cases (lookup id s.unauth)) [
      | inl unknown ↦ rw (control_step, handle_packet, fresh, unknown) (same_table _ refl)
      | inr (session, found) ↦ authenticate-Step s id session p v fresh found
    ]
  ]

  after_expel-Step :
      (s : ControlState protobuf Sender) (rtbl : Table protobuf Sender)
      (result : Result TableError (Unit {0}))
      → Valid rtbl
      → ((e : TableError) → result ≡ err e → rtbl ≡ s.rtbl)
      → Step s (after_expel protobuf Sender s (some (rtbl, result)))
  after_expel-Step s rtbl (ok done) v same = new_table _ v
  after_expel-Step s rtbl (err e) v same = same_table _ (same e refl)

  pub control_step-Step :
      (m : ControlMessage protobuf Sender) (s : ControlState protobuf Sender)
      → Valid s.rtbl
      → Step s (control_step protobuf Sender m s)
  unfolding control_step
  control_step-Step (packet id p) s v = packet-Step s id p v
  control_step-Step (add_session id session) s v = same_table _ refl
  control_step-Step ControlMessage.shutdown s v = same_table _ refl
  control_step-Step (remove_session id) s v = elim (Option-cases (lookup id s.unauth)) [
    | inr (session, found) ↦ rw (control_step, found) (same_table _ refl)
    | inl absent ↦
        let (rtbl, result, expelled, valid, _, _, same) = expel_session-Valid s.rtbl id v in
        rw (control_step, absent, expelled) (after_expel-Step s rtbl result valid same)
  ]

  -- After a step, the routing task that held the old table holds the new one, and then goes on.
  pub Step-follows :
      (s : ControlState protobuf Sender)
      {outcome : Option (ControlState protobuf Sender × List (RoutingMessage protobuf Sender))}
      → Step s outcome
      → Valid s.rtbl
      → (s' : ControlState protobuf Sender) × (sent : List (RoutingMessage protobuf Sender))
        × (outcome ≡ some (s', sent))
        × Valid s'.rtbl
        × ((fields : TextFields protobuf) (later : List (RoutingMessage protobuf Sender))
              (t : Table protobuf Sender)
            → run_routing_task fields Sender later s'.rtbl ≡ some (t, [])
            → run_routing_task fields Sender (sent ++ later) s.rtbl ≡ some (t, []))
  Step-follows s (same_table s' same) v = (
    s',
    [],
    refl,
    subst Valid (sym same) v,
    λ fields later t e.
        subst (λ (r : Table protobuf Sender). run_routing_task fields Sender later r ≡ some (t, []))
          same e,
  )
  Step-follows s (new_table s' valid) v = (
    s',
    update s'.rtbl ∷ [],
    refl,
    valid,
    λ fields later t e. unfold run_routing_task routing_step in rw e refl,
  )

  pub run_control_task-cons :
      (m : ControlMessage protobuf Sender) (ms : List (ControlMessage protobuf Sender))
      (s : ControlState protobuf Sender) {s1 s2 : ControlState protobuf Sender}
      {sent later : List (RoutingMessage protobuf Sender)}
      → control_step protobuf Sender m s ≡ some (s1, sent)
      → run_control_task protobuf Sender ms s1 ≡ some (s2, later)
      → run_control_task protobuf Sender (m ∷ ms) s ≡ some (s2, sent ++ later)
  unfolding run_control_task
  run_control_task-cons m ms s stepped ran = rw (run_control_task, stepped, ran) refl

  -- From a valid table, the control task never panics, whatever messages it gets and in whatever
  -- order. It ends with a valid table, and a routing task that starts with the same table and gets
  -- the messages sent to it ends with that table too, without sending anything itself.
  pub run_control_task-follows :
      (ms : List (ControlMessage protobuf Sender)) (s : ControlState protobuf Sender)
      → Valid s.rtbl
      → (s' : ControlState protobuf Sender) × (sent : List (RoutingMessage protobuf Sender))
        × (run_control_task protobuf Sender ms s ≡ some (s', sent))
        × Valid s'.rtbl
        × ((fields : TextFields protobuf)
            → run_routing_task fields Sender sent s.rtbl ≡ some (s'.rtbl, []))
  run_control_task-follows [] s v = (
    s,
    RoutingMessage.shutdown ∷ [],
    unfold run_control_task in refl,
    v,
    λ fields. unfold run_routing_task routing_step in refl,
  )
  run_control_task-follows (m ∷ ms) s v =
      let (s1, sent, stepped, valid, follows) = Step-follows s (control_step-Step m s v) v in
      let (s2, later, ran, valid', end) = run_control_task-follows ms s1 valid in
      (
        s2,
        sent ++ later,
        run_control_task-cons m ms s stepped ran,
        valid',
        λ fields. follows fields later s2.rtbl (end fields),
      )

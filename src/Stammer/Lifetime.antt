-- ===== src/Stammer/Lifetime.antt =====
-- stammer/src/task_control.rs: a session from the message that adds it to the one that removes it.
use atof.Prelude.{
  ℕ, ◌≡◌, refl, subst, ◌⊎◌, inl, inr, List, [], ◌∷◌, ◌++◌, true, false, none, some, Option-cases,
  Result, ok, err, All,
}
use atof.Prelude.Maps.{lookup, insert, remove, contains_key, lookup-remove_self}
use atof.Voice.Packet.{serverbound}
use atof.Control.Packet.{Protobuf, ControlPacket}
use atof.Stammer.RoutingTable.{TableError, holds_session}
use atof.Stammer.Membership.{Valid}
use atof.Stammer.Operations.{expel_session-Valid}
use atof.Stammer.ControlTask.{
  UnAuthSession, ControlMessage, packet, add_session, remove_session, RoutingMessage, ControlState,
  Table, is_authenticate, handle_packet, after_expel, control_step, run_control_task,
}
use atof.Stammer.Enrollment.{Step-follows, control_step-Step, run_control_task-cons}
use atof.Stammer.Authentication.{control_step-Enrolls}
use atof.Stammer.Removal.{Gone, Unadded, same_unauth, control_step-waiting, run_control_task-Gone}

module _ (protobuf : Protobuf) (Sender : Type 0) where
  -- A session does not wait for its authentication while the table holds it.
  abbrev Apart : ℕ → ControlState protobuf Sender → Type 0
  Apart id s = (lookup id s.unauth ≡ none) ⊎ (lookup id s.rtbl.sessions ≡ none)

  packet-authenticated :
      (p : ControlPacket protobuf serverbound) (s s' : ControlState protobuf Sender)
      (sent : List (RoutingMessage protobuf Sender)) (id : ℕ) (u : UnAuthSession protobuf Sender)
      → control_step protobuf Sender (packet id p) s ≡ some (s', sent)
      → lookup id s.rtbl.sessions ≡ none
      → lookup id s.unauth ≡ some u
      → is_authenticate protobuf Sender p ≡ true
      → lookup id s'.unauth ≡ none
  unfolding control_step handle_packet
  packet-authenticated p s s' sent id u e absent found auth =
      let fresh : holds_session s.rtbl id ≡ false = rw (holds_session, contains_key, absent) refl in
      same_unauth protobuf Sender id (rw (control_step, handle_packet, fresh, found, auth) at e)
        (lookup-remove_self id s.unauth)

  control_step-Apart :
      (m : ControlMessage protobuf Sender) (s s' : ControlState protobuf Sender)
      (sent : List (RoutingMessage protobuf Sender)) (id : ℕ)
      → Valid s.rtbl
      → Unadded id m
      → control_step protobuf Sender m s ≡ some (s', sent)
      → Apart id s
      → Apart id s'
  control_step-Apart m s s' sent id v unadded e (inl waits) =
      inl (control_step-waiting protobuf Sender m s s' sent id v unadded e waits)
  control_step-Apart m s s' sent id v unadded e (inr absent) =
      elim (Option-cases (lookup id s'.rtbl.sessions)) [
        | inl still ↦ inr still
        | inr (x, present) ↦
            let (p, u, same, auth, found, _) =
              control_step-Enrolls m s s' sent id x v e absent present in
            inl (
              packet-authenticated p s s' sent id u
                (subst
                  (λ (n : ControlMessage protobuf Sender).
                    control_step protobuf Sender n s ≡ some (s', sent))
                  same e)
                absent found auth)
      ]

  after_expel-Gone :
      (s s' : ControlState protobuf Sender) (sent : List (RoutingMessage protobuf Sender)) (id : ℕ)
      (rtbl : Table protobuf Sender) (result : Result TableError (Unit {0}))
      → after_expel protobuf Sender s (some (rtbl, result)) ≡ some (s', sent)
      → lookup id s.unauth ≡ none
      → lookup id rtbl.sessions ≡ none
      → Gone id s'
  after_expel-Gone s s' sent id rtbl (ok done) e waits absent =
      let same : record s { rtbl = rtbl } ≡ s' = cc in subst (Gone id) same (waits, absent)
  after_expel-Gone s s' sent id rtbl (err error) e waits absent =
      let same : record s { rtbl = rtbl } ≡ s' = cc in subst (Gone id) same (waits, absent)

  remove_session-Gone :
      (s s' : ControlState protobuf Sender) (sent : List (RoutingMessage protobuf Sender)) (id : ℕ)
      → Valid s.rtbl
      → control_step protobuf Sender (remove_session id) s ≡ some (s', sent)
      → Apart id s
      → Gone id s'
  unfolding control_step
  remove_session-Gone s s' sent id v e apart = elim (Option-cases (lookup id s.unauth)) [
    | inl unknown ↦
        let (rtbl, result, expelled, _, gone, _, _) = expel_session-Valid s.rtbl id v in
        after_expel-Gone s s' sent id rtbl result (rw (control_step, unknown, expelled) at e)
          unknown gone
    | inr (u, found) ↦
        let e' = rw (control_step, found) at e in
        let same : record s { unauth = remove id s.unauth } ≡ s' = cc in
        elim apart [
          | inl waits ↦ absurd cc
          | inr absent ↦ subst (Gone id) same (lookup-remove_self id s.unauth, absent)
        ]
  ]

  -- From a session that is apart, past its removal.
  until_removed :
      (before after : List (ControlMessage protobuf Sender)) (s : ControlState protobuf Sender)
      (id : ℕ)
      → Valid s.rtbl
      → All (Unadded id) before
      → All (Unadded id) after
      → Apart id s
      → (s' : ControlState protobuf Sender) × (sent : List (RoutingMessage protobuf Sender))
        × (run_control_task protobuf Sender (before ++ (remove_session id ∷ after)) s
            ≡ some (s', sent))
        × Gone id s'
  until_removed [] after s id v _ unadded apart =
      let (s1, sent, stepped, valid, _) =
        Step-follows s (control_step-Step (remove_session id) s v) v in
      let (s2, later, ran, gone) =
        run_control_task-Gone protobuf Sender after s1 id valid unadded
          (remove_session-Gone s s1 sent id v stepped apart) in
      (s2, sent ++ later, run_control_task-cons (remove_session id) after s stepped ran, gone)
  until_removed (m ∷ before) after s id v (first, unadded) rest apart =
      let (s1, sent, stepped, valid, _) = Step-follows s (control_step-Step m s v) v in
      let (s2, later, ran, gone) =
        until_removed before after s1 id valid unadded rest
          (control_step-Apart m s s1 sent id v first stepped apart) in
      (s2, sent ++ later, run_control_task-cons m _ s stepped ran, gone)

  added :
      (id : ℕ) (u : UnAuthSession protobuf Sender) (s : ControlState protobuf Sender)
      → control_step protobuf Sender (add_session id u) s
        ≡ some (record s { unauth = insert id u s.unauth }, [])
  unfolding control_step
  added id u s = refl

  -- A session that the control task, with a valid table, knows nothing of, and that is added once
  -- and later removed, is gone when all messages are handled, whatever the other messages are and
  -- wherever they stand: it neither waits nor is in the table.
  pub run_control_task-lifetime :
      (before after : List (ControlMessage protobuf Sender)) (s : ControlState protobuf Sender)
      (id : ℕ) (u : UnAuthSession protobuf Sender)
      → Valid s.rtbl
      → All (Unadded id) before
      → All (Unadded id) after
      → Gone id s
      → (s' : ControlState protobuf Sender) × (sent : List (RoutingMessage protobuf Sender))
        × (run_control_task protobuf Sender
              (add_session id u ∷ (before ++ (remove_session id ∷ after)))
              s
            ≡ some (s', sent))
        × Gone id s'
  run_control_task-lifetime before after s id u v unadded rest (waits, absent) =
      let s1 : ControlState protobuf Sender = record s { unauth = insert id u s.unauth } in
      let (s2, later, ran, gone) = until_removed before after s1 id v unadded rest (inr absent) in
      (s2, [] ++ later, run_control_task-cons (add_session id u) _ s (added id u s) ran, gone)

-- ===== src/Stammer/Removal.antt =====
-- stammer/src/task_control.rs: sessions that are gone.
use atof.Prelude.{
  ℕ, ◌≡◌, ◌≢◌, refl, sym, ap, ◌∙◌, inl, inr, List, [], ◌∷◌, ◌++◌, none, some, Option-cases,
  Bool-cases, ℕ_discrete, Result, ok, err, All,
}
use atof.Prelude.Maps.{lookup, remove, lookup-insert_other, lookup-remove_self, lookup-remove_other}
use atof.Voice.Packet.{serverbound}
use atof.Control.Packet.{Protobuf, ControlPacket}
use atof.Stammer.RoutingTable.{TableError, holds_session}
use atof.Stammer.Membership.{Valid}
use atof.Stammer.Operations.{expel_session-Valid}
use atof.Stammer.ControlTask.{
  UnAuthSession, ControlMessage, packet, add_session, remove_session, RoutingMessage, ControlState,
  Table, is_authenticate, handle_packet, after_expel, control_step, run_control_task,
}
use atof.Stammer.Enrollment.{Step-follows, control_step-Step, run_control_task-cons}
use atof.Stammer.Authentication.{control_step-Enrolls}

module _ {protobuf : Protobuf} {Sender : Type 0} where
  -- The control task knows nothing of a session.
  abbrev pub Gone : ℕ → ControlState protobuf Sender → Type 0
  Gone id s = (lookup id s.unauth ≡ none) × (lookup id s.rtbl.sessions ≡ none)

  -- No message adds the session.
  abbrev pub Unadded : ℕ → ControlMessage protobuf Sender → Type 0
  Unadded id m = (u : UnAuthSession protobuf Sender) → m ≢ add_session id u

module _ (protobuf : Protobuf) (Sender : Type 0) where
  lookup-remove-none :
      {V : Type 0} (id k : ℕ) (m : List (ℕ × V))
      → lookup id m ≡ none
      → lookup id (remove k m) ≡ none
  lookup-remove-none id k m absent = elim (ℕ_discrete id k) [
    | yes same ↦ ap (λ (j : ℕ). lookup j (remove k m)) same ∙ lookup-remove_self k m
    | no differ ↦ lookup-remove_other id k m differ ∙ absent
  ]

  pub same_unauth :
      {s' : ControlState protobuf Sender} {sent : List (RoutingMessage protobuf Sender)}
      {o : ControlState protobuf Sender × List (RoutingMessage protobuf Sender)} (id : ℕ)
      → some o ≡ some (s', sent)
      → lookup id o.0.unauth ≡ none
      → lookup id s'.unauth ≡ none
  same_unauth {s' = s'} {o = o} id e absent =
      let same : o.0 ≡ s' = cc in
      sym (ap (λ (r : ControlState protobuf Sender). lookup id r.unauth) same) ∙ absent

  packet-waiting :
      (k : ℕ) (p : ControlPacket protobuf serverbound) (s s' : ControlState protobuf Sender)
      (sent : List (RoutingMessage protobuf Sender)) (id : ℕ)
      → control_step protobuf Sender (packet k p) s ≡ some (s', sent)
      → lookup id s.unauth ≡ none
      → lookup id s'.unauth ≡ none
  unfolding control_step handle_packet
  packet-waiting k p s s' sent id e absent = elim (Bool-cases (holds_session s.rtbl k)) [
    | inl held ↦ same_unauth id (rw (control_step, handle_packet, held) at e) absent
    | inr fresh ↦ elim (Option-cases (lookup k s.unauth)) [
      | inl unknown ↦ same_unauth id (rw (control_step, handle_packet, fresh, unknown) at e) absent
      | inr (u, found) ↦
          let gone = lookup-remove-none id k s.unauth absent in
          elim (Bool-cases (is_authenticate protobuf Sender p)) [
            | inl auth ↦
                same_unauth id (rw (control_step, handle_packet, fresh, found, auth) at e) gone
            | inr bad ↦
                same_unauth id (rw (control_step, handle_packet, fresh, found, bad) at e) gone
          ]
    ]
  ]

  after_expel-waiting :
      (s s' : ControlState protobuf Sender) (sent : List (RoutingMessage protobuf Sender)) (id : ℕ)
      (rtbl : Table protobuf Sender) (result : Result TableError (Unit {0}))
      → after_expel protobuf Sender s (some (rtbl, result)) ≡ some (s', sent)
      → lookup id s.unauth ≡ none
      → lookup id s'.unauth ≡ none
  after_expel-waiting s s' sent id rtbl (ok done) e absent = same_unauth id e absent
  after_expel-waiting s s' sent id rtbl (err error) e absent = same_unauth id e absent

  -- Only the message that adds a session makes it wait.
  pub control_step-waiting :
      (m : ControlMessage protobuf Sender) (s s' : ControlState protobuf Sender)
      (sent : List (RoutingMessage protobuf Sender)) (id : ℕ)
      → Valid s.rtbl
      → Unadded id m
      → control_step protobuf Sender m s ≡ some (s', sent)
      → lookup id s.unauth ≡ none
      → lookup id s'.unauth ≡ none
  unfolding control_step
  control_step-waiting (packet k p) s s' sent id v unadded e absent =
      packet-waiting k p s s' sent id e absent
  control_step-waiting (add_session k u) s s' sent id v unadded e absent = elim (ℕ_discrete id k) [
    | yes same ↦ absurd (unadded u (ap (λ (j : ℕ). add_session j u) (sym same)))
    | no differ ↦ same_unauth id e (lookup-insert_other id k u s.unauth differ ∙ absent)
  ]
  control_step-waiting ControlMessage.shutdown s s' sent id v unadded e absent =
      same_unauth id e absent
  control_step-waiting (remove_session k) s s' sent id v unadded e absent =
      elim (Option-cases (lookup k s.unauth)) [
        | inr (u, found) ↦
            same_unauth id (rw (control_step, found) at e) (lookup-remove-none id k s.unauth absent)
        | inl unknown ↦
            let (rtbl, result, expelled, _, _, _, _) = expel_session-Valid s.rtbl k v in
            after_expel-waiting s s' sent id rtbl result (rw (control_step, unknown, expelled) at e)
              absent
      ]

  control_step-Gone :
      (m : ControlMessage protobuf Sender) (s s' : ControlState protobuf Sender)
      (sent : List (RoutingMessage protobuf Sender)) (id : ℕ)
      → Valid s.rtbl
      → Unadded id m
      → control_step protobuf Sender m s ≡ some (s', sent)
      → Gone id s
      → Gone id s'
  control_step-Gone m s s' sent id v unadded e (waits, absent) = (
    control_step-waiting m s s' sent id v unadded e waits,
    elim (Option-cases (lookup id s'.rtbl.sessions)) [
      | inl still ↦ still
      | inr (x, present) ↦
          let (p, u, _, _, found, _) = control_step-Enrolls m s s' sent id x v e absent present in
          absurd cc
    ],
  )

  -- A session that is gone from a valid control task stays gone, whatever messages come, as long as
  -- none of them adds it.
  pub run_control_task-Gone :
      (ms : List (ControlMessage protobuf Sender)) (s : ControlState protobuf Sender) (id : ℕ)
      → Valid s.rtbl
      → All (Unadded id) ms
      → Gone id s
      → (s' : ControlState protobuf Sender) × (sent : List (RoutingMessage protobuf Sender))
        × (run_control_task protobuf Sender ms s ≡ some (s', sent))
        × Gone id s'
  run_control_task-Gone [] s id v unadded gone =
      (s, RoutingMessage.shutdown ∷ [], unfold run_control_task in refl, gone)
  run_control_task-Gone (m ∷ ms) s id v (first, unadded) gone =
      let (s1, sent, stepped, valid, _) = Step-follows s (control_step-Step m s v) v in
      let (s2, later, ran, gone') =
        run_control_task-Gone ms s1 id valid unadded
          (control_step-Gone m s s1 sent id v first stepped gone) in
      (s2, sent ++ later, run_control_task-cons m ms s stepped ran, gone')

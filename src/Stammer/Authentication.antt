-- ===== src/Stammer/Authentication.antt =====
-- stammer/src/task_control.rs: how a session comes into the routing table.
use atof.Prelude.{
  ℕ, ◌≡◌, ◌≢◌, sym, ap, subst, ◌∙◌, inl, inr, List, true, none, some, Option-cases, Bool-cases,
  ℕ_discrete, Result, ok, err,
}
use atof.Prelude.Maps.{lookup, insert, lookup-insert_self, lookup-insert_other}
use atof.Voice.Packet.{serverbound}
use atof.Control.Packet.{version, Protobuf, ControlPacket}
use atof.Stammer.RoutingTable.{TableError, Session, holds_session, enroll_session}
use atof.Stammer.Membership.{Valid}
use atof.Stammer.Operations.{expel_session-Valid}
use atof.Stammer.ControlTask.{
  UnAuthSession, ControlMessage, packet, add_session, remove_session, RoutingMessage, ControlState,
  Table, is_authenticate, handle_packet, after_expel, control_step,
}

module _ {protobuf : Protobuf} {Sender : Type 0} where
  -- The message that enrols a session: an `Authenticate` packet from a session that waits for it.
  abbrev pub Enrolls :
      ControlMessage protobuf Sender
      → ControlState protobuf Sender
      → ℕ
      → Session (protobuf.Message version) Sender
      → Type 0
  Enrolls m s id x =
      (p : ControlPacket protobuf serverbound) × (u : UnAuthSession protobuf Sender) × (m
        ≡ packet id p)
      × (is_authenticate protobuf Sender p ≡ true)
      × (lookup id s.unauth ≡ some u)
      × (x ≡ record { room_id = 0; version = u.version; sender = u.send })

  same_table :
      {s' : ControlState protobuf Sender} {sent : List (RoutingMessage protobuf Sender)}
      {o : ControlState protobuf Sender × List (RoutingMessage protobuf Sender)} (id : ℕ)
      (x : Session (protobuf.Message version) Sender)
      → some o ≡ some (s', sent)
      → lookup id o.0.rtbl.sessions ≡ none
      → lookup id s'.rtbl.sessions ≡ some x
      → ⊥
  same_table {s' = s'} {o = o} id x e absent present =
      let same : o.0 ≡ s' = cc in
      let e' = ap (λ (r : ControlState protobuf Sender). lookup id r.rtbl.sessions) same in cc

  enroll_lookup :
      (t : Table protobuf Sender) (id k : ℕ) (u : UnAuthSession protobuf Sender)
      (x : Session (protobuf.Message version) Sender)
      → lookup id t.sessions ≡ none
      → lookup id (enroll_session t k u.version u.send).sessions ≡ some x
      → (k ≡ id) × (x ≡ record { room_id = 0; version = u.version; sender = u.send })
  unfolding enroll_session
  enroll_lookup t id k u x absent present = elim (ℕ_discrete id k) [
    | no differ ↦
        let other =
          lookup-insert_other id k (record { room_id = 0; version = u.version; sender = u.send })
            t.sessions differ in
        absurd cc
    | yes same ↦
        let here =
          lookup-insert_self id (record { room_id = 0; version = u.version; sender = u.send })
            t.sessions in
        let present' =
          subst
            (λ (j : ℕ).
              lookup id
                (insert j (record { room_id = 0; version = u.version; sender = u.send }) t.sessions)
              ≡ some x)
            (sym same) present in
        (sym same, cc)
  ]

  packet-Enrolls :
      (k : ℕ) (p : ControlPacket protobuf serverbound) (s s' : ControlState protobuf Sender)
      (sent : List (RoutingMessage protobuf Sender)) (id : ℕ)
      (x : Session (protobuf.Message version) Sender)
      → control_step protobuf Sender (packet k p) s ≡ some (s', sent)
      → lookup id s.rtbl.sessions ≡ none
      → lookup id s'.rtbl.sessions ≡ some x
      → Enrolls (packet k p) s id x
  unfolding control_step handle_packet
  packet-Enrolls k p s s' sent id x e absent present = elim (Bool-cases (holds_session s.rtbl k)) [
    | inl held ↦
        absurd (same_table id x (rw (control_step, handle_packet, held) at e) absent present)
    | inr fresh ↦ elim (Option-cases (lookup k s.unauth)) [
      | inl unknown ↦
          absurd
            (same_table id x (rw (control_step, handle_packet, fresh, unknown) at e) absent present)
      | inr (u, found) ↦ elim (Bool-cases (is_authenticate protobuf Sender p)) [
        | inr bad ↦ absurd (
            same_table id x (rw (control_step, handle_packet, fresh, found, bad) at e) absent
              present)
        | inl auth ↦
            let e' = rw (control_step, handle_packet, fresh, found, auth) at e in
            let table : s'.rtbl ≡ enroll_session s.rtbl k u.version u.send = cc in
            let (same, new) = enroll_lookup s.rtbl id k u x absent (
              subst (λ (t : Table protobuf Sender). lookup id t.sessions ≡ some x) table present) in
            (
              p,
              u,
              ap (λ (j : ℕ). packet j p) same,
              auth,
              subst (λ (j : ℕ). lookup j s.unauth ≡ some u) same found,
              new,
            )
      ]
    ]
  ]

  expel-absent :
      (s : ControlState protobuf Sender) (k id : ℕ) (rtbl : Table protobuf Sender)
      → lookup id s.rtbl.sessions ≡ none
      → lookup k rtbl.sessions ≡ none
      → ((other : ℕ) → other ≢ k → lookup other rtbl.sessions ≡ lookup other s.rtbl.sessions)
      → lookup id rtbl.sessions ≡ none
  expel-absent s k id rtbl absent gone kept = elim (ℕ_discrete id k) [
    | yes same ↦ ap (λ (j : ℕ). lookup j rtbl.sessions) same ∙ gone
    | no differ ↦ kept id differ ∙ absent
  ]

  after_expel-absent :
      (s s' : ControlState protobuf Sender) (sent : List (RoutingMessage protobuf Sender)) (id : ℕ)
      (x : Session (protobuf.Message version) Sender) (rtbl : Table protobuf Sender)
      (result : Result TableError (Unit {0}))
      → after_expel protobuf Sender s (some (rtbl, result)) ≡ some (s', sent)
      → lookup id rtbl.sessions ≡ none
      → lookup id s'.rtbl.sessions ≡ some x
      → ⊥
  after_expel-absent s s' sent id x rtbl (ok done) e absent present =
      same_table id x e absent present
  after_expel-absent s s' sent id x rtbl (err error) e absent present =
      same_table id x e absent present

  -- A step brings a session into a valid table only if it handles an `Authenticate` packet from it
  -- while the session waits for its authentication. The session then is in room 0, with the version
  -- and the sender that it was added with.
  pub control_step-Enrolls :
      (m : ControlMessage protobuf Sender) (s s' : ControlState protobuf Sender)
      (sent : List (RoutingMessage protobuf Sender)) (id : ℕ)
      (x : Session (protobuf.Message version) Sender)
      → Valid s.rtbl
      → control_step protobuf Sender m s ≡ some (s', sent)
      → lookup id s.rtbl.sessions ≡ none
      → lookup id s'.rtbl.sessions ≡ some x
      → Enrolls m s id x
  unfolding control_step
  control_step-Enrolls (packet k p) s s' sent id x v e absent present =
      packet-Enrolls k p s s' sent id x e absent present
  control_step-Enrolls (add_session k session) s s' sent id x v e absent present =
      absurd (same_table id x e absent present)
  control_step-Enrolls ControlMessage.shutdown s s' sent id x v e absent present =
      absurd (same_table id x e absent present)
  control_step-Enrolls (remove_session k) s s' sent id x v e absent present =
      elim (Option-cases (lookup k s.unauth)) [
        | inr (u, found) ↦ absurd (same_table id x (rw (control_step, found) at e) absent present)
        | inl unknown ↦
            let (rtbl, result, expelled, valid, gone, kept, _) = expel_session-Valid s.rtbl k v in
            absurd (
              after_expel-absent s s' sent id x rtbl result
                (rw (control_step, unknown, expelled) at e)
                (expel-absent s k id rtbl absent gone kept) present)
      ]

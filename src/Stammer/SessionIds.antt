-- ===== src/Stammer/SessionIds.antt =====
-- stammer/src/task_accept.rs: the ids that sessions get.
use atof.Prelude.{
  ℕ, zero, suc, ◌^◌, ◌≤◌, ◌<◌, ◌≡◌, ◌≢◌, refl, sym, ap, subst, ◌∙◌, List, [], ◌∷◌, ◌++◌, none, some,
  arith, length, length-append, get_or, dec_lt, ok, err,
}
use atof.Prelude.Words.{u32}
use atof.Control.Packet.{Protobuf}
use atof.Stammer.ControlTask.{ControlMessage}
use atof.Stammer.AcceptTask.{AcceptEvent, stop_notified, connection, run_accept_task}

get_or-append_left :
    (xs ys : List ℕ) (i : ℕ) → i < length xs → get_or (xs ++ ys) i 0 ≡ get_or xs i 0
get_or-append_left [] ys i h = absurd (omega (arith, h))
get_or-append_left (x ∷ xs) ys zero h = refl
get_or-append_left (x ∷ xs) ys (suc i) h = get_or-append_left xs ys i (omega arith)

get_or-append_end : (xs : List ℕ) (v : ℕ) → get_or (xs ++ (v ∷ [])) (length xs) 0 ≡ v
get_or-append_end [] v = refl
get_or-append_end (x ∷ xs) v = get_or-append_end xs v

-- The ids are the positions, reduced to 32 bits.
abbrev Numbered : List ℕ → Type 0
Numbered sessions = (i : ℕ) → i < length sessions → get_or sessions i 0 ≡ u32 i

Numbered-next :
    (sessions : List ℕ) → Numbered sessions → Numbered (sessions ++ (u32 (length sessions) ∷ []))
Numbered-next sessions h i below = elim (dec_lt i (length sessions)) [
  | yes old ↦ get_or-append_left sessions _ i old ∙ h i old
  | no new ↦
      let last : i ≡ length sessions =
        omega (arith, length-append sessions (u32 (length sessions) ∷ [])) in
      ap (λ (j : ℕ). get_or (sessions ++ (u32 (length sessions) ∷ [])) j 0) last
      ∙ get_or-append_end sessions (u32 (length sessions))
      ∙ ap u32 (sym last)
]

module _ (protobuf : Protobuf) (Sender : Type 0) where
  run_accept_task-Numbered :
      (sessions : List ℕ) (events : List AcceptEvent) (ids : List ℕ)
      (sent : List (ControlMessage protobuf Sender))
      → Numbered sessions
      → run_accept_task protobuf Sender sessions events ≡ some (ids, sent)
      → Numbered ids
  unfolding run_accept_task
  run_accept_task-Numbered sessions [] ids sent h e =
      let same : sessions ≡ ids = cc in subst Numbered same h
  run_accept_task-Numbered sessions (stop_notified ∷ events) ids sent h e =
      let same : sessions ≡ ids = cc in subst Numbered same h
  run_accept_task-Numbered sessions (connection none ∷ events) ids sent h e = absurd cc
  run_accept_task-Numbered sessions (connection (some (err _)) ∷ events) ids sent h e =
      let same : sessions ≡ ids = cc in subst Numbered same h
  run_accept_task-Numbered sessions (connection (some (ok _)) ∷ events) ids sent h e =
      run_accept_task-Numbered (sessions ++ (u32 (length sessions) ∷ [])) events ids sent
        (Numbered-next sessions h) e

  -- The ids of any two sessions differ, as long as the accept task has started at most 2 ^ 32.
  pub run_accept_task-distinct :
      (events : List AcceptEvent) (ids : List ℕ) (sent : List (ControlMessage protobuf Sender))
      (i j : ℕ)
      → run_accept_task protobuf Sender [] events ≡ some (ids, sent)
      → length ids ≤ 2 ^ 32
      → i < j
      → j < length ids
      → get_or ids i 0 ≢ get_or ids j 0
  run_accept_task-distinct events ids sent i j e few order inside same =
      let numbered =
        run_accept_task-Numbered [] events ids sent (λ k h. absurd (omega (arith, h))) e in
      omega (arith, same, numbered i (omega arith), numbered j inside)

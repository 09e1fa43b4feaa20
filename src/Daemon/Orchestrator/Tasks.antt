-- ===== src/Daemon/Orchestrator/Tasks.antt =====
-- crates/archangeld/src/orchestrator.rs: what a task sends.
use archangel.Common.{◌≡◌, refl, ◌∙◌, ◌⊎◌, inl, inr, Bool, true, false, List, Result, ok}
use archangel.Common.Text.{Str, str}
use archangel.Audit.{AuditEvent}
use archangel.Daemon.Prompt.{response_is_compromised}
use archangel.Daemon.Response.{parse_model_response}
use archangel.Daemon.Orchestrator.{
  Setting, OrchestratorError, Orchestrator, record_event, hash_text,
}
use archangel.Daemon.Orchestrator.Run.{
  append_messages, or_empty, builder, call_backend, judge, prompt_of, run_task,
}
use archangel.Daemon.Orchestrator.Effects.{
  next-cases, Keeps, Keeps-trans, record_event-Keeps, next-pure-Keeps,
}
use archangel.Daemon.Orchestrator.Answers.{IsAnswered, Effect, quiet-Effect, respond-effects}
use archangel.Daemon.Orchestrator.Proposals.{Keeps-IsBounded}

module _ (t : Setting) where
  judge-effects :
      (leaked : Bool) (text : Str) (o : Orchestrator t)
      → let o' = (judge t leaked text o).0 in
        Effect t
          ((leaked ≡ false)
            × IsAnswered t (parse_model_response t.raw_action text (builder t o)) o o')
          o
          o'
  judge-effects true text o =
      let event =
        AuditEvent.session_ended o.session.id (str "canary token leaked: model subverted") in
      quiet-Effect t _ o _
        (next-pure-Keeps t o (record_event t event o) _ (record_event-Keeps t event o))
  judge-effects false text o =
      let (sent, bounded) =
        respond-effects t (parse_model_response t.raw_action text (builder t o)) o in
      (elim sent [ inl quiet ↦ inl quiet | inr a ↦ inr (refl, a) ], bounded)

  -- The three steps before the judgement, each with its answer.
  abbrev pub asked_for :
      Str → List (Str × Str) → Orchestrator t → Orchestrator t × Result (Unit {0}) OrchestratorError
  asked_for task untrusted o =
      record_event t
        (AuditEvent.llm_request o.session.id t.backend_name o.model (
          hash_text t (
            append_messages (or_empty (prompt_of t o task untrusted).system)
              (prompt_of t o task untrusted).messages)))
        o

  abbrev pub replied :
      Str → List (Str × Str) → Orchestrator t → Orchestrator t × Result Str OrchestratorError
  replied task untrusted o =
      call_backend t (prompt_of t o task untrusted) (asked_for task untrusted o).0

  abbrev pub seen :
      Str
      → List (Str × Str)
      → Orchestrator t
      → Str
      → Orchestrator t × Result (Unit {0}) OrchestratorError
  seen task untrusted o text =
      record_event t
        (AuditEvent.llm_response o.session.id (hash_text t text)
          (response_is_compromised (builder t o) text))
        (replied task untrusted o).0

  -- The log took the prompt and the answer, the answer is without the canary, and it is the
  -- invocation of an action that was invoked.
  pub record IsRun (task : Str) (untrusted : List (Str × Str)) (o o' : Orchestrator t)
      : Type 0 where
    pub text : Str
    pub asked_lem : (asked_for task untrusted o).1 ≡ ok tt
    pub replied_lem : (replied task untrusted o).1 ≡ ok text
    pub seen_lem : (seen task untrusted o text).1 ≡ ok tt
    pub clean : response_is_compromised (builder t o) text ≡ false
    pub answered :
        IsAnswered t
          (parse_model_response t.raw_action text (builder t o))
          (seen task untrusted o text).0
          o'

  replied-Keeps :
      (task : Str) (untrusted : List (Str × Str)) (o : Orchestrator t)
      → Keeps t o (replied task untrusted o).0
  unfolding call_backend
  replied-Keeps task untrusted o =
      let k = record_event-Keeps t _ o in
      record { transport_lem = k.transport_lem; pending_lem = k.pending_lem }

  seen-Keeps :
      (task : Str) (untrusted : List (Str × Str)) (o : Orchestrator t) (text : Str)
      → Keeps t o (seen task untrusted o text).0
  seen-Keeps task untrusted o text =
      let o₂ = (replied task untrusted o).0 in
      Keeps-trans t o o₂ (seen task untrusted o text).0 (replied-Keeps task untrusted o)
        (record_event-Keeps t _ o₂)

  judged :
      (task : Str) (untrusted : List (Str × Str)) (o : Orchestrator t) (text : Str)
      → (asked_for task untrusted o).1 ≡ ok tt
      → (replied task untrusted o).1 ≡ ok text
      → (seen task untrusted o text).1 ≡ ok tt
      → let o' =
          (judge t
            (response_is_compromised (builder t o) text)
            text
            (seen task untrusted o text).0).0 in
        Effect t (IsRun task untrusted o o') o o'
  unfolding record_event call_backend
  judged task untrusted o text e f g =
      let o₃ = (seen task untrusted o text).0 in
      let k = seen-Keeps task untrusted o text in
      let (sent, bounded) = judge-effects (response_is_compromised (builder t o) text) text o₃ in
      (
        elim sent [
          | inl quiet ↦ inl (quiet ∙ k.transport_lem)
          | inr (clean, answered) ↦ inr (record {
            text = text;
            asked_lem = e;
            replied_lem = f;
            seen_lem = g;
            clean = clean;
            answered = answered;
          })
        ],
        λ h. bounded (Keeps-IsBounded t o o₃ k h),
      )

  pub run_task-effects :
      (task : Str) (untrusted : List (Str × Str)) (o : Orchestrator t)
      → let o' = (run_task t task untrusted o).0 in Effect t (IsRun task untrusted o o') o o'
  unfolding run_task
  run_task-effects task untrusted o =
      let o₂ = (replied task untrusted o).0 in
      let k₂ = replied-Keeps task untrusted o in
      let P : Orchestrator t → Type 0 = λ o'. Effect t (IsRun task untrusted o o') o o' in
      next-cases t P (asked_for task untrusted o) _
        (λ why e. quiet-Effect t _ o _ (record_event-Keeps t _ o))
        (λ done e.
          next-cases t P (replied task untrusted o) _ (λ why f. quiet-Effect t _ o o₂ k₂)
            (λ text f.
              next-cases t P (seen task untrusted o text) _
                (λ why g. quiet-Effect t _ o _ (seen-Keeps task untrusted o text))
                (λ done' g. judged task untrusted o text e f g)))

  -- A task sends nothing, or, once, the frame that the session signed for an action: the log took the
  -- prompt and the answer, the answer is without the canary and is the invocation of the action, its
  -- bundle verified, the arguments fit it, the policy allows it outright, and the log took the
  -- decision and the request before the frame went out.
  pub run_task-sends :
      (task : Str) (untrusted : List (Str × Str)) (o : Orchestrator t)
      → ((run_task t task untrusted o).0.transport ≡ o.transport)
        ⊎ IsRun task untrusted o (run_task t task untrusted o).0
  run_task-sends task untrusted o = (run_task-effects task untrusted o).0

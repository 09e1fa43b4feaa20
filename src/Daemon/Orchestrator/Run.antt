-- ===== src/Daemon/Orchestrator/Run.antt =====
-- crates/archangeld/src/orchestrator.rs: a task, from the prompt to what is made of the model's answer.
use archangel.Common.{
  Bool, true, false, Option, none, some, List, [], ◌∷◌, ◌++◌, Result, ok, err, map_err,
}
use archangel.Common.Text.{Str, str}
use archangel.Audit.{AuditEvent}
use archangel.Daemon.Prompt.{
  PromptBuilder, Message, CompletionRequest, build, response_is_compromised,
}
use archangel.Daemon.Response.{ModelAction, ResponseError, canary_leaked, parse_model_response}
use archangel.Daemon.Orchestrator.{
  Setting, llm, TaskOutcome, asked, refused, denied, compromised, Orchestrator, Step, pure, ◌>>=◌,
  ◌>>◌, record_event, note, hash_text,
}
use archangel.Daemon.Orchestrator.Invoke.{invoke}

-- The prompt as it is hashed for the log.
abbrev pub append_messages : Str → List Message → Str
append_messages digest [] = digest
append_messages digest (m ∷ messages) = append_messages (digest ++ 10 ∷ m.content) messages

abbrev pub or_empty : Option Str → Str
or_empty none = []
or_empty (some s) = s

module _ (t : Setting) where
  abbrev pub respond : Result ModelAction ResponseError → Step t TaskOutcome
  respond (ok (ModelAction.ask question)) = pure (asked question)
  respond (ok (ModelAction.refuse reason)) = pure (refused reason)
  respond (ok (ModelAction.invoke exec args reason)) = invoke t exec args reason
  respond (err canary_leaked) = pure compromised
  respond (err e) = do
    note t (str "model output violated the bounded contract: " ++ t.display_response_error e)
    pure (
        denied (str "model-contract")
          (str "model output violated the bounded contract: " ++ t.display_response_error e))

  abbrev pub builder : Orchestrator t → PromptBuilder
  builder o = record { secrets = o.secrets; mode = o.session.mode }

  unfoldable pub call_backend : CompletionRequest → Step t Str
  call_backend request o =
      let (w, reply) = t.complete o.world request in (record o { world = w }, map_err llm reply)

  -- What follows the canary's check.
  abbrev pub judge : Bool → Str → Step t TaskOutcome
  judge true text o =
      (do
        record_event t
            (AuditEvent.session_ended o.session.id (str "canary token leaked: model subverted"))
        pure compromised)
        o
  judge false text o = respond (parse_model_response t.raw_action text (builder o)) o

  abbrev pub prompt_of : Orchestrator t → Str → List (Str × Str) → CompletionRequest
  prompt_of o task untrusted = build (builder o) o.model o.max_tokens task untrusted o.tools

  unfoldable pub run_task : Str → List (Str × Str) → Step t TaskOutcome
  unfolding record_event call_backend build
  run_task task untrusted o =
      (do
        record_event t (
            AuditEvent.llm_request o.session.id t.backend_name o.model (
              hash_text t (
                append_messages (or_empty (prompt_of o task untrusted).system)
                  (prompt_of o task untrusted).messages)))
        text ← call_backend (prompt_of o task untrusted)
        record_event t (
            AuditEvent.llm_response o.session.id (hash_text t text)
              (response_is_compromised (builder o) text))
        judge (response_is_compromised (builder o) text) text)
        o

  unfoldable pub start : Step t (Unit {0})
  unfolding record_event
  start o =
      record_event t (AuditEvent.session_started o.session.id o.session.mode o.session.profile) o

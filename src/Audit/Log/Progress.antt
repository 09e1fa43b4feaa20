-- ===== src/Audit/Log/Progress.antt =====
-- crates/archangel-audit/src/log.rs and verify.rs: how the log goes on after an append.

use archangel.Common.{
  ℕ, ◌<◌, ◌≡◌, refl, ◌⊎◌, inl, inr, List, [], ◌∷◌, ◌++◌, Result, ok, err, map_err, Result-cases,
  ok_injective,
}
use archangel.Common.Machine.{saturating_add, saturating_add-pos}
use archangel.Common.Text.{Str}
use archangel.Audit.{AuditEvent, AuditEntry, AuditError, serde}
use archangel.Audit.Entry.{Externals, seal}
use archangel.Audit.Log.{AuditLog, append, next_record, commit, DurableSink, opened, write_line}

module _ (x : Externals) {S : Type 0} (d : DurableSink S) where
  -- The log after a run of appends, each with the time it is made at.
  unfoldable pub after : AuditLog x d → List (ℕ × AuditEvent) → AuditLog x d
  unfolding append
  after log [] = log
  after log ((now, event) ∷ events) = after (append x d log now event).0 events

  pub opened-ok :
      (p : AuditLog x d × Result (Unit {0}) AuditError) {log : AuditLog x d}
      → opened x d p ≡ ok log
      → (p.0 ≡ log) × (p.1 ≡ ok tt)
  opened-ok (log, err why) h = cc
  opened-ok (log, ok u) h = (ok_injective h, refl)

  GoesOn : AuditLog x d → AuditLog x d × Result (Unit {0}) AuditError → Type 0
  GoesOn log p =
      (p.0.next_seq ≡ saturating_add log.next_seq 1)
      ⊎ ((p.0.next_seq ≡ log.next_seq) × (why : AuditError) × (p.1 ≡ err why))

  commit-GoesOn :
      (log : AuditLog x d) (entry : AuditEntry) (q : S × Result (Unit {0}) AuditError)
      → GoesOn log (commit x d log entry q)
  unfolding GoesOn
  commit-GoesOn log entry (sink, err why) = inr (refl, why, refl)
  commit-GoesOn log entry (sink, ok u) = inl refl

  write_line-GoesOn :
      (log : AuditLog x d) (entry : AuditEntry) (r : Result Str AuditError)
      → GoesOn log (write_line x d log entry r)
  unfolding GoesOn
  write_line-GoesOn log entry (err why) = inr (refl, why, refl)
  write_line-GoesOn log entry (ok line) =
      commit-GoesOn log entry (d.commit_line log.sink (line ++ 10 ∷ []))

  -- Where the log goes on after an append: one further, unless the append failed.
  append-next :
      (log : AuditLog x d) (now : ℕ) (event : AuditEvent) → GoesOn log (append x d log now event)
  unfolding append GoesOn
  append-next log now event =
      elim (Result-cases (seal x (next_record x d log now event) log.keypair)) [
        | inr (why, f) ↦ rw f (inr (refl, why, refl))
        | inl ((entry, hash), f) ↦
            rw f (write_line-GoesOn log entry (map_err serde (x.entry_to_text entry)))
      ]

  pub append-next_seq :
      (log : AuditLog x d) (now : ℕ) (event : AuditEvent)
      → (append x d log now event).1 ≡ ok tt
      → (append x d log now event).0.next_seq ≡ saturating_add log.next_seq 1
  unfolding GoesOn
  append-next_seq log now event h = elim (append-next log now event) [
    | inl e ↦ e
    | inr (e, why, f) ↦ absurd (cc (f, h))
  ]

  pub append-pos :
      (log : AuditLog x d) (now : ℕ) (event : AuditEvent)
      → 0 < log.next_seq
      → 0 < (append x d log now event).0.next_seq
  unfolding GoesOn
  append-pos log now event h = elim (append-next log now event) [
    | inl e ↦ rw e (saturating_add-pos log.next_seq)
    | inr (e, _, _) ↦ rw e h
  ]

-- ===== src/Audit/Log.antt =====
-- crates/archangel-audit/src/log.rs: the writer of the log. The clock is an argument.
pub mod Progress
pub mod Sealed
pub mod RoundTrip
use archangel.Common.{ℕ, List, [], ◌∷◌, ◌++◌, Result, ok, err, map_err}
use archangel.Common.Machine.{saturating_add}
use archangel.Common.Text.{Str}
use archangel.Common.Map.{Key}
use archangel.Audit.{AuditEvent, AuditRecord, AuditEntry, AuditError, serde}
use archangel.Audit.Entry.{Externals, seal, genesis_prev_hash_hex, public_hex}

-- A sink persists one line at a time; it may have changed when it fails.
pub record DurableSink (S : Type 0) : Type 0 where
  pub commit_line : S → Str → S × Result (Unit {0}) AuditError

-- The sink in memory, a `Vec<u8>`.
abbrev pub memory : DurableSink Str
memory = record { commit_line = λ sink line. (sink ++ line, ok tt) }

module _ (x : Externals) {S : Type 0} (d : DurableSink S) where
  pub record AuditLog : Type 0 where
    pub sink : S
    pub keypair : x.SigningKey
    pub next_seq : ℕ
    pub prev_hash_hex : Str

  -- After `commit_line`: the log moves on only when the line is durable.
  abbrev pub commit :
      AuditLog
      → AuditEntry
      → S × Result (Unit {0}) AuditError
      → AuditLog × Result (Unit {0}) AuditError
  commit log entry (sink, err why) = (record log { sink = sink }, err why)
  commit log entry (sink, ok _) = (
    record log {
      sink = sink;
      next_seq = saturating_add log.next_seq 1;
      prev_hash_hex = entry.entry_hash;
    },
    ok tt,
  )

  abbrev pub write_line :
      AuditLog → AuditEntry → Result Str AuditError → AuditLog × Result (Unit {0}) AuditError
  write_line log entry (err why) = (log, err why)
  write_line log entry (ok line) = commit log entry (d.commit_line log.sink (line ++ 10 ∷ []))

  abbrev pub write :
      AuditLog → Result (AuditEntry × List ℕ) AuditError → AuditLog × Result (Unit {0}) AuditError
  write log (err why) = (log, err why)
  write log (ok (entry, entry_hash)) = write_line log entry (map_err serde (x.entry_to_text entry))

  abbrev pub next_record : AuditLog → ℕ → AuditEvent → AuditRecord
  next_record log now event = record {
    seq = log.next_seq;
    timestamp_ms = now;
    prev_hash = log.prev_hash_hex;
    event = event;
  }

  unfoldable pub append : AuditLog → ℕ → AuditEvent → AuditLog × Result (Unit {0}) AuditError
  unfolding seal saturating_add
  append log now event = write log (seal x (next_record log now event) log.keypair)

  unfoldable pub append_genesis : AuditLog → ℕ → AuditLog × Result (Unit {0}) AuditError
  unfolding append public_hex
  append_genesis log now = append log now (AuditEvent.genesis (public_hex x log.keypair))

  abbrev pub opened : AuditLog × Result (Unit {0}) AuditError → Result AuditLog AuditError
  opened (log, err why) = err why
  opened (log, ok _) = ok log

  unfoldable pub with_sink : S → x.SigningKey → ℕ → Result AuditLog AuditError
  unfolding append_genesis genesis_prev_hash_hex
  with_sink sink keypair now = opened (
      append_genesis
        (record {
          sink = sink;
          keypair = keypair;
          next_seq = 0;
          prev_hash_hex = genesis_prev_hash_hex;
        })
        now)

  unfoldable pub note : AuditLog → ℕ → Str → AuditLog × Result (Unit {0}) AuditError
  unfolding append
  note log now message = append log now (AuditEvent.note message)

  unfoldable pub session_ended : AuditLog → ℕ → Key → Str → AuditLog × Result (Unit {0}) AuditError
  unfolding append
  session_ended log now session_id reason =
      append log now (AuditEvent.session_ended session_id reason)

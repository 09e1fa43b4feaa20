-- ===== src/Audit/Log/RoundTrip.antt =====
-- crates/archangel-audit/src/log.rs and verify.rs: the verifier accepts what the writer wrote.
use mathlib.Core.List.{map-append}
use archangel.Common.{
  ℕ, ◌<◌, ◌≡◌, refl, sym, ap, subst, ◌∙◌, inl, inr, false, List, [], ◌∷◌, ◌++◌, map, All,
  All-append, Result, ok, map_err, Result-cases, arith, ◌==◌,
}
use archangel.Common.Machine.{saturating_add-pos}
use archangel.Common.Text.{Str}
use archangel.Common.Text.Lines.{lines, text_of, lines-text_of, text_of-append}
use archangel.Audit.{AuditEvent, AuditEntry, AuditError, serde}
use archangel.Audit.Entry.{Externals, seal, genesis_prev_hash_hex, public_hex}
use archangel.Audit.Entry.Laws.{IsSound, IsObject}
use archangel.Audit.Log.{
  AuditLog, memory, append, append_genesis, with_sink, next_record, write_line,
}
use archangel.Audit.Verify.{verify_lines, verify_chain}
use archangel.Audit.Log.Progress.{after, opened-ok, append-next_seq, append-pos}
use archangel.Audit.Log.Sealed.{
  verify_lines-append, verify_lines_one, public_hex-key, sealed-IsEntry, IsObject-full,
  IsObject-IsPrintable,
}
use archangel.Audit.Verify.Entries.{IsEntry, IsPinned}

module _ (x : Externals) (sound : IsSound x) where
  module _ (k : x.SigningKey) where
    -- The sink holds lines that verify up to where the log goes on.
    record IsWritten (log : AuditLog x memory) : Type 0 where
      keypair_lem : log.keypair ≡ k
      texts : List Str
      objects : All IsObject texts
      sink_lem : log.sink ≡ text_of texts
      verified :
          verify_lines x (x.verifying_key k) (map ok texts) 0 genesis_prev_hash_hex
          ≡ ok (log.next_seq, log.prev_hash_hex)

    write_line-IsWritten :
        (log : AuditLog x memory) (entry : AuditEntry)
        → IsWritten log
        → IsEntry x (x.verifying_key k) log.next_seq log.prev_hash_hex entry
        → IsWritten (write_line x memory log entry (map_err serde (x.entry_to_text entry))).0
    write_line-IsWritten log entry w e = elim (Result-cases (x.entry_to_text entry)) [
      | inr (why, f) ↦ rw f w
      | inl (text, f) ↦
          let object = sound.entry_text entry text f in
          rw f (record {
            keypair_lem = w.keypair_lem;
            texts = w.texts ++ text ∷ [];
            objects = All-append IsObject w.texts (text ∷ []) w.objects (object, tt);
            sink_lem =
                ap (λ s. s ++ (text ++ 10 ∷ [])) w.sink_lem ∙ sym (text_of-append w.texts text);
            verified =
                rw
                  (
                    map-append {B = Result Str AuditError} ok w.texts (text ∷ []),
                    verify_lines-append x (x.verifying_key k) (map ok w.texts) (ok text ∷ []) 0
                        genesis_prev_hash_hex,
                    w.verified,
                  )
                  (verify_lines_one x (x.verifying_key k) text log.next_seq log.prev_hash_hex entry
                    (IsObject-full x sound text object) (sound.entry_read entry text f) e);
          })
    ]

    append-IsWritten :
        (log : AuditLog x memory) (now : ℕ) (event : AuditEvent)
        → IsWritten log
        → (log.next_seq ≡ 0 → IsPinned x (x.verifying_key k) event)
        → IsWritten (append x memory log now event).0
    unfolding append
    append-IsWritten log now event w pinned =
        elim (Result-cases (seal x (next_record x memory log now event) log.keypair)) [
          | inr (why, f) ↦ rw f w
          | inl ((entry, hash), f) ↦ rw f (
              write_line-IsWritten log entry w (
                sealed-IsEntry x sound k (next_record x memory log now event) entry hash
                  (ap (seal x (next_record x memory log now event)) (sym w.keypair_lem) ∙ f)
                  pinned))
        ]

    abbrev initial : AuditLog x memory
    initial = record { sink = []; keypair = k; next_seq = 0; prev_hash_hex = genesis_prev_hash_hex }

    initial-IsWritten : IsWritten initial
    unfolding verify_lines text_of
    initial-IsWritten = record {
      keypair_lem = refl;
      texts = [];
      objects = tt;
      sink_lem = refl;
      verified = refl;
    }

    genesis-IsPinned : IsPinned x (x.verifying_key k) (AuditEvent.genesis (public_hex x k))
    genesis-IsPinned = record {
      text = public_hex x k;
      genesis_lem = refl;
      declared = x.verifying_key k;
      declared_lem = public_hex-key x sound k;
      key_lem = refl;
    }

    with_sink-IsWritten :
        (now : ℕ) (log : AuditLog x memory)
        → with_sink x memory [] k now ≡ ok log
        → IsWritten log × (0 < log.next_seq)
    unfolding with_sink append_genesis
    with_sink-IsWritten now log h =
        let event = AuditEvent.genesis (public_hex x k) in
        let w = append-IsWritten initial now event initial-IsWritten (λ _. genesis-IsPinned) in
        let (same, done) = opened-ok x memory (append x memory initial now event) h in
        subst (λ l. IsWritten l × (0 < l.next_seq)) same
          (w, rw (append-next_seq x memory initial now event done) (saturating_add-pos 0))

    after-IsWritten :
        (log : AuditLog x memory) (events : List (ℕ × AuditEvent))
        → IsWritten log
        → 0 < log.next_seq
        → IsWritten (after x memory log events) × (0 < (after x memory log events).next_seq)
    unfolding after
    after-IsWritten log [] w pos = (w, pos)
    after-IsWritten log ((now, event) ∷ events) w pos =
        after-IsWritten (append x memory log now event).0 events
          (append-IsWritten log now event w (λ e. absurd (omega (arith, e, pos))))
          (append-pos x memory log now event pos)

  -- Given what the log relies on of Ed25519, SHA-256 and serde_json, whatever events are appended to
  -- a log that was opened over an empty sink in memory, whether the appends succeed or not, the
  -- verifier with the public half of the writer's key accepts the lines in the sink, and its answer
  -- is the next number and the hash that the writer goes on with.
  pub with_sink-verify_chain :
      (k : x.SigningKey) (now : ℕ) (log : AuditLog x memory) (events : List (ℕ × AuditEvent))
      → with_sink x memory [] k now ≡ ok log
      → verify_chain x (x.verifying_key k) (map ok (lines (after x memory log events).sink))
        ≡ ok (record {
          entries = (after x memory log events).next_seq;
          next_seq = (after x memory log events).next_seq;
          head_hash_hex = (after x memory log events).prev_hash_hex;
        })
  unfolding verify_chain
  with_sink-verify_chain k now log events h =
      let (w₀, pos₀) = with_sink-IsWritten k now log h in
      let (w, pos) = after-IsWritten k log events w₀ pos₀ in
      let some_entries : ((after x memory log events).next_seq == 0) ≡ false =
        ground (arith, pos) in
      rw
        (
          w.sink_lem,
          lines-text_of w.texts (IsObject-IsPrintable x sound w.texts w.objects),
          w.verified,
          some_entries,
        )
        refl

-- ===== src/Audit/Verify.antt =====
-- crates/archangel-audit/src/verify.rs: when a log is accepted. The reader is the list of the lines
-- it gives, each a text or an error.
pub mod Entries
pub mod Chain
pub mod Tamper
use archangel.Common.{
  ℕ, Bool, true, false, not, List, [], ◌∷◌, ◌==◌, if◌then◌else◌, Result, ok, err, ◌>>=◌, map_err,
}
use archangel.Common.Machine.{saturating_add}
use archangel.Common.Text.Lines.{is_empty}
use archangel.Common.Text.{Str, str_eq, trim}
use archangel.ExecFormat.Hex.{encode}
use archangel.Audit.{
  AuditEvent, AuditEntry, AuditError, bad_hex, chain_broken, empty, does_not_parse, seq_mismatch,
  prev_hash_mismatch, key_mismatch, not_genesis, not_64_bytes, hash_mismatch, bad_signature,
}
use archangel.Audit.Entry.{
  Externals, decode, sized, canonical_bytes, chain_hash, genesis_prev_hash_hex,
  verifying_key_from_hex,
}

pub record ChainHead : Type 0 where
  pub entries : ℕ
  pub next_seq : ℕ
  pub head_hash_hex : Str

unfoldable pub decode_sig : Str → ℕ → Result (List ℕ) AuditError
unfolding decode
decode_sig signature_hex seq =
    map_err bad_hex (decode signature_hex) >>= sized 64 (chain_broken seq not_64_bytes)

abbrev pub check : Bool → AuditError → Result (Unit {0}) AuditError
check true why = ok tt
check false why = err why

module _ (x : Externals) (expected_public_key : x.VerifyingKey) where
  abbrev pub declared_key : x.VerifyingKey → Result (Unit {0}) AuditError
  declared_key declared =
      check (str_eq (x.key_bytes declared) (x.key_bytes expected_public_key))
        (chain_broken 0 key_mismatch)

  -- The first entry pins the key.
  unfoldable pub pins : AuditEvent → Result (Unit {0}) AuditError
  unfolding verifying_key_from_hex
  pins (AuditEvent.genesis audit_public_key) =
      verifying_key_from_hex x audit_public_key >>= declared_key
  pins _ = err (chain_broken 0 not_genesis)

  -- The signature and the stored hash.
  unfoldable pub verify_seal : AuditEntry → ℕ → Result (Unit {0}) AuditError
  unfolding canonical_bytes decode_sig chain_hash
  verify_seal entry seq = canonical_bytes x entry.record_ >>= λ canonical.
      decode_sig entry.signature seq >>= λ sig_bytes.
      map_err (λ why. chain_broken seq (bad_signature why))
        (x.verify_strict expected_public_key canonical sig_bytes)
      >>= λ _.
          check (str_eq (encode (chain_hash x canonical sig_bytes)) entry.entry_hash)
            (chain_broken seq hash_mismatch)

  unfoldable pub verify_entry : AuditEntry → ℕ → Str → Result (Unit {0}) AuditError
  unfolding pins verify_seal
  verify_entry entry expected_seq expected_prev =
      check (entry.record_.seq == expected_seq)
        (chain_broken expected_seq (seq_mismatch entry.record_.seq))
      >>= λ _.
          check (str_eq entry.record_.prev_hash expected_prev)
            (chain_broken expected_seq prev_hash_mismatch)
          >>= λ _. (if expected_seq == 0 then pins entry.record_.event else ok tt) >>= λ _.
              verify_seal entry expected_seq

  -- One pass of the loop over a line that is not blank: the recomputed hash.
  unfoldable pub verify_line : Str → ℕ → Str → Result Str AuditError
  unfolding verify_entry
  verify_line line expected_seq chain_head =
      map_err (λ why. chain_broken expected_seq (does_not_parse why)) (x.entry_from_str line)
      >>= λ entry. verify_entry entry expected_seq chain_head >>= λ _.
          canonical_bytes x entry.record_ >>= λ canonical.
          decode_sig entry.signature expected_seq >>= λ sig_bytes.
          ok (encode (chain_hash x canonical sig_bytes))

  unfoldable pub verify_lines : List (Result Str AuditError) → ℕ → Str → Result (ℕ × Str) AuditError
  unfolding verify_line saturating_add
  verify_lines [] expected_seq chain_head = ok (expected_seq, chain_head)
  verify_lines (err why ∷ lines) expected_seq chain_head = err why
  verify_lines (ok line ∷ lines) expected_seq chain_head =
      if is_empty (trim line)
      then verify_lines lines expected_seq chain_head
      else verify_line line expected_seq chain_head >>= λ recomputed.
          verify_lines lines (saturating_add expected_seq 1) recomputed

  abbrev pub head : ℕ × Str → Result ChainHead AuditError
  head (expected_seq, chain_head) =
      if expected_seq == 0
      then err empty
      else ok
          (record { entries = expected_seq; next_seq = expected_seq; head_hash_hex = chain_head })

  unfoldable pub verify_chain : List (Result Str AuditError) → Result ChainHead AuditError
  unfolding verify_lines genesis_prev_hash_hex
  verify_chain lines = verify_lines lines 0 genesis_prev_hash_hex >>= head

  -- The pinned key is the one that every entry must be signed by.
  unfoldable pub verify_chain_with_pinned_key :
      List (Result Str AuditError) → Result ChainHead AuditError
  unfolding verify_chain
  verify_chain_with_pinned_key lines = verify_chain lines

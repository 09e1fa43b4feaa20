-- ===== src/Audit/Tests.antt =====
-- Witnesses on logs: a key signs with its number and a checksum of the message, a digest is a
-- checksum, and the writer of the entries is that of `Codec`.
pub mod Codec
use archangel.Common.{
  ℕ, zero, suc, ◌+◌, ◌*◌, ◌%◌, ◌<◌, ◌≡◌, ◌↔◌, ◌⊎◌, refl, ap, subst, ◌∙◌, sym, inl, inr, Bool, true,
  false, List, [], ◌∷◌, ◌++◌, map, All, length, replicate, ◌==◌, if◌then◌else◌, Result, ok, err,
  arith, ok_injective,
}
use archangel.Common.Machine.{u64_max, saturating_add}
use archangel.Common.Map.{some_injective}
use archangel.Common.Text.{Str, str, str_eq, str_eq_refl}
use archangel.Common.Text.Lines.{lines}
use archangel.ExecFormat.Hex.{encode}
use archangel.ExecFormat.Hex.RoundTrip.{IsByte}
use archangel.Audit.{AuditEvent, AuditRecord, AuditEntry, AuditError}
use archangel.Audit.Entry.{Externals, genesis_prev_hash_hex}
use archangel.Audit.Entry.Laws.{IsSound}
use archangel.Audit.Log.{AuditLog, memory, append, append_genesis, with_sink}
use archangel.Audit.Log.Progress.{after}
use archangel.Audit.Log.RoundTrip.{with_sink-verify_chain}
use archangel.Audit.Verify.{ChainHead, verify_chain}
use archangel.Audit.Verify.Chain.{entries_of, IsAccepted, verify_chain-ok_iff}
use archangel.Audit.Verify.Tamper.{
  Collision, Clashes, Clashes-irreflexive, records_of, verify_chain-records_of,
}
use Codec.{
  record_text, read_record-record_text, entry_to_text, entry_from_str, entry_from_str-entry_to_text,
  entry_to_text-IsObject,
}

abbrev checksum : List ℕ → ℕ
checksum [] = 0
checksum (c ∷ s) = (c + 31 * checksum s) % 256

abbrev code : Bool → ℕ
code true = 1
code false = 0

abbrev made : Bool → List ℕ → List ℕ
made key m = code key ∷ replicate 63 (checksum m)

abbrev pub toy : Externals
toy = record {
  SigningKey = Bool;
  VerifyingKey = Bool;
  from_seed = λ seed. true;
  verifying_key = λ key. key;
  key_bytes = λ key. replicate 32 (code key);
  from_bytes = λ bytes. if str_eq bytes (replicate 32 1) then ok true else ok false;
  sign = made;
  verify_strict = λ key m s. if str_eq s (made key m) then ok tt else err [];
  sha256 = λ m. replicate 32 (checksum m);
  record_to_vec = λ r. record_text r [];
  entry_to_text = entry_to_text;
  entry_from_str = entry_from_str;
}

checksum-IsByte : (m : List ℕ) → checksum m < 256
checksum-IsByte [] = omega arith
checksum-IsByte (c ∷ s) = omega arith

replicate-IsByte : (n b : ℕ) → b < 256 → All IsByte (replicate n b)
replicate-IsByte zero b h = tt
replicate-IsByte (suc n) b h = (h, replicate-IsByte n b h)

code-IsByte : (key : Bool) → code key < 256
code-IsByte true = omega arith
code-IsByte false = omega arith

key_read : (key : Bool) → toy.from_bytes (toy.key_bytes key) ≡ ok key
unfolding str_eq
key_read true = refl
key_read false = refl

toy-IsSound : IsSound toy
toy-IsSound = record {
  signed = λ k m. rw (str_eq_refl (made k m)) refl;
  signature_length = λ k m. refl;
  signature_bytes = λ k m. (code-IsByte k, replicate-IsByte 63 (checksum m) (checksum-IsByte m));
  digest_bytes = λ m. replicate-IsByte 32 (checksum m) (checksum-IsByte m);
  key_length = λ v. refl;
  key_bytes_lem = λ v. replicate-IsByte 32 (code v) (code-IsByte v);
  key_read = key_read;
  entry_read = entry_from_str-entry_to_text;
  entry_text = entry_to_text-IsObject;
  record_injective = λ r s bytes h k.
      ap (λ p. p.0)
        (ok_injective
          (sym (read_record-record_text r [] bytes h) ∙ read_record-record_text s [] bytes k));
}

-- A log that was opened, and two events more.
unfoldable started : AuditLog toy memory
unfolding append_genesis genesis_prev_hash_hex
started =
    (append_genesis toy memory
      (record { sink = []; keypair = true; next_seq = 0; prev_hash_hex = genesis_prev_hash_hex })
      5).0

abbrev events : List (ℕ × AuditEvent)
events = (6, AuditEvent.note (str "hello")) ∷ (7, AuditEvent.note []) ∷ []

started_lem : with_sink toy memory [] true 5 ≡ ok started
unfolding with_sink started
started_lem = refl

with_sink-verify_chain_example :
    verify_chain toy true (map ok (lines (after toy memory started events).sink))
    ≡ ok (record {
      entries = (after toy memory started events).next_seq;
      next_seq = (after toy memory started events).next_seq;
      head_hash_hex = (after toy memory started events).prev_hash_hex;
    })
with_sink-verify_chain_example =
    with_sink-verify_chain toy toy-IsSound true 5 started events started_lem

three : (after toy memory started events).next_seq ≡ 3
unfolding after started saturating_add
three = refl

-- The lines of the log, and the answer to them.
unfoldable written : List (Result Str AuditError)
unfolding after started lines
written = map ok (lines (after toy memory started events).sink)

unfoldable answer : ChainHead
unfolding after started
answer = record {
  entries = (after toy memory started events).next_seq;
  next_seq = (after toy memory started events).next_seq;
  head_hash_hex = (after toy memory started events).prev_hash_hex;
}

answer_lem : verify_chain toy true written ≡ ok answer
unfolding written answer
answer_lem = with_sink-verify_chain_example

verify_chain-ok_iff_example :
    (verify_chain toy true written ≡ ok answer) ↔ IsAccepted toy true written answer
verify_chain-ok_iff_example = verify_chain-ok_iff toy true written answer

-- The same log with a blank line before it.
blank_lem : verify_chain toy true (ok (str "  ") ∷ written) ≡ ok answer
unfolding verify_chain archangel.Common.Text.trim
blank_lem = answer_lem

few : answer.entries < u64_max
unfolding answer
few = omega (arith, three)

verify_chain-records_of_example :
    Collision toy true true written (ok (str "  ") ∷ written)
    ⊎ (records_of toy true written ≡ records_of toy true (ok (str "  ") ∷ written))
verify_chain-records_of_example =
    verify_chain-records_of toy toy-IsSound true true written (ok (str "  ") ∷ written) answer
      answer_lem blank_lem few

-- The two hold one log, which does not clash with itself: the records are the same.
same_records : records_of toy true written ≡ records_of toy true (ok (str "  ") ∷ written)
unfolding entries_of archangel.Common.Text.trim
same_records =
    elim (verify_chain-records_of toy toy-IsSound true true written (ok (str "  ") ∷ written) answer
      answer_lem blank_lem few) [
        | inr same ↦ same
        | inl c ↦
            let one_log : c.log ≡ c.other_log = some_injective (sym c.read ∙ c.other_read) in
            absurd (
              Clashes-irreflexive toy c.log
                (subst (λ l. Clashes toy c.log l) (sym one_log) c.clashes))
      ]

-- ===== src/Audit/Verify/Tamper.antt =====
-- crates/archangel-audit/src/verify.rs: what the head of an accepted log says of its contents.
use mathlib.Core.Path.{ap₂}
use archangel.Common.{
  ℕ, ◌+◌, ◌<◌, ◌≡◌, ◌≢◌, refl, sym, ap, ◌∙◌, ◌⊎◌, inl, inr, Option, some, List, [], ◌∷◌, ◌++◌, map,
  map_option, length, append-cancel, Result, ok, ok_injective, Bool-cases, arith,
}
use archangel.Common.Machine.{u64_max, saturating_add, saturating_add-cases}
use archangel.Common.Text.{Str, str_eq, str_eq_iff, str_eq→eq}
use archangel.Audit.{AuditRecord, AuditEntry, AuditError}
use archangel.Audit.Entry.{Externals, decode, genesis_prev_hash_hex}
use archangel.Audit.Entry.Laws.{IsSound, encode-injective}
use archangel.Audit.Verify.{ChainHead, verify_chain}
use archangel.Audit.Verify.Entries.{IsEntry}
use archangel.Audit.Verify.Chain.{entries_of, IsLinked, count_on, last_hash, verify_chain-ok_iff}

-- What the verifier hashes for an entry: its canonical bytes, then those of its signature.
pub record IsHashInput (x : Externals) (entry : AuditEntry) (input : List ℕ) : Type 0 where
  pub canonical : List ℕ
  pub canonical_lem : x.record_to_vec entry.record_ ≡ ok canonical
  pub sig_bytes : List ℕ
  pub decoded : decode entry.signature ≡ ok sig_bytes
  pub input_lem : input ≡ canonical ++ sig_bytes

-- Two entries for which different bytes are hashed to one digest.
pub record Clash (x : Externals) (one other : AuditEntry) : Type 0 where
  pub input : List ℕ
  pub hashed : IsHashInput x one input
  pub other_input : List ℕ
  pub other_hashed : IsHashInput x other other_input
  pub differ : input ≢ other_input
  pub collide : x.sha256 input ≡ x.sha256 other_input

-- Entries at one place of the two logs clash.
abbrev pub Clashes : Externals → List AuditEntry → List AuditEntry → Type 0
Clashes x (e ∷ log) (e' ∷ log') = Clash x e e' ⊎ Clashes x log log'
Clashes x _ _ = ⊥

IsHashInput-unique :
    (x : Externals) (e : AuditEntry) (one other : List ℕ)
    → IsHashInput x e one
    → IsHashInput x e other
    → one ≡ other
IsHashInput-unique x e one other a b =
    let canonical = ok_injective (sym a.canonical_lem ∙ b.canonical_lem) in
    let sig_bytes = ok_injective (sym a.decoded ∙ b.decoded) in
    a.input_lem ∙ ap₂ (λ c s. c ++ s) canonical sig_bytes ∙ sym b.input_lem

-- No log clashes with itself.
pub Clashes-irreflexive : (x : Externals) (log : List AuditEntry) → ¬ Clashes x log log
Clashes-irreflexive x [] c = c
Clashes-irreflexive x (e ∷ log) (inl c) =
    c.differ (IsHashInput-unique x e c.input c.other_input c.hashed c.other_hashed)
Clashes-irreflexive x (e ∷ log) (inr c) = Clashes-irreflexive x log c

-- Both texts hold entries, and some of them at one place clash.
pub record Collision (x : Externals) (vk vk' : x.VerifyingKey)
    (lines lines' : List (Result Str AuditError)) : Type 0 where
  pub log : List AuditEntry
  pub read : entries_of x vk lines ≡ some log
  pub other_log : List AuditEntry
  pub other_read : entries_of x vk' lines' ≡ some other_log
  pub clashes : Clashes x log other_log

-- The records that the lines hold.
unfoldable pub records_of :
    (x : Externals) (vk : x.VerifyingKey) → List (Result Str AuditError) → Option (List AuditRecord)
unfolding entries_of
records_of x vk lines = map_option (map (λ entry. entry.record_)) (entries_of x vk lines)

count_on-length :
    (seq : ℕ) (log : List AuditEntry) (x : Externals) (vk : x.VerifyingKey)
    → count_on x vk seq log < u64_max
    → count_on x vk seq log ≡ seq + length log
count_on-length seq [] x vk h = omega arith
count_on-length seq (entry ∷ log) x vk h =
    let rest = count_on-length (saturating_add seq 1) log x vk h in
    omega (arith, saturating_add-cases seq 1, rest, h)

IsHashInput-of :
    (x : Externals) (vk : x.VerifyingKey) (seq : ℕ) (prev : Str) (e : AuditEntry)
    (a : IsEntry x vk seq prev e)
    → IsHashInput x e (a.canonical ++ a.sig_bytes)
IsHashInput-of x vk seq prev e a = record {
  canonical = a.canonical;
  canonical_lem = a.canonical_lem;
  sig_bytes = a.sig_bytes;
  decoded = a.decoded;
  input_lem = refl;
}

module _ (x : Externals) (sound : IsSound x) (vk vk' : x.VerifyingKey) where
  IsEntry-record :
      (seq seq' : ℕ) (prev prev' : Str) (e e' : AuditEntry)
      → IsEntry x vk seq prev e
      → IsEntry x vk' seq' prev' e'
      → e.entry_hash ≡ e'.entry_hash
      → Clash x e e' ⊎ (e.record_ ≡ e'.record_)
  IsEntry-record seq seq' prev prev' e e' a b h =
      let digests =
        encode-injective (x.sha256 (a.canonical ++ a.sig_bytes))
          (x.sha256 (b.canonical ++ b.sig_bytes)) (sound.digest_bytes _) (sound.digest_bytes _)
          (a.stored ∙ (h ∙ sym b.stored)) in
      elim (Bool-cases (str_eq (a.canonical ++ a.sig_bytes) (b.canonical ++ b.sig_bytes))) [
        | inr f ↦ inl (record {
          input = a.canonical ++ a.sig_bytes;
          hashed = IsHashInput-of x vk seq prev e a;
          other_input = b.canonical ++ b.sig_bytes;
          other_hashed = IsHashInput-of x vk' seq' prev' e' b;
          differ = λ s. cc (f, (str_eq_iff _ _).1 s);
          collide = digests;
        })
        | inl f ↦
            let same =
              append-cancel a.canonical b.canonical a.sig_bytes b.sig_bytes
                (a.sig_length ∙ sym b.sig_length) (str_eq→eq _ _ f) in
            inr (
              sound.record_injective e.record_ e'.record_ b.canonical (a.canonical_lem ∙ ap ok same)
                b.canonical_lem)
      ]

  -- Chains of one length with one last hash.
  IsLinked-records :
      (seq seq' : ℕ) (prev prev' : Str) (log log' : List AuditEntry)
      → length log ≡ length log'
      → IsLinked x vk seq prev log
      → IsLinked x vk' seq' prev' log'
      → last_hash x vk prev log ≡ last_hash x vk' prev' log'
      → Clashes x log log'
        ⊎ ((prev ≡ prev') × (map (λ e. e.record_) log ≡ map (λ e. e.record_) log'))
  IsLinked-records seq seq' prev prev' [] [] n l l' h = inr (h, refl)
  IsLinked-records seq seq' prev prev' [] (e' ∷ log') n l l' h = absurd (omega (arith, n))
  IsLinked-records seq seq' prev prev' (e ∷ log) [] n l l' h = absurd (omega (arith, n))
  IsLinked-records seq seq' prev prev' (e ∷ log) (e' ∷ log') n l l' h =
      elim (IsLinked-records (saturating_add seq 1) (saturating_add seq' 1) e.entry_hash
        e'.entry_hash log log' (omega (arith, n)) l.1 l'.1 h) [
          | inl c ↦ inl (inr c)
          | inr (hashes, records) ↦ elim (IsEntry-record seq seq' prev prev' e e' l.0 l'.0 hashes) [
            | inl c ↦ inl (inl c)
            | inr same ↦ inr (
              sym l.0.prev_lem ∙ (ap (λ r. r.prev_hash) same ∙ l'.0.prev_lem),
              rw (same, records) refl,
            )
          ]
        ]

  -- Given what the log relies on of SHA-256 and serde_json, if two logs of fewer entries than
  -- 2^64 - 1 are accepted with one head, whatever the keys, they hold the same records, or at one
  -- place of both stand entries for which the verifier hashes different bytes to one digest.
  pub verify_chain-records_of :
      (lines lines' : List (Result Str AuditError)) (answer : ChainHead)
      → verify_chain x vk lines ≡ ok answer
      → verify_chain x vk' lines' ≡ ok answer
      → answer.entries < u64_max
      → Collision x vk vk' lines lines' ⊎ (records_of x vk lines ≡ records_of x vk' lines')
  unfolding records_of
  verify_chain-records_of lines lines' answer h h' few =
      let a = (verify_chain-ok_iff x vk lines answer).0 h in
      let b = (verify_chain-ok_iff x vk' lines' answer).0 h' in
      let n = count_on-length 0 (a.first ∷ a.later) x vk (rw a.entries_lem few) in
      let m = count_on-length 0 (b.first ∷ b.later) x vk' (rw b.entries_lem few) in
      elim (IsLinked-records 0 0 genesis_prev_hash_hex genesis_prev_hash_hex (a.first ∷ a.later)
        (b.first ∷ b.later) (omega (arith, n, m, a.entries_lem, b.entries_lem)) a.linked b.linked
        (a.hash_lem ∙ sym b.hash_lem)) [
          | inl c ↦ inl (record {
            log = a.first ∷ a.later;
            read = a.read;
            other_log = b.first ∷ b.later;
            other_read = b.read;
            clashes = c;
          })
          | inr (_, same) ↦ inr (rw (a.read, b.read) (ap some same))
        ]

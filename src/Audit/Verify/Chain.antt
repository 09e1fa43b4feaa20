-- ===== src/Audit/Verify/Chain.antt =====
-- crates/archangel-audit/src/verify.rs: which logs are accepted.
use archangel.Common.{
  ℕ, ◌<◌, ◌≡◌, ◌↔◌, refl, sym, ap, subst, ◌∙◌, true, false, Option, none, some, List, [], ◌∷◌, ◌==◌,
  if◌then◌else◌, Result, ok, err, >>=-ok_inv, ok_injective, Bool-cases, inl, inr, arith,
}
use archangel.Common.Machine.{saturating_add, saturating_add-pos}
use archangel.Common.Text.Lines.{is_empty}
use archangel.Common.Text.{Str, trim}
use archangel.Audit.{AuditEntry, AuditError}
use archangel.Audit.Entry.{Externals, genesis_prev_hash_hex}
use archangel.Audit.Verify.Entries.{IsEntry, IsLine, verify_line-ok, verify_line_of}
use archangel.Audit.Verify.{ChainHead, verify_lines, verify_chain, head}

module _ (x : Externals) (vk : x.VerifyingKey) where
  -- The entries that the lines hold: blank lines hold none, every other line is one.
  abbrev pub add_entry : Result AuditEntry Str → Option (List AuditEntry) → Option (List AuditEntry)
  add_entry (ok entry) (some log) = some (entry ∷ log)
  add_entry _ _ = none

  unfoldable pub entries_of : List (Result Str AuditError) → Option (List AuditEntry)
  entries_of [] = some []
  entries_of (err why ∷ lines) = none
  entries_of (ok line ∷ lines) =
      let rest = entries_of lines in
      if is_empty (trim line) then rest else add_entry (x.entry_from_str line) rest

  -- Entries whose numbers count up from `seq` and whose hashes link on from `prev`.
  abbrev pub IsLinked : ℕ → Str → List AuditEntry → Type 0
  IsLinked seq prev [] = Unit
  IsLinked seq prev (entry ∷ log) =
      IsEntry x vk seq prev entry × IsLinked (saturating_add seq 1) entry.entry_hash log

  abbrev pub count_on : ℕ → List AuditEntry → ℕ
  count_on seq [] = seq
  count_on seq (entry ∷ log) = count_on (saturating_add seq 1) log

  abbrev pub last_hash : Str → List AuditEntry → Str
  last_hash prev [] = prev
  last_hash prev (entry ∷ log) = last_hash entry.entry_hash log

  pub record IsRead (lines : List (Result Str AuditError)) (seq : ℕ) (prev : Str) (n : ℕ) (h : Str)
      : Type 0 where
    pub log : List AuditEntry
    pub read : entries_of lines ≡ some log
    pub linked : IsLinked seq prev log
    pub count_lem : count_on seq log ≡ n
    pub hash_lem : last_hash prev log ≡ h

  IsRead-cons :
      (line : Str) (lines : List (Result Str AuditError)) (seq : ℕ) (prev hash : Str) (n : ℕ)
      (h : Str)
      → is_empty (trim line) ≡ false
      → IsLine x vk line seq prev hash
      → IsRead lines (saturating_add seq 1) hash n h
      → IsRead (ok line ∷ lines) seq prev n h
  unfolding entries_of
  IsRead-cons line lines seq prev hash n h full l r = record {
    log = l.entry ∷ r.log;
    read = rw (full, l.parsed, r.read) refl;
    linked =
        (l.checked, subst (λ p. IsLinked (saturating_add seq 1) p r.log) (sym l.hash_lem) r.linked);
    count_lem = r.count_lem;
    hash_lem = ap (λ p. last_hash p r.log) l.hash_lem ∙ r.hash_lem;
  }

  IsRead-blank :
      (line : Str) (lines : List (Result Str AuditError)) (seq : ℕ) (prev : Str) (n : ℕ) (h : Str)
      → is_empty (trim line) ≡ true
      → IsRead lines seq prev n h
      → IsRead (ok line ∷ lines) seq prev n h
  unfolding entries_of
  IsRead-blank line lines seq prev n h blank r = record {
    log = r.log;
    read = rw blank r.read;
    linked = r.linked;
    count_lem = r.count_lem;
    hash_lem = r.hash_lem;
  }

  verify_lines-ok :
      (lines : List (Result Str AuditError)) (seq : ℕ) (prev : Str) (n : ℕ) (h : Str)
      → verify_lines x vk lines seq prev ≡ ok (n, h)
      → IsRead lines seq prev n h
  unfolding verify_lines entries_of
  verify_lines-ok [] seq prev n h e = record {
    log = [];
    read = refl;
    linked = tt;
    count_lem = ap (λ p. p.0) (ok_injective e);
    hash_lem = ap (λ p. p.1) (ok_injective e);
  }
  verify_lines-ok (err why ∷ lines) seq prev n h e = cc
  verify_lines-ok (ok line ∷ lines) seq prev n h e = elim (Bool-cases (is_empty (trim line))) [
    | inl blank ↦
        IsRead-blank line lines seq prev n h blank
          (verify_lines-ok lines seq prev n h (rw blank at e))
    | inr full ↦
        let (hash, a, b) = >>=-ok_inv _ _ (rw full at e) in
        IsRead-cons line lines seq prev hash n h full (verify_line-ok x vk line seq prev hash a)
          (verify_lines-ok lines (saturating_add seq 1) hash n h b)
  ]

  -- An entry was read from the line, and the rest from the others.
  add_entry_inv :
      (parsed : Result AuditEntry Str) (rest : Option (List AuditEntry)) (log : List AuditEntry)
      → add_entry parsed rest ≡ some log
      → (entry : AuditEntry) × (others : List AuditEntry) × (parsed ≡ ok entry)
        × (rest ≡ some others)
        × (log ≡ entry ∷ others)
  add_entry_inv (ok entry) (some others) log h = (entry, others, refl, refl, ground arith)
  add_entry_inv (ok entry) none log h = cc
  add_entry_inv (err why) rest log h = cc

  pub verify_lines_of :
      (lines : List (Result Str AuditError)) (seq : ℕ) (prev : Str) (log : List AuditEntry)
      → entries_of lines ≡ some log
      → IsLinked seq prev log
      → verify_lines x vk lines seq prev ≡ ok (count_on seq log, last_hash prev log)
  unfolding verify_lines entries_of
  verify_lines_of [] seq prev log r l = let same : log ≡ [] = ground arith in rw same refl
  verify_lines_of (err why ∷ lines) seq prev log r l = cc
  verify_lines_of (ok line ∷ lines) seq prev log r l = elim (Bool-cases (is_empty (trim line))) [
    | inl blank ↦ rw blank (verify_lines_of lines seq prev log (rw blank at r) l)
    | inr full ↦
        let (entry, others, p, q, same) = add_entry_inv _ _ log (rw full at r) in
        let linked : IsLinked seq prev (entry ∷ others) = subst (IsLinked seq prev) same l in
        rw (full, verify_line_of x vk line seq prev entry p linked.0, same)
          (verify_lines_of lines (saturating_add seq 1) entry.entry_hash others q linked.1)
  ]

  count_on-pos : (seq : ℕ) (log : List AuditEntry) → 0 < seq → 0 < count_on seq log
  count_on-pos seq [] h = h
  count_on-pos seq (entry ∷ log) h =
      count_on-pos (saturating_add seq 1) log (saturating_add-pos seq)

  -- The lines are entries, linked from the genesis hash; the head counts them and has the last hash.
  pub record IsAccepted (lines : List (Result Str AuditError)) (head : ChainHead) : Type 0 where
    pub first : AuditEntry
    pub later : List AuditEntry
    pub read : entries_of lines ≡ some (first ∷ later)
    pub linked : IsLinked 0 genesis_prev_hash_hex (first ∷ later)
    pub entries_lem : count_on 0 (first ∷ later) ≡ head.entries
    pub next_lem : head.next_seq ≡ head.entries
    pub hash_lem : last_hash first.entry_hash later ≡ head.head_hash_hex

  head-ok :
      (n : ℕ) (h : Str) (answer : ChainHead)
      → head x vk (n, h) ≡ ok answer
      → (0 < n)
        × (n ≡ answer.entries)
        × (answer.next_seq ≡ answer.entries)
        × (h ≡ answer.head_hash_hex)
  head-ok n h answer e = elim (Bool-cases (n == 0)) [
    | inl z ↦ absurd (cc (rw z at e))
    | inr z ↦
        let made : record { entries = n; next_seq = n; head_hash_hex = h } ≡ answer =
          ok_injective (rw z at e) in
        (
          ground arith,
          ap (λ a. a.entries) made,
          sym (ap (λ a. a.next_seq) made) ∙ ap (λ a. a.entries) made,
          ap (λ a. a.head_hash_hex) made,
        )
  ]

  head_of :
      (answer : ChainHead)
      → 0 < answer.entries
      → answer.next_seq ≡ answer.entries
      → head x vk (answer.entries, answer.head_hash_hex) ≡ ok answer
  head_of answer pos same =
      let some_entries : (answer.entries == 0) ≡ false = ground arith in
      rw some_entries (
        ap
          (λ m. ok (record {
            entries = answer.entries;
            next_seq = m;
            head_hash_hex = answer.head_hash_hex;
          }))
          (sym same))

  accepted :
      (lines : List (Result Str AuditError)) (n : ℕ) (h : Str) (answer : ChainHead)
      (log : List AuditEntry)
      → entries_of lines ≡ some log
      → IsLinked 0 genesis_prev_hash_hex log
      → count_on 0 log ≡ n
      → last_hash genesis_prev_hash_hex log ≡ h
      → head x vk (n, h) ≡ ok answer
      → IsAccepted lines answer
  accepted lines n h answer [] r l c z e = absurd (omega (arith, c, (head-ok n h answer e).0))
  accepted lines n h answer (first ∷ later) r l c z e =
      let (pos, entries, next, hash) = head-ok n h answer e in
      record {
        first = first;
        later = later;
        read = r;
        linked = l;
        entries_lem = c ∙ entries;
        next_lem = next;
        hash_lem = z ∙ hash;
      }

  -- A log is accepted exactly when its lines that are not blank are entries, the first of which
  -- declares the key, whose numbers count up from zero, each of which carries the hash of the one
  -- before it, its own hash, and a signature of its record by the key; the answer has their number
  -- and the last hash.
  pub verify_chain-ok_iff :
      (lines : List (Result Str AuditError)) (answer : ChainHead)
      → (verify_chain x vk lines ≡ ok answer) ↔ IsAccepted lines answer
  unfolding verify_chain
  verify_chain-ok_iff lines answer = (to, from)
    where
      to : verify_chain x vk lines ≡ ok answer → IsAccepted lines answer
      to h =
          let ((n, hash), a, b) = >>=-ok_inv _ _ h in
          let r = verify_lines-ok lines 0 genesis_prev_hash_hex n hash a in
          accepted lines n hash answer r.log r.read r.linked r.count_lem r.hash_lem b

      from : IsAccepted lines answer → verify_chain x vk lines ≡ ok answer
      from a =
          let pos = count_on-pos (saturating_add 0 1) a.later (saturating_add-pos 0) in
          rw
            (
              verify_lines_of lines 0 genesis_prev_hash_hex (a.first ∷ a.later) a.read a.linked,
              a.entries_lem,
              a.hash_lem,
            )
            (head_of answer (rw a.entries_lem at pos) a.next_lem)

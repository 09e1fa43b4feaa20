-- ===== src/Audit/Verify/Entries.antt =====
-- crates/archangel-audit/src/verify.rs: which lines are accepted as the next entry.
use archangel.Common.{
  ℕ, zero, suc, ◌≡◌, ◌↔◌, refl, sym, ap, ◌∙◌, Bool, true, false, List, ◌++◌, ◌==◌, ==_iff,
  if◌then◌else◌, length, ok, >>=-ok_inv, map_err-ok, ok_injective, Bool-cases, inl, inr, arith,
}
use archangel.Common.Text.{Str, str_eq_iff, str_eq_refl, str_eq→eq}
use archangel.ExecFormat.Hex.{encode}
use archangel.Audit.{AuditEvent, AuditEntry, AuditError}
use archangel.Audit.Entry.{
  Externals, decode, sized, canonical_bytes, chain_hash, verifying_key_from_hex,
}
use archangel.Audit.Verify.{decode_sig, check, pins, verify_seal, verify_entry, verify_line}

pub check-ok : (b : Bool) (why : AuditError) {u : Unit {0}} → check b why ≡ ok u → b ≡ true
check-ok true why h = refl
check-ok false why h = cc

sized-ok :
    {E : Type 0} (n : ℕ) (why : E) (bytes : List ℕ) {out : List ℕ}
    → sized n why bytes ≡ ok out
    → (bytes ≡ out) × (length out ≡ n)
sized-ok n why bytes {out} h = elim (Bool-cases (length bytes == n)) [
  | inr e ↦ absurd (cc (rw e at h))
  | inl e ↦
      let same : bytes ≡ out = ok_injective (rw e at h) in
      (same, ap length (sym same) ∙ (==_iff (length bytes) n).0 e)
]

module _ (x : Externals) (vk : x.VerifyingKey) where
  -- The event is the genesis that declares the key.
  pub record IsPinned (event : AuditEvent) : Type 0 where
    pub text : Str
    pub genesis_lem : event ≡ AuditEvent.genesis text
    pub declared : x.VerifyingKey
    pub declared_lem : verifying_key_from_hex x text ≡ ok declared
    pub key_lem : x.key_bytes declared ≡ x.key_bytes vk

  -- The entry has the number, follows the hash, is signed by the key, and stores its own hash.
  pub record IsEntry (seq : ℕ) (prev : Str) (entry : AuditEntry) : Type 0 where
    pub seq_lem : entry.record_.seq ≡ seq
    pub prev_lem : entry.record_.prev_hash ≡ prev
    pub pinned : seq ≡ 0 → IsPinned entry.record_.event
    pub canonical : List ℕ
    pub canonical_lem : x.record_to_vec entry.record_ ≡ ok canonical
    pub sig_bytes : List ℕ
    pub decoded : decode entry.signature ≡ ok sig_bytes
    pub sig_length : length sig_bytes ≡ 64
    pub signed : x.verify_strict vk canonical sig_bytes ≡ ok tt
    pub stored : encode (x.sha256 (canonical ++ sig_bytes)) ≡ entry.entry_hash

  pins-ok : (event : AuditEvent) → pins x vk event ≡ ok tt → IsPinned event
  unfolding pins
  pins-ok (AuditEvent.genesis text) h =
      let (declared, e, k) = >>=-ok_inv _ _ h in
      record {
        text = text;
        genesis_lem = refl;
        declared = declared;
        declared_lem = e;
        key_lem = str_eq→eq _ _ (check-ok _ _ k);
      }
  pins-ok _ h = cc

  pins_of : (event : AuditEvent) → IsPinned event → pins x vk event ≡ ok tt
  unfolding pins
  pins_of event p =
      rw p.genesis_lem (rw (p.declared_lem, p.key_lem, str_eq_refl (x.key_bytes vk)) refl)

  decode_sig_iff :
      (text : Str) (seq : ℕ) (sig : List ℕ)
      → (decode_sig text seq ≡ ok sig) ↔ ((decode text ≡ ok sig) × (length sig ≡ 64))
  unfolding decode_sig
  decode_sig_iff text seq sig = (to, from)
    where
      to : decode_sig text seq ≡ ok sig → (decode text ≡ ok sig) × (length sig ≡ 64)
      to h =
          let (raw, e, k) = >>=-ok_inv _ _ h in
          let (same, len) = sized-ok _ _ raw k in (map_err-ok _ _ e ∙ ap ok same, len)

      from : (decode text ≡ ok sig) × (length sig ≡ 64) → decode_sig text seq ≡ ok sig
      from (e, len) = rw e (rw len refl)

  verify_seal-ok :
      (entry : AuditEntry) (seq : ℕ) (prev : Str)
      → entry.record_.seq ≡ seq
      → entry.record_.prev_hash ≡ prev
      → (seq ≡ 0 → IsPinned entry.record_.event)
      → verify_seal x vk entry seq ≡ ok tt
      → IsEntry seq prev entry
  unfolding verify_seal canonical_bytes chain_hash
  verify_seal-ok entry seq prev at_seq at_prev pinned h =
      let (canonical, c, h₁) = >>=-ok_inv _ _ h in
      let (sig, d, h₂) = >>=-ok_inv _ _ h₁ in
      let (u, v, h₃) = >>=-ok_inv _ _ h₂ in
      let decoded = (decode_sig_iff entry.signature seq sig).0 d in
      record {
        seq_lem = at_seq;
        prev_lem = at_prev;
        pinned = pinned;
        canonical = canonical;
        canonical_lem = map_err-ok _ _ c;
        sig_bytes = sig;
        decoded = decoded.0;
        sig_length = decoded.1;
        signed = map_err-ok _ _ v;
        stored = str_eq→eq _ _ (check-ok _ _ h₃);
      }

  pins_at :
      (seq : ℕ) (event : AuditEvent)
      → (if seq == 0 then pins x vk event else ok tt) ≡ ok tt
      → seq ≡ 0
      → IsPinned event
  pins_at zero event h e = pins-ok event h
  pins_at (suc seq) event h e = absurd (omega (arith, e))

  verify_entry-ok :
      (entry : AuditEntry) (seq : ℕ) (prev : Str)
      → verify_entry x vk entry seq prev ≡ ok tt
      → IsEntry seq prev entry
  unfolding verify_entry
  verify_entry-ok entry seq prev h =
      let (u₁, a, h₁) = >>=-ok_inv _ _ h in
      let (u₂, b, h₂) = >>=-ok_inv _ _ h₁ in
      let (u₃, c, h₃) = >>=-ok_inv _ _ h₂ in
      verify_seal-ok entry seq prev ((==_iff _ _).0 (check-ok _ _ a))
        (str_eq→eq _ _ (check-ok _ _ b)) (pins_at seq entry.record_.event c) h₃

  pinned_at :
      (seq : ℕ) (event : AuditEvent)
      → (seq ≡ 0 → IsPinned event)
      → (if seq == 0 then pins x vk event else ok tt) ≡ ok tt
  pinned_at zero event p = pins_of event (p refl)
  pinned_at (suc seq) event p = ground arith

  verify_seal_of :
      (entry : AuditEntry) (seq : ℕ) (prev : Str)
      → IsEntry seq prev entry
      → verify_seal x vk entry seq ≡ ok tt
  unfolding verify_seal canonical_bytes chain_hash
  verify_seal_of entry seq prev e =
      rw
        (
          e.canonical_lem,
          (decode_sig_iff entry.signature seq e.sig_bytes).1 (e.decoded, e.sig_length),
          e.signed,
          e.stored,
          str_eq_refl entry.entry_hash,
        )
        refl

  -- What an entry has is what the verifier checks.
  verify_entry_of :
      (entry : AuditEntry) (seq : ℕ) (prev : Str)
      → IsEntry seq prev entry
      → verify_entry x vk entry seq prev ≡ ok tt
  unfolding verify_entry
  verify_entry_of entry seq prev e =
      rw
        (
          (==_iff entry.record_.seq seq).1 e.seq_lem,
          (str_eq_iff entry.record_.prev_hash prev).1 e.prev_lem,
          pinned_at seq entry.record_.event e.pinned,
          verify_seal_of entry seq prev e,
        )
        refl

  pub record IsLine (line : Str) (seq : ℕ) (prev : Str) (hash : Str) : Type 0 where
    pub entry : AuditEntry
    pub parsed : x.entry_from_str line ≡ ok entry
    pub checked : IsEntry seq prev entry
    pub hash_lem : entry.entry_hash ≡ hash

  pub verify_line-ok :
      (line : Str) (seq : ℕ) (prev hash : Str)
      → verify_line x vk line seq prev ≡ ok hash
      → IsLine line seq prev hash
  unfolding verify_line canonical_bytes chain_hash
  verify_line-ok line seq prev hash h =
      let (entry, p, h₁) = >>=-ok_inv _ _ h in
      let (u, v, h₂) = >>=-ok_inv _ _ h₁ in
      let e = verify_entry-ok entry seq prev v in
      record {
        entry = entry;
        parsed = map_err-ok _ _ p;
        checked = e;
        hash_lem =
            sym e.stored
            ∙ ok_injective (
                rw
                  (
                    e.canonical_lem,
                    (decode_sig_iff entry.signature seq e.sig_bytes).1 (e.decoded, e.sig_length),
                  )
                  at h₂);
      }

  pub verify_line_of :
      (line : Str) (seq : ℕ) (prev : Str) (entry : AuditEntry)
      → x.entry_from_str line ≡ ok entry
      → IsEntry seq prev entry
      → verify_line x vk line seq prev ≡ ok entry.entry_hash
  unfolding verify_line canonical_bytes chain_hash
  verify_line_of line seq prev entry p e =
      rw
        (
          p,
          verify_entry_of entry seq prev e,
          e.canonical_lem,
          (decode_sig_iff entry.signature seq e.sig_bytes).1 (e.decoded, e.sig_length),
          e.stored,
        )
        refl

-- ===== src/Audit/Log/Sealed.antt =====
-- crates/archangel-audit/src/log.rs and verify.rs: what is sealed is an entry that verifies.

use archangel.Common.{
  ℕ, ◌≡◌, refl, ap, subst, inl, inr, false, Bool-cases, List, [], ◌∷◌, ◌++◌, All, Result, ok, err,
  ◌>>=◌, >>=_assoc, map_err-ok, ok_injective, >>=-ok_inv, arith,
}
use archangel.Common.Machine.{saturating_add}
use archangel.Common.Text.{Str, trim, is_whitespace}
use archangel.Common.Text.Lines.{IsPrintable, is_empty, trim_visible}
use archangel.ExecFormat.Hex.{encode}
use archangel.Audit.{AuditRecord, AuditEntry, AuditError}
use archangel.Audit.Entry.{
  Externals, seal, public_hex, canonical_bytes, chain_hash, verifying_key_from_hex,
}
use archangel.Audit.Entry.Laws.{IsSound, IsObject, decode-encode_raw}
use archangel.Audit.Verify.{verify_lines, verify_line}
use archangel.Audit.Verify.Entries.{IsEntry, IsPinned, verify_line_of}

module _ (x : Externals) (vk : x.VerifyingKey) where
  pub verify_lines-append :
      (ls ms : List (Result Str AuditError)) (seq : ℕ) (prev : Str)
      → verify_lines x vk (ls ++ ms) seq prev
        ≡ (verify_lines x vk ls seq prev >>= λ p. verify_lines x vk ms p.0 p.1)
  unfolding verify_lines
  verify_lines-append [] ms seq prev = refl
  verify_lines-append (err why ∷ ls) ms seq prev = refl
  verify_lines-append (ok l ∷ ls) ms seq prev = elim (Bool-cases (is_empty (trim l))) [
    | inl e ↦ rw e (verify_lines-append ls ms seq prev)
    | inr e ↦ rw e (
        >>=_assoc (verify_line x vk l seq prev) _ _ _
          (λ h. verify_lines-append ls ms (saturating_add seq 1) h))
  ]

  pub verify_lines_one :
      (text : Str) (seq : ℕ) (prev : Str) (entry : AuditEntry)
      → is_empty (trim text) ≡ false
      → x.entry_from_str text ≡ ok entry
      → IsEntry x vk seq prev entry
      → verify_lines x vk (ok text ∷ []) seq prev ≡ ok (saturating_add seq 1, entry.entry_hash)
  unfolding verify_lines
  verify_lines_one text seq prev entry full parsed e =
      rw (full, verify_line_of x vk text seq prev entry parsed e) refl

module _ (x : Externals) (sound : IsSound x) where
  pub public_hex-key :
      (k : x.SigningKey) → verifying_key_from_hex x (public_hex x k) ≡ ok (x.verifying_key k)
  unfolding verifying_key_from_hex public_hex
  public_hex-key k =
      let v = x.verifying_key k in
      rw
        (
          decode-encode_raw (x.key_bytes v) (sound.key_bytes_lem v),
          sound.key_length v,
          sound.key_read v,
        )
        refl

  seal-ok :
      (k : x.SigningKey) (r : AuditRecord) (entry : AuditEntry) (hash : List ℕ)
      → seal x r k ≡ ok (entry, hash)
      → (canonical : List ℕ) × (x.record_to_vec r ≡ ok canonical)
        × (record {
          record_ = r;
          signature = encode (x.sign k canonical);
          entry_hash = encode (x.sha256 (canonical ++ x.sign k canonical));
        }
            ≡ entry)
  unfolding seal canonical_bytes chain_hash
  seal-ok k r entry hash h =
      let (canonical, c, e) = >>=-ok_inv (canonical_bytes x r) _ h in
      (canonical, map_err-ok _ _ c, ap (λ p. p.0) (ok_injective e))

  pub sealed-IsEntry :
      (k : x.SigningKey) (r : AuditRecord) (entry : AuditEntry) (hash : List ℕ)
      → seal x r k ≡ ok (entry, hash)
      → (r.seq ≡ 0 → IsPinned x (x.verifying_key k) r.event)
      → IsEntry x (x.verifying_key k) r.seq r.prev_hash entry
  sealed-IsEntry k r entry hash h pinned =
      let (canonical, c, made) = seal-ok k r entry hash h in
      subst (IsEntry x (x.verifying_key k) r.seq r.prev_hash) made (record {
        seq_lem = refl;
        prev_lem = refl;
        pinned = pinned;
        canonical = canonical;
        canonical_lem = c;
        sig_bytes = x.sign k canonical;
        decoded = decode-encode_raw _ (sound.signature_bytes k canonical);
        sig_length = sound.signature_length k canonical;
        signed = sound.signed k canonical;
        stored = refl;
      })

  pub IsObject-full : (text : Str) → IsObject text → is_empty (trim text) ≡ false
  IsObject-full text o = rw o.braced (
      let visible : is_whitespace b'{' ≡ false = (unfold is_whitespace in refl) in
      trim_visible b'{' o.rest visible)

  pub IsObject-IsPrintable : (texts : List Str) → All IsObject texts → All IsPrintable texts
  unfolding IsPrintable
  IsObject-IsPrintable [] o = tt
  IsObject-IsPrintable (text ∷ texts) o =
      (rw o.0.braced (omega arith, o.0.printable), IsObject-IsPrintable texts o.1)

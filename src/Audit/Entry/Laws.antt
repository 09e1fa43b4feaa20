-- ===== src/Audit/Entry/Laws.antt =====
-- crates/archangel-audit/src: what the log relies on of Ed25519, SHA-256 and serde_json, and hex.rs.
use archangel.Common.{ℕ, ◌≤◌, ◌≡◌, sym, ◌∙◌, List, ◌∷◌, All, length, Result, ok, ok_injective}
use archangel.Common.Text.{Str}
use archangel.ExecFormat.Hex.{HexError, encode}
use archangel.ExecFormat.Hex.RoundTrip.{
  IsByte, encode-IsPlain, as_bytes-plain, length-encode, even_length, decode_pairs-encode,
}
use archangel.Audit.{AuditRecord, AuditEntry}
use archangel.Audit.Entry.{Externals, decode}

-- The text of a JSON object: it opens with a brace, and control characters are escaped.
pub record IsObject (text : Str) : Type 0 where
  pub rest : Str
  pub braced : text ≡ b'{' ∷ rest
  pub printable : All (λ c. 32 ≤ c) rest

-- What a key signs it verifies, and a signature has 64 bytes; a digest and a key are bytes, and a
-- key is read from its 32 bytes; what serde_json writes it reads back, on one line.
pub record IsSound (x : Externals) : Type 0 where
  pub signed :
      (k : x.SigningKey) (m : List ℕ) → x.verify_strict (x.verifying_key k) m (x.sign k m) ≡ ok tt
  pub signature_length : (k : x.SigningKey) (m : List ℕ) → length (x.sign k m) ≡ 64
  pub signature_bytes : (k : x.SigningKey) (m : List ℕ) → All IsByte (x.sign k m)
  pub digest_bytes : (m : List ℕ) → All IsByte (x.sha256 m)
  pub key_length : (v : x.VerifyingKey) → length (x.key_bytes v) ≡ 32
  pub key_bytes_lem : (v : x.VerifyingKey) → All IsByte (x.key_bytes v)
  pub key_read : (v : x.VerifyingKey) → x.from_bytes (x.key_bytes v) ≡ ok v
  pub entry_read :
      (entry : AuditEntry) (text : Str)
      → x.entry_to_text entry ≡ ok text
      → x.entry_from_str text ≡ ok entry
  pub entry_text :
      (entry : AuditEntry) (text : Str) → x.entry_to_text entry ≡ ok text → IsObject text
  pub record_injective :
      (r s : AuditRecord) (bytes : List ℕ)
      → x.record_to_vec r ≡ ok bytes
      → x.record_to_vec s ≡ ok bytes
      → r ≡ s

pub decode-encode_raw : (bytes : List ℕ) → All IsByte bytes → decode (encode bytes) ≡ ok bytes
unfolding decode
decode-encode_raw bytes h =
    rw
      (
        as_bytes-plain (encode bytes) (encode-IsPlain bytes h),
        length-encode bytes,
        even_length bytes,
      )
      (decode_pairs-encode bytes h)

pub encode-injective : (a b : List ℕ) → All IsByte a → All IsByte b → encode a ≡ encode b → a ≡ b
encode-injective a b ha hb e =
    let same : ◌≡◌ {A = Result (List ℕ) HexError} (ok a) (ok b) =
      sym (decode-encode_raw a ha) ∙ (rw e (decode-encode_raw b hb)) in
    ok_injective same

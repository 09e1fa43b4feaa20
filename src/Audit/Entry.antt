-- ===== src/Audit/Entry.antt =====
-- crates/archangel-audit/src/entry.rs, key.rs and hex.rs: how an entry is sealed, and the keys in
-- hexadecimal. Ed25519, SHA-256 and serde_json are the parameter `Externals`; text that serde_json
-- writes is held as the text whose UTF-8 bytes it writes. The functions of hex.rs are those of the
-- hex.rs of archangel-exec-format, except that `decode` does not trim.
pub mod Laws
use archangel.Common.{
  ℕ, ◌%◌, Bool, List, [], ◌∷◌, ◌++◌, ◌==◌, if◌then◌else◌, length, replicate, Result, ok, err, ◌>>=◌,
  map_err,
}
use archangel.Common.Text.{Str}
use archangel.ExecFormat.Hex.{HexError, odd_length, as_bytes, decode_pairs, encode}
use archangel.Audit.{
  AuditRecord, AuditEntry, AuditError, serde, bad_hex, crypto, CryptoReason, seed_length,
  key_length, invalid_key,
}

unfoldable pub decode : Str → Result (List ℕ) HexError
unfolding as_bytes decode_pairs
decode s =
    let raw = as_bytes s in
    if length raw % 2 == 1 then err (odd_length (length raw)) else decode_pairs raw

-- A signature, a digest and a key are their bytes.
pub record Externals : Type 1 where
  pub SigningKey : Type 0
  pub VerifyingKey : Type 0
  pub from_seed : List ℕ → SigningKey
  pub verifying_key : SigningKey → VerifyingKey
  pub key_bytes : VerifyingKey → List ℕ
  pub from_bytes : List ℕ → Result VerifyingKey Str
  pub sign : SigningKey → List ℕ → List ℕ
  pub verify_strict : VerifyingKey → List ℕ → List ℕ → Result (Unit {0}) Str
  pub sha256 : List ℕ → List ℕ
  pub record_to_vec : AuditRecord → Result (List ℕ) Str
  pub entry_to_text : AuditEntry → Result Str Str
  pub entry_from_str : Str → Result AuditEntry Str

-- `try_into` of a vector to an array of the length.
abbrev pub sized {ℓ} : {E : Type ℓ} → ℕ → E → List ℕ → Result (List ℕ) E
sized n why bytes = if length bytes == n then ok bytes else err why

unfoldable pub genesis_prev_hash_hex : Str
unfolding encode
genesis_prev_hash_hex = encode (replicate 32 0)

module _ (x : Externals) where
  unfoldable pub canonical_bytes : AuditRecord → Result (List ℕ) AuditError
  canonical_bytes r = map_err serde (x.record_to_vec r)

  unfoldable pub chain_hash : List ℕ → List ℕ → List ℕ
  chain_hash canonical signature = x.sha256 (canonical ++ signature)

  unfoldable pub sha256_hex : List ℕ → Str
  sha256_hex content = encode (x.sha256 content)

  unfoldable pub seal : AuditRecord → x.SigningKey → Result (AuditEntry × List ℕ) AuditError
  unfolding canonical_bytes chain_hash
  seal r keypair = canonical_bytes r >>= λ canonical.
      let signature = x.sign keypair canonical in
      let entry_hash = chain_hash canonical signature in
      ok (
        record { record_ = r; signature = encode signature; entry_hash = encode entry_hash },
        entry_hash,
      )

  unfoldable pub public_hex : x.SigningKey → Str
  public_hex keypair = encode (x.key_bytes (x.verifying_key keypair))

  unfoldable pub from_secret_hex : Str → Result x.SigningKey AuditError
  from_secret_hex seed_hex = map_err bad_hex (decode seed_hex) >>= λ raw.
      sized 32 (crypto seed_length) raw >>= λ seed. ok (x.from_seed seed)

  unfoldable pub verifying_key_from_hex : Str → Result x.VerifyingKey AuditError
  verifying_key_from_hex text = map_err bad_hex (decode text) >>= λ raw.
      sized 32 (crypto key_length) raw >>= λ bytes.
      map_err (λ why. crypto (invalid_key why)) (x.from_bytes bytes)

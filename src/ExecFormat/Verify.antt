-- ===== src/ExecFormat/Verify.antt =====
-- crates/archangel-exec-format/src/verify.rs and the trust set of trust.rs: when a bundle's bytes
-- are a verified bundle. Ed25519, SHA-256 and the parser of a manifest are the parameter `Crypto`.
pub mod Authentic
use archangel.Common.{
  ℕ, ◌+◌, ◌-◌, ◌&&◌, Bool, true, false, not, List, ◌==◌, leb, if◌then◌else◌, length, any, map,
  Result, ok, err, ◌>>=◌, map_err,
}
use archangel.Common.Text.{Str, str_eq, trim}
use archangel.ExecFormat.Manifest.{ExecManifest}
use archangel.ExecFormat.Hex.{HexError, encode, decode}

-- A signature is its 64 bytes, and `verify_strict` says whether the key made it over the message.
pub record Crypto : Type 1 where
  pub VerifyingKey : Type 0
  pub verify_strict : VerifyingKey → List ℕ → List ℕ → Bool
  pub sha256 : Str → List ℕ
  pub parse : List ℕ → Result ExecManifest Str

pub data VerifyError : Type 0 where
  bad_signature : HexError → VerifyError
  not_64_bytes untrusted : VerifyError
  bad_manifest : Str → VerifyError
  payload_hash_mismatch : Str → Str → VerifyError

-- `to_ascii_lowercase`
abbrev pub lower : ℕ → ℕ
lower c = if leb 65 c && leb c 90 then c + 32 else c

abbrev pub sized : List ℕ → Result (List ℕ) VerifyError
sized bytes = if length bytes == 64 then ok bytes else err not_64_bytes

unfoldable pub parse_signature : Str → Result (List ℕ) VerifyError
parse_signature text = map_err bad_signature (decode text) >>= sized

module _ (x : Crypto) where
  pub record OperatorTrust : Type 0 where
    pub keys : List x.VerifyingKey

  abbrev pub declared_hash : ExecManifest → Str
  declared_hash manifest = map lower (trim manifest.payload.sha256)

  unfoldable pub verify_payload_hash : ExecManifest → Result (Unit {0}) VerifyError
  verify_payload_hash manifest =
      let actual = encode (x.sha256 manifest.payload.inline) in
      if str_eq actual (declared_hash manifest)
      then ok tt
      else err (payload_hash_mismatch (declared_hash manifest) actual)

  unfoldable pub verify_bytes : List ℕ → Str → OperatorTrust → Result ExecManifest VerifyError
  verify_bytes manifest_bytes signature_text trust = parse_signature signature_text >>= λ sig.
      if not (any (λ key. x.verify_strict key manifest_bytes sig) trust.keys)
      then err untrusted
      else map_err bad_manifest (x.parse manifest_bytes) >>= λ manifest.
          verify_payload_hash manifest >>= λ _. ok manifest

-- ===== src/Ipc/Envelope.antt =====
-- crates/archangel-ipc/src/envelope.rs: signed envelopes and frames. CBOR and Ed25519 are the
-- parameter `Wire`; the text of an error is kept as what it is formatted from.
pub mod Frames
use archangel.Common.{
  ℕ, ◌*◌, ◌+◌, ◌/◌, ◌%◌, Bool, true, false, not, List, [], ◌∷◌, ◌++◌, ◌==◌, ltb, if◌then◌else◌,
  length, Result, ok, err, ◌>>=◌, map_err,
}
use archangel.Common.Text.{Str}
use archangel.Ipc.{ExecRequest}

abbrev pub protocol_version : ℕ
protocol_version = 1

abbrev pub max_frame_len : ℕ
max_frame_len = 1024 * 1024

pub record SignedEnvelope : Type 0 where
  pub version : ℕ
  pub request : List ℕ
  pub signature : List ℕ

pub record Wire : Type 1 where
  pub VerifyingKey : Type 0
  pub SigningKey : Type 0
  pub sign : SigningKey → List ℕ → List ℕ
  pub verify_strict : VerifyingKey → List ℕ → List ℕ → Bool
  pub request_to_vec : ExecRequest → Result (List ℕ) Str
  pub request_from_slice : List ℕ → Result ExecRequest Str
  pub envelope_to_vec : SignedEnvelope → Result (List ℕ) Str

pub data IpcError : Type 0 where
  codec : Str → IpcError
  version_mismatch : ℕ → ℕ → IpcError
  bad_signature_len frame_too_long : ℕ → IpcError
  signature_invalid : IpcError

-- `u32::to_be_bytes` and `u32::from_be_bytes`.
abbrev pub to_be_bytes : ℕ → List ℕ
to_be_bytes n = (n / 16777216 % 256) ∷ (n / 65536 % 256) ∷ (n / 256 % 256) ∷ (n % 256) ∷ []

abbrev pub from_be_bytes : ℕ → ℕ → ℕ → ℕ → ℕ
from_be_bytes a b c d = a * 16777216 + b * 65536 + c * 256 + d

unfoldable pub frame_len : ℕ → ℕ → ℕ → ℕ → Result ℕ IpcError
frame_len a b c d =
    let len = from_be_bytes a b c d in
    if ltb max_frame_len len then err (frame_too_long len) else ok len

module _ (x : Wire) where
  unfoldable pub seal : ExecRequest → x.SigningKey → Result SignedEnvelope IpcError
  seal request key = map_err codec (x.request_to_vec request) >>= λ bytes.
      ok (record { version = protocol_version; request = bytes; signature = x.sign key bytes })

  unfoldable pub open_envelope : SignedEnvelope → x.VerifyingKey → Result ExecRequest IpcError
  open_envelope e key =
      if not (e.version == protocol_version)
      then err (version_mismatch e.version protocol_version)
      else if not (length e.signature == 64)
      then err (bad_signature_len (length e.signature))
      else if not (x.verify_strict key e.request e.signature)
      then err signature_invalid
      else map_err codec (x.request_from_slice e.request)

  -- The length of a body within the cap always fits in a u32.
  abbrev pub framed_body : List ℕ → Result (List ℕ) IpcError
  framed_body body =
      if ltb max_frame_len (length body)
      then err (frame_too_long (length body))
      else ok (to_be_bytes (length body) ++ body)

  unfoldable pub to_frame : SignedEnvelope → Result (List ℕ) IpcError
  to_frame e = map_err codec (x.envelope_to_vec e) >>= framed_body

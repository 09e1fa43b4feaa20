-- ===== src/Ipc/Tests.antt =====
-- Witnesses on envelopes and frames: a request has no bytes, and an envelope those of its request.
use archangel.Common.{ℕ, ◌≡◌, ◌↔◌, refl, true, List, [], ◌∷◌, ok, length}
use archangel.Common.Text.{str, str_eq}
use archangel.Core.{read_only, low}
use archangel.Ipc.{ExecRequest}
use archangel.Ipc.Envelope.{
  SignedEnvelope, Wire, protocol_version, frame_len, open_envelope, to_frame,
}
use archangel.Ipc.Envelope.Frames.{open_envelope-ok_iff, to_frame-frame_len}

abbrev ping : ExecRequest
ping = record {
  session_id = [];
  action_id = [];
  seq = 1;
  nonce = [];
  issued_ms = 0;
  profile = [];
  mode = read_only;
  exec_name = str "uptime";
  args = [];
  declared_risk = low;
  declared_read_only = true;
}

abbrev wire : Wire
wire = record {
  VerifyingKey = ℕ;
  SigningKey = ℕ;
  sign = λ key bytes. key ∷ bytes;
  verify_strict = λ key bytes signature. str_eq signature (key ∷ bytes);
  request_to_vec = λ request. ok [];
  request_from_slice = λ bytes. ok ping;
  envelope_to_vec = λ e. ok e.request;
}

abbrev envelope : SignedEnvelope
envelope = record { version = 1; request = 5 ∷ 6 ∷ []; signature = 9 ∷ 5 ∷ 6 ∷ [] }

open_envelope-ok_iff_example : (open_envelope wire envelope 9 ≡ ok ping) ↔ (
    (envelope.version ≡ protocol_version)
    × (length envelope.signature ≡ 64)
    × (wire.verify_strict 9 envelope.request envelope.signature ≡ true)
    × (wire.request_from_slice envelope.request ≡ ok ping))
open_envelope-ok_iff_example = open_envelope-ok_iff wire envelope 9 ping

framed : to_frame wire envelope ≡ ok (0 ∷ 0 ∷ 0 ∷ 2 ∷ 5 ∷ 6 ∷ [])
unfolding to_frame
framed = refl

to_frame-frame_len_example :
    (a : ℕ) × (b : ℕ) × (c : ℕ) × (d : ℕ) × (body : List ℕ) × ((0 ∷ 0 ∷ 0 ∷ 2 ∷ 5 ∷ 6 ∷ [])
      ≡ a ∷ b ∷ c ∷ d ∷ body)
    × (frame_len a b c d ≡ ok (length body))
    × (wire.envelope_to_vec envelope ≡ ok body)
to_frame-frame_len_example = to_frame-frame_len wire envelope (0 ∷ 0 ∷ 0 ∷ 2 ∷ 5 ∷ 6 ∷ []) framed

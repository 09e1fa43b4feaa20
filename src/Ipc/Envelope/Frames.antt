-- ===== src/Ipc/Envelope/Frames.antt =====
-- crates/archangel-ipc/src/envelope.rs: what an envelope and a frame carry.
use archangel.Common.{
  ℕ, ◌/◌, ◌%◌, ◌≤◌, ◌≡◌, ◌↔◌, refl, true, false, List, ◌∷◌, ltb, length, ok, >>=-ok_inv, map_err,
  map_err-ok, arith, Bool-cases, inl, inr, sym, ok_injective,
}
use archangel.Ipc.{ExecRequest}
use archangel.Ipc.Envelope.{
  SignedEnvelope, Wire, protocol_version, max_frame_len, from_be_bytes, frame_len, open_envelope,
  to_frame, framed_body, codec,
}

be_bytes :
    (n : ℕ)
    → n ≤ max_frame_len
    → from_be_bytes (n / 16777216 % 256) (n / 65536 % 256) (n / 256 % 256) (n % 256) ≡ n
be_bytes n h = omega arith

frame_len-to_be_bytes :
    (n : ℕ)
    → ltb max_frame_len n ≡ false
    → frame_len (n / 16777216 % 256) (n / 65536 % 256) (n / 256 % 256) (n % 256) ≡ ok n
unfolding frame_len
frame_len-to_be_bytes n h = rw (be_bytes n (ground arith), h) refl

module _ (x : Wire) where
  -- An envelope is opened exactly when it speaks the version of this build and has a signature of
  -- 64 bytes that the key verifies over the very bytes that are decoded then.
  pub open_envelope-ok_iff :
      (e : SignedEnvelope) (key : x.VerifyingKey) (request : ExecRequest)
      → (open_envelope x e key ≡ ok request) ↔ (
          (e.version ≡ protocol_version)
          × (length e.signature ≡ 64)
          × (x.verify_strict key e.request e.signature ≡ true)
          × (x.request_from_slice e.request ≡ ok request))
  unfolding open_envelope
  open_envelope-ok_iff e key request =
      ground (arith, map_err-ok codec (x.request_from_slice e.request) {a = request})

  framed_body-frame_len :
      (body frame : List ℕ)
      → framed_body x body ≡ ok frame
      → (a : ℕ) × (b : ℕ) × (c : ℕ) × (d : ℕ) × (frame ≡ a ∷ b ∷ c ∷ d ∷ body)
        × (frame_len a b c d ≡ ok (length body))
  framed_body-frame_len body frame k = elim (Bool-cases (ltb max_frame_len (length body))) [
    | inl f ↦ absurd (cc (rw f at k))
    | inr f ↦ (
      length body / 16777216 % 256,
      length body / 65536 % 256,
      length body / 256 % 256,
      length body % 256,
      sym (ok_injective (rw f at k)),
      frame_len-to_be_bytes (length body) f,
    )
  ]

  -- The first four bytes of a frame tell, within the cap, the length of the body behind them, which
  -- is the encoded envelope.
  pub to_frame-frame_len :
      (e : SignedEnvelope) (frame : List ℕ)
      → to_frame x e ≡ ok frame
      → (a : ℕ) × (b : ℕ) × (c : ℕ) × (d : ℕ) × (body : List ℕ) × (frame ≡ a ∷ b ∷ c ∷ d ∷ body)
        × (frame_len a b c d ≡ ok (length body))
        × (x.envelope_to_vec e ≡ ok body)
  unfolding to_frame
  to_frame-frame_len e frame h =
      let (body, coded, k) = >>=-ok_inv (map_err codec (x.envelope_to_vec e)) (framed_body x) h in
      let (a, b, c, d, same, told) = framed_body-frame_len body frame k in
      (a, b, c, d, body, same, told, map_err-ok _ _ coded)

-- ===== src/ExecFormat/Verify/Authentic.antt =====
-- crates/archangel-exec-format/src/verify.rs: which bytes are a verified bundle.
use archangel.Common.{
  ℕ, ◌≡◌, ◌↔◌, refl, Bool, true, List, [], ◌∷◌, any, Any, ok, >>=-ok_inv, map_err-ok, arith,
  Bool-cases, inl, inr, ok_injective, subst,
}
use archangel.Common.Text.{Str, str_eq_iff}
use archangel.ExecFormat.Manifest.{ExecManifest}
use archangel.ExecFormat.Hex.{encode}
use archangel.ExecFormat.Verify.{
  Crypto, parse_signature, OperatorTrust, declared_hash, verify_payload_hash, verify_bytes,
}

any_iff : {A : Type 0} (f : A → Bool) (l : List A) → (any f l ≡ true) ↔ Any (λ a. f a ≡ true) l
any_iff f [] = (λ h. cc, λ a. absurd a)
any_iff f (a ∷ l) = ground (arith, any_iff f l)

module _ (x : Crypto) where
  -- A trusted key made the signature over these very bytes, which are a manifest whose hash is that
  -- of its payload.
  pub record IsAuthentic (bytes : List ℕ) (text : Str) (trust : OperatorTrust x)
      (manifest : ExecManifest) : Type 0 where
    pub signature : List ℕ
    pub signature_lem : parse_signature text ≡ ok signature
    pub signed : Any (λ key. x.verify_strict key bytes signature ≡ true) trust.keys
    pub parsed : x.parse bytes ≡ ok manifest
    pub bound : encode (x.sha256 manifest.payload.inline) ≡ declared_hash x manifest

  verify_payload_hash-ok :
      (manifest : ExecManifest)
      → (verify_payload_hash x manifest ≡ ok tt)
        ↔ (encode (x.sha256 manifest.payload.inline) ≡ declared_hash x manifest)
  unfolding verify_payload_hash
  verify_payload_hash-ok manifest =
      ground
        (arith, str_eq_iff (encode (x.sha256 manifest.payload.inline)) (declared_hash x manifest))

  -- The bytes of a bundle verify as a manifest exactly when they are authentic.
  pub verify_bytes-ok_iff :
      (bytes : List ℕ) (text : Str) (trust : OperatorTrust x) (manifest : ExecManifest)
      → (verify_bytes x bytes text trust ≡ ok manifest) ↔ IsAuthentic bytes text trust manifest
  unfolding verify_bytes
  verify_bytes-ok_iff bytes text trust manifest = (to, from)
    where
      to : verify_bytes x bytes text trust ≡ ok manifest → IsAuthentic bytes text trust manifest
      to h =
          let (sig, e, k) = >>=-ok_inv _ _ h in
          elim (Bool-cases (any (λ key. x.verify_strict key bytes sig) trust.keys)) [
            | inr f ↦ absurd (cc (rw f at k))
            | inl f ↦
                let (m, p, k') = >>=-ok_inv _ _ (rw f at k) in
                let (u, q, k'') = >>=-ok_inv _ _ k' in
                let same : m ≡ manifest = ok_injective k'' in
                subst (IsAuthentic bytes text trust) same (record {
                  signature = sig;
                  signature_lem = e;
                  signed = (any_iff _ trust.keys).0 f;
                  parsed = map_err-ok _ _ p;
                  bound = (verify_payload_hash-ok m).0 q;
                })
          ]

      from : IsAuthentic bytes text trust manifest → verify_bytes x bytes text trust ≡ ok manifest
      from a =
          rw
            (
              a.signature_lem,
              (any_iff _ trust.keys).1 a.signed,
              a.parsed,
              (verify_payload_hash-ok manifest).1 a.bound,
            )
            refl

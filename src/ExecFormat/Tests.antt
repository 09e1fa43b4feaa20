-- ===== src/ExecFormat/Tests.antt =====
-- Witnesses on bundles.
use archangel.Common.{ℕ, refl, err, ◌≡◌, ◌↔◌, true, false, none, some, [], ◌∷◌, ok, map, All, arith}
use archangel.Common.Text.{Str, str, str_eq}
use archangel.Common.Map.{Key, HashMap, get}
use archangel.Core.{low}
use archangel.ExecFormat.Manifest.{ArgSpec, string, ExecManifest, NetworkPolicy, bash}
use archangel.ExecFormat.Args.{Regexes, anchored, validate}
use archangel.ExecFormat.Args.Validity.{IsDeclared, Satisfies, validate-ok_iff}
use mathlib.Core.List.{replicate}
use archangel.ExecFormat.Hex.{encode, decode, odd_length, invalid}
use archangel.ExecFormat.Verify.{Crypto, OperatorTrust, verify_bytes}
use archangel.ExecFormat.Verify.Authentic.{IsAuthentic, verify_bytes-ok_iff}
use archangel.ExecFormat.Hex.RoundTrip.{decode-encode}

-- An engine of literal patterns.
abbrev engine : Regexes
engine = record {
  Regex = Str;
  regex_new = λ p. ok p;
  is_match = λ p value. str_eq p (anchored value);
}

abbrev bundle : ExecManifest
bundle = record {
  meta = record {
    name = str "reload";
    version = str "1";
    risk = low;
    read_only = true;
    mutates_persistent_state = false;
    requires_network = false;
  };
  args = (str "unit", record { ty = string; regex = some (str "nginx"); required = true }) ∷ [];
  sandbox = record {
    capabilities = [];
    allowed_paths_ro = [];
    allowed_paths_rw = [];
    syscall_profile = str "base";
    network = NetworkPolicy.none;
    cpu_max = none;
    memory_max = none;
    timeout_seconds = 10;
  };
  payload = record { ty = bash; sha256 = str ""; inline = str "reload" };
  health_check = none;
}

abbrev supplied : HashMap Str
supplied = (str "unit", str "nginx") ∷ []

validate-ok_iff_example : (validate engine bundle supplied ≡ ok tt) ↔ (
    All (IsDeclared bundle.args) (map (λ (e : Key × Str). e.0) supplied)
    × All (λ (e : Key × ArgSpec). Satisfies engine e.1 (get e.0 supplied)) bundle.args)
validate-ok_iff_example = validate-ok_iff engine bundle supplied

-- A scheme in which a key makes the signature of 64 times the key.
abbrev scheme : Crypto
scheme = record {
  VerifyingKey = ℕ;
  verify_strict = λ key message signature. str_eq signature (replicate 64 key);
  sha256 = λ s. s;
  parse = λ bytes. ok bundle;
}

abbrev operators : OperatorTrust scheme
operators = record { keys = 7 ∷ 9 ∷ [] }

verify_bytes-ok_iff_example :
    (verify_bytes scheme (1 ∷ 2 ∷ []) (encode (replicate 64 9)) operators ≡ ok bundle)
    ↔ IsAuthentic scheme (1 ∷ 2 ∷ []) (encode (replicate 64 9)) operators bundle
verify_bytes-ok_iff_example =
    verify_bytes-ok_iff scheme (1 ∷ 2 ∷ []) (encode (replicate 64 9)) operators bundle

hex_tests :
    (decode (str " 0aFf ") ≡ ok (10 ∷ 255 ∷ []))
    × (encode (10 ∷ 255 ∷ []) ≡ str "0aff")
    × (decode (str "abc") ≡ err (odd_length 3))
    × (decode (str "0g") ≡ err (invalid 103))
unfolding decode encode archangel.Common.Text.trim
hex_tests = (refl, refl, refl, refl)

decode-encode_example : decode (encode (10 ∷ 255 ∷ [])) ≡ ok (10 ∷ 255 ∷ [])
decode-encode_example = decode-encode (10 ∷ 255 ∷ []) (omega arith, (omega arith, tt))

-- ===== src/Daemon/Tests/Cbor.antt =====
-- A wire for the tests: requests without arguments as lists of numbers, and signatures of 64 times
-- the number of the key.
use archangel.Common.{
  ℕ, zero, suc, ◌≡◌, refl, sym, ap, ◌∙◌, Bool, true, false, List, [], ◌∷◌, replicate, Result, ok,
  err, ok_injective,
}
use archangel.Common.Text.{Str, str_eq, str_eq_refl}
use archangel.Common.Map.{HashMap}
use archangel.Core.{
  OperationMode, read_only, interactive, autonomous, RiskLevel, low, medium, high, critical,
}
use archangel.Ipc.{ExecRequest}
use archangel.Ipc.Envelope.{Wire}
use archangel.Audit.Tests.Codec.{put, get, get-put}
use archangel.Daemon.Session.Admitted.{IsSound}

abbrev mode_code : OperationMode → ℕ
mode_code read_only = 0
mode_code interactive = 1
mode_code autonomous = 2

abbrev mode_of : ℕ → OperationMode
mode_of zero = read_only
mode_of (suc zero) = interactive
mode_of (suc (suc n)) = autonomous

abbrev risk_code : RiskLevel → ℕ
risk_code low = 0
risk_code medium = 1
risk_code high = 2
risk_code critical = 3

abbrev risk_of : ℕ → RiskLevel
risk_of zero = low
risk_of (suc zero) = medium
risk_of (suc (suc zero)) = high
risk_of (suc (suc (suc n))) = critical

abbrev bool_code : Bool → ℕ
bool_code true = 1
bool_code false = 0

abbrev bool_of : ℕ → Bool
bool_of zero = false
bool_of (suc n) = true

mode_of-mode_code : (m : OperationMode) → mode_of (mode_code m) ≡ m
mode_of-mode_code read_only = refl
mode_of-mode_code interactive = refl
mode_of-mode_code autonomous = refl

risk_of-risk_code : (r : RiskLevel) → risk_of (risk_code r) ≡ r
risk_of-risk_code low = refl
risk_of-risk_code medium = refl
risk_of-risk_code high = refl
risk_of-risk_code critical = refl

bool_of-bool_code : (b : Bool) → bool_of (bool_code b) ≡ b
bool_of-bool_code true = refl
bool_of-bool_code false = refl

abbrev body : ExecRequest → List ℕ
body r =
    r.seq
    ∷ r.issued_ms
    ∷ mode_code r.mode
    ∷ risk_code r.declared_risk
    ∷ bool_code r.declared_read_only
    ∷ put r.session_id (put r.action_id (put r.nonce (put r.profile (put r.exec_name []))))

abbrev read : List ℕ → Result ExecRequest Str
read (seq ∷ issued_ms ∷ mode ∷ risk ∷ claim ∷ rest) =
    let session = get rest in
    let action = get session.1 in
    let nonce = get action.1 in
    let profile = get nonce.1 in
    let exec = get profile.1 in
    ok (record {
      session_id = session.0;
      action_id = action.0;
      seq = seq;
      nonce = nonce.0;
      issued_ms = issued_ms;
      profile = profile.0;
      mode = mode_of mode;
      exec_name = exec.0;
      args = [];
      declared_risk = risk_of risk;
      declared_read_only = bool_of claim;
    })
read _ = err []

abbrev without_args : HashMap Str → List ℕ → Result (List ℕ) Str
without_args [] bytes = ok bytes
without_args (a ∷ args) bytes = err []

without_args-ok :
    (args : HashMap Str) (bytes out : List ℕ)
    → without_args args bytes ≡ ok out
    → (args ≡ []) × (bytes ≡ out)
without_args-ok [] bytes out h = (refl, ok_injective h)
without_args-ok (a ∷ args) bytes out h = absurd (cc h)

read-body : (r : ExecRequest) → read (body r) ≡ ok (record r { args = [] })
read-body r =
    rw
      (
        get-put r.session_id (put r.action_id (put r.nonce (put r.profile (put r.exec_name [])))),
        get-put r.action_id (put r.nonce (put r.profile (put r.exec_name []))),
        get-put r.nonce (put r.profile (put r.exec_name [])),
        get-put r.profile (put r.exec_name []),
        get-put r.exec_name [],
        mode_of-mode_code r.mode,
        risk_of-risk_code r.declared_risk,
        bool_of-bool_code r.declared_read_only,
      )
      refl

abbrev pub wire : Wire
wire = record {
  VerifyingKey = ℕ;
  SigningKey = ℕ;
  sign = λ key bytes. replicate 64 key;
  verify_strict = λ key bytes signature. str_eq signature (replicate 64 key);
  request_to_vec = λ r. without_args r.args (body r);
  request_from_slice = read;
  envelope_to_vec = λ e. ok e.request;
}

pub wire-IsSound : (key : ℕ) → IsSound wire key key
wire-IsSound key = record {
  signature_length = λ bytes. refl;
  verified = λ bytes. str_eq_refl (replicate 64 key);
  read = λ r bytes h.
      let (empty, same) = without_args-ok r.args (body r) bytes h in
      ap read (sym same) ∙ (read-body r ∙ ap (λ args. ok (record r { args = args })) (sym empty));
}

-- ===== src/Daemon/Session.antt =====
-- crates/archangeld/src/session.rs: a session, which signs the requests of the daemon. The nonce and
-- the time of a request are arguments; CBOR and Ed25519 are those of the envelope.
pub mod Admitted
use archangel.Common.{ℕ, Bool, Result}
use archangel.Common.Machine.{saturating_add}
use archangel.Common.Text.{Str}
use archangel.Common.Map.{Key, HashMap}
use archangel.Core.{OperationMode, RiskLevel}
use archangel.Ipc.{ExecRequest}
use archangel.Ipc.Envelope.{Wire, SignedEnvelope, IpcError, seal}

-- What `sign_exec_request` is given, with the nonce and the time that it reads.
pub record Order : Type 0 where
  pub action_id : Key
  pub exec_name : Str
  pub args : HashMap Str
  pub declared_risk : RiskLevel
  pub declared_read_only : Bool
  pub nonce : Key
  pub issued_ms : ℕ

module _ (x : Wire) where
  pub record Session : Type 0 where
    pub id : Key
    pub signing_key : x.SigningKey
    pub mode : OperationMode
    pub profile : Str
    pub seq : ℕ

  -- The id and the key are fresh.
  abbrev pub new : Key → x.SigningKey → OperationMode → Str → Session
  new id signing_key mode profile = record {
    id = id;
    signing_key = signing_key;
    mode = mode;
    profile = profile;
    seq = 0;
  }

  unfoldable pub advance : Session → Session
  advance s = record s { seq = saturating_add s.seq 1 }

  -- The request that a session that has advanced makes of an order.
  abbrev pub request_of : Session → Order → ExecRequest
  request_of s order = record {
    session_id = s.id;
    action_id = order.action_id;
    seq = s.seq;
    nonce = order.nonce;
    issued_ms = order.issued_ms;
    profile = s.profile;
    mode = s.mode;
    exec_name = order.exec_name;
    args = order.args;
    declared_risk = order.declared_risk;
    declared_read_only = order.declared_read_only;
  }

  unfoldable pub sign_exec_request : Session → Order → Session × Result SignedEnvelope IpcError
  unfolding advance seal
  sign_exec_request s order = (advance s, seal x (request_of (advance s) order) s.signing_key)

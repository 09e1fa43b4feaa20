-- ===== src/Daemon/Tests.antt =====
-- Witnesses on sessions.
mod Monitors
mod Cbor
mod Orchestrators
mod Prompts
use archangel.Common.{ℕ, ◌≡◌, refl, true, List, [], ◌∷◌, All, Result, ok, arith}
use archangel.Common.Text.{Str, str}
use archangel.Core.{read_only, low}
use archangel.Ipc.Envelope.{IpcError}
use archangel.Execd.Replay.{ReplayRejection, new}
use archangel.Daemon.Session.{Order, Session}
use archangel.Daemon.Session.Admitted.{AreFresh, IsReady, sign_all, receive_all, sign_all-admitted}
use Cbor.{wire, wire-IsSound}

abbrev order : Str → Order
order nonce = record {
  action_id = str "a";
  exec_name = str "uptime";
  args = [];
  declared_risk = low;
  declared_read_only = true;
  nonce = nonce;
  issued_ms = 0;
}

abbrev session : Session wire
session = record { id = str "s"; signing_key = 7; mode = read_only; profile = str "web"; seq = 0 }

abbrev orders : List Order
orders = order (str "x") ∷ order (str "y") ∷ order (str "z") ∷ []

orders-AreFresh : AreFresh [] orders
unfolding archangel.Common.Map.member archangel.Common.Text.str_eq
orders-AreFresh = (refl, (refl, (refl, tt)))

new-IsReady : IsReady new (str "s") 0 []
unfolding archangel.Common.Map.member archangel.Common.Map.get
new-IsReady = record { numbers = λ seq above. refl; nonces = λ k out. refl }

sign_all-admitted_example :
    All (λ d. d ≡ ok (ok tt)) (receive_all wire 7 new (sign_all wire session orders))
sign_all-admitted_example =
    sign_all-admitted wire 7 7 (wire-IsSound 7) session orders new [] refl new-IsReady
      orders-AreFresh (omega arith)

-- ===== src/Daemon/Tests/Orchestrators.antt =====
-- Witnesses on the orchestrator: the transport is the list of the frames that were sent, the latest
-- first, the world a clock that does not move, and the model always asks for one action.
use archangel.Common.{
  ℕ, ◌≤◌, ◌≡◌, ◌⊎◌, refl, Bool, true, false, Option, none, some, List, [], ◌∷◌, length, Result, ok,
  err,
}
use archangel.Common.Text.{Str, str, str_eq}
use archangel.Common.Map.{Key, get}
use archangel.Core.{interactive, low}
use archangel.Policy.Tests.{literal}
use archangel.Policy.Engine.{PolicyEngine}
use archangel.ExecFormat.Manifest.{ExecManifest, NetworkPolicy, bash}
use archangel.Ipc.{rejected, bundle_unverified}
use archangel.Audit.Log.{memory}
use archangel.Audit.Tests.{toy}
use archangel.Daemon.Orchestrator.{Setting, Orchestrator, Pending}
use archangel.Daemon.Orchestrator.Approve.{approve}
use archangel.Daemon.Orchestrator.Approvals.{IsApproved, approve-sends}
use archangel.Daemon.Orchestrator.Run.{run_task}
use archangel.Daemon.Orchestrator.Tasks.{IsRun, run_task-sends}
use archangel.Daemon.Orchestrator.Reachable.{here, further, runs, approves, Reaches-bounded}
use archangel.Daemon.Tests.Cbor.{wire}

abbrev bundle : ExecManifest
bundle = record {
  meta = record {
    name = str "uptime";
    version = str "1";
    risk = low;
    read_only = true;
    mutates_persistent_state = false;
    requires_network = false;
  };
  args = [];
  sandbox = record {
    capabilities = [];
    allowed_paths_ro = [];
    allowed_paths_rw = [];
    syscall_profile = str "base";
    network = NetworkPolicy.none;
    cpu_max = none;
    memory_max = none;
    timeout_seconds = 10;
  };
  payload = record { ty = bash; sha256 = str "00"; inline = str "uptime" };
  health_check = none;
}

abbrev setting : Setting
setting = record {
  externals = record toy { record_to_vec = λ r. ok []; entry_to_text = λ e. ok (str "{}") };
  Sink = Str;
  durable = memory;
  wire = wire;
  matchers = literal;
  regexes = record { Regex = Str; regex_new = λ p. ok p; is_match = λ p value. true };
  OperatorTrust = Unit {0};
  World = ℕ;
  Transport = List (List ℕ);
  backend_name = str "none";
  now_ms = λ w. (w, w);
  random_id = λ w. (w, str "i");
  action_id = λ w. (w, str "a");
  nonce = λ w. (w, str "n");
  load = λ w exec sig trust. ok bundle;
  complete = λ w request. (w, ok (str "{}"));
  send = λ frames frame. (
    frame ∷ frames,
    ok (record { action_id = str "a"; outcome = rejected bundle_unverified (str "no") }),
  );
  raw_action =
      λ text. ok (record { action = str "uptime"; args = none; reason = none; question = none });
  args_to_vec = λ args. [];
  debug_decision = λ d. [];
  debug_stage = λ stage. [];
  debug_risk = λ risk. [];
  debug_args = λ args. [];
  display_reason = λ d. [];
  display_arg_error = λ e. [];
  display_response_error = λ e. [];
}

abbrev waiting : Bool → Pending
waiting two_person = record {
  frame = 1 ∷ 2 ∷ [];
  action_id = str "a";
  exec = str "uptime";
  digest = str "d";
  args_sha256 = str "h";
  two_person = two_person;
  created_ms = 1000;
}

abbrev policy : PolicyEngine
policy = record {
  allowlist = record {
    profiles =
        record { name = str "web"; mode = interactive; allowed_exec = str "uptime" ∷ [] } ∷ [];
  };
}

-- An orchestrator at a time.
abbrev at_time : ℕ → List (Key × Pending) → Orchestrator setting
at_time now pending = record {
  transport = [];
  world = now;
  policy = policy;
  trust = tt;
  bundle_dir = str "/b";
  audit = record { sink = []; keypair = true; next_seq = 0; prev_hash_hex = [] };
  session = record {
    id = str "s";
    signing_key = 7;
    mode = interactive;
    profile = str "web";
    seq = 0;
  };
  secrets = record { delimiter_tag = str "tag"; canary = str "canary" };
  model = str "m";
  max_tokens = 100;
  tools = [];
  pending = pending;
}

abbrev one : Orchestrator setting
one = at_time 2000 ((str "i", waiting false) ∷ [])

approve-sends_example :
    (get (str "i") (approve setting (str "i") (str "d") one).0.pending ≡ none)
    × (((approve setting (str "i") (str "d") one).0.transport ≡ [])
        ⊎ IsApproved setting (str "i") (str "d") one (approve setting (str "i") (str "d") one).0)
approve-sends_example = approve-sends setting (str "i") (str "d") one

-- An approval in time, with the digest, sends the frame.
approvals :
    ((approve setting (str "i") (str "d") one).0.transport ≡ (1 ∷ 2 ∷ []) ∷ [])
    × ((approve setting (str "i") (str "e") one).0.transport ≡ [])
    × ((approve setting
          (str "i")
          (str "d")
          (at_time 301001 ((str "i", waiting false) ∷ []))).0.transport
        ≡ [])
    × ((approve setting
          (str "i")
          (str "d")
          (at_time 2000 ((str "i", waiting true) ∷ []))).0.transport
        ≡ [])
unfolding approve str_eq get archangel.Common.Map.retain archangel.Common.Map.remove
approvals = (refl, refl, refl, refl)

run_task-sends_example :
    ((run_task setting (str "how long?") [] (at_time 2000 [])).0.transport ≡ [])
    ⊎ IsRun setting
        (str "how long?")
        []
        (at_time 2000 [])
        (run_task setting (str "how long?") [] (at_time 2000 [])).0
run_task-sends_example = run_task-sends setting (str "how long?") [] (at_time 2000 [])

abbrev asked : Orchestrator setting
asked = (run_task setting (str "how long?") [] (at_time 2000 [])).0

Reaches-bounded_example : length (approve setting (str "i") (str "d") asked).0.pending ≤ 64
Reaches-bounded_example =
    Reaches-bounded setting (at_time 2000 []) (approve setting (str "i") (str "d") asked).0 refl (
      further (further here (runs (str "how long?") [] (at_time 2000 [])))
        (approves (str "i") (str "d") asked))

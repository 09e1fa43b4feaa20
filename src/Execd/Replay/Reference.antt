-- ===== src/Execd/Replay/Reference.antt =====
-- crates/archangel-execd/src/replay.rs: a reference for the guard that keeps every request it ever
-- admitted, and runs of both.

use archangel.Common.{
  ℕ, Bool, ◌&&◌, List, [], ◌∷◌, leb, map, any, take, if◌then◌else◌, Result, ok, err,
}
use archangel.Common.Text.{str_eq}
use archangel.Common.Map.{Key, member}
use archangel.Execd.Replay.{
  ReplayRejection, non_monotonic_seq, duplicate_nonce, ReplayGuard, admit_within,
}

pub record Ticket : Type 0 where
  pub session : Key
  pub seq : ℕ
  pub nonce : Key

-- Some request of the session, admitted before, has a number that is not smaller.
unfoldable pub overtaken : Key → ℕ → List Ticket → Bool
overtaken session seq log = any (λ t. str_eq t.session session && leb seq t.seq) log

abbrev pub nonces : List Ticket → List Key
nonces = map (λ t. t.nonce)

-- The reference, its log with the newest first: a request is refused if its session has gone on to
-- its number or past it, or if its nonce is one of the latest that were admitted.
unfoldable pub reference : ℕ → List Ticket → Ticket → Result (Unit {0}) ReplayRejection
reference window log t =
    if overtaken t.session t.seq log
    then err non_monotonic_seq
    else if member t.nonce (take window (nonces log))
    then err duplicate_nonce
    else ok tt

abbrev pub extend : Result (Unit {0}) ReplayRejection → List Ticket → Ticket → List Ticket
extend (ok _) log t = t ∷ log
extend (err _) log t = log

-- What a run of requests is answered, one by one.
unfoldable pub decisions : ℕ → ReplayGuard → List Ticket → List (Result (Unit {0}) ReplayRejection)
decisions window g [] = []
decisions window g (t ∷ rest) =
    let (g', d) = admit_within window g t.session t.seq t.nonce in d ∷ decisions window g' rest

unfoldable pub reference_decisions :
    ℕ → List Ticket → List Ticket → List (Result (Unit {0}) ReplayRejection)
reference_decisions window log [] = []
reference_decisions window log (t ∷ rest) =
    let d = reference window log t in d ∷ reference_decisions window (extend d log t) rest

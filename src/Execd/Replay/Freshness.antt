-- ===== src/Execd/Replay/Freshness.antt =====
-- crates/archangel-execd/src/replay.rs: a request that was admitted is never admitted again.
use archangel.Common.{ℕ, ◌≤◌, ◌≡◌, refl, sym, ap, ◌∙◌, true, List, [], ◌∷◌, Result, ok, err, arith}
use archangel.Common.Text.{str_eq_refl}
use archangel.Common.Map.{Key, get}
use archangel.Execd.Replay.{
  ReplayGuard, ReplayRejection, non_monotonic_seq, new, admit_within, nonce_window, admit, is_stale,
}
use archangel.Execd.Replay.Reference.{Ticket, overtaken, reference, extend}
use archangel.Execd.Replay.Refinement.{Holds, admit-Holds, admit-eq, Holds-new, overtaken-cons}

abbrev pub offer : ReplayGuard → Ticket → ReplayGuard × Result (Unit {0}) ReplayRejection
offer g t = admit g t.session t.seq t.nonce

-- The guard after a run of requests.
unfoldable pub after : ReplayGuard → List Ticket → ReplayGuard
after g [] = g
after g (t ∷ run) = after (offer g t).0 run

overtaken-extend :
    (session : Key) (seq : ℕ) (log : List Ticket) (t : Ticket)
    (d : Result (Unit {0}) ReplayRejection)
    → overtaken session seq log ≡ true
    → overtaken session seq (extend d log t) ≡ true
overtaken-extend session seq log t (ok u) h =
    rw (overtaken-cons session seq t log, h) (ground arith)
overtaken-extend session seq log t (err why) h = h

-- A later log still holds what overtakes a request.
record Later (g : ReplayGuard) (session : Key) (seq : ℕ) : Type 0 where
  log : List Ticket
  holds : Holds nonce_window g log
  past : overtaken session seq log ≡ true

after-Later :
    (g : ReplayGuard) (session : Key) (seq : ℕ) (run : List Ticket)
    → Later g session seq
    → Later (after g run) session seq
unfolding after
after-Later g session seq [] l = l
after-Later g session seq (t ∷ run) l = after-Later (offer g t).0 session seq run (
    unfold admit in
    record {
      log = extend (reference nonce_window l.log t) l.log t;
      holds = admit-Holds nonce_window g l.log t l.holds;
      past = overtaken-extend session seq l.log t (reference nonce_window l.log t) l.past;
    })

after-Holds :
    (g : ReplayGuard) (log run : List Ticket)
    → Holds nonce_window g log
    → (log' : List Ticket) × Holds nonce_window (after g run) log'
unfolding after
after-Holds g log [] h = (log, h)
after-Holds g log (t ∷ run) h =
    after-Holds (offer g t).0 (extend (reference nonce_window log t) log t) run
      (unfold admit in admit-Holds nonce_window g log t h)

overtaken_self :
    (t u : Ticket) (log : List Ticket)
    → u.session ≡ t.session
    → u.seq ≤ t.seq
    → overtaken u.session u.seq (t ∷ log) ≡ true
overtaken_self t u log same le =
    rw (overtaken-cons u.session u.seq t log, same, str_eq_refl t.session) (ground arith)

offered-Holds :
    (g : ReplayGuard) (log : List Ticket) (t : Ticket)
    → Holds nonce_window g log
    → reference nonce_window log t ≡ ok tt
    → Holds nonce_window (offer g t).0 (t ∷ log)
unfolding admit
offered-Holds g log t h e = rw (← ap (λ d. extend d log t) e) (admit-Holds nonce_window g log t h)

stale_offer :
    (g : ReplayGuard) (u : Ticket)
    → is_stale u.seq (get u.session g.last_seq) ≡ true
    → offer g u ≡ (g, err non_monotonic_seq)
unfolding admit admit_within
stale_offer g u e = rw e refl

-- After a request of a session was admitted, whatever requests the guard saw before it and after
-- it, one of that session with its number or a smaller one is refused, and changes nothing.
pub admit_after_admitted :
    (before between : List Ticket) (t u : Ticket)
    → (offer (after new before) t).1 ≡ ok tt
    → u.session ≡ t.session
    → u.seq ≤ t.seq
    → offer (after (offer (after new before) t).0 between) u
      ≡ (after (offer (after new before) t).0 between, err non_monotonic_seq)
admit_after_admitted before between t u ok_t same le =
    let (log, h) = after-Holds new [] before (Holds-new nonce_window) in
    let admitted : reference nonce_window log t ≡ ok tt =
      sym (admit-eq nonce_window (after new before) log t h) ∙ (unfold admit in ok_t) in
    let l : Later (offer (after new before) t).0 u.session u.seq = record {
      log = t ∷ log;
      holds = offered-Holds (after new before) log t h admitted;
      past = overtaken_self t u log same le;
    } in
    let m = after-Later (offer (after new before) t).0 u.session u.seq between l in
    stale_offer (after (offer (after new before) t).0 between) u
      (m.holds.seqs u.session u.seq ∙ m.past)

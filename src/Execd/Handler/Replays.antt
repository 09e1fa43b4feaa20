-- ===== src/Execd/Handler/Replays.antt =====
-- crates/archangel-execd/src/handler.rs: a frame that came through once is refused from then on.
use archangel.Common.{
  ℕ, ◌≡◌, refl, ap, ◌∙◌, true, Option, none, some, List, ok, err, inl, inr, arith, Result-cases,
  Bool-cases, map_err, ltb, length,
}
use archangel.Common.Text.{str_eq_refl}
use archangel.Common.Map.{Key, get, get-insert, member}
use archangel.Policy.Denylist.{Matchers}
use archangel.Ipc.{ExecRequest}
use archangel.Ipc
use archangel.Execd.Replay.{
  ReplayGuard, non_monotonic_seq, is_stale, evict, evicted, pop_front, admit_within, nonce_window,
  admit,
}
use archangel.Execd.Handler.{
  Collaborators, Executor, reject, replayed, authenticate, anti_replay, rate_gate, admissible,
  dispatch, handle,
}

evicted-last_seq :
    (window : ℕ) (g : ReplayGuard) (o : Option (Key × List Key))
    → (evicted window g o).last_seq ≡ g.last_seq
evicted-last_seq window g none = refl
evicted-last_seq window g (some (oldest, rest)) = refl

evict-last_seq : (window : ℕ) (g : ReplayGuard) → (evict window g).last_seq ≡ g.last_seq
unfolding evict
evict-last_seq window g = elim (Bool-cases (ltb window (length g.nonce_order))) [
  | inl e ↦ rw e (evicted-last_seq window g (pop_front g.nonce_order))
  | inr e ↦ rw e refl
]

-- An admitted number is stale.
admit-stale :
    (g : ReplayGuard) (session : Key) (seq : ℕ) (nonce : Key)
    → (admit g session seq nonce).1 ≡ ok tt
    → is_stale seq (get session (admit g session seq nonce).0.last_seq) ≡ true
unfolding admit admit_within
admit-stale g session seq nonce h = elim (Bool-cases (is_stale seq (get session g.last_seq))) [
  | inl e ↦ absurd (cc (rw e at h))
  | inr e ↦ elim (Bool-cases (member nonce g.seen_nonces)) [
    | inl f ↦ absurd (cc (rw (e, f) at h))
    | inr f ↦
        rw
          (
            e,
            f,
            evict-last_seq nonce_window _,
            get-insert session session seq g.last_seq,
            str_eq_refl session,
          )
          (ground arith)
  ]
]

stale-admit :
    (g : ReplayGuard) (session : Key) (seq : ℕ) (nonce : Key)
    → is_stale seq (get session g.last_seq) ≡ true
    → (admit g session seq nonce).1 ≡ err non_monotonic_seq
unfolding admit admit_within
stale-admit g session seq nonce e = rw e refl

module _ (m : Matchers) (c : Collaborators) (body : List ℕ) (request : ExecRequest) where
  -- The guard's verdict is the executor's, and the rest of the pipeline leaves the guard alone.
  module _ (x : Executor m c) (w : c.World) (now : ℕ)
      (e : authenticate m c x body ≡ ok request) where
    stopped_stale :
        is_stale request.seq (get request.session_id x.replay.last_seq) ≡ true
        → (anti_replay m c x request).1
          ≡ err (reject request.action_id Ipc.replay (replayed non_monotonic_seq))
    unfolding anti_replay
    stopped_stale stale =
        ap (map_err (λ why. reject request.action_id Ipc.replay (replayed why)))
          (stale-admit x.replay request.session_id request.seq request.nonce stale)

    passed_fresh :
        (admit x.replay request.session_id request.seq request.nonce).1 ≡ ok tt
        → (anti_replay m c x request).1 ≡ ok tt
    unfolding anti_replay
    passed_fresh fresh =
        ap (map_err (λ why. reject request.action_id Ipc.replay (replayed why))) fresh

    refused_stale :
        is_stale request.seq (get request.session_id x.replay.last_seq) ≡ true
        → ((handle m c x w now body).1
            ≡ reject request.action_id Ipc.replay (replayed non_monotonic_seq))
          × ((handle m c x w now body).0.1 ≡ w)
    unfolding handle dispatch
    refused_stale stale = rw (e, dispatch) (rw (stopped_stale stale, dispatch) (refl, refl))

    guard_after :
        (admit x.replay request.session_id request.seq request.nonce).1 ≡ ok tt
        → ((handle m c x w now body).0.0.replay
            ≡ (admit x.replay request.session_id request.seq request.nonce).0)
          × ((handle m c x w now body).0.0.session_key ≡ x.session_key)
    unfolding handle dispatch anti_replay rate_gate
    guard_after fresh =
        let f = passed_fresh fresh in
        elim (Result-cases (admissible m c (anti_replay m c x request).0 w request)) [
          | inr (r, g) ↦ rw (e, dispatch) (rw (f, dispatch) (rw (g, dispatch) (refl, refl)))
          | inl (bundle, g) ↦
              elim (Result-cases
                (rate_gate m c (anti_replay m c x request).0 now request bundle).1) [
                  | inr (r, h) ↦
                      rw (e, dispatch)
                        (rw (f, dispatch) (rw (g, dispatch) (rw (h, dispatch) (refl, refl))))
                  | inl (u, h) ↦
                      rw (e, dispatch)
                        (rw (f, dispatch) (rw (g, dispatch) (rw (h, dispatch) (refl, refl))))
                ]
        ]

  authenticate-key :
      (x y : Executor m c)
      → y.session_key ≡ x.session_key
      → authenticate m c y body ≡ authenticate m c x body
  unfolding authenticate
  authenticate-key x y same = rw same

  -- Once the replay guard has let the request of a frame through, and whatever the gates behind it
  -- said, the same frame is refused as a replay, at any time and in any world, and the world stays
  -- as it is.
  pub handle-again :
      (x : Executor m c) (w w' : c.World) (now now' : ℕ)
      → authenticate m c x body ≡ ok request
      → (admit x.replay request.session_id request.seq request.nonce).1 ≡ ok tt
      → ((handle m c (handle m c x w now body).0.0 w' now' body).1
          ≡ reject request.action_id Ipc.replay (replayed non_monotonic_seq))
        × ((handle m c (handle m c x w now body).0.0 w' now' body).0.1 ≡ w')
  handle-again x w w' now now' e fresh =
      let (guard, key) = guard_after x w now e fresh in
      refused_stale (handle m c x w now body).0.0 w' now'
        (authenticate-key x (handle m c x w now body).0.0 key ∙ e)
        (ap (λ (g : ReplayGuard). is_stale request.seq (get request.session_id g.last_seq)) guard
          ∙ admit-stale x.replay request.session_id request.seq request.nonce fresh)

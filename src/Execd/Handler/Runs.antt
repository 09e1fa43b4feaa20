-- ===== src/Execd/Handler/Runs.antt =====
-- crates/archangel-execd/src/handler.rs: what a run, and what a change of the world, rests on.
use archangel.Common.{
  ℕ, ◌≡◌, refl, sym, ap, ◌∙◌, ◌⊎◌, inl, inr, Option, none, some, List, ok, err, Result-cases,
  map_err-ok, subst,
}
use archangel.Common.Text.{Str}
use archangel.Policy.Denylist.{Matchers}
use archangel.ExecFormat.Manifest.{ExecManifest}
use archangel.Ipc.{ExecRequest, Completion, completed}
use archangel.Execd.RateLimit.{try_admit}
use archangel.Execd.Replay.{admit}
use archangel.Execd.Handler.{
  Collaborators, Executor, Gate, Response, action_class, authenticate, anti_replay, rate_gate,
  admissible, carry_out, dispatch, handle, either,
}
use archangel.Execd.Handler.Gates.{IsAdmissible, admissible-ok}
use archangel.Execd.Handler.Refusals.{
  IsRefusal, Refuses-authenticate, Refuses-anti_replay, Refuses-admissible, Refuses-rate_gate,
}
use archangel.Execd.Handler.Execution.{IsExecuted, HasRecovery, carry_out-ok, Refuses-carry_out}

module _ (m : Matchers) (c : Collaborators) (x : Executor m c) (w : c.World) (now : ℕ)
    (body : List ℕ) where
  -- The frame carries an authentic and fresh request for a bundle that passes every gate before the
  -- first one that acts on the world.
  pub record IsCleared : Type 0 where
    pub request : ExecRequest
    pub bundle : ExecManifest
    pub authentic : authenticate m c x body ≡ ok request
    pub fresh : (admit x.replay request.session_id request.seq request.nonce).1 ≡ ok tt
    pub admitted : IsAdmissible m c x w now request bundle
    pub room : (try_admit x.rate now (action_class bundle)).1 ≡ ok tt

  -- The executor behind the gates that change it.
  abbrev charged : ExecRequest → ExecManifest → Executor m c
  charged request bundle = (rate_gate m c (anti_replay m c x request).0 now request bundle).0

  abbrev IsRefused : (Executor m c × c.World) × Gate Response → Type 0
  IsRefused d = (d.0.1 ≡ w) × (r : Response) × (d.1 ≡ err r) × IsRefusal r

  refused :
      (x' : Executor m c) (r : Response)
      → IsRefusal r
      → dispatch m c x w now body ≡ ((x', w), err r)
      → IsRefused (dispatch m c x w now body)
  refused x' r refusal e = rw e (refl, r, refl, refusal)

  module _ (request : ExecRequest) (e : authenticate m c x body ≡ ok request) where
    at_replay :
        (r : Response)
        → (anti_replay m c x request).1 ≡ err r
        → IsRefused (dispatch m c x w now body)
    unfolding dispatch
    at_replay r f =
        refused (anti_replay m c x request).0 r (Refuses-anti_replay m c x request r f)
          (rw (e, dispatch) (rw (f, dispatch) refl))

    module _ (u : Unit {0}) (f : (anti_replay m c x request).1 ≡ ok u) where
      at_gates :
          (r : Response)
          → admissible m c (anti_replay m c x request).0 w request ≡ err r
          → IsRefused (dispatch m c x w now body)
      unfolding dispatch
      at_gates r g =
          refused (anti_replay m c x request).0 r
            (Refuses-admissible m c (anti_replay m c x request).0 request w r g)
            (rw (e, dispatch) (rw (f, dispatch) (rw (g, dispatch) refl)))

      module _ (bundle : ExecManifest)
          (g : admissible m c (anti_replay m c x request).0 w request ≡ ok bundle) where
        at_rate :
            (r : Response)
            → (rate_gate m c (anti_replay m c x request).0 now request bundle).1 ≡ err r
            → IsRefused (dispatch m c x w now body)
        unfolding dispatch
        at_rate r h =
            refused (charged request bundle) r
              (Refuses-rate_gate m c (anti_replay m c x request).0 request bundle now r h)
              (rw (e, dispatch) (rw (f, dispatch) (rw (g, dispatch) (rw (h, dispatch) refl))))

        pub behind_gates :
            (v : Unit {0})
            → (rate_gate m c (anti_replay m c x request).0 now request bundle).1 ≡ ok v
            → dispatch m c x w now body ≡ (
              (charged request bundle, (carry_out m c (charged request bundle) w request bundle).0),
              (carry_out m c (charged request bundle) w request bundle).1,
            )
        unfolding dispatch
        behind_gates v h =
            rw (e, dispatch) (rw (f, dispatch) (rw (g, dispatch) (rw (h, dispatch) refl)))

  IsAdmissible_replay :
      (request : ExecRequest) (bundle : ExecManifest)
      → IsAdmissible m c (anti_replay m c x request).0 w now request bundle
      → IsAdmissible m c x w now request bundle
  unfolding anti_replay
  IsAdmissible_replay request bundle a = record {
    safe_name = a.safe_name;
    loaded = a.loaded;
    args_valid = a.args_valid;
    may_mutate = a.may_mutate;
    permitted = a.permitted;
  }

  dispatch-cases :
      IsRefused (dispatch m c x w now body)
      ⊎ ((k : IsCleared) × (dispatch m c x w now body ≡ (
        (
          charged k.request k.bundle,
          (carry_out m c (charged k.request k.bundle) w k.request k.bundle).0,
        ),
        (carry_out m c (charged k.request k.bundle) w k.request k.bundle).1,
      )))
  unfolding anti_replay rate_gate
  dispatch-cases = elim (Result-cases (authenticate m c x body)) [
    | inr (r, e) ↦ inl (
        refused x r (Refuses-authenticate m c x body r e)
          (unfold dispatch in rw (e, dispatch) refl))
    | inl (request, e) ↦ elim (Result-cases (anti_replay m c x request).1) [
      | inr (r, f) ↦ inl (at_replay request e r f)
      | inl (u, f) ↦ elim (Result-cases (admissible m c (anti_replay m c x request).0 w request)) [
        | inr (r, g) ↦ inl (at_gates request e u f r g)
        | inl (bundle, g) ↦
            elim (Result-cases (rate_gate m c (anti_replay m c x request).0 now request bundle).1) [
              | inr (r, h) ↦ inl (at_rate request e u f bundle g r h)
              | inl (v, h) ↦ inr (
                record {
                  request = request;
                  bundle = bundle;
                  authentic = e;
                  fresh = map_err-ok _ _ f;
                  admitted =
                      IsAdmissible_replay request bundle
                        (admissible-ok m c (anti_replay m c x request).0 w now request bundle g);
                  room = map_err-ok _ _ h;
                },
                behind_gates request e u f bundle g v h,
              )
            ]
      ]
    ]
  ]

  -- A frame that is not cleared leaves the world as it was, and is answered by a rejection.
  pub handle-uncleared :
      ¬ IsCleared → ((handle m c x w now body).0.1 ≡ w) × IsRefusal (handle m c x w now body).1
  unfolding handle
  handle-uncleared free = elim dispatch-cases [
    | inr (k, e) ↦ absurd (free k)
    | inl (same, r, h, refusal) ↦ (same, subst IsRefusal (sym (ap (either m c) h)) refusal)
  ]

  HasRecovery-charged :
      (request : ExecRequest) (bundle : ExecManifest) (recovery : Option Str) (w' : c.World)
      → HasRecovery m c (charged request bundle) w request bundle recovery w'
      → HasRecovery m c x w request bundle recovery w'
  unfolding rate_gate anti_replay
  HasRecovery-charged request bundle none w' h = h
  HasRecovery-charged request bundle (some id) w' (h, a) = (
    h,
    record {
      backend = a.backend;
      target = a.target;
      backend_lem = a.backend_lem;
      target_lem = a.target_lem;
      taken = a.taken;
    },
  )

  IsExecuted-charged :
      (request : ExecRequest) (bundle : ExecManifest) (w' : c.World) (r : Response)
      → IsExecuted m c (charged request bundle) w request bundle w' r
      → IsExecuted m c x w request bundle w' r
  unfolding rate_gate anti_replay
  IsExecuted-charged request bundle w' r a = record {
    recovery = a.recovery;
    secured = a.secured;
    plan = a.plan;
    confined = a.confined;
    cgroup = a.cgroup;
    recovery_lem = HasRecovery-charged request bundle a.recovery a.secured a.recovery_lem;
    plan_lem = a.plan_lem;
    cgroup_lem = a.cgroup_lem;
    response_lem = a.response_lem;
    world_lem = a.world_lem;
  }

  not_both : (done : Completion) (r : Response) → IsRefusal r → r.outcome ≡ completed done → ⊥
  not_both done r (stage, why, e) h = cc (e, h)

  answer_of_carry_out :
      (request : ExecRequest) (bundle : ExecManifest) (done : Completion) (g : Gate Response)
      → (carry_out m c (charged request bundle) w request bundle).1 ≡ g
      → (either m c g).outcome ≡ completed done
      → IsExecuted m c x w request bundle
          (carry_out m c (charged request bundle) w request bundle).0
          (either m c g)
  answer_of_carry_out request bundle done (err r) e h =
      absurd
        (not_both done r (Refuses-carry_out m c (charged request bundle) w request bundle r e) h)
  answer_of_carry_out request bundle done (ok r) e h =
      IsExecuted-charged request bundle _ r
        (carry_out-ok m c (charged request bundle) w request bundle r e)

  -- A completed run is that of a cleared request, executed behind its recovery point, in its
  -- sandbox; and the world afterwards is the one that the run leaves.
  pub handle-completed :
      (done : Completion)
      → (handle m c x w now body).1.outcome ≡ completed done
      → (k : IsCleared) × IsExecuted m c x w k.request k.bundle
          (handle m c x w now body).0.1
          (handle m c x w now body).1
  unfolding handle
  handle-completed done h = elim dispatch-cases [
    | inl (same, r, e, refusal) ↦
        absurd (not_both done r refusal (ap (λ g. (either m c g).outcome) (sym e) ∙ h))
    | inr (k, e) ↦ (
      k,
      rw e (
          answer_of_carry_out k.request k.bundle done _ refl (
            ap (λ (d : (Executor m c × c.World) × Gate Response). (either m c d.1).outcome) (sym e)
            ∙ h)),
    )
  ]

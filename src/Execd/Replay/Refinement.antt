-- ===== src/Execd/Replay/Refinement.antt =====
-- crates/archangel-execd/src/replay.rs: on every run the guard decides as the reference does.
use mathlib.Core.Option.{some-injective}
use archangel.Common.{
  ℕ, ◌≡◌, refl, sym, ap, ◌∙◌, Bool, true, false, not, ◌&&◌, ◌||◌, Option, none, some, List, [], ◌∷◌,
  leb, ltb, inl, inr, take, length, arith, Bool-cases,
}
use archangel.Common.Text.{str_eq, str_eq→eq}
use archangel.Common.Map.{
  Key, get, insert, get-insert, member, insert_key, remove_key, member-insert_key,
  member-remove_key,
}
use archangel.Execd.Replay.{
  ReplayGuard, new, pop_front, evict, is_stale, admit_within, nonce_window,
}
use archangel.Execd.Replay.Reference.{
  Ticket, overtaken, nonces, reference, extend, decisions, reference_decisions,
}
use archangel.Execd.Replay.Queue.{
  Distinct, pop_front-take, take-nil, take-le, Popped, pop_front-Popped,
}
use mathlib.Core.Path.{ap₂}

-- What the guard holds of the log.
pub record Holds (window : ℕ) (g : ReplayGuard) (log : List Ticket) : Type 0 where
  pub seqs :
      (session : Key) (seq : ℕ) → is_stale seq (get session g.last_seq) ≡ overtaken session seq log
  seen : (n : Key) → member n g.seen_nonces ≡ member n g.nonce_order
  order : g.nonce_order ≡ take window (nonces log)
  distinct : Distinct g.nonce_order

pub overtaken-cons :
    (session : Key) (seq : ℕ) (t : Ticket) (log : List Ticket)
    → overtaken session seq (t ∷ log)
      ≡ ((str_eq t.session session && leb seq t.seq) || overtaken session seq log)
unfolding overtaken
overtaken-cons session seq t log = refl

-- The number of a fresh request stands for all numbers of its session.
latest :
    (last : Option ℕ) (seq seq' : ℕ) (b : Bool)
    → is_stale seq last ≡ false
    → is_stale seq' last ≡ b
    → leb seq' seq ≡ (leb seq' seq || b)
latest none seq seq' b fresh e = ground arith
latest (some last) seq seq' b fresh e = ground arith

without_oldest :
    (o n : Key) (rest : List Key) (b : Bool)
    → b ≡ (str_eq o n || member n rest)
    → member o rest ≡ false
    → (not (str_eq o n) && b) ≡ member n rest
without_oldest o n rest b e gone = elim (Bool-cases (str_eq o n)) [
  | inr other ↦ rw other (rw other at e)
  | inl same ↦ rw (same, ← str_eq→eq o n same) (sym gone)
]

module _ (window : ℕ) (g : ReplayGuard) (log : List Ticket) (t : Ticket)
    (h : Holds window g log) where
  pub admit-eq : (admit_within window g t.session t.seq t.nonce).1 ≡ reference window log t
  unfolding admit_within reference
  admit-eq = rw (h.seqs t.session t.seq, h.seen t.nonce, h.order) (ground arith)

  module _ (fresh : overtaken t.session t.seq log ≡ false)
      (unseen : member t.nonce (take window (nonces log)) ≡ false) where
    entered : ReplayGuard
    entered = record {
      last_seq = insert t.session t.seq g.last_seq;
      seen_nonces = insert_key t.nonce g.seen_nonces;
      nonce_order = t.nonce ∷ g.nonce_order;
    }

    seqs-entered :
        (session : Key) (seq : ℕ)
        → is_stale seq (get session entered.last_seq) ≡ overtaken session seq (t ∷ log)
    unfolding entered
    seqs-entered session seq =
        rw (get-insert t.session session t.seq g.last_seq, overtaken-cons)
          (elim (Bool-cases (str_eq t.session session)) [
            | inr other ↦ rw other (h.seqs session seq)
            | inl same ↦ rw same (
                latest (get t.session g.last_seq) t.seq seq (overtaken session seq log)
                  (h.seqs t.session t.seq ∙ fresh)
                  (ap (λ k. is_stale seq (get k g.last_seq)) (str_eq→eq t.session session same)
                    ∙ h.seqs session seq))
          ])

    seen-entered : (n : Key) → member n entered.seen_nonces ≡ member n entered.nonce_order
    unfolding entered
    seen-entered n =
        member-insert_key t.nonce n g.seen_nonces
        ∙ ap (λ b. str_eq t.nonce n || b) (h.seen n)
        ∙ (unfold member in refl)

    Distinct-entered : Distinct (t.nonce ∷ g.nonce_order)
    Distinct-entered = (ap (member t.nonce) h.order ∙ unseen, h.distinct)

    order-room :
        ltb window (length (t.nonce ∷ g.nonce_order)) ≡ false
        → t.nonce ∷ g.nonce_order ≡ take window (nonces (t ∷ log))
    order-room room =
        let room' : ltb window (length (t.nonce ∷ take window (nonces log))) ≡ false =
          rw (← h.order) room in
        ap (λ l. t.nonce ∷ l) h.order ∙ take-le window t.nonce (nonces log) (ground arith)

    order-over :
        (o : Key) (rest : List Key)
        → ltb window (length (t.nonce ∷ g.nonce_order)) ≡ true
        → pop_front (t.nonce ∷ g.nonce_order) ≡ some (o, rest)
        → rest ≡ take window (nonces (t ∷ log))
    order-over o rest over e =
        let over' : ltb window (length (t.nonce ∷ take window (nonces log))) ≡ true =
          rw (← h.order) over in
        let (o', e') = pop_front-take window t.nonce (nonces log) (ground arith) in
        let e'' : pop_front (t.nonce ∷ take window (nonces log)) ≡ some (o, rest) =
          rw (← h.order) e in
        ap (λ (p : Key × List Key). p.1) (some-injective _ _ (sym e'' ∙ e'))

    seen-over :
        (o : Key) (rest : List Key)
        → Popped (t.nonce ∷ g.nonce_order) o rest
        → (n : Key) → member n (remove_key o entered.seen_nonces) ≡ member n rest
    seen-over o rest p n =
        member-remove_key o n entered.seen_nonces
        ∙ without_oldest o n rest (member n entered.seen_nonces)
            (seen-entered n ∙ (unfold entered in p.members n)) (p.distinct Distinct-entered).1

    evict-Holds : Holds window (evict window entered) (t ∷ log)
    unfolding evict entered
    evict-Holds = elim (Bool-cases (ltb window (length (t.nonce ∷ g.nonce_order)))) [
      | inr room ↦ rw room (record {
        seqs = seqs-entered;
        seen = seen-entered;
        order = order-room room;
        distinct = Distinct-entered;
      })
      | inl over ↦
          let (o, rest, p) = pop_front-Popped t.nonce g.nonce_order in
          rw (over, p.popped)
            (record {
              seqs = seqs-entered;
              seen = seen-over o rest p;
              order = order-over o rest over p.popped;
              distinct = (p.distinct Distinct-entered).0;
            })
    ]

pub admit-Holds :
    (window : ℕ) (g : ReplayGuard) (log : List Ticket) (t : Ticket)
    → Holds window g log
    → Holds window
        (admit_within window g t.session t.seq t.nonce).0
        (extend (reference window log t) log t)
unfolding admit_within reference
admit-Holds window g log t h = elim (Bool-cases (overtaken t.session t.seq log)) [
  | inl e ↦ rw (h.seqs t.session t.seq, e) h
  | inr e ↦ elim (Bool-cases (member t.nonce (take window (nonces log)))) [
    | inl f ↦
        let k = h.seen t.nonce ∙ ap (member t.nonce) h.order ∙ f in
        rw (h.seqs t.session t.seq, e, k, f) h
    | inr f ↦
        let k = h.seen t.nonce ∙ ap (member t.nonce) h.order ∙ f in
        rw (h.seqs t.session t.seq, e, k, f) (unfold entered in evict-Holds window g log t h e f)
  ]
]

decisions-eq :
    (window : ℕ) (g : ReplayGuard) (log run : List Ticket)
    → Holds window g log
    → decisions window g run ≡ reference_decisions window log run
unfolding decisions reference_decisions
decisions-eq window g log [] h = refl
decisions-eq window g log (t ∷ run) h =
    ap₂ (λ d ds. d ∷ ds) (admit-eq window g log t h)
      (decisions-eq window (admit_within window g t.session t.seq t.nonce).0
        (extend (reference window log t) log t) run (admit-Holds window g log t h))

pub Holds-new : (window : ℕ) → Holds window new []
unfolding overtaken member get
Holds-new window = record {
  seqs = λ session seq. refl;
  seen = λ n. refl;
  order = sym (take-nil window);
  distinct = tt;
}

-- On every run of requests a new guard decides each one as the reference does, which keeps all that
-- it ever admitted: a request is refused for its number if one of its session was admitted with
-- that number or a larger one, and for its nonce if that is among the latest 4096 admitted.
pub guard-eq-reference :
    (run : List Ticket) → decisions nonce_window new run ≡ reference_decisions nonce_window [] run
guard-eq-reference run = decisions-eq nonce_window new [] run (Holds-new nonce_window)

-- ===== src/Daemon/Session/Admitted.antt =====
-- crates/archangeld/src/session.rs, with the envelope and the replay guard of the executor: what a
-- session signs, the executor opens and admits.
use archangel.Common.{
  ℕ, ◌+◌, ◌≤◌, ◌<◌, ◌≡◌, refl, ap, ◌∙◌, inl, inr, true, false, Option, none, some, List, [], ◌∷◌,
  All, ltb, length, Result, ok, err, >>=-ok_inv, map_err, map_err-ok, Result-cases, ok_injective,
  Bool-cases, arith,
}
use archangel.Common.Machine.{u64_max, saturating_add, saturating_add-small}
use archangel.Common.Text.{str_eq, str_eq_refl}
use archangel.Common.Map.{
  Key, get, insert, member, get-insert, member-insert_key, member-remove_key, insert_key,
}
use archangel.Ipc.{ExecRequest}
use archangel.Ipc.Envelope.{Wire, SignedEnvelope, IpcError, codec, seal, open_envelope}
use archangel.Ipc.Envelope.Frames.{open_envelope-ok_iff}
use archangel.Execd.Replay.{
  ReplayGuard, ReplayRejection, is_stale, admit, admit_within, nonce_window, evict, evicted,
  pop_front,
}
use archangel.Daemon.Session.{Order, Session, advance, request_of, sign_exec_request}

-- The key verifies what the session's key signs, and CBOR reads back the requests it writes.
pub record IsSound (x : Wire) (signing : x.SigningKey) (verifying : x.VerifyingKey) : Type 0 where
  pub signature_length : (bytes : List ℕ) → length (x.sign signing bytes) ≡ 64
  pub verified : (bytes : List ℕ) → x.verify_strict verifying bytes (x.sign signing bytes) ≡ true
  pub read :
      (request : ExecRequest) (bytes : List ℕ)
      → x.request_to_vec request ≡ ok bytes
      → x.request_from_slice bytes ≡ ok request

-- Nonces of which no two are the same, and none is in the list.
abbrev pub AreFresh : List Key → List Order → Type 0
AreFresh seen [] = Unit
AreFresh seen (order ∷ orders) =
    (member order.nonce seen ≡ false) × AreFresh (order.nonce ∷ seen) orders

-- What the executor does first with an envelope: open it, and admit its request.
abbrev admit_opened :
    ReplayGuard
    → Result ExecRequest IpcError
    → ReplayGuard × Result (Result (Unit {0}) ReplayRejection) IpcError
admit_opened g (err why) = (g, err why)
admit_opened g (ok request) =
    let (g', d) = admit g request.session_id request.seq request.nonce in (g', ok d)

unfoldable pub receive :
    (x : Wire)
    → x.VerifyingKey
    → ReplayGuard
    → SignedEnvelope
    → ReplayGuard × Result (Result (Unit {0}) ReplayRejection) IpcError
unfolding admit open_envelope
receive x key g envelope = admit_opened g (open_envelope x envelope key)

module _ (x : Wire) where
  -- The envelopes that a session makes of orders, those that do not encode left out.
  abbrev pub with_sealed :
      Result SignedEnvelope IpcError → List SignedEnvelope → List SignedEnvelope
  with_sealed (err why) rest = rest
  with_sealed (ok envelope) rest = envelope ∷ rest

  unfoldable pub sign_all : Session x → List Order → List SignedEnvelope
  unfolding sign_exec_request
  sign_all s [] = []
  sign_all s (order ∷ orders) =
      let (s', sealed) = sign_exec_request x s order in with_sealed sealed (sign_all s' orders)

  unfoldable pub receive_all :
      x.VerifyingKey
      → ReplayGuard
      → List SignedEnvelope
      → List (Result (Result (Unit {0}) ReplayRejection) IpcError)
  unfolding receive
  receive_all key g [] = []
  receive_all key g (envelope ∷ envelopes) =
      let (g', d) = receive x key g envelope in d ∷ receive_all key g' envelopes

  seal-open_envelope :
      (signing : x.SigningKey) (verifying : x.VerifyingKey)
      → IsSound x signing verifying
      → (request : ExecRequest) (envelope : SignedEnvelope) → seal x request signing ≡ ok envelope
      → open_envelope x envelope verifying ≡ ok request
  unfolding seal open_envelope
  seal-open_envelope signing verifying sound request envelope h =
      let (bytes, e, made) = >>=-ok_inv (map_err codec (x.request_to_vec request)) _ h in
      let encoded = map_err-ok codec (x.request_to_vec request) e in
      (open_envelope-ok_iff x envelope verifying request).1 (
        rw⁻¹ (ok_injective made) (
          refl,
          sound.signature_length bytes,
          sound.verified bytes,
          sound.read request bytes encoded,
        ))

-- The guard takes the session's numbers above `n`, and holds no nonce but those that were seen.
pub record IsReady (g : ReplayGuard) (id : Key) (n : ℕ) (seen : List Key) : Type 0 where
  pub numbers : (seq : ℕ) → n < seq → is_stale seq (get id g.last_seq) ≡ false
  pub nonces : (k : Key) → member k seen ≡ false → member k g.seen_nonces ≡ false

evicted-last_seq :
    (g : ReplayGuard) (o : Option (Key × List Key))
    → (evicted nonce_window g o).last_seq ≡ g.last_seq
evicted-last_seq g none = refl
evicted-last_seq g (some (oldest, rest)) = refl

evicted-seen :
    (g : ReplayGuard) (o : Option (Key × List Key)) (k : Key)
    → member k g.seen_nonces ≡ false
    → member k (evicted nonce_window g o).seen_nonces ≡ false
evicted-seen g none k h = h
evicted-seen g (some (oldest, rest)) k h =
    ground (arith, member-remove_key oldest k g.seen_nonces, h)

evict-last_seq : (g : ReplayGuard) → (evict nonce_window g).last_seq ≡ g.last_seq
unfolding evict
evict-last_seq g = elim (Bool-cases (ltb nonce_window (length g.nonce_order))) [
  | inr e ↦ rw e refl
  | inl e ↦ rw e (evicted-last_seq g (pop_front g.nonce_order))
]

evict-seen :
    (g : ReplayGuard) (k : Key)
    → member k g.seen_nonces ≡ false
    → member k (evict nonce_window g).seen_nonces ≡ false
unfolding evict
evict-seen g k h = elim (Bool-cases (ltb nonce_window (length g.nonce_order))) [
  | inr e ↦ rw e h
  | inl e ↦ rw e (evicted-seen g (pop_front g.nonce_order) k h)
]

-- The guard with the ticket noted, before an eviction.
abbrev noted : ReplayGuard → Key → ℕ → Key → ReplayGuard
noted g id seq nonce = record {
  last_seq = insert id seq g.last_seq;
  seen_nonces = insert_key nonce g.seen_nonces;
  nonce_order = nonce ∷ g.nonce_order;
}

admit_ready :
    (g : ReplayGuard) (id : Key) (n : ℕ) (seen : List Key) (seq : ℕ) (nonce : Key)
    → IsReady g id n seen
    → n < seq
    → member nonce seen ≡ false
    → admit g id seq nonce ≡ (evict nonce_window (noted g id seq nonce), ok tt)
unfolding admit admit_within
admit_ready g id n seen seq nonce r above fresh =
    rw (r.numbers seq above, r.nonces nonce fresh) refl

member-cons :
    (nonce k : Key) (seen : List Key)
    → member k (nonce ∷ seen) ≡ false
    → (str_eq nonce k ≡ false) × (member k seen ≡ false)
unfolding member
member-cons nonce k seen h = ground arith

noted-IsReady :
    (g : ReplayGuard) (id : Key) (n : ℕ) (seen : List Key) (seq : ℕ) (nonce : Key)
    → IsReady g id n seen
    → IsReady (evict nonce_window (noted g id seq nonce)) id seq (nonce ∷ seen)
noted-IsReady g id n seen seq nonce r = record {
  numbers = λ later above.
      rw (evict-last_seq (noted g id seq nonce), get-insert id id seq g.last_seq, str_eq_refl id)
        (ground arith);
  nonces = λ k out.
      let (other, unseen) = member-cons nonce k seen out in
      evict-seen (noted g id seq nonce) k
        (rw (member-insert_key nonce k g.seen_nonces, other, r.nonces k unseen) refl);
}

-- A guard that is ready stays so when the session goes on and more nonces count as seen.
IsReady-later :
    (g : ReplayGuard) (id : Key) (n m : ℕ) (seen : List Key) (nonce : Key)
    → n ≤ m
    → IsReady g id n seen
    → IsReady g id m (nonce ∷ seen)
IsReady-later g id n m seen nonce le r = record {
  numbers = λ later above. r.numbers later (omega (arith, le, above));
  nonces = λ k out. r.nonces k (member-cons nonce k seen out).1;
}

module _ (x : Wire) (signing : x.SigningKey) (verifying : x.VerifyingKey)
    (sound : IsSound x signing verifying) where
  receive-sealed :
      (request : ExecRequest) (envelope : SignedEnvelope) (g : ReplayGuard) (n : ℕ)
      (seen : List Key)
      → seal x request signing ≡ ok envelope
      → IsReady g request.session_id n seen
      → n < request.seq
      → member request.nonce seen ≡ false
      → receive x verifying g envelope
        ≡ (evict nonce_window (noted g request.session_id request.seq request.nonce), ok (ok tt))
  unfolding receive
  receive-sealed request envelope g n seen h r above fresh =
      rw
        (
          seal-open_envelope x signing verifying sound request envelope h,
          admit_ready g request.session_id n seen request.seq request.nonce r above fresh,
        )
        refl

  -- A session whose key the executor knows signs requests with nonces of which no two are the same;
  -- its numbers stay in a u64, and the guard has seen none of its later numbers and none of these
  -- nonces. Then the executor opens and admits every envelope, in the order they were signed in.
  pub sign_all-admitted :
      (s : Session x) (orders : List Order) (g : ReplayGuard) (seen : List Key)
      → s.signing_key ≡ signing
      → IsReady g s.id s.seq seen
      → AreFresh seen orders
      → s.seq + length orders ≤ u64_max
      → All (λ d. d ≡ ok (ok tt)) (receive_all x verifying g (sign_all x s orders))
  unfolding sign_all receive_all sign_exec_request advance
  sign_all-admitted s [] g seen k r f b = tt
  sign_all-admitted s (order ∷ orders) g seen k r f b =
      let request = request_of x (advance x s) order in
      let next : saturating_add s.seq 1 ≡ s.seq + 1 =
        saturating_add-small s.seq 1 (omega (arith, b)) in
      let room : saturating_add s.seq 1 + length orders ≤ u64_max = omega (arith, next, b) in
      let above : s.seq < saturating_add s.seq 1 = omega (arith, next) in
      elim (Result-cases (seal x request signing)) [
        | inr (why, e) ↦ rw (ap (seal x request) k ∙ e) (
            sign_all-admitted (advance x s) orders g (order.nonce ∷ seen) k
              (IsReady-later g s.id s.seq (saturating_add s.seq 1) seen order.nonce
                (omega (arith, above)) r)
              f.1 room)
        | inl (envelope, e) ↦
            rw
              (
                ap (seal x request) k ∙ e,
                receive-sealed request envelope g s.seq seen e r above f.0,
              )
              (
                refl,
                sign_all-admitted (advance x s) orders
                    (evict nonce_window (noted g s.id request.seq order.nonce)) (order.nonce ∷ seen)
                    k (noted-IsReady g s.id s.seq seen request.seq order.nonce r) f.1 room,
              )
      ]

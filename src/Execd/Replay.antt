-- ===== src/Execd/Replay.antt =====
-- crates/archangel-execd/src/replay.rs: the guard against replayed and reordered requests.
pub mod Queue
pub mod Reference
pub mod Refinement
pub mod Freshness
use archangel.Common.{
  ℕ, Bool, true, false, Option, none, some, List, [], ◌∷◌, leb, ltb, if◌then◌else◌, length, Result,
  ok, err,
}
use archangel.Common.Map.{Key, HashMap, get, insert, member, insert_key, remove_key}

pub data ReplayRejection : Type 0 where
  non_monotonic_seq duplicate_nonce : ReplayRejection

-- `nonce_order` has the newest nonce, the back of the queue, at its head.
pub record ReplayGuard : Type 0 where
  pub last_seq : HashMap ℕ
  pub seen_nonces : List Key
  pub nonce_order : List Key

abbrev pub new : ReplayGuard
new = record { last_seq = []; seen_nonces = []; nonce_order = [] }

-- `VecDeque::pop_front`: the oldest element, and the rest.
unfoldable pub pop_front {ℓ} : {A : Type ℓ} → List A → Option (A × List A)
pop_front [] = none
pop_front (x ∷ []) = some (x, [])
pop_front (x ∷ y ∷ xs) = elim (pop_front (y ∷ xs)) [
  | none ↦ none
  | some (o, rest) ↦ some (o, x ∷ rest)
]

abbrev pub is_stale : ℕ → Option ℕ → Bool
is_stale seq none = false
is_stale seq (some last) = leb seq last

module _ (nonce_window : ℕ) where
  abbrev pub evicted : ReplayGuard → Option (Key × List Key) → ReplayGuard
  evicted g none = g
  evicted g (some (oldest, rest)) = record g {
    seen_nonces = remove_key oldest g.seen_nonces;
    nonce_order = rest;
  }

  -- The eviction of the oldest nonce from a window that is over its size.
  unfoldable pub evict : ReplayGuard → ReplayGuard
  unfolding pop_front
  evict g =
      if ltb nonce_window (length g.nonce_order) then evicted g (pop_front g.nonce_order) else g

  unfoldable pub admit_within :
      ReplayGuard → Key → ℕ → Key → ReplayGuard × Result (Unit {0}) ReplayRejection
  unfolding evict
  admit_within g session seq nonce =
      if is_stale seq (get session g.last_seq)
      then (g, err non_monotonic_seq)
      else if member nonce g.seen_nonces
      then (g, err duplicate_nonce)
      else (
        evict (record {
          last_seq = insert session seq g.last_seq;
          seen_nonces = insert_key nonce g.seen_nonces;
          nonce_order = nonce ∷ g.nonce_order;
        }),
        ok tt,
      )

abbrev pub nonce_window : ℕ
nonce_window = 4096

unfoldable pub admit : ReplayGuard → Key → ℕ → Key → ReplayGuard × Result (Unit {0}) ReplayRejection
unfolding admit_within
admit = admit_within nonce_window

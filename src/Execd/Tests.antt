-- ===== src/Execd/Tests.antt =====
-- Witnesses on the limits and on the replay guard.
mod Pipeline
use archangel.Common.{◌≡◌, ◌≤◌, refl, true, false, List, [], ◌*◌, ◌∷◌, ok, err, arith}
use archangel.Common.Text.{str}
use archangel.Common.Map.{get, member}
use archangel.Execd.RateLimit.{ActionClass, second, minute, hour, default_limits}
use archangel.Execd.RateLimit.Reference.{Attempt, every, is_mutating, is_critical}
use archangel.Execd.RateLimit.Refinement
use archangel.Execd.RateLimit
use archangel.Execd.Replay
use archangel.Execd.Replay.Reference
use archangel.Execd.RateLimit.Ceilings.{admitted, between, decisions_bounded}
use archangel.Execd.Replay.{ReplayRejection, non_monotonic_seq, nonce_window, admit}
use archangel.Execd.Replay.Reference.{Ticket}
use archangel.Execd.Replay.Refinement.{guard-eq-reference}
use archangel.Execd.Replay.Freshness.{offer, after, admit_after_admitted}

abbrev restart : ActionClass
restart = record { mutating = true; critical = true }

abbrev burst : List Attempt
burst =
    record { time = 1 * second; class = restart }
    ∷ record { time = 2 * second; class = restart }
    ∷ record { time = 2 * second; class = restart }
    ∷ record { time = 3 * second; class = record { mutating = false; critical = false } }
    ∷ []

timely : Refinement.IsTimely 0 burst
timely = (omega arith, (omega arith, (omega arith, (omega arith, tt))))

decisions-eq-reference_example :
    Refinement.decisions (RateLimit.new default_limits) burst
    ≡ Refinement.reference_decisions default_limits [] burst
decisions-eq-reference_example = Refinement.decisions-eq-reference default_limits burst timely

decisions_bounded_example :
    (between every second minute
        (admitted (Refinement.decisions (RateLimit.new default_limits) burst) burst)
      ≤ 20)
    × (between is_mutating second minute
          (admitted (Refinement.decisions (RateLimit.new default_limits) burst) burst)
        ≤ 5)
    × (between is_critical second hour
          (admitted (Refinement.decisions (RateLimit.new default_limits) burst) burst)
        ≤ 2)
decisions_bounded_example = decisions_bounded default_limits burst timely second

abbrev first : Ticket
first = record { session = str "a"; seq = 1; nonce = str "n1" }

abbrev later : Ticket
later = record { session = str "a"; seq = 5; nonce = str "n2" }

guard-eq-reference_example :
    Reference.decisions nonce_window Replay.new (first ∷ later ∷ first ∷ [])
    ≡ Reference.reference_decisions nonce_window [] (first ∷ later ∷ first ∷ [])
guard-eq-reference_example = guard-eq-reference (first ∷ later ∷ first ∷ [])

admitted_first : (offer (after Replay.new []) later).1 ≡ ok tt
unfolding after admit Replay.admit_within get member
admitted_first = refl

admit_after_admitted_example :
    offer (after (offer (after Replay.new []) later).0 (first ∷ [])) later
    ≡ (after (offer (after Replay.new []) later).0 (first ∷ []), err non_monotonic_seq)
admit_after_admitted_example =
    admit_after_admitted [] (first ∷ []) later later admitted_first refl (omega arith)

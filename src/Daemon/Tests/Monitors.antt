-- ===== src/Daemon/Tests/Monitors.antt =====
-- Runs of the log tailer and of the cooldown gate (crates/archangeld/src/monitor.rs, autoloop.rs).
use archangel.Common.{
  ℕ, ◌+◌, ◌≡◌, refl, true, false, List, [], ◌∷◌, ◌++◌, map, drop, if◌then◌else◌, Result, ok, err,
  arith,
}
use archangel.Common.Text.{Str, str, str_eq, contains_str, strip_prefix}
use archangel.Common.Map.{get, retain, insert}
use archangel.Daemon.Monitor.{
  Host, FileState, MonitorError, not_found, readable, default_limits, LogTailer, MonitorDriver,
  event_of, poll_tailer, rotated, poll_actionable, new, Alert, from_start,
}
use archangel.Daemon.Monitor.Cooldown
use archangel.Daemon.Monitor.Cooldown.{firings, reference_firings, firings-eq-reference}
use archangel.Daemon.Monitor.Tailer.{Consumes, poll_tailer-Consumes}

-- A regular expression is a text that the line holds.
abbrev indices : ℕ → List Str → Str → List ℕ
indices i [] line = []
indices i (p ∷ ps) line =
    let rest = indices (i + 1) ps line in if contains_str p line then i ∷ rest else rest

abbrev host : Host
host = record {
  PathBuf = Str;
  display = λ p. p;
  from_utf8_lossy = λ bytes. bytes;
  IoError = Unit;
  RegexSet = List Str;
  RegexError = Unit;
  build = λ ps. ok ps;
  set_matches = λ ps line. indices 0 ps line;
}

abbrev log_path : Str
log_path = str "/var/log/syslog"

abbrev content : List ℕ
content = str "ready" ++ 13 ∷ 10 ∷ str "Out of memory" ++ 10 ∷ str "partial"

abbrev tailer : LogTailer host
tailer = from_start host log_path default_limits

-- The file has become shorter than the offset.
abbrev behind : LogTailer host
behind = record tailer { offset = 100 }

poll_events :
    (poll_tailer host behind (readable 28 content)).1
    ≡ ok (map (event_of host tailer) ((str "ready" ++ 13 ∷ []) ∷ str "Out of memory" ∷ []))
unfolding poll_tailer event_of
poll_events = refl

poll_tailer-Consumes_example :
    (ls : List (List ℕ)) × (rest : List ℕ) × Consumes 256
      (drop (rotated host behind 28).offset content)
      ls
      rest
    × ((poll_tailer host behind (readable 28 content)).1 ≡ ok (map (event_of host behind) ls))
    × (drop (poll_tailer host behind (readable 28 content)).0.offset content ≡ rest)
poll_tailer-Consumes_example = poll_tailer-Consumes host behind 28 content (omega arith)

abbrev run : List (ℕ × Str)
run =
    (0, str "a")
    ∷ (59, str "a")
    ∷ (59, str "b")
    ∷ (60, str "a")
    ∷ (119, str "a")
    ∷ (200, str "b")
    ∷ []

run_decided : firings (Cooldown.new 60) run ≡ true ∷ false ∷ true ∷ true ∷ false ∷ true ∷ []
unfolding firings Cooldown.admit get retain insert str_eq
run_decided = refl

firings-eq-reference_example : firings (Cooldown.new 60) run ≡ reference_firings 60 [] run
firings-eq-reference_example =
    firings-eq-reference 60 run
      (omega arith, (omega arith, (omega arith, (omega arith, (omega arith, (omega arith, tt))))))

abbrev files : Str → FileState (Unit {0})
files p = readable 28 content

abbrev lines_acted_on : Result (MonitorDriver host) (MonitorError (Unit {0})) → List Str
lines_acted_on (ok d) = map (λ (a : Alert host). a.event.line) (poll_actionable host d files 10).1
lines_acted_on (err e) = []

started_at_the_end :
    lines_acted_on (
      new host files
        (log_path ∷ [])
        default_limits
        (record { label = str "oom"; regex = str "memory" } ∷ [])
        60)
    ≡ []
unfolding new poll_actionable
started_at_the_end = refl

first_occurrence :
    lines_acted_on (
      new host
        (λ p. not_found)
        (log_path ∷ [])
        default_limits
        (record { label = str "oom"; regex = str "memory" } ∷ [])
        60)
    ≡ str "Out of memory" ∷ []
unfolding new poll_actionable contains_str strip_prefix get retain
first_occurrence = refl

-- ===== src/Daemon/Monitor.antt =====
-- crates/archangeld/src/monitor.rs and autoloop.rs: the log tailer, the triggers and the alerts that
-- the autonomous loop acts on. Files, regular expressions and texts of a path are the interface
-- `Host`.
pub mod Cooldown
pub mod Tailer
use Cooldown.{CooldownGate, admit}
use Cooldown
use archangel.Common.{
  ℕ, zero, suc, ◌+◌, Bool, true, false, Option, none, some, List, [], ◌∷◌, ◌++◌, map, length,
  get_elem?, take, drop, ◌==◌, ltb, if◌then◌else◌, Result, ok, err, ◌>>=◌, map_err,
}
use archangel.Common.Machine.{saturating_add}
use archangel.Common.Text.{Str, str, join}
use archangel.Common.Text.Lines.{strip_cr}
use archangel.Common.Map.{Key}

pub record MonitorLimits : Type 0 where
  pub max_line_bytes : ℕ
  pub max_lines_per_poll : ℕ

abbrev pub default_limits : MonitorLimits
default_limits = record { max_line_bytes = 4096; max_lines_per_poll = 256 }

pub record Pattern : Type 0 where
  pub label : Str
  pub regex : Str

-- `read_until(b'\n')`: the bytes up to the newline, if there is one, and the bytes behind it.
abbrev pub read_until : List ℕ → Option (List ℕ × List ℕ)
read_until [] = none
read_until (c ∷ s) = let rest = read_until s in if c == 10 then some ([], s) else with_byte c rest
  where
    with_byte : ℕ → Option (List ℕ × List ℕ) → Option (List ℕ × List ℕ)
    with_byte c none = none
    with_byte c (some (line, s)) = some (c ∷ line, s)

-- What a poll finds at a path: no file, a file that cannot be opened or whose length is unknown, one
-- of a length that cannot be read, or one of a length with its bytes.
pub data FileState (Error : Type 0) : Type 0 where
  not_found : FileState Error
  failed : Error → FileState Error
  unreadable : ℕ → Error → FileState Error
  readable : ℕ → List ℕ → FileState Error

pub record Host : Type 1 where
  pub PathBuf : Type 0
  pub display : PathBuf → Str
  pub from_utf8_lossy : List ℕ → Str
  pub IoError : Type 0
  pub RegexSet : Type 0
  pub RegexError : Type 0
  pub build : List Str → Result RegexSet RegexError
  pub set_matches : RegexSet → Str → List ℕ

pub data MonitorError (RegexError : Type 0) : Type 0 where
  bad_pattern : Str → RegexError → MonitorError RegexError
  set_too_large : RegexError → MonitorError RegexError

-- The indices that are labels give their label.
abbrev pub labels_at : List Str → List ℕ → List Str
labels_at labels [] = []
labels_at labels (i ∷ is) = let rest = labels_at labels is in with_label (get_elem? labels i) rest
  where
    with_label : Option Str → List Str → List Str
    with_label none rest = rest
    with_label (some label) rest = label ∷ rest

module _ (x : Host) where
  pub record LogEvent : Type 0 where
    pub source : x.PathBuf
    pub line : Str
    pub truncated : Bool

  pub record LogTailer : Type 0 where
    pub path : x.PathBuf
    pub offset : ℕ
    pub limits : MonitorLimits

  pub record LogMatcher : Type 0 where
    pub set : x.RegexSet
    pub labels : List Str

  pub record Alert : Type 0 where
    pub event : LogEvent
    pub matched : List Str

  pub record LogMonitor : Type 0 where
    pub tailers : List LogTailer
    pub matcher : LogMatcher

  pub record MonitorDriver : Type 0 where
    pub monitor : LogMonitor
    pub cooldown : CooldownGate

  -- The files at the time of a poll.
  abbrev pub Files : Type 0
  Files = x.PathBuf → FileState x.IoError

  -- `metadata(&path).map_or(0, |m| m.len())`
  abbrev pub current_end : FileState x.IoError → ℕ
  current_end not_found = 0
  current_end (failed e) = 0
  current_end (unreadable len e) = len
  current_end (readable len bytes) = len

  abbrev pub new_tailer : Files → MonitorLimits → x.PathBuf → LogTailer
  new_tailer files limits path = record {
    path = path;
    offset = current_end (files path);
    limits = limits;
  }

  abbrev pub from_start : x.PathBuf → MonitorLimits → LogTailer
  from_start path limits = record { path = path; offset = 0; limits = limits }

  -- The event of a line, its newline left out.
  unfoldable pub event_of : LogTailer → List ℕ → LogEvent
  event_of t buf =
      let bytes = strip_cr buf in
      record {
        source = t.path;
        line = x.from_utf8_lossy (take t.limits.max_line_bytes bytes);
        truncated = ltb t.limits.max_line_bytes (length bytes);
      }

  -- At most the given number of whole lines, and the number of bytes that they take.
  unfoldable pub read_lines : LogTailer → ℕ → List ℕ → List LogEvent × ℕ → List LogEvent × ℕ
  unfolding event_of
  read_lines t zero s (events, consumed) = (events, consumed)
  read_lines t (suc n) s (events, consumed) = elim (read_until s) [
    | none ↦ (events, consumed)
    | some (buf, rest) ↦
        read_lines t n rest
          (events ++ event_of t buf ∷ [], saturating_add consumed (length buf + 1))
  ]

  -- The file has been replaced when it is shorter than the offset.
  abbrev pub rotated : LogTailer → ℕ → LogTailer
  rotated t len = if ltb len t.offset then record t { offset = 0 } else t

  unfoldable pub poll_tailer :
      LogTailer → FileState x.IoError → LogTailer × Result (List LogEvent) x.IoError
  unfolding read_lines
  poll_tailer t not_found = (t, ok [])
  poll_tailer t (failed e) = (t, err e)
  poll_tailer t (unreadable len e) = (rotated t len, err e)
  poll_tailer t (readable len bytes) =
      let t' = rotated t len in
      let (events, consumed) =
        read_lines t' t'.limits.max_lines_per_poll (drop t'.offset bytes) ([], 0) in
      (record t' { offset = saturating_add t'.offset consumed }, ok events)

  -- Each pattern is compiled by itself first.
  unfoldable pub validate_patterns : List Pattern → Result (Unit {0}) (MonitorError x.RegexError)
  validate_patterns [] = ok tt
  validate_patterns (p ∷ ps) =
      map_err (bad_pattern p.label) (x.build (p.regex ∷ [])) >>= λ _. validate_patterns ps

  unfoldable pub compile : List Pattern → Result LogMatcher (MonitorError x.RegexError)
  unfolding validate_patterns
  compile patterns = validate_patterns patterns >>= λ _.
      map_err set_too_large (x.build (map (λ p. p.regex) patterns)) >>= λ set.
      ok (record { set = set; labels = map (λ p. p.label) patterns })

  unfoldable pub matches : LogMatcher → Str → List Str
  matches m line = labels_at m.labels (x.set_matches m.set line)

  unfoldable pub screen : LogMatcher → List LogEvent → List Alert
  unfolding matches
  screen m [] = []
  screen m (e ∷ es) = let rest = screen m es in alert_if (matches m e.line) rest
    where
      alert_if : List Str → List Alert → List Alert
      alert_if [] rest = rest
      alert_if (l ∷ ls) rest = record { event = e; matched = l ∷ ls } ∷ rest

  -- A source that cannot be read is left out of this round.
  unfoldable pub poll_all : LogMatcher → Files → List LogTailer → List LogTailer × List Alert
  unfolding poll_tailer screen
  poll_all m files [] = ([], [])
  poll_all m files (t ∷ ts) =
      let (t', answer) = poll_tailer t (files t.path) in
      let (ts', alerts) = poll_all m files ts in (t' ∷ ts', alerts_of m answer ++ alerts)
    where
      alerts_of : LogMatcher → Result (List LogEvent) x.IoError → List Alert
      alerts_of m (ok events) = screen m events
      alerts_of m (err e) = []

  unfoldable pub poll : LogMonitor → Files → LogMonitor × List Alert
  unfolding poll_all
  poll m files =
      let (tailers, alerts) = poll_all m.matcher files m.tailers in
      (record m { tailers = tailers }, alerts)

  abbrev pub fingerprint : Alert → Key
  fingerprint a = x.display a.event.source ++ (str "|" ++ join (str ",") a.matched)

  -- The alerts that the gate admits, one by one.
  unfoldable pub admitted : CooldownGate → ℕ → List Alert → CooldownGate × List Alert
  unfolding admit
  admitted g now [] = (g, [])
  admitted g now (a ∷ rest) =
      let (g', d) = admit g now (fingerprint a) in
      let (g'', actionable) = admitted g' now rest in
      (g'', if d then a ∷ actionable else actionable)

  unfoldable pub poll_actionable : MonitorDriver → Files → ℕ → MonitorDriver × List Alert
  unfolding poll admitted
  poll_actionable d files now =
      let (monitor, alerts) = poll d.monitor files in
      let (cooldown, actionable) = admitted d.cooldown now alerts in
      (record { monitor = monitor; cooldown = cooldown }, actionable)

  unfoldable pub new :
      Files
      → List x.PathBuf
      → MonitorLimits
      → List Pattern
      → ℕ
      → Result MonitorDriver (MonitorError x.RegexError)
  unfolding compile
  new files sources limits patterns window = compile patterns >>= λ matcher. ok (record {
    monitor = record { tailers = map (new_tailer files limits) sources; matcher = matcher };
    cooldown = Cooldown.new window;
  })

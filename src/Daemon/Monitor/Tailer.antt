-- ===== src/Daemon/Monitor/Tailer.antt =====
-- crates/archangeld/src/monitor.rs, `LogTailer::poll`: the lines that a poll consumes.
use archangel.Common.{
  ℕ, zero, suc, ◌+◌, ◌≤◌, ◌≡◌, refl, sym, ap, ◌∙◌, ◌⊎◌, inl, inr, Option, none, some, List, [], ◌∷◌,
  ◌++◌, map, append_assoc, append-nil, length, length-append, drop, ◌==◌, ltb, All, ok, arith,
  Bool-cases, Option-cases,
}
use archangel.Common.Machine.{u64_max, saturating_add, saturating_add-small}
use archangel.Common.Map.{some_injective}
use archangel.Common.Text.{contains}
use archangel.Common.Text.Lines.{text_of}
use archangel.Common.Text.Split.{Lacks}
use archangel.Daemon.Monitor.{
  read_until, Host, LogTailer, LogEvent, event_of, read_lines, rotated, readable, poll_tailer,
}

-- The line that is read holds no newline, and the newline stands behind it.
read_until-some :
    (s : List ℕ) (p : List ℕ × List ℕ)
    → read_until s ≡ some p
    → (s ≡ p.0 ++ 10 ∷ p.1) × Lacks 10 p.0
unfolding contains
read_until-some [] p h = cc
read_until-some (c ∷ s) p h = elim (Bool-cases (c == 10)) [
  | inl e ↦
      let same : ([], s) ≡ p = some_injective (rw e at h) in
      let newline : c ≡ 10 = ground (arith, e) in rw (← same, newline) (refl, refl)
  | inr e ↦ elim (Option-cases (read_until s)) [
    | inl f ↦ let never : ◌≡◌ {A = Option (List ℕ × List ℕ)} none (some p) = rw (e, f) at h in cc
    | inr (q, f) ↦
        let same : (c ∷ q.0, q.1) ≡ p = some_injective (rw (e, f) at h) in
        let (split_here, lacks) = read_until-some s q f in
        rw (← same) (ap (λ r. c ∷ r) split_here, ground (arith, e, lacks))
  ]
]

one_more :
    {n : ℕ} (ls : List (List ℕ)) (l : List ℕ) (rest : List ℕ)
    → (length ls ≡ n) ⊎ (read_until rest ≡ none)
    → (length (l ∷ ls) ≡ suc n) ⊎ (read_until rest ≡ none)
one_more ls l rest (inl full) = inl (omega (arith, full))
one_more ls l rest (inr over) = inr over

-- The lines that stand in front of the rest of the bytes, at most the given number of them.
pub record Consumes (n : ℕ) (s : List ℕ) (ls : List (List ℕ)) (rest : List ℕ) : Type 0 where
  pub together : s ≡ text_of ls ++ rest
  pub whole : All (Lacks 10) ls
  pub few : length ls ≤ n
  pub ended : (length ls ≡ n) ⊎ (read_until rest ≡ none)

module _ (x : Host) (t : LogTailer x) where
  read_lines-Consumes :
      (n : ℕ) (s : List ℕ) (events : List (LogEvent x)) (consumed : ℕ)
      → consumed + length s ≤ u64_max
      → (ls : List (List ℕ)) × (rest : List ℕ) × Consumes n s ls rest
        × ((read_lines x t n s (events, consumed)).0 ≡ events ++ map (event_of x t) ls)
        × ((read_lines x t n s (events, consumed)).1 ≡ consumed + length (text_of ls))
  unfolding read_lines text_of
  read_lines-Consumes zero s events consumed h = (
    [],
    s,
    record { together = refl; whole = tt; few = omega arith; ended = inl refl },
    sym (append-nil events),
    omega arith,
  )
  read_lines-Consumes (suc n) s events consumed h = elim (Option-cases (read_until s)) [
    | inl e ↦ (
      [],
      s,
      record { together = refl; whole = tt; few = omega arith; ended = inr e },
      rw (e, read_lines) (sym (append-nil events)),
      rw (e, read_lines) (omega arith),
    )
    | inr (p, e) ↦
        let (here, lacks) = read_until-some s p e in
        let long : length s ≡ length p.0 + suc (length p.1) =
          ap (λ v. length v) here ∙ length-append p.0 (10 ∷ p.1) in
        let taken = saturating_add-small consumed (length p.0 + 1) (omega (arith, h, long)) in
        let (ls, rest, c, all_events, all_taken) =
          read_lines-Consumes n p.1 (events ++ event_of x t p.0 ∷ [])
            (saturating_add consumed (length p.0 + 1)) (omega (arith, h, long, taken)) in
        let few : length ls ≤ n = c.few in
        (
          p.0 ∷ ls,
          rest,
          record {
            together =
                here
                ∙ ap (λ v. p.0 ++ 10 ∷ v) c.together
                ∙ sym (append_assoc p.0 (10 ∷ text_of ls) rest);
            whole = (lacks, c.whole);
            few = omega (arith, few);
            ended = one_more ls p.0 rest c.ended;
          },
          rw (e, read_lines)
              (all_events ∙ append_assoc events (event_of x t p.0 ∷ []) (map (event_of x t) ls)),
          (rw (e, read_lines)
              (omega (arith, all_taken, taken, length-append p.0 (10 ∷ text_of ls)))),
        )
  ]

length-drop : (n : ℕ) (s : List ℕ) → length (drop n s) ≤ length s
length-drop zero s = omega arith
length-drop (suc n) [] = omega arith
length-drop (suc n) (c ∷ s) = omega (arith, length-drop n s)

drop-length : (l r : List ℕ) → drop (length l) (l ++ r) ≡ r
drop-length [] r = refl
drop-length (c ∷ l) r = drop-length l r

drop-nil : (n : ℕ) → drop {A = ℕ} n [] ≡ []
drop-nil zero = refl
drop-nil (suc n) = refl

drop_behind : (n : ℕ) (s l r : List ℕ) → drop n s ≡ l ++ r → drop (n + length l) s ≡ r
drop_behind zero s l r h =
    let z : 0 + length l ≡ length l = omega arith in rw (z, h) (drop-length l r)
drop_behind (suc n) [] [] r h = drop-nil (suc n + 0) ∙ h
drop_behind (suc n) [] (c ∷ l) r h = cc
drop_behind (suc n) (c ∷ s) l r h =
    let z : suc n + length l ≡ suc (n + length l) = omega arith in rw z (drop_behind n s l r h)

module _ (x : Host) (t : LogTailer x) (bytes : List ℕ) (h : t.offset + length bytes ≤ u64_max) where
  poll_from :
      let read = read_lines x t t.limits.max_lines_per_poll (drop t.offset bytes) ([], 0) in
      (ls : List (List ℕ)) × (rest : List ℕ) × Consumes t.limits.max_lines_per_poll
        (drop t.offset bytes)
        ls
        rest
      × (read.0 ≡ map (event_of x t) ls)
      × (drop (saturating_add t.offset read.1) bytes ≡ rest)
  poll_from =
      let (ls, rest, c, all_events, all_taken) =
        read_lines-Consumes x t t.limits.max_lines_per_poll (drop t.offset bytes) [] 0
          (omega (arith, h, length-drop t.offset bytes)) in
      let long : length (drop t.offset bytes) ≡ length (text_of ls) + length rest =
        ap (λ v. length v) c.together ∙ length-append (text_of ls) rest in
      let counted =
        saturating_add-small t.offset (length (text_of ls))
          (omega (arith, h, long, length-drop t.offset bytes)) in
      let taken : (read_lines x t t.limits.max_lines_per_poll (drop t.offset bytes) ([], 0)).1
          ≡ length (text_of ls) =
        omega (arith, all_taken) in
      (
        ls,
        rest,
        c,
        all_events,
        rw (taken, counted) (drop_behind t.offset bytes (text_of ls) rest c.together),
      )

-- A poll of a file whose length is known and whose bytes can be read, from the offset on or from the
-- start when the file is shorter, gives one event for each of the whole lines that stand there, in
-- their order; it stops at the limit of lines or where no newline is left, and the bytes behind the
-- new offset are those that it did not consume: nothing is read twice and nothing dropped. The offset
-- and the bytes together fit a u64.
pub poll_tailer-Consumes :
    (x : Host) (t : LogTailer x) (len : ℕ) (bytes : List ℕ)
    → t.offset + length bytes ≤ u64_max
    → (ls : List (List ℕ)) × (rest : List ℕ) × Consumes t.limits.max_lines_per_poll
        (drop (rotated x t len).offset bytes)
        ls
        rest
      × ((poll_tailer x t (readable len bytes)).1 ≡ ok (map (event_of x t) ls))
      × (drop (poll_tailer x t (readable len bytes)).0.offset bytes ≡ rest)
unfolding poll_tailer event_of
poll_tailer-Consumes x t len bytes h = elim (Bool-cases (ltb len t.offset)) [
  | inl e ↦
      let (ls, rest, c, events, next) =
        poll_from x (record t { offset = 0 }) bytes (omega (arith, h)) in
      rw e (ls, rest, c, ap (λ v. ok v) events, next)
  | inr e ↦
      let (ls, rest, c, events, next) = poll_from x t bytes h in
      rw e (ls, rest, c, ap (λ v. ok v) events, next)
]

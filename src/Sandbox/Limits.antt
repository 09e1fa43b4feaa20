-- ===== src/Sandbox/Limits.antt =====
-- crates/archangel-sandbox/src/cgroup.rs and error.rs: the limits that a bundle declares, and the
-- contents of the controller files. The text of an error is kept as what it is formatted from.
pub mod Bounds
pub mod Memory
use archangel.Common.{
  ℕ, zero, suc, ◌+◌, ◌-◌, ◌*◌, ◌/◌, ◌%◌, Bool, true, false, not, ◌&&◌, ◌||◌, Option, none, some,
  List, [], ◌∷◌, ◌++◌, all, map_option, ◌==◌, ltb, leb, if◌then◌else◌, Result, ok, err, ◌>>=◌,
}
use archangel.Common.Machine.{u64_max}
use archangel.Common.Text.{Str, str, trim}
use archangel.Common.Text.Lines.{is_empty}

pub data LimitReason : Type 0 where
  no_percent non_integer overflow empty_limit unknown_unit : Str → LimitReason
  zero_limit : LimitReason
  too_large : ℕ → LimitReason

pub data PathReason : Type 0 where
  empty_path not_absolute too_long has_nul has_parent : PathReason

pub data CgroupReason : Type 0 where
  unreadable no_hierarchy : CgroupReason
  unsafe_name create_failed : Str → CgroupReason
  write_failed : Str → Str → CgroupReason

pub data SandboxError : Type 0 where
  unknown_profile unknown_capability : Str → SandboxError
  invalid_limit : LimitReason → SandboxError
  invalid_profile : Str → PathReason → SandboxError
  seccomp_compile : Str → SandboxError
  cgroup_failed : CgroupReason → SandboxError
  unsupported : SandboxError

abbrev pub cpu_period_us : ℕ
cpu_period_us = 100_000

abbrev pub max_cpu_percent : ℕ
max_cpu_percent = 100

abbrev pub max_memory_bytes : ℕ
max_memory_bytes = 1024 * 1024 * 1024 * 1024

-- `u8::is_ascii_digit`
abbrev pub is_ascii_digit : ℕ → Bool
is_ascii_digit b = leb b'0' b && leb b b'9'

-- `str::parse::<u64>` of digits: their value, if a u64 holds it.
unfoldable pub digits_value : ℕ → Str → ℕ
digits_value acc [] = acc
digits_value acc (c ∷ s) = digits_value (acc * 10 + (c - 48)) s

unfoldable pub parse_u64 : Str → Option ℕ
unfolding digits_value
parse_u64 s = let n = digits_value 0 s in if leb n u64_max then some n else none

-- The text before its last character, if that character is among those named.
abbrev pub strip_last : (ℕ → Bool) → Str → Option Str
strip_last p [] = none
strip_last p (c ∷ []) = if p c then some [] else none
strip_last p (c ∷ d ∷ s) = map_option (λ t. c ∷ t) (strip_last p (d ∷ s))

-- `ends_with` of a character that is among those named.
abbrev pub last_is : (ℕ → Bool) → Str → Bool
last_is p [] = false
last_is p (c ∷ []) = p c
last_is p (c ∷ d ∷ s) = last_is p (d ∷ s)

abbrev pub limit_or {ℓ} : {A : Type ℓ} → LimitReason → Option A → Result A SandboxError
limit_or why none = err (invalid_limit why)
limit_or why (some a) = ok a

abbrev pub all_digits : Str → Bool
all_digits s = not (is_empty s) && all is_ascii_digit s

-- Digits as a u64.
unfoldable pub amount : Str → Result ℕ SandboxError
unfolding parse_u64
amount digits =
    if not (all_digits digits)
    then err (invalid_limit (non_integer digits))
    else limit_or (overflow digits) (parse_u64 digits)

-- Not zero, and not over the ceiling.
unfoldable pub within : ℕ → ℕ → Result ℕ SandboxError
within ceiling n =
    if n == 0
    then err (invalid_limit zero_limit)
    else if ltb ceiling n
    then err (invalid_limit (too_large n))
    else ok n

-- `CpuMax::parse`
unfoldable pub parse_cpu_max : Str → Result ℕ SandboxError
unfolding amount within
parse_cpu_max text =
    limit_or (no_percent text) (strip_last (λ c. c == b'%') (trim text)) >>= λ digits.
    amount digits >>= within max_cpu_percent

-- The amount's text and its multiplier.
unfoldable pub unit_of : Str → Result (Str × ℕ) SandboxError
unit_of s = elim (strip_last (λ c. c == b'k' || c == b'K') s) [
  | some p ↦ ok (p, 1024)
  | none ↦ elim (strip_last (λ c. c == b'm' || c == b'M') s) [
    | some p ↦ ok (p, 1024 * 1024)
    | none ↦ elim (strip_last (λ c. c == b'g' || c == b'G') s) [
      | some p ↦ ok (p, 1024 * 1024 * 1024)
      | none ↦ if last_is is_ascii_digit s then ok (s, 1) else err (invalid_limit (unknown_unit s))
    ]
  ]
]

-- `u64::checked_mul`
abbrev pub checked_mul : ℕ → ℕ → Option ℕ
checked_mul a b = if leb (a * b) u64_max then some (a * b) else none

abbrev pub scaled : Str × ℕ → Result ℕ SandboxError
scaled (digits, multiplier) = amount digits >>= λ value.
    limit_or (overflow digits) (checked_mul value multiplier) >>= within max_memory_bytes

-- `MemoryMax::parse`
unfoldable pub parse_memory_max : Str → Result ℕ SandboxError
unfolding unit_of amount within
parse_memory_max text =
    if is_empty (trim text)
    then err (invalid_limit (empty_limit text))
    else unit_of (trim text) >>= scaled

-- `u64::to_string`, whose loop takes one digit off in each round: twenty rounds are enough.
unfoldable pub decimal : ℕ → ℕ → Str → Str
decimal zero n tail = tail
decimal (suc fuel) n tail =
    let rest = decimal fuel (n / 10) ((48 + n % 10) ∷ tail) in
    if ltb n 10 then (48 + n % 10) ∷ tail else rest

unfoldable pub to_text : ℕ → Str
unfolding decimal
to_text n = decimal 20 n []

-- `CpuMax::cgroup_value`: the product stays far below the bound of a u64.
unfoldable pub cpu_value : ℕ → Str
unfolding to_text
cpu_value percent = to_text (percent * cpu_period_us / 100) ++ (32 ∷ to_text cpu_period_us)

-- `MemoryMax::cgroup_value`
unfoldable pub memory_value : ℕ → Str
unfolding to_text
memory_value bytes = to_text bytes

-- ===== src/Execd/Handler/Names.antt =====
-- crates/archangel-execd/src/handler.rs: what a safe name rules out.
use archangel.Common.{
  ℕ, ◌≡◌, refl, true, false, [], ◌∷◌, all, ◌==◌, arith, ==_iff, Bool-cases, inl, inr, ap,
}
use archangel.Common.Text.{Str, str, str_eq_iff, contains, is_ascii_alphanumeric}
use archangel.Common.Text.Split.{Lacks}
use archangel.Policy.Pathnorm.Canonical.{IsComponent}
use archangel.Execd.Handler.{safe_exec_name, is_name_char}

name_char-ne : (c d : ℕ) → is_name_char d ≡ false → is_name_char c ≡ true → (c == d) ≡ false
name_char-ne c d h k = elim (Bool-cases (c == d)) [
  | inr e ↦ e
  | inl e ↦ absurd (cc (ap is_name_char ((==_iff c d).0 e), h, k))
]

all-Lacks :
    (name : Str) (d : ℕ) → is_name_char d ≡ false → all is_name_char name ≡ true → Lacks d name
unfolding contains
all-Lacks [] d h k = refl
all-Lacks (c ∷ s) d h k = ground (arith, name_char-ne c d h, all-Lacks s d h)

-- A safe name is one component of a path: it is not empty, "." or "..", and has neither a slash
-- nor a NUL inside.
pub safe_exec_name-IsComponent : (name : Str) → safe_exec_name name ≡ true → IsComponent name
unfolding safe_exec_name
safe_exec_name-IsComponent name h = record {
  nonempty = λ e. ground (arith, str_eq_iff name []);
  not_dot = λ e. ground (arith, str_eq_iff name (str "."));
  not_up = λ e. ground (arith, str_eq_iff name (str ".."));
  no_slash = all-Lacks name b'/' (unfold is_ascii_alphanumeric in refl) (ground arith);
  no_nul = all-Lacks name 0 (unfold is_ascii_alphanumeric in refl) (ground arith);
}

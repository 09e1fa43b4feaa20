-- ===== src/Policy/Tests/Paths.antt =====
-- Witnesses on path normalisation and on the allowlist.
use archangel.Common.{◌≡◌, ◌↔◌, refl, true, ok, err, ◌∷◌, [], Any}
use archangel.Common.Text.{str, contains, str_eq, split_where}
use archangel.Core.{autonomous}
use archangel.Policy.Pathnorm.{normalize_absolute, bad_path, not_absolute}
use archangel.Policy.Pathnorm.Canonical.{
  IsComponent, IsCanonical, normalize_absolute-IsCanonical, normalize_absolute_idempotent,
}
use archangel.Policy.Pathnorm.Evasion.{dot, around, normalize_absolute-detour}
use archangel.Policy.Allowlist.{Allowlist, ProfileAllow, IsFirst, is_allowed, is_allowed_iff}

pub opt-IsComponent : IsComponent (str "opt")
unfolding contains
opt-IsComponent = record {
  nonempty = λ e. cc;
  not_dot = λ e. cc;
  not_up = λ e. cc;
  no_slash = refl;
  no_nul = refl;
}

messy-normal : normalize_absolute (str "/opt/../etc/./ssh/") ≡ ok (str "/etc/ssh")
unfolding normalize_absolute split_where str_eq contains
messy-normal = refl

normalize_absolute-IsCanonical_example : IsCanonical (str "/etc/ssh")
normalize_absolute-IsCanonical_example =
    normalize_absolute-IsCanonical (str "/opt/../etc/./ssh/") (str "/etc/ssh") messy-normal

normalize_absolute_idempotent_example : normalize_absolute (str "/etc/ssh") ≡ ok (str "/etc/ssh")
normalize_absolute_idempotent_example =
    normalize_absolute_idempotent (str "/opt/../etc/./ssh/") (str "/etc/ssh") messy-normal

normalize_absolute-detour_example :
    normalize_absolute (str "/etc/opt/./../ssh") ≡ normalize_absolute (str "/etc/ssh")
normalize_absolute-detour_example =
    normalize_absolute-detour (str "/etc") (str "opt/./..") (str "ssh")
      (around (str "opt") opt-IsComponent dot) refl

abbrev web : ProfileAllow
web = record {
  name = str "web";
  mode = autonomous;
  allowed_exec = str "restart-nginx" ∷ str "rotate-logs" ∷ [];
}

abbrev listing : Allowlist
listing = record { profiles = record web { name = str "db" } ∷ web ∷ [] }

is_allowed_iff_example : (is_allowed listing (str "web") (str "rotate-logs") autonomous ≡ true) ↔ (
    (p : ProfileAllow) × IsFirst (str "web") p listing.profiles
    × (p.mode ≡ autonomous)
    × Any (λ e. e ≡ str "rotate-logs") p.allowed_exec)
is_allowed_iff_example = is_allowed_iff listing (str "web") (str "rotate-logs") autonomous

normalize_tests :
    (normalize_absolute (str "/etc//./ssh/../ssh/x/") ≡ ok (str "/etc/ssh/x"))
    × (normalize_absolute (str "/../..") ≡ ok (str "/"))
    × (normalize_absolute (str "etc") ≡ err (bad_path (not_absolute (str "etc"))))
unfolding normalize_absolute split_where str_eq contains
normalize_tests = (refl, refl, refl)

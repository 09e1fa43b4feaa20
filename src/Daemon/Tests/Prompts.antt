-- ===== src/Daemon/Tests/Prompts.antt =====
-- Witnesses on prompts.
use archangel.Common.{ℕ, ◌≡◌, ◌++◌, refl, false, arith}
use archangel.Common.Text.{Str, str, contains_str}
use archangel.Core.{read_only}
use archangel.Daemon.Prompt.{PromptBuilder, sanitized}
use archangel.Daemon.Prompt.Spotlight.{IsToken, sanitized-lacks}

abbrev tag : Str
tag = str "0123456789abcdef0123456789abcdef"

abbrev secret : Str
secret = str "fedcba9876543210fedcba9876543210"

abbrev builder : PromptBuilder
builder = record { secrets = record { delimiter_tag = tag; canary = secret }; mode = read_only }

tag-IsToken : IsToken tag
unfolding archangel.Common.Text.contains
tag-IsToken = record { no_open = refl; no_close = refl; long = omega arith }

secret-IsToken : IsToken secret
unfolding archangel.Common.Text.contains
secret-IsToken = record { no_open = refl; no_close = refl; long = omega arith }

-- A text that would close the region, and names the canary.
abbrev hostile : Str
hostile = str ">>>" ++ (tag ++ (secret ++ tag))

sanitized-lacks_example :
    (contains_str tag (sanitized builder hostile) ≡ false)
    × (contains_str secret (sanitized builder hostile) ≡ false)
sanitized-lacks_example = sanitized-lacks builder hostile tag-IsToken secret-IsToken

neutral : sanitized builder hostile ≡ str ">>>[neutralized][neutralized][neutralized]"
unfolding sanitized archangel.Common.Text.strip_prefix
neutral = refl

-- ===== src/Daemon/Response.antt =====
-- crates/archangeld/src/response.rs: the model's answer as an action. The JSON of one object is read
-- by the parameter `from_str`; the text of an error is kept as what it is formatted from.
use archangel.Common.{
  ℕ, ◌*◌, Bool, false, not, ◌&&◌, ◌||◌, Option, none, some, [], ◌∷◌, all, ◌==◌, ltb, leb,
  if◌then◌else◌, Result, ok, err, ◌>>=◌, map_err,
}
use archangel.Common.Text.{
  Str, str, str_eq, str_len, strip_prefix, strip_suffix, trim, contains_str, is_ascii_alphanumeric,
}
use archangel.Common.Text.Lines.{is_empty}
use archangel.Common.Map.{HashMap}
use archangel.Daemon.Prompt.{PromptBuilder, response_is_compromised}

pub data ModelAction : Type 0 where
  invoke : (exec : Str) (args : HashMap Str) (reason : Str) → ModelAction
  ask : (question : Str) → ModelAction
  refuse : (reason : Str) → ModelAction

pub data ResponseError : Type 0 where
  canary_leaked empty_response no_object ask_without_question refuse_without_reason : ResponseError
  too_large : ℕ → ResponseError
  not_contract_json unsafe_exec_name : Str → ResponseError

pub record RawAction : Type 0 where
  pub action : Str
  pub args : Option (HashMap Str)
  pub reason : Option Str
  pub question : Option Str

abbrev pub max_response_bytes : ℕ
max_response_bytes = 64 * 1024

unfoldable pub safe_exec_name : Str → Bool
safe_exec_name name =
    not (is_empty name)
    && leb (str_len name) 128
    && not (str_eq name (str "."))
    && not (str_eq name (str ".."))
    && not (contains_str (str "..") name)
    && all (λ b. is_ascii_alphanumeric b || b == b'.' || b == b'_' || b == b'-') name

-- What stands behind the first newline, nothing if there is none.
abbrev pub behind_newline : Str → Str
behind_newline [] = []
behind_newline (c ∷ s) = let rest = behind_newline s in if c == 10 then s else rest

abbrev pub unwrap_or {ℓ} : {A : Type ℓ} → A → Option A → A
unwrap_or a none = a
unwrap_or a (some b) = b

abbrev pub in_fence : Str → Option Str → Str
in_fence t none = t
in_fence t (some rest) =
    let after_lang = behind_newline rest in
    trim (unwrap_or after_lang (strip_suffix (str "```") (trim after_lang)))

unfoldable pub strip_one_fence : Str → Str
strip_one_fence s = let t = trim s in in_fence t (strip_prefix (str "```") t)

-- `starts_with` and `ends_with` of one character.
abbrev pub starts_with : Str → ℕ → Bool
starts_with [] c = false
starts_with (d ∷ s) c = d == c

abbrev pub ends_with : Str → ℕ → Bool
ends_with [] c = false
ends_with (d ∷ []) c = d == c
ends_with (d ∷ e ∷ s) c = ends_with (e ∷ s) c

abbrev pub ok_or {ℓ} : {A : Type ℓ} → Option A → ResponseError → Result A ResponseError
ok_or none why = err why
ok_or (some a) why = ok a

-- The match on the action's name.
unfoldable pub action_of : RawAction → Result ModelAction ResponseError
unfolding safe_exec_name
action_of parsed =
    if str_eq parsed.action (str "ask")
    then (ok_or parsed.question ask_without_question >>= λ question. ok (ask question))
    else if str_eq parsed.action (str "refuse")
    then (ok_or parsed.reason refuse_without_reason >>= λ reason. ok (refuse reason))
    else if not (safe_exec_name parsed.action)
    then err (unsafe_exec_name parsed.action)
    else ok (invoke parsed.action (unwrap_or [] parsed.args) (unwrap_or [] parsed.reason))

module _ (from_str : Str → Result RawAction Str) where
  abbrev pub parse_object : Str → Result ModelAction ResponseError
  parse_object json =
      if not (starts_with json b'{' && ends_with json b'}')
      then err no_object
      else map_err not_contract_json (from_str json) >>= action_of

  unfoldable pub parse_model_response : Str → PromptBuilder → Result ModelAction ResponseError
  unfolding strip_one_fence action_of
  parse_model_response raw builder =
      if response_is_compromised builder raw
      then err canary_leaked
      else if is_empty (trim raw)
      then err empty_response
      else if ltb max_response_bytes (str_len raw)
      then err (too_large (str_len raw))
      else parse_object (strip_one_fence raw)

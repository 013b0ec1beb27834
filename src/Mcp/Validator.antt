-- ===== src/Mcp/Validator.antt =====
-- apps/api/services/mcp_config_validator.py: `ConfigValidator`, with what it calls of
-- apps/api/schemas/validators.py. `urlparse` and `ip_address` are arguments.
use Prim.Native.Char.{code}
use text.Mathlib.Text.{starts_with, find?}
use claude_agent_api.Common.{
  ℕ, String, Bool, true, false, ◌||◌, Option, none, some, List, [], ◌∷◌, ◌==◌, ◌=ℕ◌, if◌then◌else◌,
}
use claude_agent_api.Exec.{Outcome, ok, raise, value_error, ◌>>=?◌}
use claude_agent_api.Json.{Json, Items, Dict, str, arr, obj, nil, cons, end, field, get}
use claude_agent_api.Runtime.{Runtime}

abbrev pub sensitive_patterns : List String
sensitive_patterns =
    "api_key" ∷ "apikey" ∷ "secret" ∷ "password" ∷ "token" ∷ "auth" ∷ "credential" ∷ "authorization"
    ∷ []

-- key.replace("-", "_")
replace_hyphens : String → String
replace_hyphens String.[] = ""
replace_hyphens (String.◌∷◌ c s) =
    let rest = replace_hyphens s in if code c =ℕ 45 then String.◌∷◌ "_" rest else String.◌∷◌ c rest

-- any(pattern in text for pattern in patterns)
any_within : List String → String → Bool
any_within [] text = false
any_within (p ∷ ps) text =
    let rest = any_within ps text in elim (find? text p) [ none ↦ rest | some _ ↦ true ]

unfoldable pub is_sensitive_key : Runtime → String → Bool
unfolding replace_hyphens any_within
is_sensitive_key rt key = any_within sensitive_patterns (replace_hyphens (rt.lower key))

abbrev pub redacted : Json
redacted = str "***REDACTED***"

-- `_sanitize_recursive`, which works on a deep copy.
module _ (rt : Runtime) where
  unfoldable mutual
    pub sanitize : Json → Json
    sanitize (arr xs) = arr (sanitize_items xs)
    sanitize (obj d) = obj (sanitize_credentials d)
    sanitize v = v

    pub sanitize_items : Items → Items
    sanitize_items nil = nil
    sanitize_items (cons v xs) = cons (sanitize v) (sanitize_items xs)

    pub sanitize_credentials : Dict → Dict
    sanitize_credentials end = end
    sanitize_credentials (field k v d) =
        field k (if is_sensitive_key rt k then redacted else sanitize v) (sanitize_credentials d)

-- the codes of ; & | ` $ ( ) { } [ ] < > ! \ and the line ends
abbrev metachars : List ℕ
metachars =
    59 ∷ 38 ∷ 124 ∷ 96 ∷ 36 ∷ 40 ∷ 41 ∷ 123 ∷ 125 ∷ 91 ∷ 93 ∷ 60 ∷ 62 ∷ 33 ∷ 92 ∷ 10 ∷ 13 ∷ []

is_one_of : List ℕ → ℕ → Bool
is_one_of [] n = false
is_one_of (m ∷ ms) n = n =ℕ m || is_one_of ms n

-- SHELL_METACHAR_PATTERN.search(command)
unfoldable pub has_metachar : String → Bool
unfolding is_one_of
has_metachar String.[] = false
has_metachar (String.◌∷◌ c s) = is_one_of metachars (code c) || has_metachar s

unfoldable pub validate_command_injection : Option String → Outcome (Option String)
validate_command_injection none = ok none
validate_command_injection (some command) =
    if has_metachar command then raise value_error else ok (some command)

-- The host of a URL, and whether a host that is an IP address is internal.
pub record Urls : Type 0 where
  pub hostname : String → Outcome (Option String)
  pub ip_is_internal : String → Option Bool

module _ (rt : Runtime) (urls : Urls) where
  is_blocked : String → Bool
  is_blocked host =
      host == "localhost"
      || host == "metadata.google.internal"
      || starts_with host "metadata.aws."
      || host == "instance-data"

  check_host : String → Option String → Outcome String
  unfolding is_blocked
  check_host url none = raise value_error
  check_host url (some host) =
      if host == ""
      then raise value_error
      else if is_blocked (rt.lower host)
      then raise value_error
      else elim (urls.ip_is_internal host) [
        | none ↦ ok url
        | some internal ↦ if internal then raise value_error else ok url
      ]

  unfoldable pub validate_url_not_internal : String → Outcome String
  unfolding check_host
  validate_url_not_internal url = urls.hostname url >>=? λ host. check_host url host

  unfoldable pub validate_ssrf : Option String → Outcome (Option String)
  validate_ssrf none = ok none
  validate_ssrf (some url) = validate_url_not_internal url >>=? λ u. ok (some u)

  check_command : Option Json → Outcome (Unit {0})
  check_command (some (str command)) = validate_command_injection (some command) >>=? λ _. ok tt
  check_command v = ok tt

  check_url : Option Json → Outcome (Unit {0})
  check_url (some (str url)) = validate_ssrf (some url) >>=? λ _. ok tt
  check_url v = ok tt

  unfoldable pub validate_config : Dict → Outcome (Unit {0})
  unfolding check_command check_url
  validate_config config =
      check_command (get "command" config) >>=? λ _. check_url (get "url" config)

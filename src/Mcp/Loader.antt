-- ===== src/Mcp/Loader.antt =====
-- apps/api/services/mcp_config_loader.py: `McpConfigLoader`. The file and the environment are
-- arguments. Logging is left out.
use Prim.Native.Char.{Char, code}
use Prim.Native.String.{◌++◌}
use mathlib.Core.Option.{get_or}
use claude_agent_api.Common.{
  ℕ, String, Bool, false, not, ◌&&◌, ◌||◌, Option, none, some, ◌==◌, ◌=ℕ◌, leb, if◌then◌else◌,
}
use claude_agent_api.Exec.{Outcome, ok, raise, other, ◌>>=?◌}
use claude_agent_api.Json.{
  Json, Items, Dict, null, bool, int, float, str, arr, obj, nil, cons, end, field, get, put,
  is_empty,
}

-- What reading and parsing the file comes to. `unreadable` is an `OSError`.
pub data ConfigFile : Type 0 where
  missing unreadable not_json : ConfigFile
  parsed_file : Json → ConfigFile

servers_of : Option Json → Dict
servers_of (some (obj d)) = d
servers_of v = end

-- Only a dict has the method `get`.
load_and_parse_file : ConfigFile → Outcome Dict
unfolding servers_of
load_and_parse_file (parsed_file (obj config)) = ok (servers_of (get "mcpServers" config))
load_and_parse_file (parsed_file v) = raise (other "AttributeError")
load_and_parse_file file = ok end

-- The config and what is cached of it afterwards.
unfoldable pub load_application_config : ConfigFile → Option Dict → Outcome (Dict × Option Dict)
unfolding load_and_parse_file
load_application_config file (some cached) = ok (cached, some cached)
load_application_config file none = load_and_parse_file file >>=? λ d. ok (d, some d)

-- {**low, **high}
unfoldable pub merged : Dict → Dict → Dict
merged low end = low
merged low (field k v high) = merged (put k v low) high

unfoldable pub is_opt_out : Option Dict → Bool
is_opt_out none = false
is_opt_out (some d) = is_empty d

unfoldable pub merge_configs : Dict → Dict → Option Dict → Dict
unfolding is_opt_out
merge_configs application_config api_key_config request_config =
    if is_opt_out request_config
    then end
    else elim request_config [ some d ↦ d | none ↦ merged application_config api_key_config ]

-- The search for `\$\{([A-Z_][A-Z0-9_]*)\}` goes through a text once: what it has seen of a
-- placeholder is the text from the dollar on, and the name so far.
pub data Pending : Type 0 where
  plain : Pending
  dollar : String → Pending
  name : String → String → Pending

abbrev pub pending_text : Pending → String
pending_text plain = ""
pending_text (dollar p) = p
pending_text (name p n) = p

abbrev pub single : Char → String
single c = String.◌∷◌ c String.[]

unfoldable pub is_between : ℕ → ℕ → ℕ → Bool
is_between low high n = leb low n && leb n high

-- A letter or an underscore, or, if it is not the first, a digit.
unfoldable pub is_name_char : String → Char → Bool
unfolding is_between
is_name_char n c =
    is_between 65 90 (code c) || code c =ℕ 95 || not (n == "") && is_between 48 57 (code c)

-- No placeholder after all, but a new one may begin.
unfoldable pub restart : String → Char → String × Pending
restart p c = if code c =ℕ 36 then (p, dollar (single c)) else (p ++ single c, plain)

-- What goes to the result, and what is seen then.
unfoldable pub step : (String → Option String) → Pending → Char → String × Pending
unfolding restart
step env plain c = restart "" c
step env (dollar p) c = if code c =ℕ 123 then ("", name (p ++ single c) "") else restart p c
step env (name p n) c =
    if is_name_char n c
    then ("", name (p ++ single c) (n ++ single c))
    else if code c =ℕ 125 && not (n == "")
    then (get_or (env n) (p ++ single c), plain)
    else restart p c

unfoldable pub scan : (String → Option String) → Pending → String → String
scan env seen String.[] = pending_text seen
scan env seen (String.◌∷◌ c s) = let (done, now) = step env seen c in done ++ scan env now s

unfoldable pub resolve_string : (String → Option String) → String → String
resolve_string env text = scan env plain text

unfoldable mutual
  pub resolve_value : (String → Option String) → Json → Json
  resolve_value env (str s) = str (resolve_string env s)
  resolve_value env (obj d) = obj (resolve_env_vars env d)
  resolve_value env (arr xs) = arr (resolve_items env xs)
  resolve_value env null = null
  resolve_value env (bool b) = bool b
  resolve_value env (int n) = int n
  resolve_value env (float x) = float x

  pub resolve_items : (String → Option String) → Items → Items
  resolve_items env nil = nil
  resolve_items env (cons v xs) = cons (resolve_value env v) (resolve_items env xs)

  pub resolve_env_vars : (String → Option String) → Dict → Dict
  resolve_env_vars env end = end
  resolve_env_vars env (field k v d) = field k (resolve_value env v) (resolve_env_vars env d)

-- ===== src/Witnesses/Mcp.antt =====
-- Runs of apps/api/services/mcp_config_validator.py.
use claude_agent_api.Mcp.Substitution.{resolve_env_vars_lem}
use claude_agent_api.Mcp.Templates.{
  is_clear_dict, filled_text, text_of, made_dict, no_field, no_more, placeholder, letter,
  text_template, and_more, list_template, and_field, DictTemplate,
}
use claude_agent_api.Mcp.Merging.{merge_configs_lem, first_of}
use claude_agent_api.Mcp.Loader.{
  is_name_char, step, scan, resolve_string, resolve_env_vars, merge_configs,
}
use claude_agent_api.Common.{[], Option, String, ◌∷◌, if◌then◌else◌, ◌==◌, some, none, ◌≡◌, refl}
use claude_agent_api.Json.{get, Json, Dict, str, obj, end, field}
use claude_agent_api.Mcp.Validator.{is_sensitive_key, sanitize_credentials}
use claude_agent_api.Mcp.Redaction.{
  AlikeDict, same, alike_obj, alike_end, shown, hidden, sanitize_credentials-AlikeDict,
}
use claude_agent_api.Witnesses.World.{python}

abbrev with_secret : Json → Dict
with_secret v = field "command" (str "serve") (field "env" (obj (field "api-key" v end)) end)

alike : AlikeDict python (with_secret (str "one")) (with_secret (str "two"))
unfolding is_sensitive_key
alike = shown (same (str "serve")) (shown (alike_obj (hidden refl alike_end)) alike_end)

sanitize_credentials-AlikeDict_example :
    sanitize_credentials python (with_secret (str "one"))
    ≡ sanitize_credentials python (with_secret (str "two"))
sanitize_credentials-AlikeDict_example =
    sanitize_credentials-AlikeDict python (with_secret (str "one")) (with_secret (str "two")) alike

abbrev key_servers : Dict
key_servers = field "files" (str "the key's") end

merge_configs_lem_example :
    get "files" (merge_configs (field "files" (str "the application's") end) key_servers none)
    ≡ first_of (get "files" key_servers) (get "files" (field "files" (str "the application's") end))
unfolding get
merge_configs_lem_example =
    merge_configs_lem (field "files" (str "the application's") end) key_servers none "files" refl

-- `$$` and a placeholder in a list
abbrev servers : DictTemplate
servers =
    and_field "args"
      (list_template
        (and_more (text_template (letter "$" ∷ placeholder "TOKEN_1" ∷ letter "!" ∷ [])) no_more))
      no_field

abbrev environment : String → Option String
environment n = if n == "TOKEN_1" then some "$${TOKEN_1}" else none

resolve_env_vars_lem_example :
    resolve_env_vars environment (made_dict text_of servers)
    ≡ made_dict (filled_text environment) servers
unfolding is_clear_dict
resolve_env_vars_lem_example = resolve_env_vars_lem environment servers refl

-- A name is replaced, and what only looks like a placeholder is not.
resolved :
    resolve_string (λ n. if n == "TOKEN" then some "t" else none) "$${TOKEN} ${1} ${" ≡ "$t ${1} ${"
unfolding resolve_string scan step is_name_char
resolved = refl

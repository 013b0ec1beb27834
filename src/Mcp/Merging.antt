-- ===== src/Mcp/Merging.antt =====
-- What the merged configuration holds, and what the environment changes of it.
use Prim.Native.Char.{Char, code}
use Prim.Native.String.{◌++◌}
use text.Mathlib.TextLemmas.{append-nil, append_assoc, nil-append, cons-append}
use claude_agent_api.Common.{
  String, ◌≡◌, refl, Bool, true, not, ◌&&◌, Option, none, some, ◌==◌, ◌=ℕ◌, arith, ap, sym, ◌∙◌,
  eq_iff, Bool-cases, inl, inr,
}
use claude_agent_api.Json.{
  Json, Items, Dict, null, bool, int, float, str, arr, obj, nil, cons, end, field, get, put,
  get-put,
}
use claude_agent_api.Agent.Usage.{is_missing}
use claude_agent_api.Mcp.Loader.{
  merged, merge_configs, is_opt_out, Pending, plain, dollar, name, pending_text, single,
  is_name_char, restart, step, scan, resolve_string, resolve_value, resolve_items, resolve_env_vars,
}

-- Each key once, as in every dict of Python.
abbrev pub has_keys_once : Dict → Bool
has_keys_once end = true
has_keys_once (field k v d) = is_missing (get k d) && has_keys_once d

abbrev pub first_of : Option Json → Option Json → Option Json
first_of (some v) w = some v
first_of none w = w

missing_none : (o : Option Json) → is_missing o ≡ true → o ≡ none
missing_none none h = refl
missing_none (some v) h = cc

first_of-put :
    (k j : String) (v : Json) (low high : Dict)
    → is_missing (get j high) ≡ true
    → first_of (get k high) (get k (put j v low)) ≡ first_of (get k (field j v high)) (get k low)
unfolding get
first_of-put k j v low high h = elim (Bool-cases (j == k)) [
  | inl e ↦
      let gone = ap (λ s. get s high) (sym ((eq_iff j k).0 e)) ∙ missing_none (get j high) h in
      rw (get-put j k v low, e, gone) refl
  | inr e ↦ rw (get-put j k v low, e) refl
]

get-merged :
    (k : String) (low high : Dict)
    → has_keys_once high ≡ true
    → get k (merged low high) ≡ first_of (get k high) (get k low)
unfolding merged get
get-merged k low end h = refl
get-merged k low (field j v high) h =
    get-merged k (put j v low) high (ground (arith, h))
    ∙ first_of-put k j v low high (ground (arith, h))

-- A server of the merged configuration is the request's, if the request has a configuration, even
-- an empty one; if not, it is the API key's server of that name, and the application's where the
-- API key has none.
pub merge_configs_lem :
    (application_config api_key_config : Dict) (request_config : Option Dict) (server : String)
    → has_keys_once api_key_config ≡ true
    → get server (merge_configs application_config api_key_config request_config)
      ≡ elim request_config [
        | some d ↦ get server d
        | none ↦ first_of (get server api_key_config) (get server application_config)
      ]
unfolding merge_configs is_opt_out
merge_configs_lem app key none server h = get-merged server app key h
merge_configs_lem app key (some end) server h = refl
merge_configs_lem app key (some (field k v d)) server h = refl

restart_lem :
    (p : String) (c : Char)
    → let (done, now) = restart p c in done ++ pending_text now ≡ p ++ single c
unfolding restart
restart_lem p c = elim (Bool-cases (code c =ℕ 36)) [
  | inl e ↦ rw (restart, e) refl
  | inr e ↦ rw (restart, e) (append-nil (p ++ single c))
]

abbrev pub no_env : String → Option String
no_env n = none

step_lem :
    (seen : Pending) (c : Char)
    → let (done, now) = step no_env seen c in
      done ++ pending_text now ≡ pending_text seen ++ single c
unfolding step
step_lem plain c = restart_lem "" c
step_lem (dollar p) c = elim (Bool-cases (code c =ℕ 123)) [
  | inl e ↦ rw (step, e) (nil-append (p ++ single c))
  | inr e ↦ rw (step, e) (restart_lem p c)
]
step_lem (name p n) c = elim (Bool-cases (is_name_char n c)) [
  | inl e ↦ rw (step, e) (nil-append (p ++ single c))
  | inr e ↦ elim (Bool-cases (code c =ℕ 125 && not (n == ""))) [
    | inl f ↦ rw (step, e, f) (append-nil (p ++ single c))
    | inr f ↦ rw (step, e, f) (restart_lem p c)
  ]
]

scan_lem : (seen : Pending) (s : String) → scan no_env seen s ≡ pending_text seen ++ s
unfolding scan
scan_lem seen String.[] = sym (append-nil (pending_text seen))
scan_lem seen (String.◌∷◌ c s) =
    let (done, now) = step no_env seen c in
    ap (◌++◌ done) (scan_lem now s)
    ∙ sym (append_assoc done (pending_text now) s)
    ∙ ap (λ t. t ++ s) (step_lem seen c)
    ∙ append_assoc (pending_text seen) (single c) s
    ∙ ap (λ t. pending_text seen ++ t) (cons-append c "" s ∙ ap (String.◌∷◌ c) (nil-append s))

resolve_string-no_env : (s : String) → resolve_string no_env s ≡ s
unfolding resolve_string
resolve_string-no_env s = scan_lem plain s ∙ nil-append s

mutual
  unfolding resolve_value resolve_items resolve_env_vars

  value-no_env : (v : Json) → resolve_value no_env v ≡ v
  value-no_env (str s) = ap str (resolve_string-no_env s)
  value-no_env (obj d) = ap obj (dict-no_env d)
  value-no_env (arr xs) = ap arr (items-no_env xs)
  value-no_env null = refl
  value-no_env (bool b) = refl
  value-no_env (int n) = refl
  value-no_env (float x) = refl

  items-no_env : (xs : Items) → resolve_items no_env xs ≡ xs
  items-no_env nil = refl
  items-no_env (cons v xs) = λ i. cons (value-no_env v i) (items-no_env xs i)

  dict-no_env : (d : Dict) → resolve_env_vars no_env d ≡ d
  dict-no_env end = refl
  dict-no_env (field k v d) = λ i. field k (value-no_env v i) (dict-no_env d i)

-- Where no variable of the environment is set, every placeholder stays as it is: resolving a
-- configuration gives the same configuration, whatever dollars and braces its texts have.
pub resolve_env_vars-no_env : (d : Dict) → resolve_env_vars no_env d ≡ d
resolve_env_vars-no_env d = dict-no_env d

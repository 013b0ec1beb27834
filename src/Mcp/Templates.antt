-- ===== src/Mcp/Templates.antt =====
-- Configurations as they are written for apps/api/services/mcp_config_loader.py: texts with
-- placeholders for variables of the environment.
use Prim.Native.Char.{Char, code}
use Prim.Native.String.{◌++◌}
use mathlib.Core.Option.{get_or}
use claude_agent_api.Common.{
  ℕ, String, Bool, true, false, not, ◌&&◌, ◌||◌, Option, List, [], ◌∷◌, ◌=ℕ◌, leb,
}
use claude_agent_api.Common.Int.{ℤ}
use claude_agent_api.Json.{
  Json, Items, Dict, null, bool, int, float, str, arr, obj, nil, cons, end, field,
}

pub data Token : Type 0 where
  letter : Char → Token
  placeholder : String → Token

-- A to Z and the underscore
abbrev pub is_upper : Char → Bool
is_upper c = leb 65 (code c) && leb (code c) 90 || code c =ℕ 95

abbrev pub is_digit : Char → Bool
is_digit c = leb 48 (code c) && leb (code c) 57

abbrev pub is_tail : String → Bool
is_tail String.[] = true
is_tail (String.◌∷◌ c s) = (is_upper c || is_digit c) && is_tail s

-- `[A-Z_][A-Z0-9_]*`
abbrev pub is_variable : String → Bool
is_variable String.[] = false
is_variable (String.◌∷◌ c s) = is_upper c && is_tail s

-- `${NAME}` before a text
abbrev pub placed : String → String → String
placed n r = String.◌∷◌ "$" (String.◌∷◌ "{" (n ++ String.◌∷◌ "}" r))

abbrev pub text_of : List Token → String
text_of [] = ""
text_of (letter c ∷ ts) = String.◌∷◌ c (text_of ts)
text_of (placeholder n ∷ ts) = placed n (text_of ts)

-- The value of a variable, or its placeholder where it is not set.
abbrev pub value_of : (String → Option String) → String → String
value_of env n = get_or (env n) (placed n "")

abbrev pub filled_text : (String → Option String) → List Token → String
filled_text env [] = ""
filled_text env (letter c ∷ ts) = String.◌∷◌ c (filled_text env ts)
filled_text env (placeholder n ∷ ts) = value_of env n ++ filled_text env ts

abbrev pub begins_brace : List Token → Bool
begins_brace (letter c ∷ ts) = code c =ℕ 123
begins_brace ts = false

-- Names are those of variables, and no dollar among the letters stands before a brace.
abbrev pub is_clear : List Token → Bool
is_clear [] = true
is_clear (letter c ∷ ts) = not (code c =ℕ 36 && begins_brace ts) && is_clear ts
is_clear (placeholder n ∷ ts) = is_variable n && is_clear ts

-- A JSON value with texts that have placeholders; a leaf has no text.
mutual
  pub data Template : Type 0 where
    null_template : Template
    bool_template : Bool → Template
    int_template : ℤ → Template
    float_template : ℕ → Template
    text_template : List Token → Template
    list_template : Templates → Template
    dict_template : DictTemplate → Template

  pub data Templates : Type 0 where
    no_more : Templates
    and_more : Template → Templates → Templates

  pub data DictTemplate : Type 0 where
    no_field : DictTemplate
    and_field : String → Template → DictTemplate → DictTemplate

unfoldable mutual
  -- The configuration, with each text as `f` makes it.
  pub made : (List Token → String) → Template → Json
  made f null_template = null
  made f (bool_template b) = bool b
  made f (int_template n) = int n
  made f (float_template x) = float x
  made f (text_template ts) = str (f ts)
  made f (list_template xs) = arr (made_items f xs)
  made f (dict_template d) = obj (made_dict f d)

  pub made_items : (List Token → String) → Templates → Items
  made_items f no_more = nil
  made_items f (and_more t xs) = cons (made f t) (made_items f xs)

  pub made_dict : (List Token → String) → DictTemplate → Dict
  made_dict f no_field = end
  made_dict f (and_field k t d) = field k (made f t) (made_dict f d)

unfoldable mutual
  pub is_clear_template : Template → Bool
  is_clear_template (text_template ts) = is_clear ts
  is_clear_template (list_template xs) = are_clear xs
  is_clear_template (dict_template d) = is_clear_dict d
  is_clear_template t = true

  pub are_clear : Templates → Bool
  are_clear no_more = true
  are_clear (and_more t xs) = is_clear_template t && are_clear xs

  pub is_clear_dict : DictTemplate → Bool
  is_clear_dict no_field = true
  is_clear_dict (and_field k t d) = is_clear_template t && is_clear_dict d

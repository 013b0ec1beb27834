-- ===== src/Payload.antt =====
-- How the services read the fields of a cached payload: the Python idioms that the parsers share.
use claude_agent_api.Common.{
  String, Bool, true, false, not, ◌||◌, Option, none, some, List, [], ◌∷◌, map, ◌≡◌, refl, ap, ◌==◌,
  ◌=ℕ◌, if◌then◌else◌,
}
use claude_agent_api.Common.Int.{ℤ, pos, int_of_bool}
use claude_agent_api.Exec.{type_error, Outcome, ok, raise, key_error, ◌>>=?◌}
use claude_agent_api.Json.{
  list_of, truthy_obj, opt_str, opt_int, Json, Items, Dict, null, bool, int, float, str, arr, obj,
  nil, cons, end, field, strings, of_strings, strings-of_strings, items_of,
}
use claude_agent_api.Runtime.{Runtime, to_str}

-- str(parsed[k])
unfoldable pub required_str : Runtime → Option Json → Outcome String
unfolding to_str
required_str rt none = raise key_error
required_str rt (some v) = ok (to_str rt v)

-- `int(v) if isinstance(v, (int, float)) else 0`, with a missing key as 0
unfoldable pub int_or_zero : Runtime → Option Json → Outcome ℤ
int_or_zero rt (some (int n)) = ok n
int_or_zero rt (some (bool b)) = ok (int_of_bool b)
int_or_zero rt (some (float x)) = rt.int_of_float x
int_or_zero rt v = ok (pos 0)

-- `parse_timestamp`
unfoldable pub timestamp : Runtime → Option Json → Outcome (Option ℤ)
timestamp rt (some (int n)) = ok (some n)
timestamp rt (some (bool b)) = ok (some (int_of_bool b))
timestamp rt (some (float x)) = rt.int_of_float x >>=? λ n. ok (some n)
timestamp rt v = ok none

is_nonempty : String → Bool
is_nonempty s = not (s == "")

-- bool(v); the patterns of 0.0 and -0.0 are 0 and 2 ^ 63
unfoldable pub is_truthy : Json → Bool
unfolding is_nonempty
is_truthy null = false
is_truthy (bool b) = b
is_truthy (int n) = elim n [ pos m ↦ not (m =ℕ 0) | _ ↦ true ]
is_truthy (float x) = not (x =ℕ 0 || x =ℕ 9223372036854775808)
is_truthy (str s) = is_nonempty s
is_truthy (arr nil) = false
is_truthy (arr (cons x xs)) = true
is_truthy (obj end) = false
is_truthy (obj (field k v d)) = true

-- `str(raw) if raw else None`
unfoldable pub truthy_str : Runtime → Option Json → Option String
unfolding is_truthy to_str
truthy_str rt none = none
truthy_str rt (some v) = if is_truthy v then some (to_str rt v) else none

chars : String → List Json
chars String.[] = []
chars (String.◌∷◌ c s) = str (String.◌∷◌ c String.[]) ∷ chars s

keys : Dict → List Json
keys end = []
keys (field k v d) = str k ∷ keys d

-- What `list` and `extend` take from a value, nothing from a missing one.
unfoldable pub iterate : Option Json → Outcome (List Json)
unfolding chars keys
iterate none = ok []
iterate (some (arr xs)) = ok (list_of xs)
iterate (some (str s)) = ok (chars s)
iterate (some (obj d)) = ok (keys d)
iterate (some v) = raise type_error

-- `raw if isinstance(raw, dict) else None`
unfoldable pub dict_or_none : Option Json → Option Dict
dict_or_none (some (obj d)) = some d
dict_or_none v = none

-- The string entries of a dict, and nothing of anything else.
unfoldable pub str_entries : Option Json → List (String × String)
str_entries (some (obj d)) = strings d
str_entries v = []

-- The dicts of a list.
unfoldable pub dicts : Items → List Dict
dicts nil = []
dicts (cons (obj d) xs) = d ∷ dicts xs
dicts (cons v xs) = dicts xs

unfoldable pub dict_list : Option Json → List Dict
unfolding dicts
dict_list (some (arr xs)) = dicts xs
dict_list v = []

-- A value that `if x` rejects is not kept by the payload: an empty text, an empty dict.
abbrev pub NonemptyStr : Option String → Type 0
NonemptyStr none = Unit
NonemptyStr (some s) = (s == "") ≡ false

abbrev pub NonemptyDict : Option Dict → Type 0
NonemptyDict none = Unit
NonemptyDict (some end) = ⊥
NonemptyDict (some (field k v d)) = Unit

pub dicts-items_of : (ds : List Dict) → dicts (items_of (map obj ds)) ≡ ds
unfolding dicts
dicts-items_of [] = refl
dicts-items_of (d ∷ ds) = ap (◌∷◌ d) (dicts-items_of ds)

module _ (rt : Runtime) where
  pub required_str-str : (s : String) → required_str rt (some (str s)) ≡ ok s
  unfolding required_str
  required_str-str s = refl

  pub int_or_zero-int : (n : ℤ) → int_or_zero rt (some (int n)) ≡ ok n
  unfolding int_or_zero
  int_or_zero-int n = refl

  pub timestamp-opt_int : (o : Option ℤ) → timestamp rt (some (opt_int o)) ≡ ok o
  unfolding timestamp
  timestamp-opt_int none = refl
  timestamp-opt_int (some n) = refl

  pub truthy_str-opt_str :
      (o : Option String) → NonemptyStr o → truthy_str rt (some (opt_str o)) ≡ o
  unfolding truthy_str
  truthy_str-opt_str none h = refl
  truthy_str-opt_str (some s) h = rw h refl

pub to_str-str : (rt : Runtime) (s : String) → to_str rt (str s) ≡ s
unfolding to_str
to_str-str rt s = refl

pub dict_or_none-truthy_obj :
    (o : Option Dict) → NonemptyDict o → dict_or_none (some (truthy_obj o)) ≡ o
unfolding dict_or_none
dict_or_none-truthy_obj none h = refl
dict_or_none-truthy_obj (some end) h = elim h [ ]
dict_or_none-truthy_obj (some (field k v d)) h = refl

pub dict_list-items_of : (ds : List Dict) → dict_list (some (arr (items_of (map obj ds)))) ≡ ds
unfolding dict_list
dict_list-items_of ds = dicts-items_of ds

pub str_entries-of_strings :
    (m : List (String × String)) → str_entries (some (obj (of_strings m))) ≡ m
unfolding str_entries
str_entries-of_strings m = strings-of_strings m

-- Reading back what the writers of the payloads put.
pub ruleset payload_laws = (
  required_str-str, int_or_zero-int, timestamp-opt_int, truthy_str-opt_str, to_str-str,
  dict_or_none-truthy_obj, dict_list-items_of, str_entries-of_strings,
)

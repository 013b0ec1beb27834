-- ===== src/Resources/Index.antt =====
-- What apps/api/services/agents.py, projects.py and tool_presets.py share: records under their own
-- keys, and the set of their ids. Ids, tokens and times are arguments.
use mathlib.Core.Option.{get_or}
use claude_agent_api.Common.{String, Bool, Option, none, some, List, [], ◌∷◌, map}
use claude_agent_api.Exec.{◌>>◌, ◌>>=?◌, Outcome, ok, Exec, pure, throw, lift, value_error, ◌>>=◌}
use claude_agent_api.Json.{Json, Dict, null, str, get}
use claude_agent_api.Interfaces.{Cache}
use claude_agent_api.Runtime.{Runtime, to_str}

-- str(raw.get(k, default))
unfoldable pub text_field : Runtime → String → String → Dict → String
unfolding to_str
text_field rt k default d = to_str rt (get_or (get k d) (str default))

-- raw.get(k)
abbrev pub raw_at : String → Dict → Json
raw_at k d = get_or (get k d) null

-- The cache, the key of the set, the keys of the records and the way to read one.
pub record Shelf (W R : Type 0) : Type 0 where
  pub cache : Cache W
  pub index_key : String
  pub key : String → String
  pub parse : String → Dict → Outcome R

module _ {W R : Type 0} (shelf : Shelf W R) where
  -- The loop of a listing over the ids and what the cache has for them.
  unfoldable pub collect : List String → List (Option Dict) → Exec W (List R)
  collect [] [] = pure []
  collect (id ∷ ids) (none ∷ raws) = do
    _ ← shelf.cache.remove_from_set shelf.index_key id
    collect ids raws
  collect (id ∷ ids) (some d ∷ raws) = do
    r ← lift (shelf.parse id d)
    rest ← collect ids raws
    pure (r ∷ rest)
  collect ids raws = throw value_error

  unfoldable pub found_all : List String → Exec W (List R)
  found_all [] = pure []
  found_all (id ∷ ids) = do
    raws ← shelf.cache.get_many_json (map shelf.key (id ∷ ids))
    collect (id ∷ ids) raws

  unfoldable pub list_all : Exec W (List R)
  unfolding found_all
  list_all = do ids ← shelf.cache.set_members shelf.index_key; found_all ids

  unfoldable pub parsed_or_none : String → Option Dict → Outcome (Option R)
  parsed_or_none id none = ok none
  parsed_or_none id (some d) = shelf.parse id d >>=? λ r. ok (some r)

  unfoldable pub get_one : String → Exec W (Option R)
  unfolding parsed_or_none
  get_one id = do raw ← shelf.cache.get_json (shelf.key id); lift (parsed_or_none id raw)

  unfoldable pub put_record : String → Dict → Exec W (Unit {0})
  put_record id d = do _ ← shelf.cache.set_json (shelf.key id) d none; pure tt

  unfoldable pub add_record : String → Dict → Exec W (Unit {0})
  add_record id d = do put_record id d; _ ← shelf.cache.add_to_set shelf.index_key id; pure tt

  unfoldable pub remove_record : String → Exec W Bool
  remove_record id = do
    _ ← shelf.cache.remove_from_set shelf.index_key id
    shelf.cache.delete (shelf.key id)

-- ===== src/Sessions/CacheManager.antt =====
-- apps/api/services/session_cache_manager.py: the cache-aside access to sessions. Logging is left
-- out.
pub mod RoundTrip
pub mod Aside
use Prim.Native.String.{◌++◌}
use mathlib.Core.Option.{get_or}
use claude_agent_api.Common.{
  ℕ, String, Bool, false, not, Option, none, some, List, [], ◌∷◌, map, select,
}
use claude_agent_api.Common.Int.{ℤ, pos, int_of_bool}
use claude_agent_api.Json.{
  Json, Dict, null, bool, int, float, str, obj, end, field, get, opt_str, opt_float, opt_obj,
}
use claude_agent_api.Exec.{
  Outcome, ok, raise, key_error, value_error, type_error, Exec, pure, lift, catch, ◌>>=◌, ◌>>◌,
  ◌>>=?◌,
}
use claude_agent_api.Runtime.{Runtime, to_str}
use claude_agent_api.Interfaces.{Cache}
use claude_agent_api.Sessions.Model.{Session, status_text, parse_session_status, truthy}
use text.Mathlib.Text.{starts_with}

pub record SessionCacheManager (W : Type 0) : Type 0 where
  pub cache : Option (Cache W)
  pub ttl : ℕ

abbrev pub cache_key : String → String
cache_key session_id = "session:" ++ session_id

abbrev pub owner_index_key : String → String
owner_index_key owner_api_key_hash = "session:owner:" ++ owner_api_key_hash

-- The payload that `cache_session` writes.
unfoldable pub session_payload : Runtime → Session → Dict
unfolding status_text
session_payload rt s = field "id" (str s.id) (
    field "model" (str s.model) (
      field "status" (str (status_text s.status)) (
        field "created_at" (str (rt.isoformat s.created_at)) (
          field "updated_at" (str (rt.isoformat s.updated_at)) (
            field "total_turns" (int s.total_turns) (
              field "total_cost_usd" (opt_float s.total_cost_usd) (
                field "parent_session_id" (opt_str s.parent_session_id) (
                  field "owner_api_key_hash" (opt_str s.owner_api_key_hash)
                    (field "session_metadata" (opt_obj s.session_metadata) end)))))))))

-- `str(raw) if raw is not None else ""`, with a missing key as None
text_or_empty : Runtime → Option Json → String
text_or_empty rt none = ""
text_or_empty rt (some null) = ""
text_or_empty rt (some v) = to_str rt v

-- `str(raw) if raw is not None else None`
optional_text : Runtime → Option Json → Option String
optional_text rt none = none
optional_text rt (some null) = none
optional_text rt (some v) = some (to_str rt v)

-- str(parsed[k])
required_text : Runtime → Option Json → Outcome String
required_text rt none = raise key_error
required_text rt (some v) = ok (to_str rt v)

-- `bool` is a subclass of `int`
parse_turns : Runtime → Option Json → Outcome ℤ
parse_turns rt none = ok (pos 0)
parse_turns rt (some (int n)) = ok n
parse_turns rt (some (bool b)) = ok (int_of_bool b)
parse_turns rt (some (str s)) = rt.int_of_str s
parse_turns rt (some (float x)) = rt.int_of_float x
parse_turns rt (some v) = ok (pos 0)

to_float : Runtime → Option Json → Outcome (Option ℕ)
to_float rt (some (int n)) = rt.float_of_int n >>=? λ x. ok (some x)
to_float rt (some (bool b)) = rt.float_of_int (int_of_bool b) >>=? λ x. ok (some x)
to_float rt (some (float x)) = ok (some x)
to_float rt (some (str s)) = rt.float_of_str s >>=? λ x. ok (some x)
to_float rt v = ok none

metadata_of : Option Json → Option Dict
metadata_of (some (obj d)) = some d
metadata_of v = none

-- The body of the `try` block of `parse_cached_session`.
parse_payload : Runtime → Dict → Outcome Session
unfolding text_or_empty optional_text required_text parse_turns to_float metadata_of get to_str
parse_payload rt parsed =
    rt.fromisoformat (text_or_empty rt (get "created_at" parsed)) >>=? λ created_dt.
    rt.fromisoformat (text_or_empty rt (get "updated_at" parsed)) >>=? λ updated_dt.
    parse_turns rt (get "total_turns" parsed) >>=? λ total_turns.
    to_float rt (get "total_cost_usd" parsed) >>=? λ total_cost.
    required_text rt (get "id" parsed) >>=? λ id.
    required_text rt (get "model" parsed) >>=? λ model. ok (record {
      id = id;
      model = model;
      status = parse_session_status rt (to_str rt (get_or (get "status" parsed) (str "active")));
      created_at = created_dt;
      updated_at = updated_dt;
      total_turns = total_turns;
      total_cost_usd = total_cost;
      parent_session_id = optional_text rt (get "parent_session_id" parsed);
      owner_api_key_hash = optional_text rt (get "owner_api_key_hash" parsed);
      session_metadata = metadata_of (get "session_metadata" parsed);
    })

-- except (KeyError, ValueError, TypeError): return None
unfoldable pub none_on_bad_data {ℓ} : {A : Type ℓ} → Outcome A → Outcome (Option A)
none_on_bad_data (ok a) = ok (some a)
none_on_bad_data (raise key_error) = ok none
none_on_bad_data (raise value_error) = ok none
none_on_bad_data (raise type_error) = ok none
none_on_bad_data (raise e) = raise e

unfoldable pub parse_cached_session : Runtime → Dict → Outcome (Option Session)
unfolding parse_payload none_on_bad_data
parse_cached_session rt parsed = none_on_bad_data (parse_payload rt parsed)

-- The rows of a bulk read that hold a session.
pub parse_rows : Runtime → List (Option Dict) → Outcome (List Session)
parse_rows rt [] = ok []
parse_rows rt (none ∷ rows) = parse_rows rt rows
parse_rows rt (some end ∷ rows) = parse_rows rt rows
parse_rows rt (some (field k v d) ∷ rows) = parse_cached_session rt (field k v d) >>=? λ session.
    parse_rows rt rows >>=? λ sessions.
    ok (elim session [ none ↦ sessions | some s ↦ s ∷ sessions ])

module _ {W : Type 0} where
  index_owner : Cache W → ℕ → Session → Option String → Exec W (Unit {0})
  index_owner c ttl s none = pure tt
  index_owner c ttl s (some owner) = do
    _ ← c.add_to_set (owner_index_key owner) s.id
    _ ← c.expire (owner_index_key owner) ttl
    pure tt

  unfoldable pub cache_session : Runtime → SessionCacheManager W → Session → Exec W (Unit {0})
  unfolding index_owner
  cache_session rt m s = elim m.cache [
    | none ↦ pure tt
    | some c ↦ do
      _ ← c.set_json (cache_key s.id) (session_payload rt s) (some m.ttl)
      index_owner c m.ttl s (truthy s.owner_api_key_hash)
  ]

  -- A payload that cannot be parsed is deleted, if the cache lets it.
  keep_or_delete : Cache W → String → Option Session → Exec W (Option Session)
  keep_or_delete c key (some s) = pure (some s)
  keep_or_delete c key none = do _ ← catch (c.delete key) (λ _. pure false); pure none

  read_payload : Runtime → Cache W → String → Option Dict → Exec W (Option Session)
  unfolding keep_or_delete
  read_payload rt c key none = pure none
  read_payload rt c key (some end) = pure none
  read_payload rt c key (some (field k v d)) = do
    session ← lift (parse_cached_session rt (field k v d))
    keep_or_delete c key session

  unfoldable pub get_cached_session :
      Runtime → SessionCacheManager W → String → Exec W (Option Session)
  unfolding read_payload
  get_cached_session rt m session_id = elim m.cache [
    | none ↦ pure none
    | some c ↦ do
      parsed ← c.get_json (cache_key session_id)
      read_payload rt c (cache_key session_id) parsed
  ]

  unfoldable pub list_sessions_for_owner :
      Runtime → SessionCacheManager W → String → Exec W (List Session)
  list_sessions_for_owner rt m owner_api_key_hash = elim m.cache [
    | none ↦ pure []
    | some c ↦ do
      session_ids ← c.set_members (owner_index_key owner_api_key_hash)
      cached_rows ← c.get_many_json (map cache_key session_ids)
      lift (parse_rows rt cached_rows)
  ]

  unfoldable pub list_all_sessions : Runtime → SessionCacheManager W → ℕ → Exec W (List Session)
  list_all_sessions rt m max_keys = elim m.cache [
    | none ↦ pure []
    | some c ↦ do
      all_keys ← c.scan_keys "session:*" max_keys
      cached_rows ← c.get_many_json (select (λ k. not (starts_with k "session:owner:")) all_keys)
      lift (parse_rows rt cached_rows)
  ]

  remove_owner : Cache W → String → Option String → Exec W (Unit {0})
  remove_owner c session_id none = pure tt
  remove_owner c session_id (some owner) = do
    _ ← c.remove_from_set (owner_index_key owner) session_id
    pure tt

  unfoldable pub delete_cached : SessionCacheManager W → String → Option String → Exec W Bool
  unfolding remove_owner
  delete_cached m session_id owner_api_key_hash = elim m.cache [
    | none ↦ pure false
    | some c ↦ do
      remove_owner c session_id (truthy owner_api_key_hash)
      c.delete (cache_key session_id)
  ]

  unfoldable pub session_exists : SessionCacheManager W → String → Exec W Bool
  session_exists m session_id = elim m.cache [
    | none ↦ pure false
    | some c ↦ c.exists (cache_key session_id)
  ]

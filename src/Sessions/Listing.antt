-- ===== src/Sessions/Listing.antt =====
-- apps/api/services/session.py: `list_sessions` and `_matches_metadata_filters`. The page is
-- counted from 1.
pub mod Paging
use mathlib.Core.Option.{get_or}
use text.Mathlib.Text.{find?}
use claude_agent_api.Common.{
  ℕ, zero, suc, ◌*◌, String, Bool, true, false, ◌&&◌, ◌||◌, Option, none, some, List, [], ◌∷◌, map,
  ◌==◌, length, take, drop, select, leb,
}
use claude_agent_api.Common.Int.{sub_ℕ}
use claude_agent_api.Common.Sorting.{sort}
use claude_agent_api.Json.{Json, Items, nil, cons, str, arr, end, get}
use claude_agent_api.Exec.{Exec, pure, ◌>>=◌}
use claude_agent_api.Runtime.{Runtime}
use claude_agent_api.Interfaces.{Filters, SessionRepository}
use claude_agent_api.Sessions.Model.{Session, SessionListResult, hash_api_key}
use claude_agent_api.Sessions.CacheManager.{list_sessions_for_owner, list_all_sessions}
use claude_agent_api.Sessions.Service.{SessionService, cache_manager, map_db_to_service}

-- metadata.get(k) == wanted
unfoldable pub is_text : Option Json → String → Bool
is_text (some (str s)) wanted = s == wanted
is_text v wanted = false

contains : List String → String → Bool
contains [] t = false
contains (s ∷ ss) t = s == t || contains ss t

-- The texts of a list that holds nothing else.
texts : Items → Option (List String)
texts nil = some []
texts (cons (str s) xs) = elim (texts xs) [ none ↦ none | some ss ↦ some (s ∷ ss) ]
texts (cons v xs) = none

metadata_tags : Option Json → List String
unfolding texts
metadata_tags (some (arr xs)) = get_or (texts xs) []
metadata_tags v = []

-- set(tags).issubset(set(present))
is_subset : List String → List String → Bool
unfolding contains
is_subset [] present = true
is_subset (t ∷ ts) present = contains present t && is_subset ts present

title_of : Option Json → String
title_of (some (str s)) = s
title_of v = ""

-- `needle in text`
is_within : String → String → Bool
is_within needle text = elim (find? text needle) [ none ↦ false | some _ ↦ true ]

-- A filter that is None passes everything; an empty list of tags and an empty search text do too.
passes_text : Option String → Option Json → Bool
unfolding is_text
passes_text none v = true
passes_text (some wanted) v = is_text v wanted

passes_tags : Option (List String) → Option Json → Bool
unfolding is_subset metadata_tags
passes_tags none v = true
passes_tags (some tags) v = is_subset tags (metadata_tags v)

passes_search : Runtime → Option String → Option Json → Bool
unfolding is_within title_of
passes_search rt none v = true
passes_search rt (some search) v =
    search == "" || is_within (rt.lower search) (rt.lower (title_of v))

unfoldable pub matches_metadata_filters : Runtime → Session → Filters → Bool
unfolding passes_text passes_tags passes_search
matches_metadata_filters rt s filters =
    let metadata = get_or s.session_metadata end in
    passes_text filters.mode (get "mode" metadata)
    && passes_text filters.project_id (get "project_id" metadata)
    && passes_tags filters.tags (get "tags" metadata)
    && passes_search rt filters.search (get "title" metadata)

-- xs[(page - 1) * size : (page - 1) * size + size]; page 0 gives xs[-size:0], which is empty
unfoldable pub page_slice {ℓ} : {A : Type ℓ} → ℕ → ℕ → List A → List A
page_slice zero size xs = []
page_slice (suc p) size xs = take size (drop (p * size) xs)

unfoldable pub newest_first : Session → Session → Bool
newest_first a b = leb b.created_at a.created_at

-- The sorting, filtering and paging of the sessions that the cache gave.
unfoldable pub list_cached : Runtime → ℕ → ℕ → Filters → List Session → SessionListResult
unfolding newest_first
list_cached rt page page_size filters cached_sessions =
    let filtered =
      select (λ s. matches_metadata_filters rt s filters) (sort newest_first cached_sessions) in
    record {
      sessions = page_slice page page_size filtered;
      total = length filtered;
      page = page;
      page_size = page_size;
    }

module _ {W : Type 0} (rt : Runtime) (svc : SessionService W) where
  list_in_db : SessionRepository W → ℕ → ℕ → String → Filters → Exec W SessionListResult
  list_in_db repo page page_size current_api_key filters = do
    (rows, total) ←
        repo.list_rows current_api_key page_size (sub_ℕ (page * page_size) page_size) filters
    pure (record {
      sessions = map (map_db_to_service rt) rows;
      total = total;
      page = page;
      page_size = page_size;
    })

  -- The sessions that the cache holds, of one owner or of all.
  cached_sessions : Option String → Exec W (List Session)
  cached_sessions current_api_key = elim current_api_key [
    | some key ↦ list_sessions_for_owner rt (cache_manager svc) (hash_api_key rt key)
    | none ↦ list_all_sessions rt (cache_manager svc) 1000
  ]

  list_in_cache : ℕ → ℕ → Option String → Filters → Exec W SessionListResult
  unfolding cached_sessions
  list_in_cache page page_size current_api_key filters = do
    sessions ← cached_sessions current_api_key
    pure (list_cached rt page page_size filters sessions)

  unfoldable pub list_sessions : ℕ → ℕ → Option String → Filters → Exec W SessionListResult
  unfolding list_in_db list_in_cache
  list_sessions page page_size current_api_key filters = elim current_api_key [
    | none ↦ list_in_cache page page_size none filters
    | some key ↦ elim svc.db_repo [
      | some repo ↦ list_in_db repo page page_size key filters
      | none ↦ list_in_cache page page_size (some key) filters
    ]
  ]

-- ===== src/Witnesses/Assistants.antt =====
-- Runs of apps/api/services/assistants/assistant_service.py in the in-memory world.
use claude_agent_api.Common.Sorting.{sort}
use claude_agent_api.Payload.{str_entries, dict_list, truthy_str, is_truthy, required_str}
use claude_agent_api.Common.{Bool, String, ◌≡◌, refl, ap, true, none, some, [], ◌∷◌, arith, eq_iff}
use claude_agent_api.Exec.{pure, ok, ◌>>=?◌, ◌>>=◌}
use claude_agent_api.Json.{of_strings, strings, Json, float}
use claude_agent_api.Runtime.{Runtime, RuntimeLaws}
use claude_agent_api.Sessions.Model.{truthy, hash_api_key}
use claude_agent_api.Assistants.Model.{
  Assistant, AssistantRow, AssistantFields, AssistantRepository, assistant_payload,
  parse_cached_assistant, map_assistant_row,
}
use claude_agent_api.Assistants.Service.{
  write_to_db, AssistantService, cache_key, enforce_owner, new_assistant, cache_assistant,
  get_cached_assistant, get_from_db, found_in_db, check_owner, get_assistant, create_assistant,
  delete_assistant,
}
use claude_agent_api.Assistants.Listing.{
  passes_owner, list_result, page_of_assistants, parse_assistants, AssistantListResult,
  list_assistants,
}
use claude_agent_api.Assistants.RoundTrip.{FloatLaws, kept}
use claude_agent_api.Assistants.Ownership.{IsVisible, get_assistant-IsVisible}
use claude_agent_api.Assistants.Stored.{
  cached, both, get_assistant-create_assistant, delete_assistant-not_cached,
}
use claude_agent_api.Assistants.Paging.{IsPage, list_assistants-IsPage}
use claude_agent_api.Witnesses.World.{
  World, memory, python, strokes, count_strokes, count_strokes-strokes, empty, answer, write_doc,
}
use claude_agent_api.Witnesses.Laws.{memory-JsonLaws, memory-IndexLaws}

abbrev float_text : Json → String
float_text (float x) = strokes x
float_text v = ""

abbrev floating : Runtime
floating = record python { repr = float_text; float_of_str = λ s. ok (count_strokes s) }

floating-laws : RuntimeLaws floating
floating-laws = record {
  fromisoformat-isoformat = λ t. ap ok (count_strokes-strokes t);
  lower_active = refl;
  lower_completed = refl;
  lower_error = refl;
}

floats : FloatLaws floating
floats = record { float_of_str-repr = λ x. ap ok (count_strokes-strokes x) }

abbrev fields_1 : AssistantFields
fields_1 = record {
  name = some "helper";
  description = none;
  instructions = none;
  tools = none;
  metadata = none;
  temperature = some 0;
  top_p = some 3;
}

abbrev assistant_1 : Assistant
assistant_1 = new_assistant floating "a1" 5 "gpt-4" fields_1 (some "key")

abbrev row_1 : AssistantRow
row_1 = record {
  id = "a1";
  model = "gpt-4";
  created_at = 5;
  updated_at = 5;
  name = none;
  description = none;
  instructions = none;
  tools = [];
  metadata_ = none;
  owner_api_key_hash = some "key";
  temperature = none;
  top_p = none;
}

abbrev rows : AssistantRepository World
rows = record {
  create_assistant_row = λ id m f o. answer tt;
  get_assistant_row = λ id. answer (some row_1);
  list_assistant_rows = λ o l f d a b. answer ([], 0);
  update_assistant_row = λ id m f. answer true;
  delete_assistant_row = λ id. answer true;
}

abbrev assistants : AssistantService World
assistants = record { cache = some memory; db_repo = none; ttl = 60 }

get_assistant-create_assistant_example :
    let svc =
      cached floating assistants memory memory-JsonLaws memory-IndexLaws floating-laws floats in
    let (r, w2) = create_assistant floating svc "a1" 5 "gpt-4" fields_1 (some "key") empty in
    (r ≡ ok assistant_1)
    × (get_assistant floating svc "a1" none w2
        ≡ ((enforce_owner floating (kept assistant_1) none >>=? λ b. ok (some b)), w2))
unfolding new_assistant write_to_db pure
get_assistant-create_assistant_example =
    get_assistant-create_assistant floating assistants memory memory-JsonLaws memory-IndexLaws
      floating-laws floats "a1" 5 "gpt-4" fields_1 (some "key") none empty empty refl

abbrev with_a1 : World
with_a1 = write_doc "assistant:a1" (some (assistant_payload floating assistant_1)) empty

hidden : ¬ IsVisible floating (map_assistant_row row_1) (some "other")
unfolding map_assistant_row truthy hash_api_key
hidden h = ground (arith, (eq_iff "key" "other").1 h)

delete_assistant-not_cached_example :
    delete_assistant floating
      (both floating assistants memory rows memory-JsonLaws)
      "a1"
      (some "other")
      empty
    ≡ (ok true, (memory.delete (cache_key "a1") empty).1)
delete_assistant-not_cached_example =
    delete_assistant-not_cached floating assistants memory rows memory-JsonLaws "a1" row_1
      (some "other") empty empty refl refl hidden refl

get_assistant-IsVisible_example : IsVisible floating (map_assistant_row row_1) (some "key")
unfolding get_assistant ◌>>=◌ get_cached_assistant get_from_db found_in_db enforce_owner check_owner
    truthy map_assistant_row hash_api_key cache_assistant
get_assistant-IsVisible_example =
    get_assistant-IsVisible floating (record { cache = none; db_repo = some rows; ttl = 60 }) "a1"
      (some "key") empty empty (map_assistant_row row_1) refl

abbrev listing : AssistantService World
listing = record {
  cache = some (record memory { scan_keys = λ p n. answer ("assistant:a1" ∷ []) });
  db_repo = none;
  ttl = 60;
}

abbrev page_1 : AssistantListResult
page_1 = record {
  data_ = kept assistant_1 ∷ [];
  first_id = some "a1";
  last_id = some "a1";
  has_more = Bool.false;
}

list_assistants-IsPage_example : IsPage 20 (some "key") page_1
unfolding list_assistants ◌>>=◌ parse_assistants assistant_payload parse_cached_assistant
    required_str is_truthy new_assistant page_of_assistants list_result sort passes_owner truthy
    truthy_str hash_api_key dict_list str_entries strings of_strings
list_assistants-IsPage_example =
    list_assistants-IsPage floating listing 20 "desc" none none (some "key") with_a1 with_a1 page_1
      refl refl

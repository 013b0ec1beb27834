-- ===== src/Runs/Model.antt =====
-- apps/api/services/assistants/run_service.py: the data of a run, and its payload in the cache.
-- The dicts that a run carries (tools, required action, error, usage) are kept as dicts.
pub mod RoundTrip
use mathlib.Core.Option.{get_or}
use claude_agent_api.Common.{
  ℕ, String, Bool, Option, none, some, List, [], map, ◌==◌, if◌then◌else◌,
}
use claude_agent_api.Common.Int.{ℤ}
use claude_agent_api.Exec.{Outcome, ok, ◌>>=?◌}
use claude_agent_api.Json.{
  Json, Dict, int, str, arr, obj, end, field, get, items_of, of_strings, opt_str, opt_int,
  truthy_obj,
}
use claude_agent_api.Payload.{
  required_str, int_or_zero, timestamp, truthy_str, dict_or_none, str_entries, dict_list,
}
use claude_agent_api.Runtime.{Runtime, to_str}
use claude_agent_api.Sessions.CacheManager.{none_on_bad_data}

pub data RunStatus : Type 0 where
  queued in_progress requires_action cancelling cancelled failed completed expired : RunStatus

unfoldable pub status_text : RunStatus → String
status_text queued = "queued"
status_text in_progress = "in_progress"
status_text requires_action = "requires_action"
status_text cancelling = "cancelling"
status_text cancelled = "cancelled"
status_text failed = "failed"
status_text completed = "completed"
status_text expired = "expired"

-- An unknown status is read as "queued".
unfoldable pub parse_status : String → RunStatus
parse_status s =
    if s == "in_progress"
    then in_progress
    else if s == "requires_action"
    then requires_action
    else if s == "cancelling"
    then cancelling
    else if s == "cancelled"
    then cancelled
    else if s == "failed"
    then failed
    else if s == "completed"
    then completed
    else if s == "expired"
    then expired
    else queued

pub record Run : Type 0 where
  pub id : String
  pub thread_id : String
  pub assistant_id : String
  pub created_at : ℤ
  pub status : RunStatus
  pub model : String
  pub instructions : Option String
  pub tools : List Dict
  pub metadata : List (String × String)
  pub required_action : Option Dict
  pub last_error : Option Dict
  pub usage : Option Dict
  pub started_at : Option ℤ
  pub expires_at : Option ℤ
  pub cancelled_at : Option ℤ
  pub failed_at : Option ℤ
  pub completed_at : Option ℤ

-- The payload that `_cache_run` writes.
unfoldable pub run_payload : Run → Dict
unfolding status_text
run_payload r = field "id" (str r.id) (
    field "thread_id" (str r.thread_id) (
      field "assistant_id" (str r.assistant_id) (
        field "created_at" (int r.created_at) (
          field "status" (str (status_text r.status)) (
            field "model" (str r.model) (
              field "instructions" (opt_str r.instructions) (
                field "tools" (arr (items_of (map obj r.tools))) (
                  field "metadata" (obj (of_strings r.metadata)) (
                    field "required_action" (truthy_obj r.required_action) (
                      field "last_error" (truthy_obj r.last_error) (
                        field "usage" (truthy_obj r.usage) (
                          field "started_at" (opt_int r.started_at) (
                            field "expires_at" (opt_int r.expires_at) (
                              field "cancelled_at" (opt_int r.cancelled_at) (
                                field "failed_at" (opt_int r.failed_at)
                                  (field "completed_at" (opt_int r.completed_at) end))))))))))))))))

-- The body of the `try` block of `_parse_cached_run`.
parse_payload : Runtime → Dict → Outcome Run
unfolding get required_str int_or_zero timestamp truthy_str dict_or_none str_entries dict_list
    to_str
parse_payload rt d = required_str rt (get "id" d) >>=? λ id.
    required_str rt (get "thread_id" d) >>=? λ thread_id.
    required_str rt (get "assistant_id" d) >>=? λ assistant_id.
    int_or_zero rt (get "created_at" d) >>=? λ created_at.
    timestamp rt (get "started_at" d) >>=? λ started_at.
    timestamp rt (get "expires_at" d) >>=? λ expires_at.
    timestamp rt (get "cancelled_at" d) >>=? λ cancelled_at.
    timestamp rt (get "failed_at" d) >>=? λ failed_at.
    timestamp rt (get "completed_at" d) >>=? λ completed_at. ok (record {
      id = id;
      thread_id = thread_id;
      assistant_id = assistant_id;
      created_at = created_at;
      status = parse_status (to_str rt (get_or (get "status" d) (str "queued")));
      model = to_str rt (get_or (get "model" d) (str ""));
      instructions = truthy_str rt (get "instructions" d);
      tools = dict_list (get "tools" d);
      metadata = str_entries (get "metadata" d);
      required_action = dict_or_none (get "required_action" d);
      last_error = dict_or_none (get "last_error" d);
      usage = dict_or_none (get "usage" d);
      started_at = started_at;
      expires_at = expires_at;
      cancelled_at = cancelled_at;
      failed_at = failed_at;
      completed_at = completed_at;
    })

unfoldable pub parse_cached_run : Runtime → Dict → Outcome (Option Run)
unfolding parse_payload none_on_bad_data
parse_cached_run rt d = none_on_bad_data (parse_payload rt d)

-- ===== src/Runs/Service.antt =====
-- apps/api/services/assistants/run_service.py: `RunService`. Logging is left out. The id that
-- `generate_run_id` draws and the time, in seconds, are arguments.
use Prim.Native.String.{◌++◌}
use mathlib.Core.Option.{get_or}
use claude_agent_api.Common.{ℕ, String, Option, none, some, List, [], map}
use claude_agent_api.Common.Int.{ℤ}
use claude_agent_api.Json.{Dict, str, arr, obj, end, field, items_of}
use claude_agent_api.Exec.{Exec, pure, lift, ◌>>=◌, ◌>>◌}
use claude_agent_api.Runtime.{Runtime}
use claude_agent_api.Interfaces.{Cache, RunRepository}
use claude_agent_api.Runs.Model.{
  Run, queued, in_progress, requires_action, cancelled, failed, completed, status_text, run_payload,
  parse_cached_run,
}

pub record RunService (W : Type 0) : Type 0 where
  pub cache : Option (Cache W)
  pub db_repo : Option (RunRepository W)
  pub ttl : ℕ

abbrev pub cache_key : String → String → String
cache_key thread_id run_id = "run:" ++ (thread_id ++ (":" ++ run_id))

-- `dict(d) if d else None`
unfoldable pub kept : Option Dict → Option Dict
kept none = none
kept (some end) = none
kept (some (field k v d)) = some (field k v d)

-- What each operation makes of a run; `none` where its guard on the status refuses.
unfoldable pub started : ℤ → Run → Option Run
started now r = elim r.status [
  | queued ↦ some (record r { status = in_progress; started_at = some now })
  | _ ↦ none
]

unfoldable pub finished : ℤ → Option Dict → Run → Option Run
finished now usage r = some (record r {
  status = completed;
  completed_at = some now;
  usage = elim (kept usage) [ none ↦ r.usage | some u ↦ some u ];
})

unfoldable pub broken : ℤ → Dict → Run → Option Run
broken now error r =
    some (record r { status = failed; failed_at = some now; last_error = some error })

unfoldable pub aborted : ℤ → Run → Option Run
aborted now r = elim r.status [
  | queued ↦ some (record r { status = cancelled; cancelled_at = some now })
  | in_progress ↦ some (record r { status = cancelled; cancelled_at = some now })
  | requires_action ↦ some (record r { status = cancelled; cancelled_at = some now })
  | _ ↦ none
]

unfoldable pub waiting : List Dict → Run → Option Run
waiting tool_calls r = some (record r {
  status = requires_action;
  required_action = some (
      field "type" (str "submit_tool_outputs") (
        field "submit_tool_outputs"
          (obj (field "tool_calls" (arr (items_of (map obj tool_calls))) end)) end));
})

unfoldable pub resumed : Run → Option Run
resumed r = elim r.status [
  | requires_action ↦ some (record r { status = in_progress; required_action = none })
  | _ ↦ none
]

-- The run that `create_run` makes.
unfoldable pub new_run :
    String
    → ℤ
    → String
    → String
    → String
    → Option String
    → Option (List Dict)
    → Option (List (String × String))
    → Run
new_run run_id now thread_id assistant_id model instructions tools metadata = record {
  id = run_id;
  thread_id = thread_id;
  assistant_id = assistant_id;
  created_at = now;
  status = queued;
  model = model;
  instructions = instructions;
  tools = get_or tools [];
  metadata = get_or metadata [];
  required_action = none;
  last_error = none;
  usage = none;
  started_at = none;
  expires_at = none;
  cancelled_at = none;
  failed_at = none;
  completed_at = none;
}

module _ {W : Type 0} (rt : Runtime) (svc : RunService W) where
  unfoldable pub cache_run : Run → Exec W (Unit {0})
  cache_run r = elim svc.cache [
    | none ↦ pure tt
    | some c ↦ do
      _ ← c.set_json (cache_key r.thread_id r.id) (run_payload r) (some svc.ttl)
      pure tt
  ]

  unfoldable pub update_db : Run → Exec W (Unit {0})
  update_db r = elim svc.db_repo [
    | none ↦ pure tt
    | some repo ↦ do
      _ ←
          repo.update_run_row r.id (some (status_text r.status)) (kept r.required_action)
            (kept r.last_error) (kept r.usage)
      pure tt
  ]

  -- `_update_run`
  unfoldable pub update_run : Run → Exec W (Unit {0})
  update_run r = do cache_run r; update_db r

  create_in_db : Run → Exec W (Unit {0})
  create_in_db r = elim svc.db_repo [
    | none ↦ pure tt
    | some repo ↦
        repo.create_run_row r.id r.thread_id r.assistant_id "queued" r.model r.instructions r.tools
          r.metadata
  ]

  unfoldable pub create_run :
      String
      → ℤ
      → String
      → String
      → String
      → Option String
      → Option (List Dict)
      → Option (List (String × String))
      → Exec W Run
  unfolding create_in_db
  create_run run_id now thread_id assistant_id model instructions tools metadata = do
    let r = new_run run_id now thread_id assistant_id model instructions tools metadata
    create_in_db r
    cache_run r
    pure r

  unfoldable pub read_run : Option Dict → Exec W (Option Run)
  read_run none = pure none
  read_run (some end) = pure none
  read_run (some (field k v d)) = lift (parse_cached_run rt (field k v d))

  unfoldable pub get_run : String → String → Exec W (Option Run)
  get_run thread_id run_id = elim svc.cache [
    | none ↦ pure none
    | some c ↦ do parsed ← c.get_json (cache_key thread_id run_id); read_run parsed
  ]

  -- A run that the guard refuses is returned as it is, and nothing is written.
  unfoldable pub write_change : Run → Option Run → Exec W (Option Run)
  write_change r none = pure (some r)
  write_change r (some changed) = do update_run changed; pure (some changed)

  unfoldable pub change_found : (Run → Option Run) → Option Run → Exec W (Option Run)
  change_found change none = pure none
  change_found change (some r) = write_change r (change r)

  -- What all the operations on a run share: read it, and write what becomes of it.
  unfoldable pub change_run : String → String → (Run → Option Run) → Exec W (Option Run)
  unfolding change_found write_change
  change_run thread_id run_id change = do
    found ← get_run thread_id run_id
    change_found change found

  unfoldable pub start_run : ℤ → String → String → Exec W (Option Run)
  start_run now thread_id run_id = change_run thread_id run_id (started now)

  unfoldable pub complete_run : ℤ → String → String → Option Dict → Exec W (Option Run)
  complete_run now thread_id run_id usage = change_run thread_id run_id (finished now usage)

  unfoldable pub fail_run : ℤ → String → String → Dict → Exec W (Option Run)
  fail_run now thread_id run_id error = change_run thread_id run_id (broken now error)

  unfoldable pub cancel_run : ℤ → String → String → Exec W (Option Run)
  cancel_run now thread_id run_id = change_run thread_id run_id (aborted now)

  unfoldable pub require_action : String → String → List Dict → Exec W (Option Run)
  require_action thread_id run_id tool_calls = change_run thread_id run_id (waiting tool_calls)

  unfoldable pub submit_tool_outputs : String → String → Exec W (Option Run)
  submit_tool_outputs thread_id run_id = change_run thread_id run_id resumed

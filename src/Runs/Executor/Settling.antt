-- ===== src/Runs/Executor/Settling.antt =====
-- What the SDK's answer does to the run, when the other services leave the run alone.
use claude_agent_api.Common.{
  sym, ◌∙◌, String, ◌≡◌, refl, Bool, Option, none, some, List, [], ◌∷◌, map, arith,
}
use claude_agent_api.Common.Int.{ℤ}
use claude_agent_api.Exec.{Outcome, ok, raise, ◌>>=◌}
use claude_agent_api.Json.{Dict, end, field}
use claude_agent_api.Interfaces.{Cache}
use claude_agent_api.Messages.{assistant}
use claude_agent_api.Runtime.{Runtime}
use claude_agent_api.Stores.{JsonLaws}
use claude_agent_api.Runs.Model.{Run, RunStatus, requires_action, failed, completed}
use claude_agent_api.Runs.Model.RoundTrip.{IsKept}
use claude_agent_api.Runs.Service.{
  RunService, cache_key, get_run, change_run, finished, broken, waiting, kept, complete_run,
  require_action,
}
use claude_agent_api.Runs.Stored.{QuietRepo, over, Holds, change_run-changed}
use claude_agent_api.Runs.Executor.{
  ExecutionResult, Services, extract_tool_call, usage_of, execution_error, settle, say,
}

-- The status that the SDK's answer leads to.
abbrev pub end_status : Outcome ExecutionResult → RunStatus
end_status (raise e) = failed
end_status (ok result) = elim result.tool_calls [ [] ↦ completed | _ ∷ _ ↦ requires_action ]

-- What the caller gets.
abbrev pub reply : Outcome ExecutionResult → Option ExecutionResult
reply (raise e) = none
reply (ok result) = some result

-- The assistant exists, the SDK gives this answer, a message can be written, and none of them
-- changes the entry of the cache under the key.
pub record Answering {W : Type 0} (json_at : W → String → Option Dict) (services : Services W)
    (answer : Outcome ExecutionResult) (key : String) : Type 0 where
  pub found : (id : String) (w : W) → (services.get_assistant id w).0 ≡ ok (some id)
  pub found-json :
      (id : String) (w : W) → json_at (services.get_assistant id w).1 key ≡ json_at w key
  pub answered :
      (thread_id : String) (run : Run) (id : String) (outputs : Option (List Dict)) (w : W)
      → (services.execute_with_sdk thread_id run id outputs w).0 ≡ answer
  pub answered-json :
      (thread_id : String) (run : Run) (id : String) (outputs : Option (List Dict)) (w : W)
      → json_at (services.execute_with_sdk thread_id run id outputs w).1 key ≡ json_at w key
  pub said :
      (thread_id text id run_id : String) (w : W)
      → (services.create_message thread_id assistant text id run_id w).0 ≡ ok tt
  pub said-json :
      (thread_id text id run_id : String) (w : W)
      → json_at (services.create_message thread_id assistant text id run_id w).1 key ≡ json_at w key

module _ {W : Type 0} (rt : Runtime) (svc : RunService W) (c : Cache W)
    {json_at : W → String → Option Dict} {has_key : W → String → Bool}
    (laws : JsonLaws c json_at svc.ttl has_key) (quiet : QuietRepo json_at svc.db_repo)
    (services : Services W) where
  abbrev pub runs : RunService W
  runs = over rt svc c laws

  -- The cache has a run in the status.
  abbrev pub EndsIn : String → String → W → RunStatus → Type 0
  EndsIn thread_id run_id w s =
      (r : Run) × (get_run rt runs thread_id run_id w ≡ (ok (some r), w)) × (r.status ≡ s)

  -- A change that passes and leads to the status.
  abbrev pub Leads : (Run → Option Run) → Run → RunStatus → Type 0
  Leads change r s =
      (r' : Run) × (change r ≡ some r')
      × IsKept r'
      × (r'.status ≡ s)
      × (r'.thread_id ≡ r.thread_id)
      × (r'.id ≡ r.id)

  finished-Leads :
      (now : ℤ) (usage : Option Dict) (r : Run)
      → IsKept r
      → Leads (finished now (usage_of usage)) r completed
  unfolding finished usage_of kept
  finished-Leads now none r h = (
    _,
    refl,
    record {
      instructions = h.instructions;
      required_action = h.required_action;
      last_error = h.last_error;
      usage = h.usage;
    },
    refl,
    refl,
    refl,
  )
  finished-Leads now (some end) r h = (
    _,
    refl,
    record {
      instructions = h.instructions;
      required_action = h.required_action;
      last_error = h.last_error;
      usage = h.usage;
    },
    refl,
    refl,
    refl,
  )
  finished-Leads now (some (field k v d)) r h = (
    _,
    refl,
    record {
      instructions = h.instructions;
      required_action = h.required_action;
      last_error = h.last_error;
      usage = tt;
    },
    refl,
    refl,
    refl,
  )

  pub broken-Leads :
      (now : ℤ) (text : String) (r : Run)
      → IsKept r
      → Leads (broken now (execution_error text)) r failed
  unfolding broken execution_error
  broken-Leads now text r h = (
    _,
    refl,
    record {
      instructions = h.instructions;
      required_action = h.required_action;
      last_error = tt;
      usage = h.usage;
    },
    refl,
    refl,
    refl,
  )

  waiting-Leads : (calls : List Dict) (r : Run) → IsKept r → Leads (waiting calls) r requires_action
  unfolding waiting
  waiting-Leads calls r h = (
    _,
    refl,
    record {
      instructions = h.instructions;
      required_action = tt;
      last_error = h.last_error;
      usage = h.usage;
    },
    refl,
    refl,
    refl,
  )

  pub change_run-Leads :
      (change : Run → Option Run) (r : Run) (s : RunStatus) (w : W)
      → Leads change r s
      → IsKept r
      → Holds rt svc c laws w r
      → let (o, w') = change_run rt runs r.thread_id r.id change w in
        ((r' : Run) × (o ≡ ok (some r'))) × EndsIn r.thread_id r.id w' s
  change_run-Leads change r s w (r', passed, kept', ends, thread, id) h holds =
      let (changed, read) =
        change_run-changed rt svc c laws quiet change r r' w h kept' holds passed in
      let w' = (change_run rt runs r.thread_id r.id change w).1 in
      ((r', changed), (r', rw (sym thread, sym id) refl ∙ read, ends))

  say_lem :
      (text : Option String) (answer : Outcome ExecutionResult) (id : String) (r : Run) (w : W)
      → Answering json_at services answer (cache_key r.thread_id r.id)
      → Holds rt svc c laws w r
      → let (o, w') = say rt runs services r.thread_id r.id id text w in
        (o ≡ ok tt) × Holds rt svc c laws w' r
  unfolding say ◌>>=◌
  say_lem none answer id r w answering holds = (refl, holds)
  say_lem (some text) answer id r w answering holds = ground (
    arith,
    answering.said r.thread_id text id r.id w,
    answering.said-json r.thread_id text id r.id w,
    holds,
  )

  pub settle_lem :
      (result : ExecutionResult) (calls : List Dict) (id : String) (r : Run) (w : W)
      → IsKept r
      → Answering json_at services (ok result) (cache_key r.thread_id r.id)
      → Holds rt svc c laws w r
      → let (o, w') = settle rt runs services r.thread_id r.id id result calls w in
        (o ≡ ok tt)
        × EndsIn r.thread_id r.id w' (elim calls [ [] ↦ completed | _ ∷ _ ↦ requires_action ])
  unfolding settle complete_run require_action ◌>>=◌
  settle_lem result [] id r w h answering holds =
      let (said, holds') = say_lem result.response_text (ok result) id r w answering holds in
      let u = (say rt runs services r.thread_id r.id id result.response_text w).1 in
      let ((r', changed), read) =
        change_run-Leads (finished (services.now u) (usage_of result.usage)) r completed u
          (finished-Leads (services.now u) result.usage r h) h holds' in
      rw (said, changed) (refl, read)
  settle_lem result (call ∷ calls) id r w h answering holds =
      let ((r', changed), read) =
        change_run-Leads (waiting (map (extract_tool_call rt) (call ∷ calls))) r requires_action w
          (waiting-Leads (map (extract_tool_call rt) (call ∷ calls)) r h) h holds in
      rw (changed) (refl, read)

-- ===== src/Runs/Stored.antt =====
-- The operations on a run that the cache holds: what they return, and what a later read gives.
use claude_agent_api.Common.{◌∙◌, ℕ, String, ◌≡◌, refl, Bool, Option, none, some, arith, eq_refl}
use claude_agent_api.Exec.{ok, ◌>>=◌}
use claude_agent_api.Json.{Json, Dict, field}
use claude_agent_api.Interfaces.{Cache, RunRepository}
use claude_agent_api.Runtime.{Runtime}
use claude_agent_api.Stores.{JsonLaws}
use claude_agent_api.Runs.Model.{status_text, Run, run_payload}
use claude_agent_api.Runs.Model.RoundTrip.{IsKept, parse_cached_run-run_payload}
use claude_agent_api.Runs.Service
use claude_agent_api.Runs.Service.{
  kept, update_run, update_db, RunService, cache_key, cache_run, get_run, read_run, change_run,
}

-- A database that takes the updates of runs and leaves the cache alone, or none.
abbrev pub QuietRepo : {W : Type 0} → (W → String → Option Dict) → Option (RunRepository W) → Type 0
QuietRepo json_at none = Unit
QuietRepo {W} json_at (some repo) =
    (id : String) (status : Option String) (action error usage : Option Dict) (w : W)
    → (b : Bool) × ((repo.update_run_row id status action error usage w).0 ≡ ok b)
      × ((j : String)
          → json_at (repo.update_run_row id status action error usage w).1 j ≡ json_at w j)

run_payload-ne-end :
    (r : Run) → (k : String) × (v : Json) × (d : Dict) × (run_payload r ≡ field k v d)
unfolding run_payload
run_payload-ne-end r = (_, _, _, refl)

update_db-quiet :
    {W : Type 0} (json_at : W → String → Option Dict) (rt : Runtime) (c : Cache W) (ttl : ℕ)
    (repo : Option (RunRepository W)) (r : Run) (w : W) (j : String)
    → QuietRepo json_at repo
    → let (o, w') = update_db rt (record { cache = some c; db_repo = repo; ttl = ttl }) r w in
      (o ≡ ok tt) × (json_at w' j ≡ json_at w j)
unfolding update_db ◌>>=◌
update_db-quiet json_at rt c ttl none r w j quiet = (refl, refl)
update_db-quiet json_at rt c ttl (some repo) r w j quiet =
    let (b, returned, same) =
      quiet r.id (some (status_text r.status)) (Service.kept r.required_action)
        (Service.kept r.last_error) (Service.kept r.usage) w in
    ground (arith, returned, same j)

module _ {W : Type 0} (rt : Runtime) (svc : RunService W) (c : Cache W)
    {json_at : W → String → Option Dict} {has_key : W → String → Bool}
    (laws : JsonLaws c json_at svc.ttl has_key) where
  abbrev pub over : RunService W
  over = record svc { cache = some c }

  -- The cache holds this run, under its key.
  abbrev pub Holds : W → Run → Type 0
  Holds w r = json_at w (cache_key r.thread_id r.id) ≡ some (run_payload r)

  pub get_run_of_Holds :
      (r : Run) (w : W)
      → IsKept r
      → Holds w r
      → get_run rt over r.thread_id r.id w ≡ (ok (some r), w)
  unfolding get_run read_run ◌>>=◌
  get_run_of_Holds r w kept h = ground (
    arith,
    laws.get_json_lem (cache_key r.thread_id r.id) w,
    run_payload-ne-end r,
    parse_cached_run-run_payload rt r kept,
  )

  -- If the cache answers and holds the run, no optional text or dict of it empty, and the guard
  -- refuses, the run comes back as it is and nothing is written.
  pub change_run-refused :
      (change : Run → Option Run) (r : Run) (w : W)
      → IsKept r
      → Holds w r
      → change r ≡ none
      → change_run rt over r.thread_id r.id change w ≡ (ok (some r), w)
  unfolding change_run ◌>>=◌
  change_run-refused change r w kept h refused = rw (get_run_of_Holds r w kept h, refused) refl

  cache_run-Holds :
      (r : Run) (w : W) → ((cache_run rt over r w).0 ≡ ok tt) × Holds (cache_run rt over r w).1 r
  unfolding cache_run ◌>>=◌
  cache_run-Holds r w =
      let k = cache_key r.thread_id r.id in
      ground (
        arith,
        laws.set_json_ok k (run_payload r) w,
        laws.json-set_json k (run_payload r) w k,
        eq_refl k,
      )

  pub change_run-Holds :
      QuietRepo json_at svc.db_repo
      → (change : Run → Option Run) (r r' : Run) (w : W) → IsKept r
      → Holds w r
      → change r ≡ some r'
      → let (o, w') = change_run rt over r.thread_id r.id change w in
        (o ≡ ok (some r')) × Holds w' r'
  unfolding change_run update_run ◌>>=◌
  change_run-Holds quiet change r r' w kept h passed =
      let u = (cache_run rt over r' w).1 in
      let (cached, holds) = cache_run-Holds r' w in
      let (written, same) =
        update_db-quiet json_at rt c svc.ttl svc.db_repo r' u (cache_key r'.thread_id r'.id)
          quiet in
      rw (get_run_of_Holds r w kept h, passed, cached, written) (refl, same ∙ holds)

  -- If the cache answers and holds the run, the database takes updates and leaves the cache alone,
  -- and no optional text or dict of the run or of the changed run is empty: when the guard lets
  -- the change pass, the changed run comes back, and a later read of its id gives the changed run.
  pub change_run-changed :
      QuietRepo json_at svc.db_repo
      → (change : Run → Option Run) (r r' : Run) (w : W) → IsKept r
      → IsKept r'
      → Holds w r
      → change r ≡ some r'
      → let (o, w') = change_run rt over r.thread_id r.id change w in
        (o ≡ ok (some r')) × (get_run rt over r'.thread_id r'.id w' ≡ (ok (some r'), w'))
  change_run-changed quiet change r r' w kept kept' h passed =
      let (returned, holds) = change_run-Holds quiet change r r' w kept h passed in
      (returned, get_run_of_Holds r' _ kept' holds)

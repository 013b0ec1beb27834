-- ===== src/Witnesses/Resources.antt =====
-- Runs of apps/api/services/agents.py and projects.py.
use claude_agent_api.Json.{get}
use claude_agent_api.Agent.Handlers.{contains}
use claude_agent_api.Sessions.Model.{truthy}
use claude_agent_api.Resources.Index.{text_field, collect, put_record, add_record, list_all}
use claude_agent_api.Common.{true, String, ◌≡◌, refl, none, some, [], ◌∷◌}
use claude_agent_api.Exec.{◌>>=◌, ok}
use claude_agent_api.Resources.Agents.{
  AgentFields, new_agent, updated_agent, shared_agent, create_agent, get_agent, update_agent,
  share_agent, delete_agent,
}
use claude_agent_api.Resources.AgentLife.{as_read, agent_life}
use claude_agent_api.Resources.Projects.{
  parse_project, project_payload, project_key, is_taken, list_projects, ProjectRecord, new_project,
  create_project, get_project,
}
use claude_agent_api.Resources.Names.{create_project-once}
use claude_agent_api.Witnesses.World.{python}
use claude_agent_api.Witnesses.Store.{Store, store, empty_store, doc_at, store-ShelfLaws}

abbrev reviewer : AgentFields
reviewer = record {
  name = "reviewer";
  description = "reads";
  prompt = "Review.";
  tools = some ("Read" ∷ []);
  model = none;
}

abbrev idle : AgentFields
idle = record reviewer { tools = some [] }

agent_life_example :
    let a = new_agent "a1" "monday" reviewer in
    let b = updated_agent "tuesday" idle (as_read a) in
    let c = shared_agent "token" "url" (as_read b) in
    let (r1, w1) = create_agent python store "a1" "monday" reviewer empty_store in
    let (r2, w2) = update_agent python store "a1" "tuesday" idle w1 in
    let (r3, w3) = share_agent python store "a1" "token" "url" w2 in
    let w4 = (delete_agent python store "a1" w3).1 in
    (r1 ≡ ok a)
    × (get_agent python store "a1" w1 ≡ (ok (some (as_read a)), w1))
    × (r2 ≡ ok (some b))
    × (get_agent python store "a1" w2 ≡ (ok (some (as_read b)), w2))
    × (r3 ≡ ok (some c))
    × (get_agent python store "a1" w3 ≡ (ok (some (as_read c)), w3))
    × (get_agent python store "a1" w4 ≡ (ok none, w4))
agent_life_example =
    agent_life python store (store-ShelfLaws "agents:index") "a1" "monday" "tuesday" "token" "url"
      reviewer idle empty_store

abbrev home : ProjectRecord
home = new_project "p1" "monday" "home" "home" none

made : (create_project python store "p1" "monday" "home" none none empty_store).0 ≡ ok (some home)
unfolding create_project ◌>>=◌ list_projects list_all is_taken add_record put_record truthy
made = refl

-- Between the two creations another project is made.
abbrev in_between : Store
in_between =
    (create_project python store "p3" "monday" "away" none none
      (create_project python store "p1" "monday" "home" none none empty_store).1).1

create_project-once_example :
    let w1 = (create_project python store "p1" "monday" "home" none none empty_store).1 in
    let (r, w2) =
      create_project python store "p2" "tuesday" "other" (some "home") none in_between in
    (get_project python store "p1" w1 ≡ (ok (some home), w1))
    × (contains (w1.sets "projects:index") "p1" ≡ true)
    × (doc_at w1 (project_key "p1") ≡ some (project_payload home))
    × (r ≡ ok none)
    × ((j : String) → doc_at w2 j ≡ doc_at in_between j)
unfolding new_project truthy create_project ◌>>=◌ list_projects list_all is_taken add_record
    put_record project_payload collect parse_project text_field get
create_project-once_example =
    create_project-once python store (store-ShelfLaws "projects:index") "p1" "monday" "home" none
      none "p2" "tuesday" "other" (some "home") none home empty_store in_between made refl refl refl

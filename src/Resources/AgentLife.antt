-- ===== src/Resources/AgentLife.antt =====
-- An agent from its creation to its deletion.
use claude_agent_api.Common.{
  ◌∙◌, String, ◌≡◌, refl, Option, none, some, List, [], ◌∷◌, map, eq_refl, ap,
}
use claude_agent_api.Exec.{ok, ◌>>=◌}
use claude_agent_api.Json.{Dict, str, get, items_of}
use claude_agent_api.Payload.{payload_laws}
use claude_agent_api.Interfaces.{Cache}
use claude_agent_api.Runtime.{Runtime, to_str}
use claude_agent_api.Resources.Index.{text_field, put_record}
use claude_agent_api.Resources.Shelves.{ShelfLaws, add_record_lem, get_one_lem, remove_record_lem}
use claude_agent_api.Resources.Agents.{
  AgentRecord, AgentFields, agent_key, agent_payload, parse_agent, parse_tools, tools_value,
  texts_in, some_tools, new_agent, updated_agent, shared_agent, agents, create_agent, get_agent,
  change_agent, update_agent, share_agent, delete_agent,
}

-- What is read again of an agent: an empty list of tools is taken for none.
abbrev pub tools_read : Option (List String) → Option (List String)
tools_read none = none
tools_read (some ts) = some_tools ts

abbrev pub as_read : AgentRecord → AgentRecord
as_read a = record a { tools = tools_read a.tools }

texts_in-items_of : (ts : List String) → texts_in (items_of (map str ts)) ≡ ts
unfolding texts_in
texts_in-items_of [] = refl
texts_in-items_of (t ∷ ts) = ap (◌∷◌ t) (texts_in-items_of ts)

parse_tools-tools_value :
    (tools : Option (List String)) → parse_tools (some (tools_value tools)) ≡ tools_read tools
unfolding parse_tools tools_value
parse_tools-tools_value none = refl
parse_tools-tools_value (some ts) = rw (texts_in-items_of ts) refl

parse_agent-agent_payload :
    (rt : Runtime) (id : String) (a : AgentRecord) → parse_agent rt id (agent_payload a) ≡ as_read a
unfolding parse_agent agent_payload text_field to_str get
parse_agent-agent_payload rt id a = simp (payload_laws, parse_tools-tools_value a.tools) refl

module _ {W : Type 0} (rt : Runtime) (cache : Cache W) {json_at : W → String → Option Dict}
    {members : W → List String} (laws : ShelfLaws cache json_at "agents:index" members) where
  get_of_payload :
      (id : String) (a : AgentRecord) (w : W)
      → json_at w (agent_key id) ≡ some (agent_payload a)
      → get_agent rt cache id w ≡ (ok (some (as_read a)), w)
  unfolding get_agent
  get_of_payload id a w h =
      rw
        (
          get_one_lem cache "agents:index" laws agent_key (parse_agent rt) id w,
          h,
          parse_agent-agent_payload rt id a,
        )
        refl

  put_record_lem :
      (id : String) (a : AgentRecord) (w : W)
      → let (r, w') = put_record (agents rt cache) id (agent_payload a) w in
        (r ≡ ok tt) × (get_agent rt cache id w' ≡ (ok (some (as_read a)), w'))
  unfolding put_record ◌>>=◌
  put_record_lem id a w =
      let k = agent_key id in
      let w' = (cache.set_json k (agent_payload a) none w).1 in
      let stored : json_at w' k ≡ some (agent_payload a) =
        rw (laws.json-set_json k (agent_payload a) w k, eq_refl k) refl in
      rw (laws.set_json_ok k (agent_payload a) w) (refl, get_of_payload id a w' stored)

  change_agent_lem :
      (id : String) (h : AgentRecord → AgentRecord) (a : AgentRecord) (w : W)
      → get_agent rt cache id w ≡ (ok (some a), w)
      → let (r, w') = change_agent rt cache id h w in
        (r ≡ ok (some (h a))) × (get_agent rt cache id w' ≡ (ok (some (as_read (h a))), w'))
  unfolding change_agent ◌>>=◌
  change_agent_lem id h a w found =
      let (done, after) = put_record_lem id (h a) w in rw (found, done) (refl, after)

  create_agent_lem :
      (id created : String) (f : AgentFields) (w : W)
      → let a = new_agent id created f in
        let (r, w') = create_agent rt cache id created f w in
        (r ≡ ok a) × (get_agent rt cache id w' ≡ (ok (some (as_read a)), w'))
  unfolding create_agent ◌>>=◌
  create_agent_lem id created f w =
      let a = new_agent id created f in
      let (done, listed, json) =
        add_record_lem cache "agents:index" laws agent_key (parse_agent rt) id (agent_payload a)
          w in
      let stored = json (agent_key id) ∙ rw (eq_refl (agent_key id)) refl in
      rw (done) (refl, get_of_payload id a _ stored)

  delete_agent_lem :
      (id : String) (w : W)
      → let w' = (delete_agent rt cache id w).1 in get_agent rt cache id w' ≡ (ok none, w')
  unfolding delete_agent get_agent
  delete_agent_lem id w =
      let (done, json) =
        remove_record_lem cache "agents:index" laws agent_key (parse_agent rt) id w in
      let gone : json_at (delete_agent rt cache id w).1 (agent_key id) ≡ none =
        json (agent_key id) ∙ rw (eq_refl (agent_key id)) refl in
      rw (get_one_lem cache "agents:index" laws agent_key (parse_agent rt) id _, gone) refl

  -- An agent in a cache that answers: it is read as it was created, updated and shared, where an
  -- empty list of tools is read as no list; and after it was deleted there is none.
  pub agent_life :
      (id created updated token url : String) (f g : AgentFields) (w : W)
      → let a = new_agent id created f in
        let b = updated_agent updated g (as_read a) in
        let c = shared_agent token url (as_read b) in
        let (r1, w1) = create_agent rt cache id created f w in
        let (r2, w2) = update_agent rt cache id updated g w1 in
        let (r3, w3) = share_agent rt cache id token url w2 in
        let w4 = (delete_agent rt cache id w3).1 in
        (r1 ≡ ok a)
        × (get_agent rt cache id w1 ≡ (ok (some (as_read a)), w1))
        × (r2 ≡ ok (some b))
        × (get_agent rt cache id w2 ≡ (ok (some (as_read b)), w2))
        × (r3 ≡ ok (some c))
        × (get_agent rt cache id w3 ≡ (ok (some (as_read c)), w3))
        × (get_agent rt cache id w4 ≡ (ok none, w4))
  unfolding update_agent share_agent
  agent_life id created updated token url f g w =
      let a = new_agent id created f in
      let b = updated_agent updated g (as_read a) in
      let (made, read_a) = create_agent_lem id created f w in
      let w1 = (create_agent rt cache id created f w).1 in
      let (changed, read_b) = change_agent_lem id (updated_agent updated g) (as_read a) w1 read_a in
      let w2 = (update_agent rt cache id updated g w1).1 in
      let (shared, read_c) = change_agent_lem id (shared_agent token url) (as_read b) w2 read_b in
      (made, read_a, changed, read_b, shared, read_c, delete_agent_lem id _)

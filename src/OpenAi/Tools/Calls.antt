-- ===== src/OpenAi/Tools/Calls.antt =====
-- Which tool calls are found.
use claude_agent_api.Common.{
  ℕ, String, ◌≡◌, ◌≢◌, ◌↔◌, true, List, [], ◌∷◌, arith, Bool-cases, inl, inr,
}
use claude_agent_api.Json.{Dict}
use claude_agent_api.Runtime.{Runtime}
use claude_agent_api.OpenAi.Tools.{has_type, has_tool_calls, translate_tool_uses}

module _ (rt : Runtime) (json_dumps : Dict → String) (fresh : ℕ → String) where
  -- The test for tool calls succeeds exactly if the translation finds one.
  pub has_tool_calls_lem :
      (blocks : List Dict) (n : ℕ)
      → (has_tool_calls blocks ≡ true) ↔ (translate_tool_uses rt json_dumps fresh n blocks ≢ [])
  unfolding has_tool_calls translate_tool_uses
  has_tool_calls_lem [] n = ground arith
  has_tool_calls_lem (b ∷ bs) n = elim (Bool-cases (has_type b "tool_use")) [
    | inl e ↦ rw (has_tool_calls, translate_tool_uses, e) (ground arith)
    | inr e ↦ rw (has_tool_calls, translate_tool_uses, e) (has_tool_calls_lem bs n)
  ]

-- ===== src/Assistants/RoundTrip.antt =====
-- What the cache keeps of an assistant.
use claude_agent_api.Common.{
  ℕ, String, ◌≡◌, refl, Option, none, some, false, Bool-cases, inl, inr, arith, if◌then◌else◌,
}
use claude_agent_api.Exec.{ok}
use claude_agent_api.Json.{null, float, opt_str, opt_float}
use claude_agent_api.Payload.{payload_laws, is_truthy, truthy_str}
use claude_agent_api.Runtime.{Runtime, RuntimeLaws, to_str}
use claude_agent_api.Sessions.Model.{truthy}
use claude_agent_api.Assistants.Model.{
  Assistant, assistant_payload, parse_cached_assistant, truthy_float,
}

-- `float(str(x))` is x.
pub record FloatLaws (rt : Runtime) : Type 0 where
  pub float_of_str-repr : (x : ℕ) → rt.float_of_str (rt.repr (float x)) ≡ ok x

-- `x if x else None`
abbrev pub nonzero : Option ℕ → Option ℕ
nonzero none = none
nonzero (some x) = if is_truthy (float x) then some x else none

-- An assistant with None for its empty texts and its floats that are zero.
abbrev pub kept : Assistant → Assistant
kept a = record a {
  name = truthy a.name;
  description = truthy a.description;
  instructions = truthy a.instructions;
  owner_api_key_hash = truthy a.owner_api_key_hash;
  temperature = nonzero a.temperature;
  top_p = nonzero a.top_p;
}

truthy_str-truthy : (rt : Runtime) (o : Option String) → truthy_str rt (some (opt_str o)) ≡ truthy o
unfolding truthy_str truthy
truthy_str-truthy rt none = refl
truthy_str-truthy rt (some s) = ground arith

null-falsy : is_truthy null ≡ false
unfolding is_truthy
null-falsy = refl

truthy_float-nonzero :
    (rt : Runtime)
    → FloatLaws rt
    → (o : Option ℕ) → truthy_float rt (some (opt_float o)) ≡ ok (nonzero o)
unfolding truthy_float to_str
truthy_float-nonzero rt floats none = rw null-falsy refl
truthy_float-nonzero rt floats (some x) = elim (Bool-cases (is_truthy (float x))) [
  | inl e ↦ rw (e, floats.float_of_str-repr x) refl
  | inr e ↦ rw e refl
]

-- Parsing the payload written for an assistant gives back the assistant but for this: an empty
-- text, a temperature of zero and a top_p of zero come back as None. `fromisoformat` is taken to
-- invert `isoformat`, and `float` to invert `str`.
pub parse_cached_assistant-assistant_payload :
    (rt : Runtime)
    → RuntimeLaws rt
    → FloatLaws rt
    → (a : Assistant) → parse_cached_assistant rt (assistant_payload rt a) ≡ ok (some (kept a))
unfolding parse_cached_assistant assistant_payload
parse_cached_assistant-assistant_payload rt laws floats a =
    simp
      (
        payload_laws,
        laws.fromisoformat-isoformat a.created_at,
        laws.fromisoformat-isoformat a.updated_at,
        truthy_str-truthy rt a.name,
        truthy_str-truthy rt a.description,
        truthy_str-truthy rt a.instructions,
        truthy_str-truthy rt a.owner_api_key_hash,
        truthy_float-nonzero rt floats a.temperature,
        truthy_float-nonzero rt floats a.top_p,
      )
      refl

-- ===== src/OpenAi/ResponseTranslator/Outcomes.antt =====
-- What a response is translated to.
use mathlib.Core.Option.{get_or}
use claude_agent_api.Common.{
  join, subst, sym, eq_refl, ◌∙◌, inr, inl, Bool-cases, refl, if◌then◌else◌, ◌==◌, ◌∷◌, suc, List,
  not, select, ℕ, String, ◌≡◌, ◌≢◌, ◌↔◌, Bool, true, false, Option, none, some, [], map, arith,
}
use claude_agent_api.Common.Int.{ℤ}
use claude_agent_api.Json.{obj, field, Json, str, get-put, get, end, Dict}
use claude_agent_api.Runtime.{to_str, Runtime}
use claude_agent_api.OpenAi.Requests.{SingleQueryResponse}
use claude_agent_api.OpenAi.Tools.{
  translate_tool_uses, tool_call_of, arguments_of, has_type, ToolCall, has_tool_calls,
}
use claude_agent_api.OpenAi.Tools.Calls.{has_tool_calls_lem}
use claude_agent_api.OpenAi.ResponseTranslator.{
  ContentBlock, put_dict, put_text, tool_calls, map_stop_reason, block_dict, response_texts,
  spaced_or_none, translate_response,
}

map_stop_reason-tool_calls :
    (r : Option String) (found : Bool) → (map_stop_reason r found ≡ tool_calls) ↔ (found ≡ true)
unfolding map_stop_reason
map_stop_reason-tool_calls r true = ground arith
map_stop_reason-tool_calls none false = ground arith
map_stop_reason-tool_calls (some r) false = ground arith

-- An option's text, or another where there is none or it is empty.
abbrev pub filled_or : String → Option String → String
filled_or d none = d
filled_or d (some s) = if s == "" then d else s

-- The tool calls of the blocks of type tool_use.
abbrev pub calls_in : (Dict → String) → (ℕ → String) → ℕ → List ContentBlock → List ToolCall
calls_in json_dumps fresh n [] = []
calls_in json_dumps fresh n (b ∷ bs) =
    if b.type_ == "tool_use"
    then record {
      id = filled_or (fresh n) b.id;
      name = filled_or "" b.name;
      arguments = json_dumps (get_or b.input end);
    }
      ∷ calls_in json_dumps fresh (suc n) bs
    else calls_in json_dumps fresh n bs

-- The texts of the blocks of type text, but for empty ones.
abbrev pub spoken : List ContentBlock → List String
spoken bs =
    select (λ t. not (t == ""))
      (map (λ b. filled_or "" b.text_) (select (λ b. b.type_ == "text") bs))

said-filled :
    (o : Option String) (xs ys : List String)
    → xs ≡ ys
    → (elim o [ none ↦ xs | some t ↦ if t == "" then xs else t ∷ xs ])
      ≡ (if not (filled_or "" o == "") then filled_or "" o ∷ ys else ys)
said-filled none xs ys same = same
said-filled (some t) xs ys same = elim (Bool-cases (t == "")) [
  | inl e ↦ rw (e) same
  | inr e ↦ rw (e, same) (ground (arith, e))
]

response_texts-spoken : (bs : List ContentBlock) → response_texts bs ≡ spoken bs
unfolding response_texts
response_texts-spoken [] = refl
response_texts-spoken (b ∷ bs) = elim (Bool-cases (b.type_ == "text")) [
  | inl e ↦ rw (e) (said-filled b.text_ (response_texts bs) (spoken bs) (response_texts-spoken bs))
  | inr e ↦ rw (e) (response_texts-spoken bs)
]

-- The value that `put_text` sets.
text_json : Option String → Option Json
text_json none = none
text_json (some s) = if s == "" then none else some (str s)

get-put_text :
    (k j : String) (o : Option String) (d : Dict)
    → (j == k) ≡ false
    → get k (put_text j o d) ≡ get k d
unfolding put_text
get-put_text k j none d apart = refl
get-put_text k j (some s) d apart = elim (Bool-cases (s == "")) [
  | inl e ↦ rw (e) refl
  | inr e ↦ rw (e, get-put j k (str s) d, apart) refl
]

get-put_dict :
    (k j : String) (o : Option Dict) (d : Dict)
    → (j == k) ≡ false
    → get k (put_dict j o d) ≡ get k d
unfolding put_dict
get-put_dict k j none d apart = refl
get-put_dict k j (some end) d apart = refl
get-put_dict k j (some (field i v e)) d apart = rw (get-put j k (obj (field i v e)) d, apart) refl

get-put_text-own :
    (k : String) (o : Option String) (d : Dict)
    → get k d ≡ none
    → get k (put_text k o d) ≡ text_json o
unfolding put_text text_json
get-put_text-own k none d free = free
get-put_text-own k (some s) d free = elim (Bool-cases (s == "")) [
  | inl e ↦ rw (e) free
  | inr e ↦ rw (e, get-put k k (str s) d, eq_refl k) refl
]

-- What a block's dict holds under the keys of a tool call.
block_dict_lem :
    (b : ContentBlock)
    → (get "type" (block_dict b) ≡ some (str b.type_))
      × (get "id" (block_dict b) ≡ text_json b.id)
      × (get "name" (block_dict b) ≡ text_json b.name)
unfolding block_dict get
block_dict_lem b =
    let d1 = put_text "text" b.text_ (field "type" (str b.type_) end) in
    let d2 = put_text "id" b.id d1 in
    let d3 = put_text "name" b.name d2 in
    (
      get-put_dict "type" "input" b.input d3 refl
          ∙ get-put_text "type" "name" b.name d2 refl
          ∙ get-put_text "type" "id" b.id d1 refl
          ∙ get-put_text "type" "text" b.text_ (field "type" (str b.type_) end) refl,
      get-put_dict "id" "input" b.input d3 refl
          ∙ get-put_text "id" "name" b.name d2 refl
          ∙ get-put_text-own "id" b.id d1
              (get-put_text "id" "text" b.text_ (field "type" (str b.type_) end) refl),
      get-put_dict "name" "input" b.input d3 refl
          ∙ get-put_text-own "name" b.name d2 (
              get-put_text "name" "id" b.id d1 refl
              ∙ get-put_text "name" "text" b.text_ (field "type" (str b.type_) end) refl),
    )

spaced :
    (xs ys : List String)
    → xs ≡ ys
    → spaced_or_none xs ≡ elim ys [ [] ↦ none | t ∷ ts ↦ some (join " " (t ∷ ts)) ]
unfolding spaced_or_none
spaced xs [] same = rw (same) refl
spaced xs (t ∷ ts) same = rw (same) refl

to_str-text_json :
    (rt : Runtime) (o : Option String) (d : String)
    → to_str rt (get_or (text_json o) (str d)) ≡ filled_or d o
unfolding text_json to_str
to_str-text_json rt none d = refl
to_str-text_json rt (some s) d = elim (Bool-cases (s == "")) [
  | inl e ↦ rw (e) refl
  | inr e ↦ rw (e) refl
]

module _ (rt : Runtime) (json_dumps : Dict → String) (fresh : ℕ → String) where
  arguments-put_dict :
      (o : Option Dict) (d : Dict)
      → get "input" d ≡ none
      → arguments_of rt json_dumps fresh (get "input" (put_dict "input" o d))
        ≡ json_dumps (get_or o end)
  unfolding put_dict arguments_of
  arguments-put_dict none d free = rw (free) refl
  arguments-put_dict (some end) d free = rw (free) refl
  arguments-put_dict (some (field i v e)) d free =
      rw (get-put "input" "input" (obj (field i v e)) d) refl

  arguments-block_dict :
      (b : ContentBlock)
      → arguments_of rt json_dumps fresh (get "input" (block_dict b))
        ≡ json_dumps (get_or b.input end)
  unfolding block_dict get
  arguments-block_dict b =
      let d0 = field "type" (str b.type_) end in
      let d1 = put_text "text" b.text_ d0 in
      let d2 = put_text "id" b.id d1 in
      arguments-put_dict b.input (put_text "name" b.name d2) (
        get-put_text "input" "name" b.name d2 refl
        ∙ get-put_text "input" "id" b.id d1 refl
        ∙ get-put_text "input" "text" b.text_ d0 refl)

  tool_call_of-block_dict :
      (n : ℕ) (b : ContentBlock)
      → tool_call_of rt json_dumps fresh n (block_dict b) ≡ record {
        id = filled_or (fresh n) b.id;
        name = filled_or "" b.name;
        arguments = json_dumps (get_or b.input end);
      }
  unfolding tool_call_of
  tool_call_of-block_dict n b =
      let (ty, id, name) = block_dict_lem b in
      rw
        (
          id,
          name,
          arguments-block_dict b,
          to_str-text_json rt b.id (fresh n),
          to_str-text_json rt b.name "",
        )
        refl

  translate_tool_uses-calls_in :
      (n : ℕ) (bs : List ContentBlock)
      → translate_tool_uses rt json_dumps fresh n (map block_dict bs)
        ≡ calls_in json_dumps fresh n bs
  unfolding translate_tool_uses
  translate_tool_uses-calls_in n [] = refl
  translate_tool_uses-calls_in n (b ∷ bs) = elim (Bool-cases (b.type_ == "tool_use")) [
    | inl e ↦
        rw (translate_tool_uses, (block_dict_lem b).0, e)
          (λ i. tool_call_of-block_dict n b i ∷ translate_tool_uses-calls_in (suc n) bs i)
    | inr e ↦ rw (translate_tool_uses, (block_dict_lem b).0, e) (translate_tool_uses-calls_in n bs)
  ]

  none_found :
      (ds : List Dict) (n : ℕ)
      → has_tool_calls ds ≡ false
      → translate_tool_uses rt json_dumps fresh n ds ≡ []
  unfolding has_tool_calls translate_tool_uses
  none_found [] n h = refl
  none_found (d ∷ ds) n h =
      let other : has_type d "tool_use" ≡ false = ground (arith, h) in
      rw (translate_tool_uses, other) (none_found ds n (ground (arith, h)))

  -- The message has a tool call for each block of type tool_use, in their order: with the block's
  -- id, or a drawn one where it has none, its name, and its input as JSON, `{}` where it has none.
  -- The finish reason is `tool_calls` exactly if there is one. The content is the texts of the text
  -- blocks, but for empty ones, with spaces between them, and None if there is none.
  pub translate_response_lem :
      (uuid : String) (now : ℤ) (r : SingleQueryResponse) (original_model : String)
      → let c = translate_response rt json_dumps fresh uuid now r original_model in
        (c.message_calls ≡ calls_in json_dumps fresh 0 r.content)
        × ((c.finish_reason ≡ tool_calls) ↔ (calls_in json_dumps fresh 0 r.content ≢ []))
        × (c.content ≡ elim (spoken r.content) [ [] ↦ none | t ∷ ts ↦ some (join " " (t ∷ ts)) ])
  unfolding translate_response
  translate_response_lem uuid now r original_model =
      let ds = map block_dict r.content in
      let calls = translate_tool_uses-calls_in 0 r.content in
      let reason = map_stop_reason-tool_calls r.stop_reason (has_tool_calls ds) in
      let found = has_tool_calls_lem rt json_dumps fresh ds 0 in
      (
        elim (Bool-cases (has_tool_calls ds)) [
          | inl e ↦ rw (e) calls
          | inr e ↦ rw (e) (sym (none_found ds 0 e) ∙ calls)
        ],
        (
          λ e. subst (λ l. l ≢ []) calls (found.0 (reason.0 e)),
          λ h. reason.1 (found.1 (subst (λ l. l ≢ []) (sym calls) h)),
        ),
        spaced (response_texts r.content) (spoken r.content) (response_texts-spoken r.content),
      )

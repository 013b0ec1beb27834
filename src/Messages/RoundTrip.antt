-- ===== src/Messages/RoundTrip.antt =====
-- What the cache keeps of a message.
use claude_agent_api.Common.{String, ◌≡◌, refl, ap, some, List, [], ◌∷◌, map}
use claude_agent_api.Exec.{ok}
use claude_agent_api.Json.{arr, items_of}
use claude_agent_api.Payload.{payload_laws, NonemptyStr}
use claude_agent_api.Runtime.{Runtime, to_str}
use claude_agent_api.Messages.{
  Message, Role, user, assistant, role_text, parse_role, text_block, block_texts, parse_content,
  message_payload, parse_cached_message,
}

parse_role-role_text : (r : Role) → parse_role (role_text r) ≡ r
unfolding parse_role role_text
parse_role-role_text user = refl
parse_role-role_text assistant = refl

block_texts-text_block :
    (rt : Runtime) (ss : List String) → block_texts rt (items_of (map text_block ss)) ≡ ss
unfolding block_texts text_block to_str
block_texts-text_block rt [] = refl
block_texts-text_block rt (s ∷ ss) = ap (◌∷◌ s) (block_texts-text_block rt ss)

parse_content-text_block :
    (rt : Runtime) (ss : List String)
    → parse_content rt (some (arr (items_of (map text_block ss)))) ≡ ss
unfolding parse_content
parse_content-text_block rt ss = block_texts-text_block rt ss

-- Parsing the payload written for a message gives back that message, with its texts in order, if
-- its ids of an assistant and of a run are not empty texts.
pub parse_cached_message-message_payload :
    (rt : Runtime) (m : Message)
    → NonemptyStr m.assistant_id
    → NonemptyStr m.run_id
    → parse_cached_message rt (message_payload m) ≡ ok (some m)
unfolding parse_cached_message message_payload
parse_cached_message-message_payload rt m h k =
    simp (payload_laws, parse_role-role_text, parse_content-text_block, h, k) refl

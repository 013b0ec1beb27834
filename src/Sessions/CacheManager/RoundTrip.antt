-- ===== src/Sessions/CacheManager/RoundTrip.antt =====
-- What the cache manager writes for a session is what it reads back.
use claude_agent_api.Common.{◌≡◌, some, arith}
use claude_agent_api.Exec.{ok}
use claude_agent_api.Runtime.{Runtime, RuntimeLaws}
use claude_agent_api.Sessions.Model.{Session, parse_session_status-status_text}
use claude_agent_api.Sessions.CacheManager.{session_payload, parse_cached_session}

-- Parsing the payload written for a session gives back that session, every field of it, if
-- `fromisoformat` inverts `isoformat` and `lower` keeps the words for the statuses.
pub parse_cached_session-session_payload :
    (rt : Runtime)
    → RuntimeLaws rt
    → (s : Session) → parse_cached_session rt (session_payload rt s) ≡ ok (some s)
unfolding parse_cached_session session_payload
parse_cached_session-session_payload rt laws s = ground (
  arith,
  laws.fromisoformat-isoformat s.created_at,
  laws.fromisoformat-isoformat s.updated_at,
  parse_session_status-status_text rt laws s.status,
)

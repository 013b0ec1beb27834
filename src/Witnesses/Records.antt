-- ===== src/Witnesses/Records.antt =====
-- Runs of the message and thread services in the in-memory world.
use claude_agent_api.Common.{none, some, [], ◌∷◌}
use claude_agent_api.Common.Int.{pos}
use claude_agent_api.Messages.{Message, assistant}
use claude_agent_api.Threads.{Thread, ThreadService, thread_payload}
use claude_agent_api.Witnesses.World.{World, memory, empty, write_doc}

abbrev message_1 : Message
message_1 = record {
  id = "m1";
  thread_id = "t1";
  created_at = pos 3;
  role = assistant;
  content = "hello" ∷ "there" ∷ [];
  metadata = ("k", "v") ∷ [];
  assistant_id = some "a1";
  run_id = none;
}

abbrev thread_1 : Thread
thread_1 = record { id = "t1"; created_at = pos 3; metadata = []; session_id = some "s1" }

abbrev threads : ThreadService World
threads = record { session_service = none; cache = some memory; ttl = 60 }

abbrev thread_world : World
thread_world = write_doc "thread:t1" (some (thread_payload thread_1)) empty

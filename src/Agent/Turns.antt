-- ===== src/Agent/Turns.antt =====
-- What the checkpoint of a turn holds.
use mathlib.Core.Option.{get_or}
use claude_agent_api.Common.{
  subst, ◌∙◌, ap, sym, ℕ, String, ◌≡◌, refl, Bool, true, false, ◌||◌, Option, some, List, ◌==◌, inl,
  inr,
}
use claude_agent_api.Exec.{Outcome, Outcome-cases, ok, raise, ◌>>=◌}
use claude_agent_api.Json.{Dict}
use claude_agent_api.Runtime.{Runtime, RuntimeLaws}
use claude_agent_api.Interfaces.{Cache}
use claude_agent_api.Stores.{TextLaws, JsonLaws}
use claude_agent_api.Checkpoints.Service.{
  Checkpoint, CheckpointService, create_checkpoint, get_checkpoint_by_user_message_uuid,
}
use claude_agent_api.Checkpoints.Stored.{get_checkpoint-create_checkpoint}
use claude_agent_api.Agent.Context.{Block, StreamContext, SdkContent, SdkUsage}
use claude_agent_api.Agent.Blocks.{extract_content_blocks, extract_usage}
use claude_agent_api.Agent.Handlers.{
  assistant_event, AgentEvent, contains, track_file_modifications, handle_user_message,
  handle_assistant_message, check_special_tool_uses,
}
use claude_agent_api.Agent.Tracking.{modifies, track_file_modifications_lem}
use claude_agent_api.Agent.Checkpointing.{create_from_context}
use claude_agent_api.Sessions.Model.{truthy}

-- The context of a result, or one in place of a raise.
abbrev context_in : StreamContext → Outcome (StreamContext × AgentEvent) → StreamContext
context_in ctx (ok (after, event)) = after
context_in ctx (raise x) = ctx

-- With checkpointing on, an assistant's message changes the list of files and nothing else.
handle_assistant_message-tracks :
    (rt : Runtime) (content : SdkContent) (usage : SdkUsage) (model : Option String)
    (ctx after : StreamContext) (event : AgentEvent)
    → ctx.enable_file_checkpointing ≡ true
    → handle_assistant_message rt content usage model ctx ≡ ok (after, event)
    → after ≡ track_file_modifications (extract_content_blocks content) ctx
unfolding handle_assistant_message
handle_assistant_message-tracks rt content usage model ctx after event on h =
    elim (Outcome-cases (extract_usage rt usage)) [
      | inl (u, e) ↦
          let blocks = extract_content_blocks content in
          let done : handle_assistant_message rt content usage model ctx
              ≡ ok (
                track_file_modifications blocks ctx,
                get_or (check_special_tool_uses rt blocks ctx)
                    (assistant_event blocks (get_or model ctx.model) u),
              ) =
            rw (e, on) refl in
          ap (context_in ctx) (sym h ∙ done)
      | inr (x, e) ↦ cc
    ]

-- The context after a user's message, and after the assistant's.
abbrev asked : String → StreamContext → StreamContext
asked uuid ctx = record ctx { last_user_message_uuid = some uuid }

abbrev turned : List Block → String → StreamContext → StreamContext
turned blocks uuid ctx = track_file_modifications blocks (asked uuid ctx)

turn_lem :
    (rt : Runtime) (prompt content : SdkContent) (usage : SdkUsage) (model : Option String)
    (uuid : String) (ctx after : StreamContext) (event : AgentEvent)
    → ctx.enable_file_checkpointing ≡ true
    → (uuid == "") ≡ false
    → handle_assistant_message rt content usage model (handle_user_message prompt (some uuid) ctx).0
      ≡ ok (after, event)
    → after ≡ turned (extract_content_blocks content) uuid ctx
unfolding handle_user_message truthy
turn_lem rt prompt content usage model uuid ctx after event on named h =
    let begun : (handle_user_message prompt (some uuid) ctx).0 ≡ asked uuid ctx =
      rw (handle_user_message, truthy, named, on) refl in
    handle_assistant_message-tracks rt content usage model (asked uuid ctx) after event on
      (subst (λ b. handle_assistant_message rt content usage model b ≡ ok (after, event)) begun h)

module _ {W : Type 0} (rt : Runtime) (svc : CheckpointService W) (cache : Cache W)
    {json_at : W → String → Option Dict} {text_at : W → String → Option String}
    {has_key : W → String → Bool} (laws : JsonLaws cache json_at svc.ttl has_key)
    (texts : TextLaws cache json_at text_at svc.ttl) (times : RuntimeLaws rt) where
  abbrev pub over : CheckpointService W
  over = record svc { cache = some cache }

  create_from_context-creates :
      (id uuid : String) (now : ℕ) (ctx : StreamContext) (w : W)
      → ctx.enable_file_checkpointing ≡ true
      → truthy ctx.last_user_message_uuid ≡ some uuid
      → let c : Checkpoint = record {
        id = id;
        session_id = ctx.session_id;
        user_message_uuid = uuid;
        created_at = now;
        files_modified = ctx.files_modified;
      } in
        (create_checkpoint rt over id now ctx.session_id uuid ctx.files_modified w).0 ≡ ok c
        → create_from_context rt (some over) id now ctx w ≡ (
          ok (some c),
          (create_checkpoint rt over id now ctx.session_id uuid ctx.files_modified w).1,
        )
  unfolding create_from_context ◌>>=◌
  create_from_context-creates id uuid now ctx w on named done = rw (on, named, done) refl

  -- The checkpoint of a turn, in a cache that answers and with checkpointing on: after a user's
  -- message with a uuid and an assistant's message, a checkpoint is made for the session and that
  -- uuid; it lists a file exactly if the context listed it before or a Write or Edit of the
  -- assistant's message names it; and it is found by the uuid.
  pub checkpoint_of_turn :
      (prompt content : SdkContent) (usage : SdkUsage) (model : Option String)
      (id uuid path : String) (now : ℕ) (ctx after : StreamContext) (event : AgentEvent) (w : W)
      → ctx.enable_file_checkpointing ≡ true
      → (uuid == "") ≡ false
      → (id == "") ≡ false
      → handle_assistant_message rt content usage model
          (handle_user_message prompt (some uuid) ctx).0
        ≡ ok (after, event)
      → let (r, w') = create_from_context rt (some over) id now after w in
        (c : Checkpoint) × (r ≡ ok (some c))
        × (c.session_id ≡ ctx.session_id)
        × (contains c.files_modified path
            ≡ (contains ctx.files_modified path || modifies (extract_content_blocks content) path))
        × (get_checkpoint_by_user_message_uuid rt over uuid w' ≡ (ok (some c), w'))
  unfolding truthy track_file_modifications
  checkpoint_of_turn prompt content usage model id uuid path now ctx after event w on named fresh
        h =
      let blocks = extract_content_blocks content in
      let done = turned blocks uuid ctx in
      let c : Checkpoint = record {
        id = id;
        session_id = ctx.session_id;
        user_message_uuid = uuid;
        created_at = now;
        files_modified = done.files_modified;
      } in
      let (created, read, by_uuid, valid) =
        get_checkpoint-create_checkpoint rt svc cache laws texts times c ctx.session_id w fresh in
      let made : create_from_context rt (some over) id now done w ≡ (ok (some c), _) =
        create_from_context-creates id uuid now done w on (rw (named) refl) created in
      rw (turn_lem rt prompt content usage model uuid ctx after event on named h, made)
        (c, refl, refl, (track_file_modifications_lem blocks (asked uuid ctx)).1 path, by_uuid)

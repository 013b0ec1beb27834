-- ===== src/Agent/Checkpointing.antt =====
-- apps/api/services/agent/checkpoint_manager.py and file_modification_tracker.py: the checkpoint of
-- a turn. Logging is left out.
use claude_agent_api.Common.{ℕ, String, Option, none, some, List, [], ◌∷◌, if◌then◌else◌}
use claude_agent_api.Exec.{Outcome, ok, Exec, pure, catch, ◌>>=◌, ◌>>=?◌}
use claude_agent_api.Json.{Dict}
use claude_agent_api.Runtime.{Runtime}
use claude_agent_api.Checkpoints.Service.{Checkpoint, CheckpointService, create_checkpoint}
use claude_agent_api.Agent.Context.{Block, StreamContext}
use claude_agent_api.Agent.Handlers.{track_file_modifications}
use claude_agent_api.Sessions.Model.{truthy}

-- What a list of content blocks may hold.
pub data ContentItem : Type 0 where
  block_content : Block → ContentItem
  dict_content : Dict → ContentItem
  other_content : ContentItem

-- The first argument is the validation of `ContentBlockSchema`.
typed_blocks : (Dict → Outcome Block) → List ContentItem → Outcome (List Block)
typed_blocks validate [] = ok []
typed_blocks validate (block_content b ∷ cs) = typed_blocks validate cs >>=? λ bs. ok (b ∷ bs)
typed_blocks validate (dict_content d ∷ cs) =
    validate d >>=? λ b. typed_blocks validate cs >>=? λ bs. ok (b ∷ bs)
typed_blocks validate (other_content ∷ cs) = typed_blocks validate cs

unfoldable pub track :
    (Dict → Outcome Block) → List ContentItem → StreamContext → Outcome StreamContext
unfolding typed_blocks
track validate blocks ctx =
    typed_blocks validate blocks >>=? λ bs. ok (track_file_modifications bs ctx)

-- The id and the time of a checkpoint are arguments. An exception is only logged.
unfoldable pub create_from_context :
    {W : Type 0}
    → Runtime
    → Option (CheckpointService W)
    → String
    → ℕ
    → StreamContext
    → Exec W (Option Checkpoint)
create_from_context rt service fresh now ctx =
    if ctx.enable_file_checkpointing
    then elim (truthy ctx.last_user_message_uuid) [
      | none ↦ pure none
      | some uuid ↦ elim service [
        | none ↦ pure none
        | some svc ↦
            catch
              (do
                checkpoint ←
                    create_checkpoint rt svc fresh now ctx.session_id uuid ctx.files_modified
                pure (some checkpoint))
              (λ e. pure none)
      ]
    ]
    else pure none

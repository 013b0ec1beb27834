-- ===== src/Witnesses/Checkpoints.antt =====
-- Runs of apps/api/services/checkpoint.py.
use claude_agent_api.Common.{◌≡◌, refl, some, List, [], ◌∷◌, ◌++◌, ◌==◌}
use claude_agent_api.Common.Sorting.{sort, IsOrdered}
use mathlib.Core.List.{Perm}
use claude_agent_api.Exec.{◌>>=◌, ok}
use claude_agent_api.Checkpoints.Service.{
  parse_all, Checkpoint, CheckpointService, create_checkpoint, get_checkpoint,
  get_checkpoint_by_user_message_uuid, validate_checkpoint, list_checkpoints, oldest_first,
}
use claude_agent_api.Checkpoints.Stored.{
  get_checkpoint-create_checkpoint, list_checkpoints-create_checkpoint,
}
use claude_agent_api.Witnesses.World.{python, python-laws}
use claude_agent_api.Witnesses.Store.{Store, store, empty_store, store-JsonLaws, store-TextLaws}

abbrev pub checkpoints : CheckpointService Store
checkpoints = record { cache = some store; ttl = 3600 }

abbrev edit : Checkpoint
edit = record {
  id = "c1";
  session_id = "s1";
  user_message_uuid = "u1";
  created_at = 5;
  files_modified = "a.py" ∷ [];
}

abbrev created : Store
created =
    (create_checkpoint python checkpoints edit.id edit.created_at edit.session_id
      edit.user_message_uuid edit.files_modified empty_store).1

get_checkpoint-create_checkpoint_example :
    ((create_checkpoint python checkpoints edit.id edit.created_at edit.session_id
        edit.user_message_uuid edit.files_modified empty_store).0
      ≡ ok edit)
    × (get_checkpoint python checkpoints "c1" created ≡ (ok (some edit), created))
    × (get_checkpoint_by_user_message_uuid python checkpoints "u1" created
        ≡ (ok (some edit), created))
    × (validate_checkpoint python checkpoints "s1" "c1" created ≡ (ok ("s1" == "s1"), created))
get_checkpoint-create_checkpoint_example =
    get_checkpoint-create_checkpoint python checkpoints store store-JsonLaws store-TextLaws
      python-laws edit "s1" empty_store refl

none_before : list_checkpoints python checkpoints "s1" empty_store ≡ (ok [], empty_store)
unfolding list_checkpoints ◌>>=◌ parse_all sort
none_before = refl

list_checkpoints-create_checkpoint_example :
    (after : List Checkpoint) × (list_checkpoints python checkpoints "s1" created
      ≡ (ok after, created))
    × Perm after ([] ++ (edit ∷ []))
    × IsOrdered oldest_first after
list_checkpoints-create_checkpoint_example =
    list_checkpoints-create_checkpoint python checkpoints store store-JsonLaws store-TextLaws
      python-laws edit [] empty_store none_before

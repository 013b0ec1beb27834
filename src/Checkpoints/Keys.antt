-- ===== src/Checkpoints/Keys.antt =====
-- The keys of the three kinds of entries never meet.
use Prim.Native.String.{◌++◌}
use text.Mathlib.TextLemmas.{append_assoc}
use claude_agent_api.Common.{prefix-apart, String, ◌≢◌, refl, sym, ◌∙◌, arith, eq_iff}
use claude_agent_api.Checkpoints.Service.{checkpoints_key, checkpoint_key, uuid_index_key}

checkpoints-ne : ◌≢◌ {A = String} "checkpoints" "checkpoint:"
checkpoints-ne h = ground (arith, (eq_iff "checkpoints" "checkpoint:").1 h)

uuid_index-ne : ◌≢◌ {A = String} "checkpoint_" "checkpoint:"
uuid_index-ne h = ground (arith, (eq_iff "checkpoint_" "checkpoint:").1 h)

uuid_index-ne_list : ◌≢◌ {A = String} "checkpoint_" "checkpoints"
uuid_index-ne_list h = ground (arith, (eq_iff "checkpoint_" "checkpoints").1 h)

pub checkpoints_key-apart : (s i : String) → checkpoints_key s ≢ checkpoint_key i
checkpoints_key-apart s i e =
    prefix-apart "checkpoints" "checkpoint:" (":" ++ s) i refl checkpoints-ne
      (sym (append_assoc "checkpoints" ":" s) ∙ e)

pub uuid_index_key-apart : (u i : String) → uuid_index_key u ≢ checkpoint_key i
uuid_index_key-apart u i e =
    prefix-apart "checkpoint_" "checkpoint:" ("uuid_index:" ++ u) i refl uuid_index-ne
      (sym (append_assoc "checkpoint_" "uuid_index:" u) ∙ e)

pub uuid_index_key-apart_list : (u s : String) → uuid_index_key u ≢ checkpoints_key s
uuid_index_key-apart_list u s e =
    prefix-apart "checkpoint_" "checkpoints" ("uuid_index:" ++ u) (":" ++ s) refl uuid_index-ne_list
      (sym (append_assoc "checkpoint_" "uuid_index:" u) ∙ e ∙ append_assoc "checkpoints" ":" s)

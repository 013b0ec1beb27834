-- ===== src/Agent/Keeping.antt =====
-- What the handling of messages keeps of the context.
use claude_agent_api.Common.Int.{pos}
use claude_agent_api.Agent.Aggregator.{plus, Library}
use claude_agent_api.Common.{
  String, ◌≡◌, refl, ◌⊎◌, inl, inr, Bool, true, false, Option, none, some, List, [], ◌∷◌, ◌++◌, sym,
  ap, ◌∙◌, subst, Bool-cases, if◌then◌else◌, Option-cases,
}
use mathlib.Core.List.{append-nil, append_assoc}
use claude_agent_api.Exec.{Outcome, Outcome-cases, ok, raise, ◌>>=?◌}
use claude_agent_api.Runtime.{Runtime}
use claude_agent_api.Sessions.Model.{truthy}
use claude_agent_api.Agent.Context.{Block, StreamContext, SdkContent, SdkUsage, ResultMessage}
use claude_agent_api.Agent.Blocks.{extract_usage, extract_content_blocks}
use claude_agent_api.Agent.Handlers.{
  track_file_modifications, handle_user_message, handle_assistant_message, handle_result_message,
}
use claude_agent_api.Agent.Tracking.{no_repeats, track_file_modifications_lem}
use claude_agent_api.Agent.Partial.{Validation}
use claude_agent_api.Agent.Dispatch.{
  process_responses, with_event, agent_event, SdkMessage, system_message, user_message,
  assistant_message, result_message, SdkEvent, partial_of, map_sdk_message,
}

-- The session, its model and its settings stay; the list of files only grows at its end, without
-- repeating a file, and stays as it is where checkpointing is off.
pub record Keeps (before after : StreamContext) : Type 0 where
  pub session_lem : after.session_id ≡ before.session_id
  pub model_lem : after.model ≡ before.model
  pub checkpointing_lem : after.enable_file_checkpointing ≡ before.enable_file_checkpointing
  pub partial_lem : after.include_partial_messages ≡ before.include_partial_messages
  pub files_lem : (new : List String) × (after.files_modified ≡ before.files_modified ++ new)
  pub repeats_lem : no_repeats after.files_modified ≡ no_repeats before.files_modified
  pub off_lem :
      (before.enable_file_checkpointing ≡ true) ⊎ (after.files_modified ≡ before.files_modified)

Keeps-refl : (ctx : StreamContext) → Keeps ctx ctx
Keeps-refl ctx = record {
  session_lem = refl;
  model_lem = refl;
  checkpointing_lem = refl;
  partial_lem = refl;
  files_lem = ([], sym (append-nil ctx.files_modified));
  repeats_lem = refl;
  off_lem = inr refl;
}

Keeps-trans : {a b c : StreamContext} → Keeps a b → Keeps b c → Keeps a c
Keeps-trans {a} {b} {c} k l =
    let (new1, e1) = k.files_lem in
    let (new2, e2) = l.files_lem in
    record {
      session_lem = l.session_lem ∙ k.session_lem;
      model_lem = l.model_lem ∙ k.model_lem;
      checkpointing_lem = l.checkpointing_lem ∙ k.checkpointing_lem;
      partial_lem = l.partial_lem ∙ k.partial_lem;
      files_lem =
          (new1 ++ new2, e2 ∙ ap (λ fs. fs ++ new2) e1 ∙ append_assoc a.files_modified new1 new2);
      repeats_lem = l.repeats_lem ∙ k.repeats_lem;
      off_lem = elim k.off_lem [
        | inl on ↦ inl on
        | inr same ↦ elim l.off_lem [
          | inl on ↦ inl (sym k.checkpointing_lem ∙ on)
          | inr same2 ↦ inr (same2 ∙ same)
        ]
      ];
    }

Keeps-same :
    (before after : StreamContext)
    → after.session_id ≡ before.session_id
    → after.model ≡ before.model
    → after.enable_file_checkpointing ≡ before.enable_file_checkpointing
    → after.include_partial_messages ≡ before.include_partial_messages
    → after.files_modified ≡ before.files_modified
    → Keeps before after
Keeps-same before after session model checkpointing partial files = record {
  session_lem = session;
  model_lem = model;
  checkpointing_lem = checkpointing;
  partial_lem = partial;
  files_lem = ([], files ∙ sym (append-nil before.files_modified));
  repeats_lem = ap no_repeats files;
  off_lem = inr files;
}

Keeps-result : (m : ResultMessage) (ctx : StreamContext) → Keeps ctx (handle_result_message m ctx)
unfolding handle_result_message
Keeps-result m ctx = Keeps-same ctx _ refl refl refl refl refl

Keeps-if :
    (b : Bool) (u : String) (ctx : StreamContext)
    → Keeps ctx (if b then record ctx { last_user_message_uuid = some u } else ctx)
Keeps-if true u ctx = Keeps-same ctx _ refl refl refl refl refl
Keeps-if false u ctx = Keeps-refl ctx

Keeps-user :
    (content : SdkContent) (uuid : Option String) (ctx : StreamContext)
    → Keeps ctx (handle_user_message content uuid ctx).0
unfolding handle_user_message
Keeps-user content uuid ctx = elim (Option-cases (truthy uuid)) [
  | inl e ↦ rw (handle_user_message, e) (Keeps-refl ctx)
  | inr (u, e) ↦ rw (handle_user_message, e) (Keeps-if ctx.enable_file_checkpointing u ctx)
]

Keeps-track :
    (blocks : List Block) (ctx : StreamContext)
    → ctx.enable_file_checkpointing ≡ true
    → Keeps ctx (track_file_modifications blocks ctx)
unfolding track_file_modifications
Keeps-track blocks ctx on =
    let ((new, grown, once, apart), names, repeats) = track_file_modifications_lem blocks ctx in
    record {
      session_lem = refl;
      model_lem = refl;
      checkpointing_lem = refl;
      partial_lem = refl;
      files_lem = (new, grown);
      repeats_lem = repeats;
      off_lem = inl on;
    }

-- What holds of the context, if there is one.
abbrev OutcomeKeeps : {X : Type 0} → StreamContext → Outcome (StreamContext × X) → Type 0
OutcomeKeeps ctx (ok (after, x)) = Keeps ctx after
OutcomeKeeps ctx (raise e) = Unit {0}

Keeps-tracked :
    (blocks : List Block) (ctx : StreamContext)
    → Keeps ctx (if ctx.enable_file_checkpointing then track_file_modifications blocks ctx else ctx)
Keeps-tracked blocks ctx = elim (Bool-cases ctx.enable_file_checkpointing) [
  | inl on ↦
      subst (λ b. Keeps ctx (if b then track_file_modifications blocks ctx else ctx)) (sym on)
        (Keeps-track blocks ctx on)
  | inr off ↦
      subst (λ b. Keeps ctx (if b then track_file_modifications blocks ctx else ctx)) (sym off)
        (Keeps-refl ctx)
]

Keeps-next :
    {X Y : Type 0} (ctx : StreamContext) (o : Outcome (StreamContext × X)) (f : X → Y)
    → OutcomeKeeps ctx o
    → OutcomeKeeps ctx (o >>=? λ p. ok (p.0, f p.1))
Keeps-next ctx (ok (after, x)) f k = k
Keeps-next ctx (raise e) f k = tt

Keeps-assistant :
    (rt : Runtime) (content : SdkContent) (usage : SdkUsage) (model : Option String)
    (ctx : StreamContext)
    → OutcomeKeeps ctx (handle_assistant_message rt content usage model ctx)
unfolding handle_assistant_message
Keeps-assistant rt content usage model ctx = elim (Outcome-cases (extract_usage rt usage)) [
  | inl (u, e) ↦
      rw (handle_assistant_message, e) (Keeps-tracked (extract_content_blocks content) ctx)
  | inr (x, e) ↦ rw (handle_assistant_message, e) tt
]

Keeps-partial :
    (b : Bool) (o : Outcome (Option SdkEvent)) (ctx : StreamContext)
    → OutcomeKeeps ctx (if b then (o >>=? λ e. ok (ctx, e)) else ok (ctx, none))
Keeps-partial true (ok e) ctx = Keeps-refl ctx
Keeps-partial true (raise x) ctx = tt
Keeps-partial false o ctx = Keeps-refl ctx

Keeps-message :
    (rt : Runtime) (v : Validation) (m : SdkMessage) (ctx : StreamContext)
    → OutcomeKeeps ctx (map_sdk_message rt v m ctx)
unfolding map_sdk_message partial_of
Keeps-message rt v system_message ctx = Keeps-refl ctx
Keeps-message rt v (user_message content uuid) ctx = Keeps-user content uuid ctx
Keeps-message rt v (assistant_message content usage model) ctx =
    Keeps-next ctx (handle_assistant_message rt content usage model ctx) (λ e. some (agent_event e))
      (Keeps-assistant rt content usage model ctx)
Keeps-message rt v (result_message m) ctx = Keeps-result m ctx
Keeps-message rt v m ctx = Keeps-partial ctx.include_partial_messages (partial_of v m) ctx

Keeps-rest :
    {X Y : Type 0} (before ctx : StreamContext) (o : Outcome (StreamContext × X)) (f : X → Y)
    → Keeps before ctx
    → OutcomeKeeps ctx o
    → OutcomeKeeps before (o >>=? λ p. ok (p.0, f p.1))
Keeps-rest before ctx (ok (after, x)) f k l = Keeps-trans k l
Keeps-rest before ctx (raise e) f k l = tt

Keeps-messages :
    (rt : Runtime) (lib : Library) (v : Validation) (ms : List SdkMessage) (ctx : StreamContext)
    → OutcomeKeeps ctx (process_responses rt lib v ms ctx)
unfolding process_responses
Keeps-messages rt lib v [] ctx = Keeps-refl ctx
Keeps-messages rt lib v (m ∷ ms) ctx = elim (Outcome-cases (plus lib ctx.num_turns (pos 1))) [
  | inl (turns, t) ↦
      let counted : StreamContext = record ctx { num_turns = turns } in
      let start : Keeps ctx counted = Keeps-same ctx counted refl refl refl refl refl in
      elim (Outcome-cases (map_sdk_message rt v m counted)) [
        | inl (p, e) ↦
            let first : Keeps counted p.0 =
              subst (OutcomeKeeps counted) e (Keeps-message rt v m counted) in
            rw (process_responses, t, e)
              (Keeps-rest ctx p.0 (process_responses rt lib v ms p.0) (with_event p.1)
                (Keeps-trans start first) (Keeps-messages rt lib v ms p.0))
        | inr (x, e) ↦ rw (process_responses, t, e) tt
      ]
  | inr (x, t) ↦ rw (process_responses, t) tt
]

-- However many messages of whatever kind a query handles, if none of them raises: the session, its
-- model and its settings are as before; the list of modified files is the old one with further
-- files at its end, it repeats a file only if the old one did, and it is the old one if
-- checkpointing is off.
pub process_responses-Keeps :
    (rt : Runtime) (lib : Library) (v : Validation) (ms : List SdkMessage)
    (ctx after : StreamContext) (events : List SdkEvent)
    → process_responses rt lib v ms ctx ≡ ok (after, events)
    → Keeps ctx after
process_responses-Keeps rt lib v ms ctx after events h =
    subst (OutcomeKeeps ctx) h (Keeps-messages rt lib v ms ctx)

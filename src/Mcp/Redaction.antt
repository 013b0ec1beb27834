-- ===== src/Mcp/Redaction.antt =====
-- What a configuration that is logged tells of its credentials.
use claude_agent_api.Common.{String, ◌≡◌, refl, sym, ap, true, Bool-cases, inl, inr}
use claude_agent_api.Json.{Json, Items, Dict, arr, obj, nil, cons, end, field}
use claude_agent_api.Runtime.{Runtime}
use claude_agent_api.Mcp.Validator.{
  is_sensitive_key, sanitize, sanitize_items, sanitize_credentials,
}

module _ (rt : Runtime) where
  -- Two configurations that differ only in what stands under sensitive keys.
  mutual
    pub data Alike : Json → Json → Type 0 where
      same : (v : Json) → Alike v v
      alike_arr : {xs ys : Items} → AlikeItems xs ys → Alike (arr xs) (arr ys)
      alike_obj : {d e : Dict} → AlikeDict d e → Alike (obj d) (obj e)

    pub data AlikeItems : Items → Items → Type 0 where
      alike_nil : AlikeItems nil nil
      alike_cons :
          {v u : Json} {xs ys : Items}
          → Alike v u
          → AlikeItems xs ys
          → AlikeItems (cons v xs) (cons u ys)

    pub data AlikeDict : Dict → Dict → Type 0 where
      alike_end : AlikeDict end end
      shown :
          {k : String} {v u : Json} {d e : Dict}
          → Alike v u
          → AlikeDict d e
          → AlikeDict (field k v d) (field k u e)
      hidden :
          {k : String} {v u : Json} {d e : Dict}
          → is_sensitive_key rt k ≡ true
          → AlikeDict d e
          → AlikeDict (field k v d) (field k u e)

  mutual
    unfolding sanitize sanitize_items sanitize_credentials

    sanitize-same : {v u : Json} → Alike v u → sanitize rt v ≡ sanitize rt u
    sanitize-same (same v) = refl
    sanitize-same (alike_arr xs) = ap arr (items-same xs)
    sanitize-same (alike_obj d) = ap obj (dict-same d)

    items-same : {xs ys : Items} → AlikeItems xs ys → sanitize_items rt xs ≡ sanitize_items rt ys
    items-same alike_nil = refl
    items-same (alike_cons v xs) = rw (sanitize-same v, items-same xs) refl

    dict-same : {d e : Dict} → AlikeDict d e → sanitize_credentials rt d ≡ sanitize_credentials rt e
    dict-same alike_end = refl
    dict-same (shown v d) = rw (sanitize-same v, dict-same d) refl
    dict-same (hidden h d) = rw (h, dict-same d) refl

  -- What is logged does not depend on the credentials: two configurations that differ only in what
  -- stands under sensitive keys, at any depth, are sanitized to the same configuration.
  pub sanitize_credentials-AlikeDict :
      (d e : Dict) → AlikeDict d e → sanitize_credentials rt d ≡ sanitize_credentials rt e
  sanitize_credentials-AlikeDict d e h = dict-same h

  mutual
    unfolding sanitize sanitize_items sanitize_credentials

    sanitize-Alike : (v : Json) → Alike v (sanitize rt v)
    sanitize-Alike (arr xs) = alike_arr (items-AlikeItems xs)
    sanitize-Alike (obj d) = alike_obj (dict-AlikeDict d)
    sanitize-Alike v = same v

    items-AlikeItems : (xs : Items) → AlikeItems xs (sanitize_items rt xs)
    items-AlikeItems nil = alike_nil
    items-AlikeItems (cons v xs) = alike_cons (sanitize-Alike v) (items-AlikeItems xs)

    dict-AlikeDict : (d : Dict) → AlikeDict d (sanitize_credentials rt d)
    dict-AlikeDict end = alike_end
    dict-AlikeDict (field k v d) = elim (Bool-cases (is_sensitive_key rt k)) [
      | inl e ↦ hidden e (dict-AlikeDict d)
      | inr e ↦ rw e (shown (sanitize-Alike v) (dict-AlikeDict d))
    ]

  -- Sanitizing changes a configuration only under its sensitive keys, and sanitizing again changes
  -- nothing.
  pub sanitize_credentials_lem :
      (d : Dict)
      → AlikeDict d (sanitize_credentials rt d)
        × (sanitize_credentials rt (sanitize_credentials rt d) ≡ sanitize_credentials rt d)
  sanitize_credentials_lem d = (dict-AlikeDict d, sym (dict-same (dict-AlikeDict d)))

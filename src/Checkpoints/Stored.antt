-- ===== src/Checkpoints/Stored.antt =====
-- What can be found of a checkpoint once it was created.
use claude_agent_api.Checkpoints.Keys.{
  uuid_index_key-apart_list, uuid_index_key-apart, checkpoints_key-apart,
}
use claude_agent_api.Common.Sorting.{sort-IsOrdered, sort-perm, IsOrdered, sort}
use mathlib.Core.List.{Perm}
use mathlib.Core.List.Perm
use claude_agent_api.Stores.{TextLaws, JsonLaws}
use claude_agent_api.Interfaces.{Cache}
use claude_agent_api.Common.{
  ℕ, leb, ◌==◌, Bool, false, true, arith, inr, inl, eq_iff, eq_refl, String, ◌≡◌, refl, ap, Option,
  none, some, List, [], ◌∷◌, map, ◌++◌,
}
use claude_agent_api.Exec.{Outcome-cases, ◌>>=?◌, ◌>>=◌, ok}
use claude_agent_api.Json.{
  field, get, get-put, Json, Items, Dict, str, arr, obj, nil, cons, items_of, list_of-items_of,
}
use claude_agent_api.Payload.{payload_laws, dicts, dict_list, to_str-str}
use claude_agent_api.Runtime.{Runtime, RuntimeLaws, to_str}
use claude_agent_api.Checkpoints.Service.{
  belongs, validate_checkpoint, list_checkpoints, get_checkpoint_by_user_message_uuid,
  get_checkpoint, create_checkpoint, create_uuid_index, add_to_session_checkpoints,
  cache_checkpoint, oldest_first, uuid_index_key, checkpoint_key, checkpoints_key, with_entry,
  CheckpointService, parse_all, entries, Checkpoint, checkpoint_data, files_of,
  parse_checkpoint_data, add_item, appended,
}

module _ (rt : Runtime) (times : RuntimeLaws rt) where
  texts-back : (fs : List String) → map (to_str rt) (map str fs) ≡ fs
  texts-back [] = refl
  texts-back (f ∷ fs) = rw (to_str-str rt f, texts-back fs) refl

  files_of-texts : (fs : List String) → files_of rt (some (arr (items_of (map str fs)))) ≡ fs
  unfolding files_of
  files_of-texts fs = rw (list_of-items_of (map str fs)) (texts-back fs)

  parse_checkpoint_data-checkpoint_data :
      (c : Checkpoint) → parse_checkpoint_data rt (checkpoint_data rt c) ≡ ok (some c)
  unfolding parse_checkpoint_data checkpoint_data
  parse_checkpoint_data-checkpoint_data c =
      simp
        (payload_laws, times.fromisoformat-isoformat c.created_at, files_of-texts c.files_modified)
        refl

  checkpoint_data-ne-end :
      (c : Checkpoint)
      → (k : String) × (v : Json) × (d : Dict) × (checkpoint_data rt c ≡ field k v d)
  unfolding checkpoint_data
  checkpoint_data-ne-end c = (_, _, _, refl)

  -- One more entry at the end of a list is one more checkpoint at its end.
  dicts-add_item : (d : Dict) (xs : Items) → dicts (add_item (obj d) xs) ≡ dicts xs ++ (d ∷ [])
  unfolding dicts add_item
  dicts-add_item d nil = refl
  dicts-add_item d (cons (obj e) xs) = ap (◌∷◌ e) (dicts-add_item d xs)
  dicts-add_item d (cons v xs) = dicts-add_item d xs

  dict_list-appended :
      (d : Dict) (raw : Option Json)
      → dict_list (some (arr (appended (obj d) raw))) ≡ dict_list raw ++ (d ∷ [])
  unfolding dict_list appended dicts
  dict_list-appended d (some (arr xs)) = dicts-add_item d xs
  dict_list-appended d none = refl
  dict_list-appended d (some v) = refl

  entries-with_entry :
      {W : Type 0} (svc : CheckpointService W) (c : Checkpoint) (found : Option Dict)
      → entries rt svc (some (with_entry rt c found))
        ≡ entries rt svc found ++ (checkpoint_data rt c ∷ [])
  unfolding entries with_entry dict_list get
  entries-with_entry svc c none =
      rw (get-put "checkpoints" "checkpoints" _ _) (dict_list-appended (checkpoint_data rt c) _)
  entries-with_entry svc c (some d) =
      rw (get-put "checkpoints" "checkpoints" _ d)
        (dict_list-appended (checkpoint_data rt c) (get "checkpoints" d))

  parse_all-append :
      (ds : List Dict) (c : Checkpoint) (cs : List Checkpoint)
      → parse_all rt ds ≡ ok cs
      → parse_all rt (ds ++ (checkpoint_data rt c ∷ [])) ≡ ok (cs ++ (c ∷ []))
  unfolding parse_all
  parse_all-append [] c cs h = ground (arith, h, parse_checkpoint_data-checkpoint_data c)
  parse_all-append (d ∷ ds) c cs h = elim (Outcome-cases (parse_checkpoint_data rt d)) [
    | inl (x, e) ↦ elim (Outcome-cases (parse_all rt ds)) [
      | inl (rest, f) ↦ rw (e, parse_all-append ds c rest f) (ground (arith, h, e, f))
      | inr (x, f) ↦ absurd (ground (arith, h, e, f))
    ]
    | inr (x, e) ↦ absurd (ground (arith, h, e))
  ]

leb-total : (a b : ℕ) → leb a b ≡ false → leb b a ≡ true
leb-total a b h = ground arith

module _ {W : Type 0} (rt : Runtime) (svc : CheckpointService W) (cache : Cache W)
    {json_at : W → String → Option Dict} {text_at : W → String → Option String}
    {has_key : W → String → Bool} (laws : JsonLaws cache json_at svc.ttl has_key)
    (texts : TextLaws cache json_at text_at svc.ttl) (times : RuntimeLaws rt) where
  abbrev pub over : CheckpointService W
  over = record svc { cache = some cache }

  -- What a creation leaves in the cache.
  create_checkpoint-stored :
      (c : Checkpoint) (w : W)
      → let (r, w') =
          create_checkpoint rt over c.id c.created_at c.session_id c.user_message_uuid
            c.files_modified w in
        (r ≡ ok c)
        × (json_at w' (checkpoint_key c.id) ≡ some (checkpoint_data rt c))
        × (json_at w' (checkpoints_key c.session_id)
            ≡ some (with_entry rt c (json_at w (checkpoints_key c.session_id))))
        × (text_at w' (uuid_index_key c.user_message_uuid) ≡ some c.id)
  unfolding create_checkpoint cache_checkpoint add_to_session_checkpoints create_uuid_index ◌>>=◌
  create_checkpoint-stored c w =
      let own = checkpoint_key c.id in
      let all = checkpoints_key c.session_id in
      let index = uuid_index_key c.user_message_uuid in
      let d = checkpoint_data rt c in
      let w1 = (cache.set_json own d (some svc.ttl) w).1 in
      let e = with_entry rt c (json_at w1 all) in
      let w2 = (cache.set_json all e (some svc.ttl) w1).1 in
      ground (
        arith,
        laws.set_json_ok own d w,
        laws.json-set_json own d w own,
        laws.json-set_json own d w all,
        laws.get_json_lem all w1,
        laws.set_json_ok all e w1,
        laws.json-set_json all e w1 all,
        laws.json-set_json all e w1 own,
        texts.cache_set_ok index c.id w2,
        texts.text-cache_set index c.id w2 index,
        texts.json-cache_set index c.id w2 own (uuid_index_key-apart c.user_message_uuid c.id),
        texts.json-cache_set index c.id w2 all
            (uuid_index_key-apart_list c.user_message_uuid c.session_id),
        eq_refl own,
        eq_refl all,
        eq_refl index,
        eq_iff own all,
        eq_iff all own,
        checkpoints_key-apart c.session_id c.id,
      )

  get_of_data :
      (c : Checkpoint) (w : W)
      → json_at w (checkpoint_key c.id) ≡ some (checkpoint_data rt c)
      → get_checkpoint rt over c.id w ≡ (ok (some c), w)
  unfolding get_checkpoint ◌>>=◌
  get_of_data c w h = ground (
    arith,
    laws.get_json_lem (checkpoint_key c.id) w,
    checkpoint_data-ne-end rt times c,
    parse_checkpoint_data-checkpoint_data rt times c,
  )

  -- After a checkpoint was created, its id not empty, through a cache that answers, it is found by
  -- its id and by the UUID of its message, and it is valid for its own session and for no other.
  pub get_checkpoint-create_checkpoint :
      (c : Checkpoint) (session_id : String) (w : W)
      → (c.id == "") ≡ false
      → let (r, w') =
          create_checkpoint rt over c.id c.created_at c.session_id c.user_message_uuid
            c.files_modified w in
        (r ≡ ok c)
        × (get_checkpoint rt over c.id w' ≡ (ok (some c), w'))
        × (get_checkpoint_by_user_message_uuid rt over c.user_message_uuid w' ≡ (ok (some c), w'))
        × (validate_checkpoint rt over session_id c.id w' ≡ (ok (c.session_id == session_id), w'))
  unfolding get_checkpoint_by_user_message_uuid validate_checkpoint belongs ◌>>=◌
  get_checkpoint-create_checkpoint c session_id w named =
      let (done, own, all, index) = create_checkpoint-stored c w in
      let w' =
        (create_checkpoint rt over c.id c.created_at c.session_id c.user_message_uuid
          c.files_modified w).1 in
      let found = get_of_data c w' own in
      (
        done,
        found,
        rw (texts.get_text_lem (uuid_index_key c.user_message_uuid) w', index, named) found,
        rw found refl,
      )

  list_of_entries :
      (session_id : String) (w : W)
      → list_checkpoints rt over session_id w ≡ (
        (parse_all rt (entries rt over (json_at w (checkpoints_key session_id))) >>=? λ cs.
            ok (sort oldest_first cs)),
        w,
      )
  unfolding list_checkpoints ◌>>=◌
  list_of_entries session_id w =
      rw (laws.get_json_lem (checkpoints_key session_id) w) (ground arith)

  list-create_of_parsed :
      (c : Checkpoint) (cs : List Checkpoint) (w : W)
      → parse_all rt (entries rt over (json_at w (checkpoints_key c.session_id))) ≡ ok cs
      → let w' =
          (create_checkpoint rt over c.id c.created_at c.session_id c.user_message_uuid
            c.files_modified w).1 in
        list_checkpoints rt over c.session_id w' ≡ (ok (sort oldest_first (cs ++ (c ∷ []))), w')
  list-create_of_parsed c cs w h =
      let (done, own, all, index) = create_checkpoint-stored c w in
      rw
        (
          list_of_entries c.session_id _,
          all,
          entries-with_entry rt times over c _,
          parse_all-append rt times _ c cs h,
        )
        refl

  -- Creating a checkpoint adds it to its session's listing: if the session was listed before with
  -- some checkpoints, it is listed now with those and the new one, the oldest first.
  pub list_checkpoints-create_checkpoint :
      (c : Checkpoint) (before : List Checkpoint) (w : W)
      → list_checkpoints rt over c.session_id w ≡ (ok before, w)
      → let w' =
          (create_checkpoint rt over c.id c.created_at c.session_id c.user_message_uuid
            c.files_modified w).1 in
        (after : List Checkpoint) × (list_checkpoints rt over c.session_id w' ≡ (ok after, w'))
        × Perm after (before ++ (c ∷ []))
        × IsOrdered oldest_first after
  list_checkpoints-create_checkpoint c before w h =
      elim (Outcome-cases
        (parse_all rt (entries rt over (json_at w (checkpoints_key c.session_id))))) [
          | inl (cs, e) ↦
              let sorted : sort oldest_first cs ≡ before =
                ground (arith, e, h, list_of_entries c.session_id w) in
              let now = cs ++ (c ∷ []) in
              (
                sort oldest_first now,
                list-create_of_parsed c cs w e,
                rw (← sorted) (
                    Perm.trans (sort-perm oldest_first now)
                      (Perm.append_right (c ∷ []) (Perm.symm (sort-perm oldest_first cs)))),
                sort-IsOrdered oldest_first (λ a b. leb-total a.created_at b.created_at) now,
              )
          | inr (x, e) ↦ absurd (ground (arith, e, h, list_of_entries c.session_id w))
        ]

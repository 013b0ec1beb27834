-- ===== src/Agent/Tracking.antt =====
-- What `track_file_modifications` keeps of the files of a session.
use claude_agent_api.Json.{obj, arr, float, int, bool, null, Json, str, get, Dict}
use mathlib.Core.List.{append-nil, append_assoc}
use claude_agent_api.Common.{
  if◌then◌else◌, eq_refl, ◌⊎◌, eq_flip, ap, ◌∙◌, sym, subst, eq_iff, String, ◌≡◌, Bool, true, false,
  ◌&&◌, ◌||◌, not, Option, none, some, List, [], ◌∷◌, ◌++◌, ◌==◌, refl, arith, Bool-cases, inl, inr,
}
use claude_agent_api.Agent.Context.{
  tool_result, thinking, text, tool_use, BlockType, Block, StreamContext,
}
use claude_agent_api.Agent.Handlers.{
  path_text, is_tool_use, path_in, add_path, contains, is_named, modified_path, track_files,
  track_file_modifications,
}

-- The tools that change a file.
abbrev pub is_editor : Option String → Bool
is_editor none = false
is_editor (some n) = n == "Write" || n == "Edit"

-- The value is the path, which is not empty.
abbrev pub is_path : Option Json → String → Bool
is_path (some (str s)) path = s == path && not (path == "")
is_path v path = false

abbrev pub has_path : Option Dict → String → Bool
has_path none path = false
has_path (some d) path = is_path (get "file_path" d) path

abbrev pub called : BlockType → Option String → Option Dict → String → Bool
called tool_use name input path = is_editor name && has_path input path
called t name input path = false

-- The block calls Write or Edit for the path.
abbrev pub writes : Block → String → Bool
writes b path = called b.type_ b.name b.input path

-- Some block calls Write or Edit for the path.
abbrev pub modifies : List Block → String → Bool
modifies [] path = false
modifies (b ∷ bs) path = writes b path || modifies bs path

abbrev pub no_repeats : List String → Bool
no_repeats [] = true
no_repeats (x ∷ xs) = not (contains xs x) && no_repeats xs

-- A name that is the same as one in the list adds nothing.
contains-same :
    (xs : List String) (p q : String)
    → contains xs p ≡ true
    → contains xs q ≡ (contains xs q || p == q)
contains-same xs p q e = elim (Bool-cases (p == q)) [
  | inl same ↦ ground (arith, same, subst (λ r. contains xs r ≡ true) ((eq_iff p q).0 same) e)
  | inr apart ↦ ground (arith, apart)
]

contains-append :
    (xs : List String) (p q : String) → contains (xs ++ (p ∷ [])) q ≡ (contains xs q || p == q)
contains-append [] p q = ground arith
contains-append (x ∷ xs) p q = ground (arith, contains-append xs p q)

no_repeats-append :
    (xs : List String) (p : String)
    → contains xs p ≡ false
    → no_repeats (xs ++ (p ∷ [])) ≡ no_repeats xs
no_repeats-append [] p new = refl
no_repeats-append (x ∷ xs) p new =
    ground (
      arith,
      new,
      eq_flip x p,
      contains-append xs p x,
      no_repeats-append xs p (ground (arith, new)),
    )

contains-add_path :
    (path : Option String) (files : List String) (q : String)
    → contains (add_path path files) q ≡ (contains files q || is_named path q)
unfolding add_path
contains-add_path none files q = ground arith
contains-add_path (some p) files q = elim (Bool-cases (contains files p)) [
  | inl e ↦ rw (e) (contains-same files p q e)
  | inr e ↦ rw (e) (contains-append files p q)
]

no_repeats-add_path :
    (path : Option String) (files : List String)
    → no_repeats (add_path path files) ≡ no_repeats files
unfolding add_path
no_repeats-add_path none files = refl
no_repeats-add_path (some p) files = elim (Bool-cases (contains files p)) [
  | inl e ↦ rw (e) refl
  | inr e ↦ rw (e) (no_repeats-append files p e)
]

is_named-filled :
    (s q : String) → is_named (if s == "" then none else some s) q ≡ (s == q && not (q == ""))
is_named-filled s q = elim (Bool-cases (s == q)) [
  | inl same ↦
      let blank : (s == "") ≡ (q == "") = ap (λ t. t == "") ((eq_iff s q).0 same) in
      elim (Bool-cases (s == "")) [
        | inl e ↦ ground (arith, e, blank, same)
        | inr e ↦ ground (arith, e, blank, same)
      ]
  | inr apart ↦ ground (arith, apart)
]

is_named-path_text : (v : Option Json) (q : String) → is_named (path_text v) q ≡ is_path v q
unfolding path_text
is_named-path_text (some (str s)) q = is_named-filled s q
is_named-path_text none q = refl
is_named-path_text (some null) q = refl
is_named-path_text (some (bool b)) q = refl
is_named-path_text (some (int n)) q = refl
is_named-path_text (some (float n)) q = refl
is_named-path_text (some (arr vs)) q = refl
is_named-path_text (some (obj d)) q = refl

-- The path of a block is the one it writes.
is_named-path_in :
    (input : Option Dict) (q : String) → is_named (path_in input) q ≡ has_path input q
unfolding path_in
is_named-path_in none q = refl
is_named-path_in (some d) q = is_named-path_text (get "file_path" d) q

is_named-modified :
    (t : BlockType) (name : Option String) (input : Option Dict) (q : String)
    → is_named
        (if is_tool_use t && (is_named name "Write" || is_named name "Edit")
          then path_in input
          else none)
        q
      ≡ called t name input q
is_named-modified tool_use none input q = refl
is_named-modified tool_use (some n) input q = elim (Bool-cases (n == "Write" || n == "Edit")) [
  | inl e ↦ rw (e) (is_named-path_in input q)
  | inr e ↦ rw (e) refl
]
is_named-modified text name input q = refl
is_named-modified thinking name input q = refl
is_named-modified tool_result name input q = refl

is_named-modified_path : (b : Block) (q : String) → is_named (modified_path b) q ≡ writes b q
unfolding modified_path
is_named-modified_path b q = is_named-modified b.type_ b.name b.input q

-- add_path is the step of the loop.
contains-track_files :
    (bs : List Block) (files : List String) (q : String)
    → contains (track_files bs files) q ≡ (contains files q || modifies bs q)
unfolding track_files
contains-track_files [] files q = ground arith
contains-track_files (b ∷ bs) files q = ground (
  arith,
  contains-track_files bs (add_path (modified_path b) files) q,
  contains-add_path (modified_path b) files q,
  is_named-modified_path b q,
)

no_repeats-track_files :
    (bs : List Block) (files : List String) → no_repeats (track_files bs files) ≡ no_repeats files
unfolding track_files
no_repeats-track_files [] files = refl
no_repeats-track_files (b ∷ bs) files =
    no_repeats-track_files bs (add_path (modified_path b) files)
    ∙ no_repeats-add_path (modified_path b) files

-- A step leaves the list, or adds a path that is not in it.
add_path-cases :
    (path : Option String) (files : List String)
    → (add_path path files ≡ files)
      ⊎ ((p : String) × (contains files p ≡ false) × (add_path path files ≡ files ++ (p ∷ [])))
unfolding add_path
add_path-cases none files = inl refl
add_path-cases (some p) files = elim (Bool-cases (contains files p)) [
  | inl e ↦ inl (rw (e) refl)
  | inr e ↦ inr (p, e, rw (e) refl)
]

-- What is added: each path once, and none that was there.
AddedTo : List String → List String → Type 0
AddedTo files new =
    (no_repeats new ≡ true) × ((p : String) → (contains files p && contains new p) ≡ false)

nothing_added : (files : List String) → AddedTo files []
unfolding AddedTo
nothing_added files = (refl, λ p. ground arith)

AddedTo-cons :
    (files new : List String) (p : String)
    → contains files p ≡ false
    → AddedTo (files ++ (p ∷ [])) new
    → AddedTo files (p ∷ new)
unfolding AddedTo
AddedTo-cons files new p free (once, apart) = (
  ground (arith, once, apart p, contains-append files p p, eq_refl p),
  λ q. elim (Bool-cases (p == q)) [
    | inl same ↦
        let here : contains files q ≡ false =
          subst (λ r. contains files r ≡ false) ((eq_iff p q).0 same) free in
        ground (arith, here)
    | inr other ↦ ground (arith, other, apart q, contains-append files p q)
  ],
)

grown-track_files :
    (bs : List Block) (files : List String)
    → (new : List String) × (track_files bs files ≡ files ++ new) × AddedTo files new
unfolding track_files
grown-track_files [] files = ([], sym (append-nil files), nothing_added files)
grown-track_files (b ∷ bs) files = elim (add_path-cases (modified_path b) files) [
  | inl kept ↦ rw (kept) (grown-track_files bs files)
  | inr (p, free, added) ↦
      let (new, e, fresh) = grown-track_files bs (files ++ (p ∷ [])) in
      rw (added) (p ∷ new, e ∙ append_assoc files (p ∷ []) new, AddedTo-cons files new p free fresh)
]

-- The files of a session only grow, at the end of the list; each file that is added is added once
-- and was not in the list; a file is in the list afterwards exactly if it was before or some block
-- of the message is a Write or an Edit whose `file_path` it is, and not empty; and the list repeats
-- a file afterwards exactly if it did before.
pub track_file_modifications_lem :
    (blocks : List Block) (ctx : StreamContext)
    → let before = ctx.files_modified in
      let after = (track_file_modifications blocks ctx).files_modified in
      ((new : List String) × (after ≡ before ++ new)
        × (no_repeats new ≡ true)
        × ((p : String) → (contains before p && contains new p) ≡ false))
      × ((path : String) → contains after path ≡ (contains before path || modifies blocks path))
      × (no_repeats after ≡ no_repeats before)
unfolding track_file_modifications AddedTo
track_file_modifications_lem blocks ctx =
    let (new, grown, fresh) = grown-track_files blocks ctx.files_modified in
    (
      (new, grown, fresh.0, fresh.1),
      contains-track_files blocks ctx.files_modified,
      no_repeats-track_files blocks ctx.files_modified,
    )

-- ===== src/Witnesses/Store.antt =====
-- A cache with payloads, texts and sets.
use claude_agent_api.Resources.Shelves.{ShelfLaws}
use claude_agent_api.Agent.Handlers.{contains}
use claude_agent_api.Common.{
  ◌≡◌, inr, inl, Bool-cases, eq_refl, ◌∷◌, List, ne-eq, ℕ, String, refl, Bool, true, false, ◌||◌,
  Option, none, some, [], map, ◌==◌, if◌then◌else◌, arith,
}
use claude_agent_api.Exec.{ok}
use claude_agent_api.Interfaces.{Cache}
use claude_agent_api.Json.{Dict}
use claude_agent_api.Stores.{JsonLaws, TextLaws}
use claude_agent_api.Agent.Signals.{MarkerLaws}
use claude_agent_api.Witnesses.World.{is_some, answer}

pub record Store : Type 0 where
  pub docs : String → Option Dict
  pub texts : String → Option String
  pub sets : String → List String

abbrev pub doc_at : Store → String → Option Dict
doc_at w k = w.docs k

abbrev pub text_at : Store → String → Option String
text_at w k = w.texts k

abbrev pub is_text : Option String → Bool
is_text none = false
is_text (some s) = true

abbrev pub has_entry : Store → String → Bool
has_entry w k = is_text (w.texts k) || is_some (w.docs k)

abbrev pub write_doc : String → Option Dict → Store → Store
write_doc k d w = record w { docs = λ j. if k == j then d else w.docs j }

abbrev pub write_text : String → Option String → Store → Store
write_text k s w = record w { texts = λ j. if k == j then s else w.texts j }

abbrev pub write_set : String → List String → Store → Store
write_set k xs w = record w { sets = λ j. if k == j then xs else w.sets j }

abbrev pub insert : String → List String → List String
insert v xs = if contains xs v then xs else v ∷ xs

abbrev pub without : String → List String → List String
without v [] = []
without v (x ∷ xs) = if x == v then without v xs else x ∷ without v xs

-- A payload and a text do not share a key: the last write stays.
abbrev pub store : Cache Store
store = record {
  get_text = λ k w. (ok (w.texts k), w);
  cache_set = λ k v t w. (ok true, write_doc k none (write_text k (some v) w));
  delete = λ k w. (ok (has_entry w k), write_doc k none (write_text k none w));
  exists = λ k w. (ok (has_entry w k), w);
  expire = λ k t. answer true;
  add_to_set = λ k v w. (ok true, write_set k (insert v (w.sets k)) w);
  remove_from_set = λ k v w. (ok true, write_set k (without v (w.sets k)) w);
  set_members = λ k w. (ok (w.sets k), w);
  acquire_lock = λ k t. answer (some "value");
  release_lock = λ k v. answer true;
  scan_keys = λ p n. answer [];
  get_json = λ k w. (ok (w.docs k), w);
  get_many_json = λ ks w. (ok (map (doc_at w) ks), w);
  set_json = λ k d t w. (ok true, write_doc k (some d) (write_text k none w));
}

abbrev pub empty_store : Store
empty_store = record { docs = λ k. none; texts = λ k. none; sets = λ k. [] }

pub store-JsonLaws : {ttl : ℕ} → JsonLaws store doc_at ttl has_entry
store-JsonLaws = record {
  get_json_lem = λ k w. refl;
  set_json_ok = λ k d w. refl;
  json-set_json = λ k d w j. refl;
  delete_ok = λ k w. refl;
  json-delete = λ k w j. refl;
  has_of_json = λ k w d h. ground (arith, h);
}

pub store-TextLaws : {ttl : ℕ} → TextLaws store doc_at text_at ttl
store-TextLaws = record {
  get_text_lem = λ k w. refl;
  cache_set_ok = λ k t w. refl;
  text-cache_set = λ k t w j. refl;
  json-cache_set = λ k t w j apart. rw (ne-eq k j apart) refl;
}

pub store-MarkerLaws : MarkerLaws store has_entry
store-MarkerLaws = record {
  exists_lem = λ k w. refl;
  write_ok = λ k t ttl w. refl;
  has-write = λ k t ttl w j. ground arith;
  remove_ok = λ k w. (has_entry w k, refl);
  has-remove = λ k w j. ground arith;
}

contains-insert : (v : String) (xs : List String) → contains (insert v xs) v ≡ true
contains-insert v xs = elim (Bool-cases (contains xs v)) [
  | inl e ↦ rw (e) e
  | inr e ↦ rw (e, eq_refl v) refl
]

abbrev members_of : String → Store → List String
members_of index_key w = w.sets index_key

pub store-ShelfLaws : (index_key : String) → ShelfLaws store doc_at index_key (members_of index_key)
store-ShelfLaws index_key = record {
  set_members_lem = λ w. refl;
  get_json_lem = λ k w. refl;
  get_many_lem = λ ks w. refl;
  set_json_ok = λ k d w. refl;
  json-set_json = λ k d w j. refl;
  add_ok = λ v w. (true, refl);
  json-add = λ v w j. refl;
  contains-add = λ v w. rw (eq_refl index_key) (contains-insert v (w.sets index_key));
  remove_ok = λ v w. (true, refl);
  json-remove = λ v w j. refl;
  delete_ok = λ k w. (has_entry w k, refl);
  json-delete = λ k w j. refl;
}

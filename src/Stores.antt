-- ===== src/Stores.antt =====
-- What the services rely on of a cache: the documented behaviour of `protocols.Cache`, stated for
-- a cache that answers. `json_at w k` is the payload under a key of the world `w`, and `has_key`
-- tells whether there is anything under it.
use claude_agent_api.Common.{
  ℕ, String, ◌≡◌, ◌≢◌, Bool, true, Option, none, some, ◌==◌, if◌then◌else◌,
}
use claude_agent_api.Exec.{ok}
use claude_agent_api.Json.{Dict}
use claude_agent_api.Interfaces.{Cache, SessionRepository, SessionRow}

module _ {W : Type 0} (c : Cache W) (json_at : W → String → Option Dict) where
  -- A write is seen by every later read of its key and of no other, until a delete. The lifetime
  -- that the client gives its entries is `ttl`; no time passes between the calls.
  pub record JsonLaws (ttl : ℕ) (has_key : W → String → Bool) : Type 0 where
    pub get_json_lem : (k : String) (w : W) → c.get_json k w ≡ (ok (json_at w k), w)
    pub set_json_ok : (k : String) (d : Dict) (w : W) → (c.set_json k d (some ttl) w).0 ≡ ok true
    pub json-set_json :
        (k : String) (d : Dict) (w : W) (j : String)
        → json_at (c.set_json k d (some ttl) w).1 j ≡ (if k == j then some d else json_at w j)
    pub delete_ok : (k : String) (w : W) → (c.delete k w).0 ≡ ok (has_key w k)
    pub json-delete :
        (k : String) (w : W) (j : String)
        → json_at (c.delete k w).1 j ≡ (if k == j then none else json_at w j)
    pub has_of_json : (k : String) (w : W) (d : Dict) → json_at w k ≡ some d → has_key w k ≡ true

  -- The removal of a member can only remove the set's own key.
  pub record HasLaws (has_key : W → String → Bool) : Type 0 where
    pub has-remove_from_set :
        (k v : String) (w : W) (j : String)
        → k ≢ j
        → has_key (c.remove_from_set k v w).1 j ≡ has_key w j

  -- The sets of the owner index live apart from the payloads.
  pub record IndexLaws (ttl : ℕ) : Type 0 where
    pub add_to_set_ok : (k v : String) (w : W) → (b : Bool) × ((c.add_to_set k v w).0 ≡ ok b)
    pub json-add_to_set :
        (k v : String) (w : W) (j : String) → json_at (c.add_to_set k v w).1 j ≡ json_at w j
    pub expire_ok : (k : String) (w : W) → (b : Bool) × ((c.expire k ttl w).0 ≡ ok b)
    pub json-expire :
        (k : String) (w : W) (j : String) → json_at (c.expire k ttl w).1 j ≡ json_at w j
    pub remove_from_set_ok :
        (k v : String) (w : W) → (b : Bool) × ((c.remove_from_set k v w).0 ≡ ok b)
    pub json-remove_from_set :
        (k v : String) (w : W) (j : String) → json_at (c.remove_from_set k v w).1 j ≡ json_at w j

-- The texts of the cache stand beside its payloads: a write under one key leaves the others.
module _ {W : Type 0} (c : Cache W) (json_at : W → String → Option Dict)
    (text_at : W → String → Option String) where
  pub record TextLaws (ttl : ℕ) : Type 0 where
    pub get_text_lem : (k : String) (w : W) → c.get_text k w ≡ (ok (text_at w k), w)
    pub cache_set_ok : (k t : String) (w : W) → (c.cache_set k t (some ttl) w).0 ≡ ok true
    pub text-cache_set :
        (k t : String) (w : W) (j : String)
        → text_at (c.cache_set k t (some ttl) w).1 j ≡ (if k == j then some t else text_at w j)
    pub json-cache_set :
        (k t : String) (w : W) (j : String)
        → k ≢ j
        → json_at (c.cache_set k t (some ttl) w).1 j ≡ json_at w j

-- What is relied on of the database: a read gives the row under the id, a delete of a row returns,
-- and the cache and the database do not touch each other's contents.
module _ {W : Type 0} (c : Cache W) (repo : SessionRepository W)
    (json_at : W → String → Option Dict) (row_at : W → String → Option SessionRow) where
  pub record RowLaws : Type 0 where
    pub get_row_lem : (u : String) (w : W) → repo.get_row u w ≡ (ok (row_at w u), w)
    pub delete_row_ok : (u : String) (w : W) → (b : Bool) × ((repo.delete_row u w).0 ≡ ok b)
    pub row-delete_row :
        (u : String) (w : W) (v : String)
        → row_at (repo.delete_row u w).1 v ≡ (if u == v then none else row_at w v)
    pub json-delete_row :
        (u : String) (w : W) (j : String) → json_at (repo.delete_row u w).1 j ≡ json_at w j
    pub row-delete : (k : String) (w : W) (u : String) → row_at (c.delete k w).1 u ≡ row_at w u
    pub row-remove_from_set :
        (k v : String) (w : W) (u : String) → row_at (c.remove_from_set k v w).1 u ≡ row_at w u

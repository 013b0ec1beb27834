-- ===== src/Redis/Locks.antt =====
-- apps/api/adapters/cache.py: clients that take and release one lock through the adapter, as a
-- relation between the states that their calls lead through.
pub mod Exclusion
use claude_agent_api.Common.{
  ℕ, ◌<◌, String, ◌≡◌, ◌≢◌, Bool, true, Option, none, some, ◌=ℕ◌, if◌then◌else◌,
}
use claude_agent_api.Exec.{Outcome, ok, raise, pure}
use claude_agent_api.Redis.Client.{Codec, RedisClient}
use claude_agent_api.Redis.Adapter.{lock_name, release_script, acquire_lock, release_lock}

module _ {W B : Type 0} (codec : Codec B) (client : RedisClient W B)
    (text_at : W → String → Option String) where
  -- SET with NX writes exactly if there is nothing; Redis runs a script as one command.
  pub record LockLaws : Type 0 where
    pub nx_free :
        (k s : String) (t : ℕ) (w : W)
        → 0 < t
        → text_at w k ≡ none
        → ((client.set_nx k (codec.encode s) t w).0 ≡ ok (some true))
          × (text_at (client.set_nx k (codec.encode s) t w).1 k ≡ some s)
    pub nx_taken :
        (k s u : String) (t : ℕ) (w : W)
        → text_at w k ≡ some u
        → ((client.set_nx k (codec.encode s) t w).0 ≡ ok none)
          × (text_at (client.set_nx k (codec.encode s) t w).1 k ≡ some u)
    pub script_own :
        (k v : String) (w : W)
        → text_at w k ≡ some v
        → ((client.eval release_script k v w).0 ≡ ok 1)
          × (text_at (client.eval release_script k v w).1 k ≡ none)
    pub script_other :
        (k v : String) (w : W)
        → text_at w k ≢ some v
        → ((client.eval release_script k v w).0 ≡ ok 0)
          × (text_at (client.eval release_script k v w).1 k ≡ text_at w k)

  abbrev pub taken : Outcome (Option String) → Option String
  taken (ok v) = v
  taken (raise e) = none

  abbrev pub update : (ℕ → Option String) → ℕ → Option String → ℕ → Option String
  update f i v j = if i =ℕ j then v else f j

  -- The shared store, and for each client the value that it holds the lock with.
  pub record System : Type 0 where
    pub world : W
    pub held : ℕ → Option String

  module _ (key : String) (ttl : ℕ) where
    -- One call of one client, or something else that happens to the store. `lapse` is the end of
    -- the lock's lifetime.
    pub data Step (may_lapse : Bool) (s t : System) : Type 0 where
      acquire :
          (i : ℕ) (v : String)
          → s.held i ≡ none
          → ((j : ℕ) → s.held j ≢ some v)
          → t.world ≡ (acquire_lock codec client (pure v) key ttl none s.world).1
          → t.held
            ≡ update s.held i (taken (acquire_lock codec client (pure v) key ttl none s.world).0)
          → Step may_lapse s t
      release :
          (i : ℕ) (v : String)
          → s.held i ≡ some v
          → t.world ≡ (release_lock codec client key v s.world).1
          → t.held ≡ update s.held i none
          → Step may_lapse s t
      lapse :
          may_lapse ≡ true
          → text_at t.world (lock_name key) ≡ none
          → t.held ≡ s.held
          → Step may_lapse s t
      elsewhere :
          text_at t.world (lock_name key) ≡ text_at s.world (lock_name key)
          → t.held ≡ s.held
          → Step may_lapse s t

    pub data Reach (may_lapse : Bool) (s : System) : System → Type 0 where
      start : Reach may_lapse s s
      later : {t u : System} → Reach may_lapse s t → Step may_lapse t u → Reach may_lapse s u

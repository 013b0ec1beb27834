-- ===== src/Witnesses/World.antt =====
-- An in-memory cache and database, a clock, and the parts of Python's library as simple functions.
use claude_agent_api.Common.{
  ℕ, zero, suc, ◌+◌, String, ◌≡◌, refl, ap, Bool, true, false, Option, none, some, [], map, ◌==◌,
  if◌then◌else◌,
}
use claude_agent_api.Common.Int.{pos}
use claude_agent_api.Exec.{ok, Exec}
use claude_agent_api.Interfaces.{Cache, SessionRepository, SessionRow}
use claude_agent_api.Json.{Dict}
use claude_agent_api.Runtime.{Runtime, RuntimeLaws}
use claude_agent_api.Sessions.Locks.{Timing}
use claude_agent_api.Sessions.Service.{SessionService}

pub record World : Type 0 where
  pub docs : String → Option Dict
  pub rows : String → Option SessionRow
  pub clock : ℕ

abbrev pub json_at : World → String → Option Dict
json_at w k = w.docs k

abbrev pub row_at : World → String → Option SessionRow
row_at w u = w.rows u

abbrev pub is_some : Option Dict → Bool
is_some none = false
is_some (some d) = true

abbrev pub has_key : World → String → Bool
has_key w k = is_some (w.docs k)

abbrev pub write_doc : String → Option Dict → World → World
write_doc k d w = record w { docs = λ j. if k == j then d else w.docs j }

abbrev pub write_row : String → Option SessionRow → World → World
write_row u r w = record w { rows = λ v. if u == v then r else w.rows v }

abbrev pub answer : {W A : Type 0} → A → Exec W A
answer a w = (ok a, w)

-- Keys never expire here, the sets of the owner index are not kept, and every lock is free.
abbrev pub memory : Cache World
memory = record {
  get_text = λ k. answer none;
  cache_set = λ k v t. answer true;
  delete = λ k w. (ok (has_key w k), write_doc k none w);
  exists = λ k w. (ok (has_key w k), w);
  expire = λ k t. answer true;
  add_to_set = λ k v. answer true;
  remove_from_set = λ k v. answer true;
  set_members = λ k. answer [];
  acquire_lock = λ k t. answer (some "value");
  release_lock = λ k v. answer true;
  scan_keys = λ p n. answer [];
  get_json = λ k w. (ok (json_at w k), w);
  get_many_json = λ ks w. (ok (map (json_at w) ks), w);
  set_json = λ k d t w. (ok true, write_doc k (some d) w);
}

-- every lock is taken
abbrev pub busy : Cache World
busy = record memory { acquire_lock = λ k t. answer none }

abbrev pub fresh_row : String → String → Option String → Option String → SessionRow
fresh_row id model parent owner = record {
  id = id;
  model = model;
  status = "active";
  total_turns = pos 0;
  total_cost_usd = none;
  parent_session_id = parent;
  owner_api_key_hash = owner;
  created_at = 0;
  updated_at = 0;
  session_metadata = none;
}

abbrev pub table : SessionRepository World
table = record {
  create = λ id model parent owner w. (
    ok (fresh_row id model parent owner),
    write_row id (some (fresh_row id model parent owner)) w,
  );
  get_row = λ u w. (ok (row_at w u), w);
  update = λ u s t c w. (ok (row_at w u), w);
  update_metadata = λ u d w. (ok (row_at w u), w);
  list_rows = λ o l s f. answer ([], 0);
  delete_row = λ u w. (ok true, write_row u none w);
}

-- a time as so many strokes
abbrev pub strokes : ℕ → String
strokes zero = String.[]
strokes (suc n) = String.◌∷◌ "x" (strokes n)

abbrev pub count_strokes : String → ℕ
count_strokes String.[] = 0
count_strokes (String.◌∷◌ c s) = suc (count_strokes s)

pub count_strokes-strokes : (n : ℕ) → count_strokes (strokes n) ≡ n
count_strokes-strokes zero = refl
count_strokes-strokes (suc n) = ap suc (count_strokes-strokes n)

abbrev pub python : Runtime
python = record {
  repr = λ v. "";
  int_of_float = λ n. ok (pos n);
  int_of_str = λ s. ok (pos 0);
  float_of_int = λ z. ok 0;
  float_of_str = λ s. ok 0;
  float_of_decimal = λ s. 0;
  isoformat = strokes;
  fromisoformat = λ s. ok (count_strokes s);
  uuid = ok;
  sha256_hex = λ s. s;
  lower = λ s. s;
}

pub python-laws : RuntimeLaws python
python-laws = record {
  fromisoformat-isoformat = λ t. ap ok (count_strokes-strokes t);
  lower_active = refl;
  lower_completed = refl;
  lower_error = refl;
}

abbrev pub ticking : Timing World
ticking = record {
  monotonic = λ w. w.clock;
  sleep_about = λ d w. record w { clock = suc (w.clock + d) };
}

abbrev pub service : SessionService World
service = record {
  cache = some memory;
  db_repo = some table;
  ttl = 3600;
  timing = ticking;
  rounds = 6;
}

abbrev pub empty : World
empty = record { docs = λ k. none; rows = λ u. none; clock = 0 }

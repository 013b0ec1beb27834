-- ===== src/Json.antt =====
-- apps/api/types.py: `JsonValue`, with the operations of Python's `dict` and `list` on it.
use claude_agent_api.Common.{
  ℕ, String, ◌≡◌, refl, Bool, true, false, Option, none, some, List, [], ◌∷◌, arith, ◌==◌, eq_iff,
  if◌then◌else◌,
}
use claude_agent_api.Common.Int.{ℤ}

-- A float is its 64-bit pattern. A dict lists its entries in insertion order.
mutual
  pub data Json : Type 0 where
    null : Json
    bool : Bool → Json
    int : ℤ → Json
    float : ℕ → Json
    str : String → Json
    arr : Items → Json
    obj : Dict → Json

  pub data Items : Type 0 where
    nil : Items
    cons : Json → Items → Items

  pub data Dict : Type 0 where
    end : Dict
    field : String → Json → Dict → Dict

abbrev pub items_of : List Json → Items
items_of [] = nil
items_of (x ∷ xs) = cons x (items_of xs)

abbrev pub list_of : Items → List Json
list_of nil = []
list_of (cons x xs) = x ∷ list_of xs

-- d.get(k)
unfoldable pub get : String → Dict → Option Json
get k end = none
get k (field j v d) = if j == k then some v else get k d

-- d[k] = v
unfoldable pub put : String → Json → Dict → Dict
put k v end = field k v end
put k v (field j w d) = if j == k then field k v d else field j w (put k v d)

-- `not d`
abbrev pub is_empty : Dict → Bool
is_empty end = true
is_empty (field k v d) = false

-- {k: v for k, v in d.items() if isinstance(v, str)}, the `dict[str, str]` of a payload
unfoldable pub strings : Dict → List (String × String)
strings end = []
strings (field k (str s) d) = (k, s) ∷ strings d
strings (field k v d) = strings d

-- dict(m) for m : dict[str, str]
unfoldable pub of_strings : List (String × String) → Dict
of_strings [] = end
of_strings ((k, s) ∷ m) = field k (str s) (of_strings m)

-- None or a string
abbrev pub opt_str : Option String → Json
opt_str none = null
opt_str (some s) = str s

abbrev pub opt_int : Option ℤ → Json
opt_int none = null
opt_int (some n) = int n

abbrev pub opt_float : Option ℕ → Json
opt_float none = null
opt_float (some x) = float x

abbrev pub opt_obj : Option Dict → Json
opt_obj none = null
opt_obj (some d) = obj d

-- `dict(d) if d else None`
abbrev pub truthy_obj : Option Dict → Json
truthy_obj none = null
truthy_obj (some end) = null
truthy_obj (some (field k v d)) = obj (field k v d)

pub list_of-items_of : (xs : List Json) → list_of (items_of xs) ≡ xs
list_of-items_of [] = refl
list_of-items_of (x ∷ xs) = λ i. x ∷ list_of-items_of xs i

pub strings-of_strings : (m : List (String × String)) → strings (of_strings m) ≡ m
unfolding strings of_strings
strings-of_strings [] = refl
strings-of_strings (e ∷ m) = λ i. e ∷ strings-of_strings m i

pub get-put :
    (k j : String) (v : Json) (d : Dict) → get j (put k v d) ≡ (if k == j then some v else get j d)
unfolding get put
get-put k j v end = refl
get-put k j v (field i w d) = ground (arith, eq_iff k j, eq_iff i k, eq_iff i j, get-put k j v d)

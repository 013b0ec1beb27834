-- ===== src/Witnesses/Codec.antt =====
-- A text form of dicts that is read back: tags, numbers and lengths in strokes.
use Prim.Native.Char.{Char, code}
use text.Mathlib.TextLemmas.{cons-ne-nil}
use claude_agent_api.Common.{
  ℕ, zero, suc, ◌+◌, ◌≤◌, String, ◌≡◌, refl, Bool, true, false, Option, none, some, arith, ◌=ℕ◌,
  ◌==◌, eq_iff, Bool-cases, inl, inr,
}
use claude_agent_api.Common.Int.{pos, negsuc}
use claude_agent_api.Exec.{ok}
use claude_agent_api.Json.{
  Json, Items, Dict, null, bool, int, float, str, arr, obj, nil, cons, end, field,
}
use claude_agent_api.Redis.Client.{Codec, CodecLaws}

abbrev is_stroke : Char → Bool
is_stroke c = code c =ℕ 120

put_nat : ℕ → String → String
put_nat zero r = String.◌∷◌ "y" r
put_nat (suc n) r = String.◌∷◌ "x" (put_nat n r)

get_nat : String → ℕ × String
get_nat String.[] = (0, "")
get_nat (String.◌∷◌ c s) =
    let (n, r) = get_nat s in elim (is_stroke c) [ true ↦ (suc n, r) | false ↦ (0, s) ]

get_nat-put_nat : (n : ℕ) (r : String) → get_nat (put_nat n r) ≡ (n, r)
unfolding get_nat put_nat
get_nat-put_nat zero r = refl
get_nat-put_nat (suc n) r = rw (get_nat-put_nat n r) refl

put_text : String → String → String
put_text String.[] r = String.◌∷◌ "y" r
put_text (String.◌∷◌ c s) r = String.◌∷◌ "x" (String.◌∷◌ c (put_text s r))

get_text : String → String × String
get_text String.[] = ("", "")
get_text (String.◌∷◌ c String.[]) = ("", "")
get_text (String.◌∷◌ c (String.◌∷◌ d s)) =
    let (t, r) = get_text s in
    elim (is_stroke c) [ true ↦ (String.◌∷◌ d t, r) | false ↦ ("", String.◌∷◌ d s) ]

get_text-put_text : (s r : String) → get_text (put_text s r) ≡ (s, r)
unfolding get_text put_text
get_text-put_text String.[] String.[] = refl
get_text-put_text String.[] (String.◌∷◌ d r) = refl
get_text-put_text (String.◌∷◌ c s) r = rw (get_text-put_text s r) refl

mutual
  size : Json → ℕ
  size (arr xs) = suc (size_items xs)
  size (obj d) = suc (size_dict d)
  size v = 1

  size_items : Items → ℕ
  size_items nil = 1
  size_items (cons v xs) = suc (size v + size_items xs)

  size_dict : Dict → ℕ
  size_dict end = 1
  size_dict (field k v d) = suc (size v + size_dict d)

mutual
  put_json : Json → String → String
  put_json null r = put_nat 0 r
  put_json (bool false) r = put_nat 1 r
  put_json (bool true) r = put_nat 2 r
  put_json (int (pos n)) r = put_nat 3 (put_nat n r)
  put_json (int (negsuc n)) r = put_nat 4 (put_nat n r)
  put_json (float n) r = put_nat 5 (put_nat n r)
  put_json (str s) r = put_nat 6 (put_text s r)
  put_json (arr xs) r = put_nat 7 (put_items xs r)
  put_json (obj d) r = put_nat 8 (put_dict d r)

  put_items : Items → String → String
  put_items nil r = put_nat 0 r
  put_items (cons v xs) r = put_nat 1 (put_json v (put_items xs r))

  put_dict : Dict → String → String
  put_dict end r = put_nat 0 r
  put_dict (field k v d) r = put_nat 1 (put_text k (put_json v (put_dict d r)))

abbrev or_end : {A : Type 0} → ℕ → A → A → A
or_end zero a b = a
or_end (suc _) a b = b

-- What a tag is followed by; the list and the dict are read in advance.
tagged : ℕ → String → Items × String → Dict × String → Json × String
tagged (suc zero) r l o = (bool false, r)
tagged (suc (suc zero)) r l o = (bool true, r)
tagged (suc (suc (suc zero))) r l o = let (n, t) = get_nat r in (int (pos n), t)
tagged (suc (suc (suc (suc zero)))) r l o = let (n, t) = get_nat r in (int (negsuc n), t)
tagged (suc (suc (suc (suc (suc zero))))) r l o = let (n, t) = get_nat r in (float n, t)
tagged (suc (suc (suc (suc (suc (suc zero)))))) r l o = let (s, t) = get_text r in (str s, t)
tagged (suc (suc (suc (suc (suc (suc (suc zero))))))) r (xs, t) o = (arr xs, t)
tagged (suc (suc (suc (suc (suc (suc (suc (suc zero)))))))) r l (d, t) = (obj d, t)
tagged _ r l o = (null, r)

mutual
  get_json : ℕ → String → Json × String
  get_json zero s = (null, s)
  get_json (suc f) s = let (tag, r) = get_nat s in tagged tag r (get_items f r) (get_dict f r)

  get_items : ℕ → String → Items × String
  get_items zero s = (nil, s)
  get_items (suc f) s =
      let (tag, r) = get_nat s in
      let (v, t) = get_json f r in let (xs, u) = get_items f t in or_end tag (nil, r) (cons v xs, u)

  get_dict : ℕ → String → Dict × String
  get_dict zero s = (end, s)
  get_dict (suc f) s =
      let (tag, r) = get_nat s in
      let (k, a) = get_text r in
      let (v, t) = get_json f a in let (d, u) = get_dict f t in or_end tag (end, r) (field k v d, u)

size-pos : (v : Json) → size v ≤ 0 → ⊥
unfolding size
size-pos (arr xs) h = omega (arith, h)
size-pos (obj d) h = omega (arith, h)
size-pos v h = omega (arith, h)

mutual
  unfolding get_json tagged get_items get_dict put_json put_items put_dict size size_items size_dict

  json_back : (v : Json) (f : ℕ) (r : String) → size v ≤ f → get_json f (put_json v r) ≡ (v, r)
  json_back v zero r h = absurd (size-pos v h)
  json_back null (suc f) r h = rw (get_nat-put_nat 0 r) refl
  json_back (bool false) (suc f) r h = rw (get_nat-put_nat 1 r) refl
  json_back (bool true) (suc f) r h = rw (get_nat-put_nat 2 r) refl
  json_back (int (pos n)) (suc f) r h =
      rw (get_nat-put_nat 3 (put_nat n r), get_nat-put_nat n r) refl
  json_back (int (negsuc n)) (suc f) r h =
      rw (get_nat-put_nat 4 (put_nat n r), get_nat-put_nat n r) refl
  json_back (float n) (suc f) r h = rw (get_nat-put_nat 5 (put_nat n r), get_nat-put_nat n r) refl
  json_back (str s) (suc f) r h = rw (get_nat-put_nat 6 (put_text s r), get_text-put_text s r) refl
  json_back (arr xs) (suc f) r h =
      rw (get_nat-put_nat 7 (put_items xs r), items_back xs f r (omega (arith, h))) refl
  json_back (obj d) (suc f) r h =
      rw (get_nat-put_nat 8 (put_dict d r), dict_back d f r (omega (arith, h))) refl

  items_back :
      (xs : Items) (f : ℕ) (r : String) → size_items xs ≤ f → get_items f (put_items xs r) ≡ (xs, r)
  items_back nil zero r h = absurd (omega (arith, h))
  items_back (cons v xs) zero r h = absurd (omega (arith, h))
  items_back nil (suc f) r h = rw (get_nat-put_nat 0 r) refl
  items_back (cons v xs) (suc f) r h =
      rw
        (
          get_nat-put_nat 1 (put_json v (put_items xs r)),
          json_back v f (put_items xs r) (omega (arith, h)),
          items_back xs f r (omega (arith, h)),
        )
        refl

  dict_back : (d : Dict) (f : ℕ) (r : String) → size_dict d ≤ f → get_dict f (put_dict d r) ≡ (d, r)
  dict_back end zero r h = absurd (omega (arith, h))
  dict_back (field k v d) zero r h = absurd (omega (arith, h))
  dict_back end (suc f) r h = rw (get_nat-put_nat 0 r) refl
  dict_back (field k v d) (suc f) r h =
      rw
        (
          get_nat-put_nat 1 (put_text k (put_json v (put_dict d r))),
          get_text-put_text k (put_json v (put_dict d r)),
          json_back v f (put_dict d r) (omega (arith, h)),
          dict_back d f r (omega (arith, h)),
        )
        refl

-- The size comes first.
unfoldable pub dumps : Dict → String
unfolding put_nat size_dict put_dict put_text
dumps d = String.◌∷◌ "y" (put_nat (size_dict d) (put_dict d ""))

unfoldable pub loads : String → Option Dict
unfolding get_nat get_dict get_text tagged
loads String.[] = none
loads (String.◌∷◌ c s) = let (n, r) = get_nat s in some (get_dict n r).0

abbrev pub codec : Codec String
codec = record { encode = λ s. s; decode = ok; dumps = dumps; loads = loads; strip = λ s. s }

loads-dumps : (d : Dict) → loads (dumps d) ≡ some d
unfolding loads dumps
loads-dumps d =
    rw (get_nat-put_nat (size_dict d) (put_dict d ""), dict_back d (size_dict d) "" (omega arith))
      refl

pub codec-laws : CodecLaws codec
unfolding dumps loads
codec-laws = record {
  decode-encode = λ s. refl;
  loads-dumps = loads-dumps;
  strip-dumps = filled;
  loads_blank = blank;
}
  where
    filled : (d : Dict) → (dumps d == "") ≡ false
    filled d = elim (Bool-cases (dumps d == "")) [
      | inl e ↦ absurd (cons-ne-nil "y" _ ((eq_iff (dumps d) "").0 e))
      | inr e ↦ e
    ]

    blank : (s : String) → (s == "") ≡ true → loads s ≡ none
    blank String.[] h = refl
    blank (String.◌∷◌ c s) h = absurd (cons-ne-nil c s ((eq_iff (String.◌∷◌ c s) "").0 h))

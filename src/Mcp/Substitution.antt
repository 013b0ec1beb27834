-- ===== src/Mcp/Substitution.antt =====
-- What the placeholders of a configuration are replaced by.
use Prim.Native.Char.{Char, code}
use Prim.Native.String.{◌++◌}
use text.Mathlib.TextLemmas.{
  append-nil, append-eq-nil_iff, cons-ne-nil, append_assoc, nil-append, cons-append,
}
use mathlib.Core.Option.{get_or}
use claude_agent_api.Common.{
  String, ◌≡◌, refl, ap, sym, ◌∙◌, true, false, ◌||◌, Option, List, [], ◌∷◌, ◌==◌, ◌=ℕ◌, arith,
  Bool-cases, eq_iff, inl, inr,
}
use claude_agent_api.Json.{str, arr, obj, cons, field}
use claude_agent_api.Mcp.Loader.{
  plain, dollar, name, single, is_name_char, restart, step, is_between, scan, resolve_string,
  resolve_value, resolve_items, resolve_env_vars,
}
use claude_agent_api.Mcp.Templates.{
  Token, letter, placeholder, is_upper, is_digit, is_tail, is_variable, placed, text_of, value_of,
  filled_text, begins_brace, is_clear, Template, Templates, DictTemplate, null_template,
  bool_template, int_template, float_template, text_template, list_template, dict_template, no_more,
  and_more, no_field, and_field, made, made_items, made_dict, is_clear_template, are_clear,
  is_clear_dict,
}

shift : (n : String) (c : Char) (s : String) → (n ++ single c) ++ s ≡ n ++ String.◌∷◌ c s
shift n c s =
    append_assoc n (single c) s
    ∙ ap (λ t. n ++ t) (cons-append c "" s ∙ ap (String.◌∷◌ c) (nil-append s))

filled-append : (n : String) (c : Char) → ((n ++ single c) == "") ≡ false
filled-append n c = elim (Bool-cases ((n ++ single c) == "")) [
  | inl e ↦
      let (a, b) = (append-eq-nil_iff {p = n} {q = single c}).0 ((eq_iff (n ++ single c) "").0 e) in
      absurd (cons-ne-nil c "" b)
  | inr e ↦ e
]

-- A letter of a name is one that the search takes.
is_name_char-tail :
    (n : String) (c : Char)
    → (n == "") ≡ false
    → (is_upper c || is_digit c) ≡ true
    → is_name_char n c ≡ true
unfolding is_name_char is_between
is_name_char-tail n c filled h = ground (arith, filled, h)

is_name_char-upper : (c : Char) → is_upper c ≡ true → is_name_char "" c ≡ true
unfolding is_name_char is_between
is_name_char-upper c h = ground (arith, h)

opened : (t : String) → "${" ++ t ≡ String.◌∷◌ "$" (String.◌∷◌ "{" t)
opened t =
    cons-append "$" "{" t
    ∙ ap (String.◌∷◌ "$") (cons-append "{" "" t ∙ ap (String.◌∷◌ "{") (nil-append t))

single-append : (c : Char) (t : String) → single c ++ t ≡ String.◌∷◌ c t
single-append c t = cons-append c "" t ∙ ap (String.◌∷◌ c) (nil-append t)

module _ (env : String → Option String) where
  scan-name_char :
      (c : Char) (t p n : String)
      → is_name_char n c ≡ true
      → scan env (name p n) (String.◌∷◌ c t) ≡ scan env (name (p ++ single c) (n ++ single c)) t
  unfolding scan step
  scan-name_char c t p n taken = rw (step, taken) (nil-append _)

  scan-brace :
      (p n r : String)
      → (n == "") ≡ false
      → scan env (name p n) (String.◌∷◌ "}" r) ≡ get_or (env n) (p ++ "}") ++ scan env plain r
  unfolding scan step is_name_char is_between
  scan-brace p n r filled = rw (step, is_name_char, filled) refl

  -- The rest of a name, up to the brace.
  scan-tail :
      (s p n r : String)
      → is_tail s ≡ true
      → (n == "") ≡ false
      → scan env (name p n) (s ++ String.◌∷◌ "}" r)
        ≡ get_or (env (n ++ s)) (p ++ (s ++ "}")) ++ scan env plain r
  scan-tail String.[] p n r h filled =
      ap (scan env (name p n)) (nil-append (String.◌∷◌ "}" r))
      ∙ scan-brace p n r filled
      ∙ ap (λ m. get_or (env m) (p ++ "}") ++ scan env plain r) (sym (append-nil n))
  scan-tail (String.◌∷◌ c s) p n r h filled =
      let taken = is_name_char-tail n c filled (ground (arith, h)) in
      let whole = shift p c (s ++ "}") ∙ ap (λ t. p ++ t) (sym (cons-append c s "}")) in
      ap (scan env (name p n)) (cons-append c s (String.◌∷◌ "}" r))
      ∙ scan-name_char c (s ++ String.◌∷◌ "}" r) p n taken
      ∙ scan-tail s (p ++ single c) (n ++ single c) r (ground (arith, h)) (filled-append n c)
      ∙ (λ i. get_or (env (shift n c s i)) (whole i) ++ scan env plain r)

  scan-open : (t : String) → scan env (dollar "$") (String.◌∷◌ "{" t) ≡ scan env (name "${" "") t
  unfolding scan step
  scan-open t = nil-append (scan env (name "${" "") t)

  scan-variable :
      (n r : String)
      → is_variable n ≡ true
      → scan env (dollar "$") (String.◌∷◌ "{" (n ++ String.◌∷◌ "}" r))
        ≡ value_of env n ++ scan env plain r
  scan-variable String.[] r h = cc
  scan-variable (String.◌∷◌ c s) r h =
      let taken = is_name_char-upper c (ground (arith, h)) in
      let named = shift "" c s ∙ nil-append (String.◌∷◌ c s) in
      let whole =
        shift "${" c (s ++ "}")
        ∙ ap (λ t. "${" ++ t) (sym (cons-append c s "}"))
        ∙ opened (String.◌∷◌ c s ++ "}") in
      scan-open (String.◌∷◌ c s ++ String.◌∷◌ "}" r)
      ∙ ap (scan env (name "${" "")) (cons-append c s (String.◌∷◌ "}" r))
      ∙ scan-name_char c (s ++ String.◌∷◌ "}" r) "${" "" taken
      ∙ scan-tail s ("${" ++ single c) ("" ++ single c) r (ground (arith, h)) (filled-append "" c)
      ∙ (λ i. get_or (env (named i)) (whole i) ++ scan env plain r)

  -- A dollar that may begin a placeholder, after what is seen.
  scan-dollar_sign :
      (d : Char) (t : String)
      → (code d =ℕ 36) ≡ true
      → scan env plain (String.◌∷◌ d t) ≡ scan env (dollar (single d)) t
  unfolding scan step restart
  scan-dollar_sign d t e = rw (restart, e) (nil-append _)

  scan-other :
      (c : Char) (t : String)
      → (code c =ℕ 36) ≡ false
      → scan env plain (String.◌∷◌ c t) ≡ String.◌∷◌ c (scan env plain t)
  unfolding scan step restart
  scan-other c t e =
      rw (restart, e)
        (ap (λ u. u ++ scan env plain t) (nil-append (single c))
          ∙ single-append c (scan env plain t))

  -- A dollar that begins no placeholder stays.
  scan-no_brace :
      (d c : Char) (t : String)
      → (code c =ℕ 123) ≡ false
      → scan env (dollar (single d)) (String.◌∷◌ c t)
        ≡ String.◌∷◌ d (scan env plain (String.◌∷◌ c t))
  unfolding scan step restart
  scan-no_brace d c t b = elim (Bool-cases (code c =ℕ 36)) [
    | inl e ↦
        let rest = scan env (dollar (single c)) t in
        rw (step, b, restart, e) (single-append d rest ∙ ap (String.◌∷◌ d) (sym (nil-append rest)))
    | inr e ↦
        let rest = scan env plain t in
        rw (step, b, restart, e)
          (append_assoc (single d) (single c) rest
            ∙ single-append d (single c ++ rest)
            ∙ ap (λ u. String.◌∷◌ d (u ++ rest)) (sym (nil-append (single c))))
  ]

  -- Both when no dollar is seen, and after a dollar that begins no placeholder.
  scan-tokens :
      (ts : List Token)
      → is_clear ts ≡ true
      → (scan env plain (text_of ts) ≡ filled_text env ts)
        × ((d : Char)
            → begins_brace ts ≡ false
            → scan env (dollar (single d)) (text_of ts) ≡ String.◌∷◌ d (filled_text env ts))
  unfolding scan
  scan-tokens [] h = (refl, λ d b. refl)
  scan-tokens (letter c ∷ ts) h =
      let (after, after_dollar) = scan-tokens ts (ground (arith, h)) in
      let here : scan env plain (String.◌∷◌ c (text_of ts)) ≡ String.◌∷◌ c (filled_text env ts) =
        elim (Bool-cases (code c =ℕ 36)) [
          | inl e ↦ scan-dollar_sign c (text_of ts) e ∙ after_dollar c (ground (arith, h, e))
          | inr e ↦ scan-other c (text_of ts) e ∙ ap (String.◌∷◌ c) after
        ] in
      (here, λ d b. scan-no_brace d c (text_of ts) b ∙ ap (String.◌∷◌ d) here)
  scan-tokens (placeholder n ∷ ts) h =
      let (after, after_dollar) = scan-tokens ts (ground (arith, h)) in
      let named = String.◌∷◌ "{" (n ++ String.◌∷◌ "}" (text_of ts)) in
      let here : scan env plain (placed n (text_of ts)) ≡ value_of env n ++ filled_text env ts =
        scan-dollar_sign "$" named refl
        ∙ scan-variable n (text_of ts) (ground (arith, h))
        ∙ ap (λ t. value_of env n ++ t) after in
      (here, λ d b. scan-no_brace d "$" named refl ∙ ap (String.◌∷◌ d) here)

  resolve_string-text_of :
      (ts : List Token) → is_clear ts ≡ true → resolve_string env (text_of ts) ≡ filled_text env ts
  unfolding resolve_string
  resolve_string-text_of ts h = (scan-tokens ts h).0

  mutual
    unfolding resolve_value resolve_items resolve_env_vars made made_items made_dict
        is_clear_template are_clear is_clear_dict

    resolve_value-made :
        (t : Template)
        → is_clear_template t ≡ true
        → resolve_value env (made text_of t) ≡ made (filled_text env) t
    resolve_value-made null_template h = refl
    resolve_value-made (bool_template b) h = refl
    resolve_value-made (int_template n) h = refl
    resolve_value-made (float_template x) h = refl
    resolve_value-made (text_template ts) h = ap str (resolve_string-text_of ts h)
    resolve_value-made (list_template xs) h = ap arr (resolve_items-made xs h)
    resolve_value-made (dict_template d) h = ap obj (resolve_dict-made d h)

    resolve_items-made :
        (xs : Templates)
        → are_clear xs ≡ true
        → resolve_items env (made_items text_of xs) ≡ made_items (filled_text env) xs
    resolve_items-made no_more h = refl
    resolve_items-made (and_more t xs) h =
        let first = resolve_value-made t (ground (arith, h)) in
        let rest = resolve_items-made xs (ground (arith, h)) in λ i. cons (first i) (rest i)

    resolve_dict-made :
        (d : DictTemplate)
        → is_clear_dict d ≡ true
        → resolve_env_vars env (made_dict text_of d) ≡ made_dict (filled_text env) d
    resolve_dict-made no_field h = refl
    resolve_dict-made (and_field k t d) h =
        let first = resolve_value-made t (ground (arith, h)) in
        let rest = resolve_dict-made d (ground (arith, h)) in λ i. field k (first i) (rest i)

  -- Resolving a configuration replaces each placeholder `${NAME}` in its texts, at every depth, by
  -- the value of the variable, and leaves the placeholder where the variable is not set; a value is
  -- not searched for placeholders again, and keys and everything that is no text stay. Names are an
  -- upper-case letter or an underscore with upper-case letters, digits and underscores after it; the
  -- letters around the placeholders may be dollars too, but none that stands before a brace.
  pub resolve_env_vars_lem :
      (d : DictTemplate)
      → is_clear_dict d ≡ true
      → resolve_env_vars env (made_dict text_of d) ≡ made_dict (filled_text env) d
  resolve_env_vars_lem d h = resolve_dict-made d h

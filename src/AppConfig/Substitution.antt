-- ===== src/AppConfig/Substitution.antt =====
-- The substitution of secrets into an item of app.config.
use resilient_python_api.Prelude.{
  ℕ, zero, suc, ◌≤◌, String, true, false, none, some, eqb, ◌≡◌, refl, arith, ◌∙◌, ap, sym,
}
use resilient_python_api.Outcome.{ok}
use Prim.Native.Char.{Char, code}
use Prim.Native.String.{[], ◌∷◌, count, ◌++◌ as ◌⧺◌}
use Prim.Native.String.append.{nil, cons}
use Prim.Native.String.count.{cons as count_cons}
use text.Mathlib.TextLemmas.{append_assoc, length-append, nil-append}
use resilient_python_api.AppConfig.{
  strip, index_of, to_brace, remove_from, unprefixed, SecretManager, next_secret, substitute,
  replace_secret_in_config,
}

abbrev pub open_brace : Char
open_brace = "{"

abbrev pub close_brace : Char
close_brace = "}"

-- A text in which a character does not occur.
abbrev pub Without : ℕ → String → Type 0
Without d [] = Unit {0}
Without d (c ∷ s) = (eqb (code c) d ≡ false) × Without d s

-- An item: a text, or a text, a secret's name in brackets, and an item.
pub data Template : Type 0 where
  last : String → Template
  part : String → String → Template → Template

module _ (mark : Char) (get : SecretManager) (differs : eqb (code mark) b'}' ≡ false) where
  -- "${" or "^{"
  abbrev pub prefix : String
  prefix = mark ∷ "{"

  -- "${NAME}"
  abbrev pub reference : String → String
  reference name = mark ∷ (open_brace ∷ (name ⧺ "}"))

  -- The item as it is written in app.config.
  abbrev pub written : Template → String
  written (last text) = text
  written (part text name rest) =
      text ⧺ (mark ∷ (open_brace ∷ (name ⧺ (close_brace ∷ written rest))))

  abbrev pub WellFormed : Template → Type 0
  WellFormed (last text) = Without (code mark) text
  WellFormed (part text name rest) =
      Without (code mark) text × Without (code mark) name × Without b'}' name × WellFormed rest

  -- `Expands t s`: the manager has a value for each name of `t`, and `s` is `t` with those values.
  pub data Expands : Template → String → Type 0 where
    expand_last : (text : String) → Expands (last text) text
    expand_part :
        (text name value expanded : String) (rest : Template)
        → get name (reference name) ≡ ok (some value)
        → Expands rest expanded
        → Expands (part text name rest) (text ⧺ (value ⧺ expanded))

  self : eqb (code mark) (code mark) ≡ true
  self = ground arith

  strip-mark : (s : String) → strip prefix (mark ∷ (open_brace ∷ s)) ≡ some s
  unfolding strip
  strip-mark s = rw self

  strip-none :
      (c : Char) (s : String) → eqb (code c) (code mark) ≡ false → strip prefix (c ∷ s) ≡ none
  unfolding strip
  strip-none c s h = rw (h, strip)

  index_of-none : (t : String) → Without (code mark) t → index_of prefix t ≡ none
  unfolding index_of
  index_of-none [] h = refl
  index_of-none (c ∷ t) h = rw (strip-none c t h.0, index_of, index_of-none t h.1)

  pub index_of-text :
      (t s : String)
      → Without (code mark) t
      → index_of prefix (t ⧺ (mark ∷ (open_brace ∷ s))) ≡ some (t, mark ∷ (open_brace ∷ s))
  unfolding index_of
  index_of-text [] s h = rw (nil (mark ∷ (open_brace ∷ s)), strip-mark s, index_of)
  index_of-text (c ∷ t) s h = rw (
    cons c t (mark ∷ (open_brace ∷ s)),
    strip-none c (t ⧺ (mark ∷ (open_brace ∷ s))) h.0,
    index_of,
    index_of-text t s h.1,
  )

  to_brace-name : (n s : String) → Without b'}' n → to_brace (n ⧺ (close_brace ∷ s)) ≡ (n ⧺ "}", s)
  unfolding to_brace
  to_brace-name [] s h = rw (nil (close_brace ∷ s), nil "}", to_brace)
  to_brace-name (c ∷ n) s h =
      rw (cons c n (close_brace ∷ s), cons c n "}", to_brace, h.0, to_brace-name n s h.1)

  remove-none :
      (p : String) (d : Char) (n : String) → Without (code d) n → remove_from (d ∷ p) zero n ≡ n
  unfolding remove_from strip
  remove-none p d [] h = refl
  remove-none p d (c ∷ n) h = rw (h.0, remove_from, strip, remove-none p d n h.1)

  Without-append : (d : ℕ) (n m : String) → Without d n → Without d m → Without d (n ⧺ m)
  Without-append d [] m h k = rw (nil m) k
  Without-append d (c ∷ n) m h k = rw (cons c n m) (h.0, Without-append d n m h.1 k)

  remove-brace : (n : String) → Without b'}' n → remove_from "}" zero (n ⧺ "}") ≡ n
  unfolding remove_from strip
  remove-brace [] h = refl
  remove-brace (c ∷ n) h = rw (cons c n "}", h.0, remove_from, strip, remove-brace n h.1)

  remove-prefix :
      (s : String) → remove_from prefix zero (mark ∷ (open_brace ∷ s)) ≡ remove_from prefix zero s
  unfolding remove_from
  remove-prefix s = rw (strip-mark s, remove_from, count_cons mark "{")

  unprefixed-reference :
      (n : String) → Without (code mark) n → Without b'}' n → unprefixed prefix (reference n) ≡ n
  unfolding unprefixed
  unprefixed-reference n h k =
      let d : eqb b'}' (code mark) ≡ false = ground arith in
      rw
        (
          remove-prefix (n ⧺ "}"),
          remove-none "{" mark (n ⧺ "}") (Without-append (code mark) n "}" h (d, tt)),
        )
        (remove-brace n k)

  to_brace-reference :
      (n s : String)
      → Without b'}' n
      → to_brace (mark ∷ (open_brace ∷ (n ⧺ (close_brace ∷ s)))) ≡ (reference n, s)
  unfolding to_brace
  to_brace-reference n s h = rw (differs, to_brace-name n s h)

  front : Template → String
  front (last text) = text
  front (part text name rest) = text

  back : Template → String
  back (last text) = []
  back (part text name rest) = mark ∷ (open_brace ∷ (name ⧺ (close_brace ∷ written rest)))

  parts : Template → ℕ
  parts (last text) = 0
  parts (part text name rest) = suc (parts rest)

  index_of-written :
      (t : Template) → WellFormed t → next_secret prefix (written t) ≡ (front t, back t)
  unfolding next_secret front back
  index_of-written (last text) h = rw (index_of-none text h, next_secret)
  index_of-written (part text name rest) h =
      rw (index_of-text text (name ⧺ (close_brace ∷ written rest)) h.0, next_secret)

  substitute-end :
      (fuel : ℕ) (before : String) → substitute fuel get prefix before [] ≡ some (ok before)
  unfolding substitute
  substitute-end zero before = refl
  substitute-end (suc fuel) before = refl

  substitute-Expands :
      (fuel : ℕ) (t : Template) (before expanded : String)
      → parts t ≤ fuel
      → WellFormed t
      → Expands t expanded
      → substitute fuel get prefix (before ⧺ front t) (back t) ≡ some (ok (before ⧺ expanded))
  unfolding substitute parts front back
  substitute-Expands fuel _ before _ enough h (expand_last text) =
      substitute-end fuel (before ⧺ text)
  substitute-Expands zero _ before _ enough h (expand_part text name value expanded rest got e) =
      absurd (omega arith)
  substitute-Expands (suc fuel) _ before _ enough h
        (expand_part text name value expanded rest got e) =
      rw (to_brace-reference name (written rest) h.2, unprefixed-reference name h.1 h.2, got)
        (ap
            (λ (p : String × String).
              substitute fuel get prefix ((before ⧺ text) ⧺ (value ⧺ p.0)) p.1)
            (index_of-written rest h.3)
          ∙ ap (λ (b : String). substitute fuel get prefix b (back rest))
              (sym (append_assoc (before ⧺ text) value (front rest)))
          ∙ substitute-Expands fuel rest ((before ⧺ text) ⧺ value) expanded (omega arith) h.3 e
          ∙ ap (λ (b : String). some (ok b))
              (append_assoc (before ⧺ text) value expanded
                ∙ append_assoc before text (value ⧺ expanded)))

  parts-count : (t : Template) → parts t ≤ count (written t)
  unfolding parts
  parts-count (last text) = omega arith
  parts-count (part text name rest) =
      let ih = parts-count rest in
      let tail : String = open_brace ∷ (name ⧺ (close_brace ∷ written rest)) in
      rw
        (
          length-append text (mark ∷ tail),
          count_cons mark tail,
          count_cons open_brace (name ⧺ (close_brace ∷ written rest)),
          length-append name (close_brace ∷ written rest),
          count_cons close_brace (written rest),
        )
        (omega arith)

  -- An item of texts and bracketed names comes back with each name replaced by the value that the
  -- manager has for it, and a value that has the prefix in it is not searched again. The texts
  -- and names are those without the mark of the prefix, and the names without a closing brace.
  pub replace_secret_in_config_lem :
      (t : Template) (expanded : String)
      → WellFormed t
      → Expands t expanded
      → replace_secret_in_config (written t) get prefix ≡ some (ok expanded)
  unfolding replace_secret_in_config parts front back
  replace_secret_in_config_lem _ _ h (expand_last text) =
      rw (index_of-none text h, replace_secret_in_config)
  replace_secret_in_config_lem _ s h (expand_part text name value expanded rest got e) =
      let t = part text name rest in
      rw (index_of-text text (name ⧺ (close_brace ∷ written rest)) h.0, replace_secret_in_config)
        (ap (λ (b : String). substitute (count (written t)) get prefix b (back t))
            (sym (nil-append text))
          ∙ substitute-Expands (count (written t)) t [] s (parts-count t) h
              (expand_part text name value expanded rest got e)
          ∙ ap (λ (b : String). some (ok b)) (nil-append s))

-- ===== src/Value/Reflexivity.antt =====
-- Python's `==` of a value and itself, and of two dicts and what they hold under a key. No dict has a
-- key twice.
use resilient_python_api.Prelude.{
  String, Bool, true, false, Option, none, some, ◌≡◌, refl, subst, arith, ◌==◌, eq_iff, eqb_iff,
  ◌&&◌, not, lookup, has_key, Bool-cases, inl, inr, and-true, true-and,
}
use resilient_python_api.Value.Data.{
  Value, pos, negsuc, Items, Fields, null, bool, int, str, list, dict, nil, cons, end, field,
  entries, get_field,
}
use resilient_python_api.Value.Equality.{eq_value, eq_items, eq_fields}

unfoldable mutual
  unfolding has_key

  pub has_distinct_keys : Value → Bool
  has_distinct_keys (dict fs) = are_distinct fs
  has_distinct_keys (list xs) = have_distinct_keys xs
  has_distinct_keys null = true
  has_distinct_keys (bool b) = true
  has_distinct_keys (int n) = true
  has_distinct_keys (str s) = true

  pub have_distinct_keys : Items → Bool
  have_distinct_keys nil = true
  have_distinct_keys (cons x xs) = has_distinct_keys x && have_distinct_keys xs

  pub are_distinct : Fields → Bool
  are_distinct end = true
  are_distinct (field k v fs) =
      not (has_key k (entries fs)) && has_distinct_keys v && are_distinct fs

-- Each entry of the one is what the other holds under its key.
abbrev Holds : Fields → Fields → Type 0
Holds end gs = Unit {0}
Holds (field k v fs) gs = (get_field k gs ≡ some v) × Holds fs gs

Holds-field :
    (fs gs : Fields) (k : String) (v : Value)
    → has_key k (entries fs) ≡ false
    → Holds fs gs
    → Holds fs (field k v gs)
unfolding has_key lookup
Holds-field end gs k v h p = tt
Holds-field (field j w fs) gs k v h p =
    ground (arith, eq_iff k j, eq_iff j k, p.0, Holds-field fs gs k v, p.1)

Holds-refl : (fs : Fields) → are_distinct fs ≡ true → Holds fs fs
unfolding are_distinct lookup
Holds-refl end h = tt
Holds-refl (field k v fs) h = (
  ground (arith, eq_iff k k),
  Holds-field fs fs k v (ground (arith, h)) (Holds-refl fs (ground (arith, h))),
)

mutual
  unfolding eq_value eq_items eq_fields has_distinct_keys have_distinct_keys are_distinct

  value_refl : (v : Value) → has_distinct_keys v ≡ true → eq_value v v ≡ true
  value_refl (dict fs) h = ground (arith, fields_refl fs fs h (Holds-refl fs h))
  value_refl (list xs) h = items_refl xs h
  value_refl null h = refl
  value_refl (bool true) h = refl
  value_refl (bool false) h = refl
  value_refl (int (pos n)) h = (eqb_iff n n).1 refl
  value_refl (int (negsuc n)) h = (eqb_iff n n).1 refl
  value_refl (str s) h = (eq_iff s s).1 refl

  items_refl : (xs : Items) → have_distinct_keys xs ≡ true → eq_items xs xs ≡ true
  items_refl nil h = refl
  items_refl (cons x xs) h =
      let both = and-true (has_distinct_keys x) (have_distinct_keys xs) h in
      true-and _ _ (value_refl x both.0) (items_refl xs both.1)

  fields_refl :
      (fs : Fields) (gs : Fields) → are_distinct fs ≡ true → Holds fs gs → eq_fields fs gs ≡ true
  fields_refl end gs h p = refl
  fields_refl (field k v fs) gs h p =
      let parts =
        and-true (not (has_key k (entries fs)) && has_distinct_keys v) (are_distinct fs) h in
      let both = and-true (not (has_key k (entries fs))) (has_distinct_keys v) parts.0 in
      true-and _ _ (rw p.0 (value_refl v both.1)) (fields_refl fs gs parts.1 p.1)

pub eq_value_refl : (v : Value) → has_distinct_keys v ≡ true → eq_value v v ≡ true
eq_value_refl v h = value_refl v h

abbrev is_held : Option Value → Value → Bool
is_held held v = elim held [ none ↦ false | some w ↦ eq_value v w ]

eq_fields-held :
    (fs gs : Fields) (k : String) (v w : Value)
    → eq_fields fs gs ≡ true
    → get_field k fs ≡ some v
    → get_field k gs ≡ some w
    → eq_value v w ≡ true
unfolding eq_fields lookup
eq_fields-held end gs k v w h p q = cc
eq_fields-held (field j u fs) gs k v w h p q =
    let both = and-true (is_held (get_field j gs) u) (eq_fields fs gs) h in
    elim (Bool-cases (j == k)) [
      | inl e ↦
          let same = (eq_iff j k).0 e in
          let held : get_field j gs ≡ some w = rw same q in
          let is_u : some u ≡ some v = rw e at p in
          let equal : eq_value u w ≡ true = rw held at both.0 in
          let same_v : u ≡ v = cc in subst (λ x. eq_value x w ≡ true) same_v equal
      | inr n ↦ eq_fields-held fs gs k v w both.1 (rw n at p) q
    ]

-- Two equal dicts have the same text under a key, if both have one.
pub eq_value-held :
    (fs gs : Fields) (k s t : String)
    → eq_value (dict fs) (dict gs) ≡ true
    → get_field k fs ≡ some (str s)
    → get_field k gs ≡ some (str t)
    → s ≡ t
unfolding eq_value
eq_value-held fs gs k s t h p q =
    (eq_iff s t).0 (eq_fields-held fs gs k (str s) (str t) (ground (arith, h)) p q)

-- ===== src/Value/Equality.antt =====
-- Python's `==` on values: `True == 1`, and two dicts are equal when they have the same keys with
-- equal values, in any order.
use resilient_python_api.Prelude.{
  ℕ, suc, Bool, true, false, List, [], ◌∷◌, none, some, ◌==◌, eqb, ◌&&◌,
}
use resilient_python_api.Value.Data.{
  ℤ, pos, negsuc, Value, Items, Fields, null, bool, int, str, list, dict, nil, cons, end, field,
  get_field,
}

eq_ℤ : ℤ → ℤ → Bool
eq_ℤ (pos a) (pos b) = eqb a b
eq_ℤ (negsuc a) (negsuc b) = eqb a b
eq_ℤ _ _ = false

as_int : Bool → ℤ
as_int true = pos 1
as_int false = pos 0

count_fields : Fields → ℕ
count_fields end = 0
count_fields (field k v fs) = suc (count_fields fs)

unfoldable mutual
  unfolding eq_ℤ as_int count_fields

  pub eq_value : Value → Value → Bool
  eq_value null null = true
  eq_value (bool a) (bool b) = eq_ℤ (as_int a) (as_int b)
  eq_value (bool a) (int b) = eq_ℤ (as_int a) b
  eq_value (int a) (bool b) = eq_ℤ a (as_int b)
  eq_value (int a) (int b) = eq_ℤ a b
  eq_value (str a) (str b) = a == b
  eq_value (list xs) (list ys) = eq_items xs ys
  eq_value (dict fs) (dict gs) = eqb (count_fields fs) (count_fields gs) && eq_fields fs gs
  eq_value _ _ = false

  pub eq_items : Items → Items → Bool
  eq_items nil nil = true
  eq_items (cons x xs) (cons y ys) = eq_value x y && eq_items xs ys
  eq_items _ _ = false

  pub eq_fields : Fields → Fields → Bool
  eq_fields end gs = true
  eq_fields (field k v fs) gs =
      elim (get_field k gs) [ none ↦ false | some w ↦ eq_value v w ] && eq_fields fs gs

-- `==` on two lists of values
unfoldable pub eq_values : List Value → List Value → Bool
eq_values [] [] = true
eq_values (x ∷ xs) (y ∷ ys) = eq_value x y && eq_values xs ys
eq_values _ _ = false

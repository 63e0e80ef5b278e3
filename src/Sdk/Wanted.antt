-- ===== src/Sdk/Wanted.antt =====
-- What get_res_obj returns, and what is not found
-- (resilient-sdk/resilient_sdk/util/sdk_helpers.py).
use resilient_python_api.Prelude.{
  none_not_some, ℕ, zero, suc, Assoc, String, Bool, true, false, Option, none, some, List, [], ◌∷◌,
  ◌≡◌, refl, sym, ap, subst, ◌∙◌, lookup, insert, lookup-insert, if◌then◌else◌, ◌==◌, ◌+◌, arith,
  eq_iff,
}
use resilient_python_api.Value.{Value}
use resilient_python_api.Outcome.{Result, ok, err, plain_exception, get_item, ◌>>=◌}
use resilient_python_api.Outcome.Steps.{>>=-Between, ok-eq, err_not_ok}
use resilient_python_api.Sdk.Hierarchy.{to_set}
use resilient_python_api.Sdk.Minify.{stripped}
use resilient_python_api.Sdk.Objects.{
  object_at, entered, get_obj_from_list, position_of, collect, taken, marked, collect_found,
  get_res_obj, all_resolved, Wanted,
}

suc_between : (k i : ℕ) → suc k + i ≡ k + suc i
suc_between k i = omega arith

zero_left : (i : ℕ) → zero + i ≡ i
zero_left i = omega arith

zero_right : (k : ℕ) → k ≡ k + zero
zero_right k = omega arith

position_found :
    (o : Option ℕ) (i : ℕ)
    → elim o [ none ↦ err (plain_exception "not found in this export") | some j ↦ ok j ] ≡ ok i
    → o ≡ some i
position_found none i h = cc
position_found (some j) i h = cc

module _ (identifier : String) (condition : Value → Result Bool) where
  -- The object at a position meets the condition and has the name.
  abbrev IsNamed : List Value → String → ℕ → Type 0
  IsNamed objects name i =
      (o : Value) × (object_at i objects ≡ some o)
      × (condition o ≡ ok true)
      × (get_item o identifier >>= stripped ≡ ok name)

  -- Every name that is found is that of its object.
  abbrev AllNamed : List Value → Assoc ℕ → Type 0
  AllNamed objects found =
      (name : String) (i : ℕ) → lookup name found ≡ some i → IsNamed objects name i

  looked_up :
      (objects : List Value) (found : Assoc ℕ) (n name : String) (i j : ℕ) (same : Bool)
      → n == name ≡ same
      → (if same then some i else lookup name found) ≡ some j
      → IsNamed objects n i
      → AllNamed objects found
      → IsNamed objects name j
  looked_up objects found n name i j false e held (o, at_i, meets, is_name) all = all name j held
  looked_up objects found n name i j true e held (o, at_i, meets, is_name) all =
      let same_name = (eq_iff n name).0 e in (o, cc, meets, cc)

  -- The object at i enters the names.
  entered-IsNamed :
      (objects : List Value) (o : Value) (i : ℕ) (found found' : Assoc ℕ) (meets : Bool)
      → object_at i objects ≡ some o
      → condition o ≡ ok meets
      → (if meets
          then (get_item o identifier >>= stripped >>= λ name. ok (insert name i found))
          else ok found)
        ≡ ok found'
      → AllNamed objects found
      → AllNamed objects found'
  entered-IsNamed objects o i found found' false there meets same all = λ name j held. all name j cc
  entered-IsNamed objects o i found found' true there meets same all = λ name j held.
      let (n, (is_n, put)) = >>=-Between (get_item o identifier >>= stripped) _ same in
      looked_up objects found n name i j (n == name) refl
        (sym (lookup-insert n name i found) ∙ (ap (lookup name) (ok-eq put) ∙ held))
        (o, there, meets, is_n) all

  get_obj_from_list-AllNamed :
      (objects os : List Value) (i : ℕ) (found found' : Assoc ℕ)
      → ((k : ℕ) (o : Value) → object_at k os ≡ some o → object_at (k + i) objects ≡ some o)
      → get_obj_from_list identifier condition i os found ≡ ok found'
      → AllNamed objects found
      → AllNamed objects found'
  unfolding get_obj_from_list object_at
  get_obj_from_list-AllNamed objects [] i found found' held_at h all = λ name j held. all name j cc
  get_obj_from_list-AllNamed objects (o ∷ os) i found found' held_at h all =
      let (mid, (first, rest)) = >>=-Between (entered identifier condition i o found) _ h in
      let (meets, (met, put)) = >>=-Between (condition o) _ first in
      get_obj_from_list-AllNamed objects os (suc i) mid found'
        (λ k p at_k.
          subst (λ m. object_at m objects ≡ some p) (suc_between k i) (held_at (suc k) p at_k))
        rest
        (entered-IsNamed objects o i found mid meets
          (subst (λ m. object_at m objects ≡ some o) (zero_left i) (held_at zero o refl)) met put
          all)

-- The positions, one for each name in order, of objects that meet the condition and have the name.
abbrev pub AreChosen : String → (Value → Result Bool) → List Value → List Value → List ℕ → Type 0
AreChosen identifier condition objects [] [] = Unit
AreChosen identifier condition objects [] (i ∷ is) = ⊥
AreChosen identifier condition objects (o ∷ names) [] = ⊥
AreChosen identifier condition objects (o ∷ names) (i ∷ is) =
    ((name : String) × (stripped o ≡ ok name) × IsNamed identifier condition objects name i)
    × AreChosen identifier condition objects names is

module _ (identifier : String) (condition : Value → Result Bool) (include_api_name : Bool)
    (objects : List Value) (ex_obj : Assoc ℕ) where
  position_of-IsNamed :
      (o : Value) (i : ℕ)
      → AllNamed identifier condition objects ex_obj
      → position_of identifier include_api_name ex_obj o ≡ ok i
      → (name : String) × (stripped o ≡ ok name) × IsNamed identifier condition objects name i
  position_of-IsNamed o i all h =
      let (name, (is_name, at_i)) = >>=-Between (stripped o) _ h in
      (name, is_name, all name i (position_found (lookup name ex_obj) i at_i))

  taken-position_of :
      (o : Value) (now now' : List Value) (i : ℕ)
      → taken identifier include_api_name ex_obj o now ≡ ok (i, now')
      → position_of identifier include_api_name ex_obj o ≡ ok i
  taken-position_of o now now' i h =
      let (j, (at_j, left)) = >>=-Between (position_of identifier include_api_name ex_obj o) _ h in
      let (marks, (is_marked, same)) =
        >>=-Between (marked identifier include_api_name j now) _ left in
      at_j ∙ ap ok (ap (λ t. t.0) (ok-eq same))

  -- What `collect` goes on with.
  abbrev collect_with :
      Value → List Value → List Value → Result (ℕ × List Value) → Result (List ℕ) × List Value
  collect_with o names now (err e) = (err e, now)
  collect_with o names now (ok found) =
      let rest = collect identifier include_api_name ex_obj names found.1 in
      (rest.0 >>= λ is. ok (found.0 ∷ is), rest.1)

  -- One name, with the names behind it.
  collect_one :
      (o : Value) (names now : List Value) (is : List ℕ) (t : Result (ℕ × List Value))
      → AllNamed identifier condition objects ex_obj
      → taken identifier include_api_name ex_obj o now ≡ t
      → ((now' : List Value) (is' : List ℕ)
          → (collect identifier include_api_name ex_obj names now').0 ≡ ok is'
          → AreChosen identifier condition objects names is')
      → (collect_with o names now t).0 ≡ ok is
      → AreChosen identifier condition objects (o ∷ names) is
  collect_one o names now is (err e) all is_t rest h = absurd (err_not_ok h)
  collect_one o names now is (ok (i, now')) all is_t rest h =
      let (is', (later, same)) =
        >>=-Between (collect identifier include_api_name ex_obj names now').0 _ h in
      subst (AreChosen identifier condition objects (o ∷ names)) (ok-eq same)
        (position_of-IsNamed o i all (taken-position_of o now now' i is_t), rest now' is' later)

  collect-AreChosen :
      (names now : List Value) (is : List ℕ)
      → AllNamed identifier condition objects ex_obj
      → (collect identifier include_api_name ex_obj names now).0 ≡ ok is
      → AreChosen identifier condition objects names is
  unfolding collect
  collect-AreChosen [] now is all h = subst (AreChosen identifier condition objects []) (ok-eq h) tt
  collect-AreChosen (o ∷ names) now is all h =
      collect_one o names now is (taken identifier include_api_name ex_obj o now) all refl
        (λ now' is' later. collect-AreChosen names now' is' all later) h

module _ (identifier : String) (condition : Value → Result Bool) (include_api_name : Bool)
    (objects : List Value) where
  none-AllNamed : AllNamed identifier condition objects []
  unfolding lookup
  none-AllNamed name i h = absurd (none_not_some h)

  found-AreChosen :
      (names : List Value) (ex_obj : Assoc ℕ) (is : List ℕ)
      → get_obj_from_list identifier condition zero objects [] ≡ ok ex_obj
      → (collect identifier include_api_name ex_obj names objects).0 ≡ ok is
      → AreChosen identifier condition objects names is
  found-AreChosen names ex_obj is entered_all h =
      collect-AreChosen identifier condition include_api_name objects ex_obj names objects is
        (get_obj_from_list-AllNamed identifier condition objects objects zero [] ex_obj
          (λ k o at_k. subst (λ m. object_at m objects ≡ some o) (zero_right k) at_k) entered_all
          none-AllNamed)
        h

  collect_found-eq-ok :
      (r : Result (List Value × Assoc ℕ)) (is : List ℕ)
      → (collect_found identifier include_api_name objects r).0 ≡ ok is
      → (names : List Value) × (ex_obj : Assoc ℕ) × (r ≡ ok (names, ex_obj))
        × ((collect identifier include_api_name ex_obj names objects).0 ≡ ok is)
  collect_found-eq-ok (err e) is h = absurd (err_not_ok h)
  collect_found-eq-ok (ok (names, ex_obj)) is h = (names, ex_obj, refl, h)

  -- Where `get_res_obj` returns, the wanted entries stand for values, of which there is a set; and for
  -- each value of the set, in order, there is the position of an object of the section, which meets the
  -- condition and has the value, both without white space around, for its identifier.
  pub get_res_obj-AreChosen :
      (wanted_list : List Wanted) (is : List ℕ)
      → (get_res_obj identifier include_api_name condition objects wanted_list).0 ≡ ok is
      → (values names : List Value) × (all_resolved identifier objects wanted_list ≡ ok values)
        × (to_set values ≡ ok names)
        × AreChosen identifier condition objects names is
  unfolding get_res_obj all_resolved to_set
  get_res_obj-AreChosen [] is h =
      ([], [], refl, refl, subst (AreChosen identifier condition objects []) (ok-eq h) tt)
  get_res_obj-AreChosen (wanted ∷ wanted_list) is h =
      let (names, ex_obj, read, taken_all) = collect_found-eq-ok _ is h in
      let (values, (is_values, left)) =
        >>=-Between (all_resolved identifier objects (wanted ∷ wanted_list)) _ read in
      let (ex_obj', (entered_all, left')) =
        >>=-Between (get_obj_from_list identifier condition zero objects []) _ left in
      let (names', (is_set, same)) = >>=-Between (to_set values) _ left' in
      (
        values,
        names,
        is_values,
        is_set ∙ ap ok (ap (λ t. t.0) (ok-eq same)),
        found-AreChosen names ex_obj is (entered_all ∙ ap ok (ap (λ t. t.1) (ok-eq same)))
            taken_all,
      )

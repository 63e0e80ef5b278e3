-- ===== src/Patch/Reading.antt =====
-- What a patch reads and shows: the old value that `add_value` looks up, the values of its changes,
-- and the dictionary that is posted.
use resilient_python_api.Prelude.{
  ap, ◌∙◌, String, true, Option, none, some, List, [], ◌∷◌, ◌≡◌, refl, ◌≢◌, eq_iff, arith,
  if◌then◌else◌, Assoc, lookup, map, values, lookup-insert, has_key-lookup, inl, inr, Bool-cases,
  split_dot,
}
use resilient_python_api.Value.{
  Value, null, str, list, dict, Fields, elements, truthy, get_field, entries,
}
use resilient_python_api.Value.Laws.{elements-of_elements}
use resilient_python_api.Outcome.{◌>>=◌, Result, ok, err, value_error, type_error}
use resilient_python_api.Patch.{
  Patch, Change, change_to_dict, new_patch, walk, get_base_value, add_value, set_change,
  change_with_old, get_old_value, get_new_value, to_dict, is_dict,
}
use resilient_python_api.Patch.Changes.{AllNamed, IsConsistent}

-- `At v parts w`: from `v`, the keys `parts` lead through dicts to `w`.
pub data At : Value → List String → Value → Type 0 where
  here : {v : Value} → At v [] v
  into :
      {fs : Fields} {k : String} {ks : List String} {w v : Value}
      → get_field k fs ≡ some w
      → At w ks v
      → At (dict fs) (k ∷ ks) v

-- `Missing v parts`: the keys lead through dicts to one that lacks the next key.
pub data Missing : Value → List String → Type 0 where
  lacks :
      {fs : Fields} {k : String} {ks : List String}
      → get_field k fs ≡ none
      → Missing (dict fs) (k ∷ ks)
  into_missing :
      {fs : Fields} {k : String} {ks : List String} {w : Value}
      → get_field k fs ≡ some w
      → Missing w ks
      → Missing (dict fs) (k ∷ ks)

walk-At : {v w : Value} {parts : List String} → At v parts w → walk v parts ≡ ok w
unfolding walk
walk-At here = refl
walk-At (into {fs} {k} e r) = ground (arith, e, has_key-lookup k (entries fs), walk-At r)

walk-Missing : {v : Value} {parts : List String} → Missing v parts → walk v parts ≡ ok null
unfolding walk
walk-Missing (lacks {fs} {k} e) = ground (arith, e, has_key-lookup k (entries fs))
walk-Missing (into_missing {fs} {k} e r) =
    ground (arith, e, has_key-lookup k (entries fs), walk-Missing r)

-- Without an `old_value` argument, on a patch of a non-empty object: where the dotted name leads
-- through dicts to a value that is no dict, the change gets that value for its old value, where a
-- dict on the way lacks the next key it gets None, and where the name leads to a dict `add_value`
-- raises and leaves the patch alone.
pub add_value_base :
    (f : String) (v : Value) (p : Patch)
    → truthy p.previous_object ≡ true
    → ((w : Value)
        → At p.previous_object (split_dot f) w
        → add_value f v none p ≡ (
            if is_dict w
            then (err (value_error "Invalid field_name parameter"), p)
            else (ok tt, set_change f v w p)))
      × (Missing p.previous_object (split_dot f)
          → add_value f v none p ≡ (ok tt, set_change f v null p))
unfolding add_value get_base_value
add_value_base f v p t =
    (λ w r. rw (t, walk-At r) (ground arith), λ r. rw (t, walk-Missing r) (ground arith))

change_with_old-ok :
    (f : String) (v : Value) (r : Result Value) (p q : Patch)
    → change_with_old f v r p ≡ (ok tt, q)
    → (o : Value) × (r ≡ ok o) × (q ≡ set_change f v o p)
change_with_old-ok f v (ok o) p q h = (o, refl, ground arith)
change_with_old-ok f v (err e) p q h = absurd (ground arith)

set_change-get :
    (f j : String) (v o : Value) (p : Patch)
    → (get_new_value (set_change f v o p) f ≡ ok v)
      × (get_old_value (set_change f v o p) f ≡ ok o)
      × (f ≢ j → lookup j (set_change f v o p).changes ≡ lookup j p.changes)
unfolding get_new_value get_old_value
set_change-get f j v o p =
    let c : Change = record { field_name = f; new_value = v; old_value = o } in
    (
      ground (arith, lookup-insert f f c p.changes, eq_iff f f),
      ground (arith, lookup-insert f f c p.changes, eq_iff f f),
      λ n. ground (arith, lookup-insert f j c p.changes, eq_iff f j),
    )

-- The old value that `add_value` settles on: the argument, or the base value.
abbrev pub settled : String → Option Value → Patch → Result Value
settled f none p = get_base_value p f
settled f (some o) p = ok o

add_value-settled :
    (f : String) (v : Value) (o : Option Value) (p : Patch)
    → add_value f v o p ≡ change_with_old f v (settled f o p) p
unfolding add_value
add_value-settled f v none p = refl
add_value-settled f v (some o) p = refl

-- After an `add_value` that returns, the patch has the given new value and the settled old value for
-- the field, and every other field has the change, or the lack of one, that it had before.
pub add_value-get :
    (f j : String) (v : Value) (o : Option Value) (p q : Patch)
    → add_value f v o p ≡ (ok tt, q)
    → (get_new_value q f ≡ ok v)
      × (get_old_value q f ≡ settled f o p)
      × (f ≢ j → lookup j q.changes ≡ lookup j p.changes)
add_value-get f j v o p q h =
    let (w, e, eq) =
      change_with_old-ok f v (settled f o p) p q (rw (← add_value-settled f v o p) h) in
    rw (eq, e) (set_change-get f j v w p)

change_with_old-previous :
    (f : String) (v : Value) (r : Result Value) (p : Patch)
    → (change_with_old f v r p).1.previous_object ≡ p.previous_object
change_with_old-previous f v (ok o) p = refl
change_with_old-previous f v (err e) p = refl

pub add_value-previous :
    (f : String) (v : Value) (o : Option Value) (p : Patch)
    → (add_value f v o p).1.previous_object ≡ p.previous_object
add_value-previous f v o p =
    ap (λ (r : Result (Unit {0}) × Patch). r.1.previous_object) (add_value-settled f v o p)
    ∙ change_with_old-previous f v (settled f o p) p

-- The base value depends on the previous object alone.
base_in : String → Value → Result Value
base_in f previous =
    if truthy previous
    then (do
      val ← walk previous (split_dot f)
      if is_dict val then err (value_error "Invalid field_name parameter") else ok val)
    else err (value_error "Constructor previous_object or method old_value argument is required")

pub get_base_value-previous :
    (p q : Patch) (f : String)
    → q.previous_object ≡ p.previous_object
    → get_base_value q f ≡ get_base_value p f
unfolding get_base_value base_in
get_base_value-previous p q f e = ap (base_in f) e

-- How a reader of the posted dictionary finds the changes in it.
abbrev pub item : String → Value → Value
item k (dict fs) = elim (get_field k fs) [ none ↦ null | some v ↦ v ]
item k _ = null

abbrev pub text_in : Value → String
text_in (str s) = s
text_in _ = ""

abbrev pub items_in : Value → List Value
items_in (list xs) = elements xs
items_in _ = []

abbrev pub read_change : Value → Change
read_change v = record {
  field_name = text_in (item "field" v);
  new_value = item "object" (item "new_value" v);
  old_value = item "object" (item "old_value" v);
}

pub read_changes : List Value → Assoc Change
read_changes [] = []
read_changes (v ∷ vs) = ((read_change v).field_name, read_change v) ∷ read_changes vs

abbrev pub changes_in : Value → Assoc Change
changes_in v = read_changes (items_in (item "changes" v))

read_changes-map :
    (m : Assoc Change) → AllNamed m → read_changes (map change_to_dict (values m)) ≡ m
unfolding read_changes lookup
read_changes-map [] h = refl
read_changes-map ((k, c) ∷ m) (e, h) = λ i. (e i, c) ∷ read_changes-map m h i

-- The posted dictionary of a consistent patch shows all of its changes in order, each with its
-- field, new value and old value, and the version exactly if that is truthy.
pub to_dict_roundtrip :
    (p : Patch)
    → IsConsistent p
    → (changes_in (to_dict p) ≡ p.changes)
      × (item "version" (to_dict p) ≡ (if truthy p.version then p.version else null))
unfolding to_dict lookup
to_dict_roundtrip p h = elim (Bool-cases (truthy p.version)) [
  | inl e ↦
      rw (e, elements-of_elements (map change_to_dict (values p.changes)))
        (read_changes-map p.changes h.named, refl)
  | inr e ↦
      rw (e, elements-of_elements (map change_to_dict (values p.changes)))
        (read_changes-map p.changes h.named, refl)
]

-- A patch is made without a previous object exactly when a version is given: Python cannot look for
-- "vers" in None.
pub new_patch-null :
    (version : Value)
    → new_patch null version ≡ (
        if truthy version
        then ok (record { previous_object = null; version = version; changes = [] })
        else err type_error)
unfolding new_patch
new_patch-null version = ground arith

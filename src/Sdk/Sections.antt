-- ===== src/Sdk/Sections.antt =====
-- The section of an export for one kind of object: removing what is not wanted while the loop runs
-- over a copy leaves the objects that are wanted, in their order.
use resilient_python_api.Prelude.{
  String, Bool, true, false, Option, none, some, List, [], ◌∷◌, ◌++◌, ◌≡◌, refl, sym, ◌∙◌, arith,
  Bool-cases, inl, inr, if◌then◌else◌, strip, Assoc,
}
use mathlib.Core.List.{append_assoc, append-nil}
use resilient_python_api.Value.{
  Value, Fields, str, list, dict, null, bool, int, end, field, truthy, eq_value, get_field,
  elements, list_of,
}
use resilient_python_api.Prelude.{lookup}
use resilient_python_api.Value.Reflexivity.{has_distinct_keys, eq_value_refl, eq_value-held}
use resilient_python_api.Outcome.{Result, ok, err, ◌>>=◌}
use resilient_python_api.Sdk.Scrub.{in_names}
use resilient_python_api.Sdk.Minify.{
  strip_all, remove_item, name_in, unless_wanted, remove_unwanted, minify_section, emptied,
  minify_named, minify_keys,
}

-- A dict that has a name.
abbrev pub IsObject : String → Value → Type 0
IsObject attribute_name (dict fs) =
    (name : String) × (get_field attribute_name fs ≡ some (str name))
    × (has_distinct_keys (dict fs) ≡ true)
IsObject attribute_name _ = ⊥

abbrev pub AreObjects : String → List Value → Type 0
AreObjects attribute_name [] = Unit {0}
AreObjects attribute_name (item ∷ items) =
    IsObject attribute_name item × AreObjects attribute_name items

abbrev pub is_wanted_name : List String → Option Value → Bool
is_wanted_name wanted (some (str name)) = in_names (strip name) wanted
is_wanted_name wanted _ = false

abbrev pub is_wanted : String → List String → Value → Bool
is_wanted attribute_name wanted (dict fs) = is_wanted_name wanted (get_field attribute_name fs)
is_wanted attribute_name wanted _ = false

-- The items that are wanted.
abbrev pub selected : String → List String → List Value → List Value
selected attribute_name wanted [] = []
selected attribute_name wanted (item ∷ items) =
    let rest = selected attribute_name wanted items in
    if is_wanted attribute_name wanted item then item ∷ rest else rest

bind_assoc :
    {A B C : Type 0} (m : Result A) (f : A → Result B) (g : B → Result C)
    → (m >>= f >>= g) ≡ (m >>= λ a. f a >>= g)
bind_assoc (ok a) f g = refl
bind_assoc (err e) f g = refl

module _ (attribute_name : String) (wanted : List String) where
  abbrev AllWanted : List Value → Type 0
  AllWanted [] = Unit {0}
  AllWanted (item ∷ items) =
      IsObject attribute_name item × (is_wanted attribute_name wanted item ≡ true) × AllWanted items

  AllWanted-append :
      (items : List Value) (item : Value)
      → AllWanted items
      → IsObject attribute_name item
      → is_wanted attribute_name wanted item ≡ true
      → AllWanted (items ++ item ∷ [])
  AllWanted-append [] item all object is = (object, is, tt)
  AllWanted-append (x ∷ items) item all object is =
      (all.0, all.1, AllWanted-append items item all.2 object is)

  -- A wanted object is not equal to one that is not wanted.
  wanted-ne :
      (kept item : Value)
      → IsObject attribute_name kept
      → IsObject attribute_name item
      → is_wanted attribute_name wanted kept ≡ true
      → is_wanted attribute_name wanted item ≡ false
      → eq_value kept item ≡ false
  wanted-ne (dict fs) (dict gs) p q is isnt = elim (Bool-cases (eq_value (dict fs) (dict gs))) [
    | inl e ↦
        let same = eq_value-held fs gs attribute_name p.0 q.0 e p.1 q.1 in
        let yes_kept : in_names (strip p.0) wanted ≡ true = rw p.1 at is in
        let no_item : in_names (strip q.0) wanted ≡ false = rw q.1 at isnt in
        let no_kept : in_names (strip p.0) wanted ≡ false = rw same no_item in absurd (cc)
    | inr n ↦ n
  ]
  wanted-ne (dict fs) null p q is isnt = absurd q
  wanted-ne (dict fs) (bool b) p q is isnt = absurd q
  wanted-ne (dict fs) (int n) p q is isnt = absurd q
  wanted-ne (dict fs) (str s) p q is isnt = absurd q
  wanted-ne (dict fs) (list xs) p q is isnt = absurd q
  wanted-ne null item p q is isnt = absurd p
  wanted-ne (bool b) item p q is isnt = absurd p
  wanted-ne (int n) item p q is isnt = absurd p
  wanted-ne (str s) item p q is isnt = absurd p
  wanted-ne (list xs) item p q is isnt = absurd p

  object_refl : (item : Value) → IsObject attribute_name item → eq_value item item ≡ true
  object_refl (dict fs) p = eq_value_refl (dict fs) p.2
  object_refl null p = absurd p
  object_refl (bool b) p = absurd p
  object_refl (int n) p = absurd p
  object_refl (str s) p = absurd p
  object_refl (list xs) p = absurd p

  -- Behind objects that are wanted, one that is not is the first that is equal to it.
  remove_item-behind :
      (kept : List Value) (item : Value) (items : List Value)
      → AllWanted kept
      → IsObject attribute_name item
      → is_wanted attribute_name wanted item ≡ false
      → remove_item item (kept ++ item ∷ items) ≡ ok (kept ++ items)
  unfolding remove_item
  remove_item-behind [] item items all object isnt = rw (object_refl item object)
  remove_item-behind (x ∷ kept) item items all object isnt = rw (
    wanted-ne x item all.0 object all.1 isnt,
    remove_item-behind kept item items all.2 object isnt,
  )

  name_in_lem :
      (fs : Fields) (name : String)
      → get_field attribute_name fs ≡ some (str name)
      → name_in attribute_name (dict fs) ≡ ok (strip name)
  name_in_lem fs name e = ground (arith, e)

  -- One round of the loop.
  round_left :
      (kept : List Value) (item : Value) (items : List Value)
      → AllWanted kept
      → IsObject attribute_name item
      → (name_in attribute_name item >>= λ name.
          unless_wanted wanted item (kept ++ item ∷ items) name)
        ≡ ok (if is_wanted attribute_name wanted item then kept ++ item ∷ items else kept ++ items)
  round_left kept (dict fs) items all object =
      elim (Bool-cases (in_names (strip object.0) wanted)) [
        | inl is ↦ rw (name_in_lem fs object.0 object.1, object.1, is)
        | inr isnt ↦
            rw (name_in_lem fs object.0 object.1, object.1, isnt)
              (remove_item-behind kept (dict fs) items all object (rw object.1 isnt))
      ]
  round_left kept null items all object = absurd object
  round_left kept (bool b) items all object = absurd object
  round_left kept (int n) items all object = absurd object
  round_left kept (str s) items all object = absurd object
  round_left kept (list xs) items all object = absurd object

  remove_unwanted-kept :
      (kept items : List Value)
      → AllWanted kept
      → AreObjects attribute_name items
      → remove_unwanted attribute_name wanted items (kept ++ items)
        ≡ ok (kept ++ selected attribute_name wanted items)
  unfolding remove_unwanted
  remove_unwanted-kept kept [] all objects = rw append-nil
  remove_unwanted-kept kept (item ∷ items) all objects =
      let rest = selected attribute_name wanted items in
      sym (
        bind_assoc (name_in attribute_name item)
          (λ name. unless_wanted wanted item (kept ++ item ∷ items) name)
          (λ left. remove_unwanted attribute_name wanted items left))
      ∙ rw (round_left kept item items all objects.0)
          (elim (Bool-cases (is_wanted attribute_name wanted item)) [
            | inl is ↦
                let behind =
                  remove_unwanted-kept (kept ++ item ∷ []) items
                    (AllWanted-append kept item all objects.0 is) objects.1 in
                rw is (
                  rw (append_assoc kept (item ∷ []) items, append_assoc kept (item ∷ []) rest) at
                    behind)
            | inr isnt ↦ rw isnt (remove_unwanted-kept kept items all objects.1)
          ])

-- The names that are wanted, which are texts.
abbrev pub AreTexts : List Value → Type 0
AreTexts [] = Unit {0}
AreTexts (str s ∷ names) = AreTexts names
AreTexts (_ ∷ names) = ⊥

abbrev pub stripped_texts : List Value → List String
stripped_texts [] = []
stripped_texts (str s ∷ names) = strip s ∷ stripped_texts names
stripped_texts (_ ∷ names) = stripped_texts names

strip_all_lem : (names : List Value) → AreTexts names → strip_all names ≡ ok (stripped_texts names)
unfolding strip_all
strip_all_lem [] h = refl
strip_all_lem (str s ∷ names) h = rw (strip_all_lem names h)
strip_all_lem (null ∷ names) h = absurd h
strip_all_lem (bool b ∷ names) h = absurd h
strip_all_lem (int n ∷ names) h = absurd h
strip_all_lem (list xs ∷ names) h = absurd h
strip_all_lem (dict fs ∷ names) h = absurd h

-- A list of objects, or nothing.
abbrev pub IsSection : String → Value → Type 0
IsSection attribute_name (list xs) = AreObjects attribute_name (elements xs)
IsSection attribute_name v = truthy v ≡ false

abbrev pub section_left : String → List String → Value → Value
section_left attribute_name wanted (list xs) =
    list_of (selected attribute_name wanted (elements xs))
section_left attribute_name wanted v = v

minify_section_lem :
    (attribute_name : String) (wanted : List String) (section : Value)
    → IsSection attribute_name section
    → minify_section attribute_name wanted section ≡ ok (section_left attribute_name wanted section)
minify_section_lem attribute_name wanted (list xs) h =
    rw (remove_unwanted-kept attribute_name wanted [] (elements xs) tt h)
minify_section_lem attribute_name wanted null h = refl
minify_section_lem attribute_name wanted (bool b) h = ground (arith, h)
minify_section_lem attribute_name wanted (int n) h = ground (arith, h)
minify_section_lem attribute_name wanted (str s) h = ground (arith, h)
minify_section_lem attribute_name wanted (dict fs) h = ground (arith, h)

-- What an export needs to have under a key, by whether the key is kept and by what is wanted of it.
abbrev pub Fits : Bool → Option (String × List Value) → Value → Type 0
Fits true by_name value = Unit {0}
Fits false none value = Unit {0}
Fits false (some (attribute_name, names)) value = AreTexts names × IsSection attribute_name value

-- What is left of it.
abbrev pub left_of : Bool → Option (String × List Value) → String → Value → Value
left_of true by_name key value = value
left_of false none key value = if in_names key ("overrides" ∷ []) then null else emptied value
left_of false (some (attribute_name, names)) key value =
    section_left attribute_name (stripped_texts names) value

module _ (keep : List String) (by_name : Assoc (String × List Value)) where
  abbrev pub FitsAll : Fields → Type 0
  FitsAll end = Unit {0}
  FitsAll (field key value fs) = Fits (in_names key keep) (lookup key by_name) value × FitsAll fs

  abbrev pub all_left : Fields → Fields
  all_left end = end
  all_left (field key value fs) =
      field key (left_of (in_names key keep) (lookup key by_name) key value) (all_left fs)

left_of_lem :
    (kept : Bool) (wanted : Option (String × List Value)) (key : String) (value : Value)
    → Fits kept wanted value
    → (if kept then ok value else elim wanted [
      | some named ↦ minify_named value named
      | none ↦ ok (if in_names key ("overrides" ∷ []) then null else emptied value)
    ])
      ≡ ok (left_of kept wanted key value)
left_of_lem true wanted key value h = refl
left_of_lem false none key value h = refl
left_of_lem false (some (attribute_name, names)) key value h =
    rw (strip_all_lem names h.0, minify_section_lem attribute_name (stripped_texts names) value h.1)

pub minify_keys_lem :
    (keep : List String) (by_name : Assoc (String × List Value)) (fs : Fields)
    → FitsAll keep by_name fs
    → minify_keys keep by_name fs ≡ ok (all_left keep by_name fs)
unfolding minify_keys
minify_keys_lem keep by_name end h = refl
minify_keys_lem keep by_name (field key value fs) h = rw (
  left_of_lem (in_names key keep) (lookup key by_name) key value h.0,
  minify_keys_lem keep by_name fs h.1,
)

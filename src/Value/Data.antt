-- ===== src/Value/Data.antt =====
-- Python's `None`, `bool`, `int`, `str`, `list` and `dict`, and their conversions.
use resilient_python_api.Prelude.{
  ℕ, suc, zero, String, Bool, true, false, List, [], ◌∷◌, Assoc, ◌≡◌, refl, ap, lookup, Option,
  none, ◌==◌, not,
}

-- `negsuc n` is -(n + 1).
pub data ℤ : Type 0 where
  pos : ℕ → ℤ
  negsuc : ℕ → ℤ

mutual
  pub data Value : Type 0 where
    null : Value
    bool : Bool → Value
    int : ℤ → Value
    str : String → Value
    list : Items → Value
    dict : Fields → Value

  pub data Items : Type 0 where
    nil : Items
    cons : Value → Items → Items

  pub data Fields : Type 0 where
    end : Fields
    field : String → Value → Fields → Fields

abbrev pub elements : Items → List Value
elements nil = []
elements (cons v xs) = v ∷ elements xs

abbrev pub of_elements : List Value → Items
of_elements [] = nil
of_elements (v ∷ xs) = cons v (of_elements xs)

abbrev pub entries : Fields → Assoc Value
entries end = []
entries (field k v fs) = (k, v) ∷ entries fs

abbrev pub of_entries : Assoc Value → Fields
of_entries [] = end
of_entries ((k, v) ∷ m) = field k v (of_entries m)

pub entries-of_entries : (m : Assoc Value) → entries (of_entries m) ≡ m
entries-of_entries [] = refl
entries-of_entries ((k, v) ∷ m) = ap (λ (r : Assoc Value). (k, v) ∷ r) (entries-of_entries m)

-- A list display and a dict display.
abbrev pub list_of : List Value → Value
list_of xs = list (of_elements xs)

abbrev pub dict_of : Assoc Value → Value
dict_of m = dict (of_entries m)

-- bool(v)
abbrev pub truthy : Value → Bool
truthy null = false
truthy (bool b) = b
truthy (int (pos zero)) = false
truthy (int (pos (suc n))) = true
truthy (int (negsuc n)) = true
truthy (str s) = not (s == "")
truthy (list nil) = false
truthy (list (cons v xs)) = true
truthy (dict end) = false
truthy (dict (field k v fs)) = true

-- d.get(k) where `d` is a dict
abbrev pub get_field : String → Fields → Option Value
get_field k fs = lookup k (entries fs)

-- d.get(k, default)
abbrev pub get_field_or : String → Value → Fields → Value
get_field_or k default fs = elim (get_field k fs) [ none ↦ default | Option.some v ↦ v ]

-- The characters of a text, each as a text.
abbrev pub characters : String → List Value
characters String.[] = []
characters (String.◌∷◌ c s) = str (String.◌∷◌ c String.[]) ∷ characters s

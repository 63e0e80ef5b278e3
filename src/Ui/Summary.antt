-- ===== src/Ui/Summary.antt =====
-- resilient-lib/resilient_lib/ui/common.py: elements are added to the summary of incidents, behind the
-- block of a header where one is named.
use resilient_python_api.Prelude.{
  ℕ, zero, suc, String, Bool, true, false, Option, none, some, List, [], ◌∷◌, ◌++◌, if◌then◌else◌,
  ◌&&◌, ◌==◌, ◌≡◌, refl, ap,
}
use resilient_python_api.Value.{
  Value, Fields, null, int, pos, str, list, list_of, eq_value, elements,
}
use resilient_python_api.Value.Laws.{elements-of_elements}
use resilient_python_api.Outcome.{Result, ok, err, get_item, get_key, ◌>>=◌}
use resilient_python_api.Ui.Elements.{Element, missing_in}
use resilient_python_api.Ui.Layouts.{
  with_item, extended_by, LayoutClient, and_then, put_layout, get_layout, or_logged,
  permission_to_edit,
}

-- field.get("element") == "header" and field.get("content") == header_block_name
abbrev pub is_header : Value → Result Bool
is_header v = get_key v "element" >>= λ element. ok (eq_value element (str "header"))

unfoldable pub is_block : String → Value → Result Bool
unfolding eq_value
is_block name v = is_header v >>= λ header.
    if header
    then (get_key v "content" >>= λ content. ok (eq_value content (str name)))
    else ok false

abbrev pub one_more : ℕ → Result ℕ
one_more n = ok (suc n)

-- The fields before the header behind the block, all where there is none.
unfoldable pub index_of_end : Bool → String → List Value → Result ℕ
unfolding is_block
index_of_end found name [] = ok zero
index_of_end found name (v ∷ vs) =
    let rest = index_of_end true name vs in
    let on = index_of_end found name vs in
    is_header v >>= λ header.
    if found && header
    then ok zero
    else (is_block name v >>= λ block. (if block then rest else on) >>= one_more)

unfoldable pub insert_at : ℕ → List Value → List Value → List Value
insert_at zero new vs = new ++ vs
insert_at (suc n) new [] = new
insert_at (suc n) new (v ∷ vs) = v ∷ insert_at n new vs

-- With a header, whatever goes wrong is answered by adding to the end.
unfoldable pub with_new : Option String → List Value → Value → Result Value
unfolding index_of_end insert_at
with_new none new content = extended_by new content
with_new (some name) new (list xs) =
    if name == ""
    then extended_by new (list xs)
    else (elim (index_of_end false name (elements xs)) [
      | ok i ↦ ok (list_of (insert_at i new (elements xs)))
      | err e ↦ extended_by new (list xs)
    ])
with_new (some name) new content = extended_by new content

-- The fields before the header of the block: some may be other headers.
abbrev IsBefore : String → List Value → Type 0
IsBefore name [] = Unit
IsBefore name (v ∷ vs) =
    (((header : Bool) × (is_header v ≡ ok header)) × (is_block name v ≡ ok false))
    × IsBefore name vs

abbrev HasNoHeader : List Value → Type 0
HasNoHeader [] = Unit
HasNoHeader (v ∷ vs) = (is_header v ≡ ok false) × HasNoHeader vs

abbrev StartsBlock : List Value → Type 0
StartsBlock [] = Unit
StartsBlock (v ∷ vs) = is_header v ≡ ok true

module _ {W : Type 0} (client : LayoutClient W) (text_of : Value → String)
    (clean_text : String → String) where
  unfoldable pub add_components_to_summary :
      List Element → Value → Option String → W → Result Value × W
  unfolding with_new
  add_components_to_summary components layout header w =
      and_then
        (
          get_key layout "content" >>= missing_in clean_text components >>= λ new.
              get_item layout "content" >>= with_new header new >>= λ content.
              with_item "content" content layout,
          w,
        )
        (put_layout client text_of)

  abbrev pub if_summary_permitted : List Element → Option String → Bool → W → Result Value × W
  if_summary_permitted components header false w = (ok null, w)
  if_summary_permitted components header true w =
      and_then (get_layout client text_of (int (pos 8)) "incident.summary" w)
        (λ layout. add_components_to_summary components layout header)

  -- update_summary_layout, where a client can be made and app_name is given
  unfoldable pub update_summary_layout :
      Fields → List Element → Option String → String → W → Result Value × W
  unfolding permission_to_edit get_layout add_components_to_summary
  update_summary_layout opts components header app_name w =
      or_logged
        (and_then (permission_to_edit app_name opts, w) (if_summary_permitted components header))

-- The fields up to the block's end stay before what is added.
index-rest :
    (name : String) (rest new : List Value)
    → StartsBlock rest
    → (i : ℕ) × (index_of_end true name rest ≡ ok i) × (insert_at i new rest ≡ new ++ rest)
unfolding index_of_end insert_at
index-rest name [] new h = (zero, refl, refl)
index-rest name (v ∷ vs) new h = (zero, rw h, refl)

index-block :
    (name : String) (block rest new : List Value)
    → HasNoHeader block
    → StartsBlock rest
    → (i : ℕ) × (index_of_end true name (block ++ rest) ≡ ok i)
      × (insert_at i new (block ++ rest) ≡ block ++ (new ++ rest))
unfolding index_of_end insert_at
index-block name [] rest new none_there starts = index-rest name rest new starts
index-block name (v ∷ block) rest new (first, none_there) starts =
    let (i, found, placed) = index-block name block rest new none_there starts in
    (suc i, rw first (rw found), ap (λ vs. v ∷ vs) placed)

index-before :
    (name : String) (before block rest new : List Value) (h : Value)
    → IsBefore name before
    → is_header h ≡ ok true
    → is_block name h ≡ ok true
    → HasNoHeader block
    → StartsBlock rest
    → (i : ℕ) × (index_of_end false name (before ++ (h ∷ block) ++ rest) ≡ ok i)
      × (insert_at i new (before ++ (h ∷ block) ++ rest) ≡ before ++ (h ∷ block) ++ (new ++ rest))
unfolding index_of_end insert_at
index-before name [] block rest new h early header named none_there starts =
    let (i, found, placed) = index-block name block rest new none_there starts in
    (suc i, rw named (rw header (rw found)), ap (λ vs. h ∷ vs) placed)
index-before name (v ∷ before) block rest new h ((one, first), early) header named none_there
      starts =
    let (i, found, placed) =
      index-before name before block rest new h early header named none_there starts in
    (suc i, rw first (rw one.1 (rw found)), ap (λ vs. v ∷ vs) placed)

-- A summary in which `h` is the header with the text `name`, no field before it has that text and
-- element, `block` has no header, and the fields `rest` are none or start with a header: the new
-- elements come directly behind the block of `h`, and all fields keep their order.
pub with_new-behind_block :
    (name : String) (before block rest new : List Value) (h : Value)
    → (name == "") ≡ false
    → IsBefore name before
    → is_header h ≡ ok true
    → is_block name h ≡ ok true
    → HasNoHeader block
    → StartsBlock rest
    → with_new (some name) new (list_of (before ++ (h ∷ block) ++ rest))
      ≡ ok (list_of (before ++ (h ∷ block) ++ (new ++ rest)))
unfolding with_new
with_new-behind_block name before block rest new h named_at early header named none_there starts =
    let (i, found, placed) =
      index-before name before block rest new h early header named none_there starts in
    rw named_at (
      rw (elements-of_elements (before ++ (h ∷ block) ++ rest))
        (rw found (rw (elements-of_elements (before ++ (h ∷ block) ++ rest)) (rw placed))))

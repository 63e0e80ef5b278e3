-- ===== src/Ui/Completed.antt =====
-- What is missing among the fields of a tab, and what is once that was added
-- (resilient-lib/resilient_lib/ui/elements.py and common.py).
use resilient_python_api.Prelude.{
  String, Bool, true, false, Bool-cases, inl, inr, ◌⊎◌, List, [], ◌∷◌, ◌++◌, ◌≡◌, refl, arith, map,
  if◌then◌else◌, eq_iff, lookup,
}
use resilient_python_api.Value.{Value, str, eq_value}
use resilient_python_api.Outcome.{Result, ok, get_item}
use resilient_python_api.Outcome.Steps.{>>=-Between}
use resilient_python_api.Ui.Elements.{
  Basic, field, datatable, view, html, header, basic, element_type, basic_dto, has_content, is_same,
  basic_exists_in, exists_in, missing_among,
}

either_true : (same : Bool) → (if same then ok true else ok true) ≡ ok true
either_true true = refl
either_true false = refl

continue :
    (same : Bool) (rest longer : Result Bool) (there : Bool)
    → (if same then ok true else rest) ≡ ok there
    → (rest ≡ ok there → longer ≡ ok true)
    → (if same then ok true else longer) ≡ ok true
continue true rest longer there h k = refl
continue false rest longer there h k = k h

module _ (clean_text : String → String) where
  -- An element is found in what it posts.
  same-dto : (b : Basic) → is_same clean_text b (basic_dto b) ≡ ok true
  unfolding lookup eq_value
  same-dto (field name) = ground (arith, eq_iff name name)
  same-dto (datatable name) = ground (arith, eq_iff name name)
  same-dto (view name) = ground (arith, eq_iff name name)
  same-dto (html content) =
      ground (arith, eq_iff (clean_text content) (clean_text content), eq_iff content content)
  same-dto (header content link) = ground (arith, eq_iff content content)

  is_same-read :
      (b : Basic) (v e c : Value)
      → get_item v "element" ≡ ok e
      → get_item v "content" ≡ ok c
      → (same : Bool) × (is_same clean_text b v ≡ ok same)
  is_same-read b v e c element content = elim (Bool-cases (eq_value e (str (element_type b)))) [
    | inl yes_it ↦ (has_content clean_text b c, rw element (rw yes_it (rw content)))
    | inr no_it ↦ (false, rw element (rw no_it))
  ]

  -- What is posted can be looked at.
  is_same-dto : (b c : Basic) → (same : Bool) × (is_same clean_text b (basic_dto c) ≡ ok same)
  unfolding lookup
  is_same-dto b (field name) = is_same-read b (basic_dto (field name)) _ _ refl refl
  is_same-dto b (datatable name) = is_same-read b (basic_dto (datatable name)) _ _ refl refl
  is_same-dto b (view name) = is_same-read b (basic_dto (view name)) _ _ refl refl
  is_same-dto b (html content) = is_same-read b (basic_dto (html content)) _ _ refl refl
  is_same-dto b (header content link) =
      is_same-read b (basic_dto (header content link)) _ _ refl refl

  abbrev In : Basic → List Basic → Type 0
  In b [] = ⊥
  In b (c ∷ cs) = (c ≡ b) ⊎ In b cs

  exists-dtos :
      (b : Basic) (cs : List Basic)
      → In b cs
      → basic_exists_in clean_text b (map basic_dto cs) ≡ ok true
  unfolding basic_exists_in
  exists-dtos b [] h = absurd h
  exists-dtos b (c ∷ cs) (inl e) = rw e (rw (same-dto b))
  exists-dtos b (c ∷ cs) (inr h) =
      let same = is_same-dto b c in rw (same.1, exists-dtos b cs h) (either_true same.0)

  exists-append :
      (b : Basic) (vs ws : List Value) (there : Bool)
      → basic_exists_in clean_text b vs ≡ ok there
      → basic_exists_in clean_text b ws ≡ ok true
      → basic_exists_in clean_text b (vs ++ ws) ≡ ok true
  unfolding basic_exists_in
  exists-append b [] ws there h k = k
  exists-append b (v ∷ vs) ws there h k =
      let read =
        >>=-Between (is_same clean_text b v)
          (λ same. if same then ok true else basic_exists_in clean_text b vs) h in
      rw read.1.0 (
        continue read.0 (basic_exists_in clean_text b vs) (basic_exists_in clean_text b (vs ++ ws))
          there read.1.1 (λ e. exists-append b vs ws there e k))

  exists-before :
      (b : Basic) (vs ws : List Value)
      → basic_exists_in clean_text b vs ≡ ok true
      → basic_exists_in clean_text b (vs ++ ws) ≡ ok true
  unfolding basic_exists_in
  exists-before b [] ws h = cc
  exists-before b (v ∷ vs) ws h =
      let read =
        >>=-Between (is_same clean_text b v)
          (λ same. if same then ok true else basic_exists_in clean_text b vs) h in
      rw read.1.0 (
        continue read.0 (basic_exists_in clean_text b vs) (basic_exists_in clean_text b (vs ++ ws))
          true read.1.1 (λ e. exists-before b vs ws e))

  -- What is said of an element: it is among `vs`, or `cs` has it.
  abbrev IsSettled : List Value → List Basic → Basic → Type 0
  IsSettled vs cs b =
      (basic_exists_in clean_text b vs ≡ ok true)
      ⊎ ((basic_exists_in clean_text b vs ≡ ok false) × In b cs)

  abbrev AllSettled : List Value → List Basic → List Basic → Type 0
  AllSettled vs cs [] = Unit
  AllSettled vs cs (b ∷ bs) = IsSettled vs cs b × AllSettled vs cs bs

  IsSettled-more :
      (vs : List Value) (cs : List Basic) (c b : Basic)
      → IsSettled vs cs b
      → IsSettled vs (c ∷ cs) b
  IsSettled-more vs cs c b (inl there) = inl there
  IsSettled-more vs cs c b (inr (not_there, held)) = inr (not_there, inr held)

  AllSettled-more :
      (vs : List Value) (cs : List Basic) (c : Basic) (bs : List Basic)
      → AllSettled vs cs bs
      → AllSettled vs (c ∷ cs) bs
  AllSettled-more vs cs c [] h = tt
  AllSettled-more vs cs c (b ∷ bs) (first, rest) =
      (IsSettled-more vs cs c b first, AllSettled-more vs cs c bs rest)

  abbrev Settling : List Value → List Basic → List Value → Type 0
  Settling vs bs missing = (cs : List Basic) × (missing ≡ map basic_dto cs) × AllSettled vs cs bs

  Settling-one :
      (vs : List Value) (b : Basic) (bs : List Basic) (there : Bool) (rest missing : List Value)
      → basic_exists_in clean_text b vs ≡ ok there
      → ok (if there then rest else basic_dto b ∷ rest) ≡ ok missing
      → Settling vs bs rest
      → Settling vs (b ∷ bs) missing
  Settling-one vs b bs true rest missing found same (cs, posted, settled) =
      (cs, cc, (inl found, settled))
  Settling-one vs b bs false rest missing found same (cs, posted, settled) =
      (b ∷ cs, cc, (inr (found, inl refl), AllSettled-more vs cs b bs settled))

  missing_among-settles :
      (bs : List Basic) (vs missing : List Value)
      → missing_among clean_text (map basic bs) vs ≡ ok missing
      → Settling vs bs missing
  unfolding missing_among exists_in
  missing_among-settles [] vs missing h = ([], cc, tt)
  missing_among-settles (b ∷ bs) vs missing h =
      let one = >>=-Between (basic_exists_in clean_text b vs) _ h in
      let all = >>=-Between (missing_among clean_text (map basic bs) vs) _ one.1.1 in
      Settling-one vs b bs one.0 all.0 missing one.1.0 all.1.1
        (missing_among-settles bs vs all.0 all.1.0)

  settled-exists :
      (b : Basic) (vs : List Value) (cs : List Basic)
      → IsSettled vs cs b
      → basic_exists_in clean_text b (vs ++ map basic_dto cs) ≡ ok true
  settled-exists b vs cs (inl there) = exists-before b vs (map basic_dto cs) there
  settled-exists b vs cs (inr (not_there, held)) =
      exists-append b vs (map basic_dto cs) false not_there (exists-dtos b cs held)

  AllSettled-none_missing :
      (bs : List Basic) (vs : List Value) (cs : List Basic)
      → AllSettled vs cs bs
      → missing_among clean_text (map basic bs) (vs ++ map basic_dto cs) ≡ ok []
  unfolding missing_among exists_in
  AllSettled-none_missing [] vs cs h = refl
  AllSettled-none_missing (b ∷ bs) vs cs (first, rest) =
      rw (settled-exists b vs cs first) (rw (AllSettled-none_missing bs vs cs rest))

  -- Elements that are no section, wherever they can be looked for among the fields `vs` of a tab: with
  -- what is posted for those that are missing added behind `vs`, none of them is missing any more.
  pub missing_among-completes :
      (bs : List Basic) (vs missing : List Value)
      → missing_among clean_text (map basic bs) vs ≡ ok missing
      → missing_among clean_text (map basic bs) (vs ++ missing) ≡ ok []
  missing_among-completes bs vs missing h =
      let (cs, posted, settled) = missing_among-settles bs vs missing h in
      rw posted (AllSettled-none_missing bs vs cs settled)

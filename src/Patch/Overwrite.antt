-- ===== src/Patch/Overwrite.antt =====
-- `update_for_overwrite` on a reply that reports conflicts as the server documents them: what each
-- old value becomes.
use resilient_python_api.Prelude.{
  String, Bool, true, false, Option, none, some, List, [], ◌∷◌, ◌≡◌, refl, ◌==◌, eq_iff, arith,
  if◌then◌else◌, Assoc, lookup, insert, has_key, map, lookup-insert, has_key-insert, has_key-lookup,
  inl, inr, Bool-cases, ◌⊎◌,
}
use resilient_python_api.Value.{Value, str, bool, list_of, dict_of, eq_value}
use resilient_python_api.Value.Laws.{elements-of_elements}
use resilient_python_api.Outcome.{ok, err, value_error, iterate}
use resilient_python_api.PatchStatus.{
  PatchStatus, has_field_failures, get_conflict_fields, get_actual_current_value, find_failure,
  field_names,
}
use resilient_python_api.Patch.{
  Patch, Change, overwrite_field, overwrite_fields, update_for_overwrite,
  get_change_with_field_named, overwrite_found,
}

-- FieldPatchFailureDTO
pub record Failure : Type 0 where
  pub failed_field : String
  pub original : Value
  pub actual : Value

abbrev pub failure_dto : Failure → Value
failure_dto f = dict_of (
    ("field", str f.failed_field)
    ∷ ("your_original_value", f.original)
    ∷ ("actual_current_value", f.actual)
    ∷ [])

-- The reply of the patch endpoint.
abbrev pub reply_of : Bool → List Failure → Value
reply_of success failures =
    dict_of
      (("success", bool success) ∷ ("field_failures", list_of (map failure_dto failures)) ∷ [])

abbrev pub status_of : Bool → List Failure → PatchStatus
status_of success failures = record { patch_status_dict = reply_of success failures }

-- The first failure that names a field.
abbrev pub failure_of : String → List Failure → Option Failure
failure_of k [] = none
failure_of k (f ∷ fs) = if f.failed_field == k then some f else failure_of k fs

-- What a change to field `k` becomes when the listed failures are written back.
abbrev pub revised : List Failure → String → Change → Change
revised fs k c = elim (failure_of k fs) [ none ↦ c | some f ↦ record c { old_value = f.actual } ]

find_failure-dto :
    (k : String) (fs : List Failure)
    → find_failure (str k) (map failure_dto fs)
      ≡ ok (elim (failure_of k fs) [ none ↦ none | some f ↦ some (failure_dto f) ])
unfolding find_failure lookup eq_value
find_failure-dto k [] = refl
find_failure-dto k (f ∷ fs) = ground (arith, find_failure-dto k fs)

field_names-dto :
    (fs : List Failure) → field_names (map failure_dto fs) ≡ ok (map (λ f. str f.failed_field) fs)
unfolding field_names lookup
field_names-dto [] = refl
field_names-dto (f ∷ fs) = rw (field_names-dto fs)

module _ (b : Bool) (fs : List Failure) where
  actual_value :
      (k : String)
      → get_actual_current_value (status_of b fs) (str k) ≡ elim (failure_of k fs) [
        | none ↦ err (value_error "No conflict found for field")
        | some f ↦ ok f.actual
      ]
  unfolding get_actual_current_value iterate lookup
  actual_value k =
      rw (elements-of_elements (map failure_dto fs), find_failure-dto k fs) (ground arith)

  conflict_fields : get_conflict_fields (status_of b fs) ≡ ok (map (λ f. str f.failed_field) fs)
  unfolding get_conflict_fields iterate lookup
  conflict_fields = rw (elements-of_elements (map failure_dto fs)) (field_names-dto fs)

pub some_failures-dto :
    (b : Bool) (f : Failure) (fs : List Failure)
    → has_field_failures (status_of b (f ∷ fs)) ≡ ok true
unfolding has_field_failures iterate lookup has_key
some_failures-dto b f fs = ground arith

-- One turn of the loop, at a field that the patch changes and the reply names.
overwrite_field-found :
    (b : Bool) (fs : List Failure) (k : String) (p : Patch) (c : Change) (f : Failure)
    → lookup k p.changes ≡ some c
    → failure_of k fs ≡ some f
    → overwrite_field (status_of b fs) (str k) p
      ≡ (ok tt, record p { changes = insert k (record c { old_value = f.actual }) p.changes })
unfolding overwrite_field get_change_with_field_named overwrite_found
overwrite_field-found b fs k p c f h g = rw (h, actual_value b fs k) (ground arith)

abbrev pub map_change : (Change → Change) → Option Change → Option Change
map_change g none = none
map_change g (some c) = some (g c)

-- Each listed failure is about a field that has a change.
abbrev pub AllChanged : List Failure → Assoc Change → Type 0
AllChanged [] m = Unit {0}
AllChanged (f ∷ fs) m = (has_key f.failed_field m ≡ true) × AllChanged fs m

AllChanged-insert :
    (k : String) (c : Change) (fs : List Failure) (m : Assoc Change)
    → AllChanged fs m
    → AllChanged fs (insert k c m)
AllChanged-insert k c [] m h = tt
AllChanged-insert k c (f ∷ fs) m h =
    ground (arith, has_key-insert k f.failed_field c m, AllChanged-insert k c fs m h.1)

-- Each failure of the second list is named in the first.
abbrev AllNamed : List Failure → List Failure → Type 0
AllNamed fs [] = Unit {0}
AllNamed fs (g ∷ gs) = ((f : Failure) × (failure_of g.failed_field fs ≡ some f)) × AllNamed fs gs

AllNamed-cons : (f : Failure) (fs gs : List Failure) → AllNamed fs gs → AllNamed (f ∷ fs) gs
AllNamed-cons f fs [] h = tt
AllNamed-cons f fs (g ∷ gs) (h, t) =
    (named (Bool-cases (f.failed_field == g.failed_field)), AllNamed-cons f fs gs t)
  where
    named :
        ((f.failed_field == g.failed_field) ≡ true) ⊎ ((f.failed_field == g.failed_field) ≡ false)
        → (f' : Failure) × (failure_of g.failed_field (f ∷ fs) ≡ some f')
    named (inl e) = (f, rw e)
    named (inr e) = (h.0, rw e h.1)

AllNamed-self : (fs : List Failure) → AllNamed fs fs
AllNamed-self [] = tt
AllNamed-self (f ∷ fs) = (
  (f, ground (arith, eq_iff f.failed_field f.failed_field)),
  AllNamed-cons f fs fs (AllNamed-self fs),
)

has_key→lookup :
    (k : String) (m : Assoc Change) → has_key k m ≡ true → (c : Change) × (lookup k m ≡ some c)
has_key→lookup k m h = ground (arith, has_key-lookup k m)

-- What the changes are after the failures `gs` of the reply `fs` were written back.
abbrev pub WrittenBack : List Failure → List Failure → Patch → Patch → Type 0
WrittenBack fs gs p q =
    (j : String)
    → lookup j q.changes ≡ elim (failure_of j gs) [
      | none ↦ lookup j p.changes
      | some _ ↦ map_change (revised fs j) (lookup j p.changes)
    ]

written-cons :
    (fs gs : List Failure) (g : Failure) (c : Change) (f : Failure) (p q : Patch)
    → lookup g.failed_field p.changes ≡ some c
    → failure_of g.failed_field fs ≡ some f
    → WrittenBack fs gs
        (record p { changes = insert g.failed_field (record c { old_value = f.actual }) p.changes })
        q
    → WrittenBack fs (g ∷ gs) p q
written-cons fs gs g c f p q h e w j = ground (
  arith,
  w j,
  lookup-insert g.failed_field j (record c { old_value = f.actual }) p.changes,
  eq_iff g.failed_field j,
)

overwrite_fields_lem :
    (b : Bool) (fs gs : List Failure) (p : Patch)
    → AllNamed fs gs
    → AllChanged gs p.changes
    → (q : Patch) × (overwrite_fields (status_of b fs) (map (λ f. str f.failed_field) gs) p
        ≡ (ok tt, q))
      × WrittenBack fs gs p q
unfolding overwrite_fields
overwrite_fields_lem b fs [] p n h = (p, refl, λ j. refl)
overwrite_fields_lem b fs (g ∷ gs) p ((f, e), n) (present, h) =
    let (c, at) = has_key→lookup g.failed_field p.changes present in
    let p₁ : Patch = record p {
      changes = insert g.failed_field (record c { old_value = f.actual }) p.changes;
    } in
    let (q, run, w) =
      overwrite_fields_lem b fs gs p₁ n (AllChanged-insert g.failed_field _ gs p.changes h) in
    (
      q,
      rw (overwrite_field-found b fs g.failed_field p c f at e) run,
      written-cons fs gs g c f p q at e w,
    )

-- On a reply with at least one field failure, each about a field that the patch changes,
-- `update_for_overwrite` returns, and the change to each field is then what it was, except that a
-- field that the reply names has the server's actual value, of its first failure, for its old value.
pub update_for_overwrite_lem :
    (b : Bool) (f : Failure) (fs : List Failure) (p : Patch)
    → AllChanged (f ∷ fs) p.changes
    → (q : Patch) × (update_for_overwrite (status_of b (f ∷ fs)) p ≡ (ok tt, q))
      × ((j : String) → lookup j q.changes ≡ map_change (revised (f ∷ fs) j) (lookup j p.changes))
unfolding update_for_overwrite
update_for_overwrite_lem b f fs p h =
    let (q, run, w) = overwrite_fields_lem b (f ∷ fs) (f ∷ fs) p (AllNamed-self (f ∷ fs)) h in
    (q, rw (some_failures-dto b f fs, conflict_fields b (f ∷ fs)) run, λ j. ground (arith, w j))

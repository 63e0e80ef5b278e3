-- ===== src/Incidents/Closing.antt =====
-- When an incident is closed, and with which patch.
use resilient_python_api.Prelude.{
  String, Bool, true, false, none, some, List, [], ◌∷◌, Assoc, lookup, has_key, ◌≡◌, refl, arith,
  eq_iff, ◌==◌, Bool-cases, inl, inr, ◌∙◌, ap, subst, IsUnique, lookup-insert_self, has_key-lookup,
  insert-IsUnique,
}
use resilient_python_api.Value.{Value, null, str}
use resilient_python_api.Outcome.{Result, ok, err, value_error}
use resilient_python_api.Patch.{
  Patch, new_patch, add_value, and_then, get_new_value, get_old_value, get_base_value,
}
use resilient_python_api.Patch.Reading.{add_value-get, add_value-previous, get_base_value-previous}
use resilient_python_api.RestClient.{RestClient, ObjectId, is_given}
use resilient_python_api.Incidents.{
  add_values, missing, with_plan_status, required_fields, close_incident, get_incident_fields,
  incident_uri, response_of, patch_to_close_incident, closed_unless,
}

and_then-ok :
    (r : Result (Unit {0}) × Patch) (next : Patch → Result (Unit {0}) × Patch) (q : Patch)
    → and_then r (λ _. next) ≡ (ok tt, q)
    → (r ≡ (ok tt, r.1)) × (next r.1 ≡ (ok tt, q))
and_then-ok (ok _, p) next q h = (refl, h)
and_then-ok (err e, p) next q h = absurd (ground arith)

-- The values of other fields stay, and the previous object too.
add_values-other :
    (j : String) (fields : Assoc Value) (p q : Patch)
    → add_values fields p ≡ (ok tt, q)
    → has_key j fields ≡ false
    → lookup j q.changes ≡ lookup j p.changes
unfolding add_values has_key
add_values-other j [] p q h out = ground arith
add_values-other j ((f, v) ∷ fields) p q h out =
    let (first, rest) = and_then-ok (add_value f v none p) (add_values fields) q h in
    let (_, _, other) = add_value-get f j v none p (add_value f v none p).1 first in
    let ih = add_values-other j fields (add_value f v none p).1 q rest (ground arith) in
    ih ∙ other (ground (arith, eq_iff f j))

get-lookup :
    (k : String) (p q : Patch)
    → lookup k q.changes ≡ lookup k p.changes
    → (get_new_value q k ≡ get_new_value p k) × (get_old_value q k ≡ get_old_value p k)
unfolding get_new_value get_old_value
get-lookup k p q e = (ground arith, ground arith)

-- After all fields of a dictionary are added to a patch, each has its value for the new value, and for
-- the old value that of the previous object.
pub add_values-get :
    (k : String) (v : Value) (fields : Assoc Value) (p q : Patch)
    → IsUnique fields
    → lookup k fields ≡ some v
    → add_values fields p ≡ (ok tt, q)
    → (get_new_value q k ≡ ok v) × (get_old_value q k ≡ get_base_value p k)
unfolding add_values lookup
add_values-get k v [] p q u held h = absurd (ground arith)
add_values-get k v ((f, x) ∷ fields) p q u held h =
    let (first, rest) = and_then-ok (add_value f x none p) (add_values fields) q h in
    let (new, old, _) = add_value-get f k x none p (add_value f x none p).1 first in
    elim (Bool-cases (f == k)) [
      | inl e ↦
          let same : f ≡ k = ground (arith, eq_iff f k) in
          let out : has_key k fields ≡ false =
            subst (λ (s : String). has_key s fields ≡ false) same u.0 in
          let (n, o) =
            get-lookup k (add_value f x none p).1 q
              (add_values-other k fields (add_value f x none p).1 q rest out) in
          let is_v : x ≡ v = ground arith in
          let p₁ = (add_value f x none p).1 in
          (
            n
                ∙ subst (λ (s : String). get_new_value p₁ s ≡ ok x) same new
                ∙ ap (λ (y : Value). ok y) is_v,
            o ∙ subst (λ (s : String). get_old_value p₁ s ≡ get_base_value p s) same old,
          )
      | inr e ↦
          let (n, o) =
            add_values-get k v fields (add_value f x none p).1 q u.1 (ground arith) rest in
          (
            n,
            o
                ∙ get_base_value-previous p (add_value f x none p).1 k
                    (add_value-previous f x none p),
          )
    ]

-- The status that an incident is closed with.
abbrev pub plan_status_of : Assoc Value → Value
plan_status_of kwargs = elim (lookup "plan_status" kwargs) [ none ↦ str "C" | some v ↦ v ]

lookup-with_plan_status :
    (kwargs : Assoc Value)
    → lookup "plan_status" (with_plan_status kwargs) ≡ some (plan_status_of kwargs)
lookup-with_plan_status kwargs =
    ground (
      arith,
      has_key-lookup "plan_status" kwargs,
      lookup-insert_self "plan_status" (str "C") kwargs,
    )

with_plan_status-IsUnique :
    (kwargs : Assoc Value) → IsUnique kwargs → IsUnique (with_plan_status kwargs)
with_plan_status-IsUnique kwargs u = elim (Bool-cases (has_key "plan_status" kwargs)) [
  | inl e ↦ rw e u
  | inr e ↦ rw e (insert-IsUnique "plan_status" (str "C") kwargs u)
]

module _ {W : Type 0} (client : RestClient W)
    (cached : (W → Result Value × W) → W → Result Value × W) (incident : ObjectId)
    (kwargs : Assoc Value) (handle_names : Bool) (w w₁ : W) (fields : Value)
    (required : List String) (given : is_given incident ≡ true)
    (read : cached (get_incident_fields client) w ≡ (ok fields, w₁))
    (needs : required_fields fields ≡ ok required) where
  close_incident-needs :
      close_incident client cached incident kwargs handle_names w
      ≡ closed_unless client (missing required kwargs) incident kwargs handle_names w₁
  unfolding close_incident
  close_incident-needs = rw (given, read, needs)

  -- If `kwargs` lacks a field that is required on close, `close_incident` raises a ValueError, and
  -- makes no request after the one for the fields.
  pub close_incident-missing :
      (field : String) (others : List String)
      → missing required kwargs ≡ field ∷ others
      → close_incident client cached incident kwargs handle_names w
        ≡ some (err (value_error "Missing mandatory field(s) to close an incident: {0}"), w₁)
  close_incident-missing field others lacks =
      close_incident-needs
      ∙ ap (λ (fs : List String). closed_unless client fs incident kwargs handle_names w₁) lacks

  -- If none is missing, the incident can be read and the changes can be made, then the one patch that
  -- is sent has every field of `kwargs` with its value, and the incident's own value for the old
  -- value; and "plan_status" is "C" where `kwargs` does not say otherwise.
  pub close_incident_patches :
      (w₂ : W) (previous : Value) (p q : Patch) (k : String) (v : Value)
      → IsUnique kwargs
      → missing required kwargs ≡ []
      → client.get (incident_uri incident handle_names) w₁ ≡ (ok previous, w₂)
      → new_patch previous null ≡ ok p
      → add_values (with_plan_status kwargs) p ≡ (ok tt, q)
      → lookup k (with_plan_status kwargs) ≡ some v
      → (close_incident client cached incident kwargs handle_names w
          ≡ response_of client (client.patch (incident_uri incident handle_names) q w₂))
        × (get_new_value q k ≡ ok v)
        × (get_old_value q k ≡ get_base_value p k)
        × (get_new_value q "plan_status" ≡ ok (plan_status_of kwargs))
  unfolding patch_to_close_incident
  close_incident_patches w₂ previous p q k v u none_missing found new added held =
      let unique = with_plan_status-IsUnique kwargs u in
      let (n, o) = add_values-get k v (with_plan_status kwargs) p q unique held added in
      (
        close_incident-needs
            ∙ ap (λ (fs : List String). closed_unless client fs incident kwargs handle_names w₁)
                none_missing
            ∙ rw (found, new, added),
        n,
        o,
        (add_values-get "plan_status" (plan_status_of kwargs) (with_plan_status kwargs) p q unique
            (lookup-with_plan_status kwargs) added).0,
      )

-- ===== src/Poller/Updates.antt =====
-- What the update of a case sends, and what it can raise.
use resilient_python_api.Prelude.{
  ℕ, String, Option, none, some, if◌then◌else◌, [], ◌∷◌, ◌++◌, Assoc, lookup, insert, ◌≡◌, refl,
  arith, ◌==◌, ◌⊎◌, inl, inr, ◌∙◌, ap, sym, IsUnique, Bool-cases, Option-cases,
}
use resilient_python_api.Value.{Value, null, dict, dict_of, entries, Fields}
use resilient_python_api.Outcome.{
  Error, Result, ok, err, integration_error, system_exit, Response, as_integration_error,
}
use resilient_python_api.Patch.{
  Patch, new_patch, add_value, and_then, get_new_value, get_old_value, get_base_value,
}
use resilient_python_api.RestClient.{RestClient, ObjectId}
use resilient_python_api.Incidents.{add_values}
use resilient_python_api.Incidents.Closing.{add_values-get}
use resilient_python_api.Poller.{
  add_payload, add_properties, patch_case, case_url, id_value, caught, tried, chk_status,
}

abbrev pub spread : Value → Assoc Value → Option (Assoc Value)
spread (dict fs) fields = some (entries fs ++ fields)
spread _ fields = none

-- The fields that a payload names, those under "properties" among them; `none` where "properties" is
-- no dictionary.
abbrev pub flattened : Assoc Value → Option (Assoc Value)
flattened [] = some []
flattened ((name, value) ∷ payload) =
    let rest = flattened payload in
    elim rest [
      | none ↦ none
      | some fields ↦
          if name == "properties" then spread value fields else some ((name, value) ∷ fields)
    ]

and_then_assoc :
    (r : Result (Unit {0}) × Patch) (f g : Patch → Result (Unit {0}) × Patch)
    → and_then (and_then r (λ _. f)) (λ _. g) ≡ and_then r (λ _ p. and_then (f p) (λ _. g))
and_then_assoc (ok _, q) f g = refl
and_then_assoc (err e, q) f g = refl

and_then_ext :
    (r : Result (Unit {0}) × Patch) (f g : Patch → Result (Unit {0}) × Patch)
    → ((p : Patch) → f p ≡ g p)
    → and_then r (λ _. f) ≡ and_then r (λ _. g)
and_then_ext (ok _, q) f g h = h q
and_then_ext (err e, q) f g h = refl

add_values-append :
    (a b : Assoc Value) (p : Patch)
    → add_values (a ++ b) p ≡ and_then (add_values a p) (λ _. add_values b)
unfolding add_values
add_values-append [] b p = refl
add_values-append ((f, v) ∷ a) b p =
    and_then_ext (add_value f v none p) (add_values (a ++ b))
      (λ q. and_then (add_values a q) (λ _. add_values b)) (add_values-append a b)
    ∙ sym (and_then_assoc (add_value f v none p) (add_values a) (add_values b))

spread-add :
    (value : Value) (rest fields : Assoc Value) (p : Patch)
    (next : Patch → Result (Unit {0}) × Patch)
    → spread value rest ≡ some fields
    → ((q : Patch) → next q ≡ add_values rest q)
    → and_then (add_properties value p) (λ _. next) ≡ add_values fields p
spread-add (dict fs) rest fields p next h same =
    let named : entries fs ++ rest ≡ fields = ground arith in
    and_then_ext (add_values (entries fs) p) next (add_values rest) same
    ∙ sym (add_values-append (entries fs) rest p)
    ∙ ap (λ (m : Assoc Value). add_values m p) named
spread-add _ rest fields p next h same = absurd (ground arith)

add_payload-flattened :
    (payload fields : Assoc Value) (p : Patch)
    → flattened payload ≡ some fields
    → add_payload payload p ≡ add_values fields p
unfolding add_payload add_values
add_payload-flattened [] fields p h =
    let e : [] ≡ fields = ground arith in ap (λ (m : Assoc Value). add_values m p) e
add_payload-flattened ((name, value) ∷ payload) fields p h =
    elim (Option-cases (flattened payload)) [
      | inl e ↦ absurd (ground arith)
      | inr (rest, e) ↦ elim (Bool-cases (name == "properties")) [
        | inl e' ↦ rw e' (
            spread-add value rest fields p (add_payload payload) (ground arith)
              (λ q. add_payload-flattened payload rest q e))
        | inr e' ↦
            let named : (name, value) ∷ rest ≡ fields = ground arith in
            rw e' (
              and_then_ext (add_value name value none p) (add_payload payload) (add_values rest)
                (λ q. add_payload-flattened payload rest q e)
              ∙ ap (λ (m : Assoc Value). add_values m p) named)
      ]
    ]

as_integration_error-raises :
    {A : Type 0} (r : Result A) (e : Error)
    → as_integration_error r ≡ err e
    → (e ≡ integration_error) ⊎ ((code : ℕ) × (e ≡ system_exit code))
as_integration_error-raises (ok a) e h = absurd (ground arith)
as_integration_error-raises (err (system_exit code)) e h = inr (code, ground arith)
as_integration_error-raises (err _) e h = inl (ground arith)

caught-raises :
    {W : Type 0} (rest_client : RestClient W) (o : Option (Result Value × W)) (e : Error) (w : W)
    → caught rest_client o ≡ some (err e, w)
    → (e ≡ integration_error) ⊎ ((code : ℕ) × (e ≡ system_exit code))
caught-raises rest_client none e w h = absurd (ground arith)
caught-raises rest_client (some (r, w')) e w h = as_integration_error-raises r e (ground arith)

-- Whatever goes wrong while a case is updated, in the requests, the payload or the reply, the caller
-- of `_patch_case` sees an IntegrationError; only an exit of the process passes through.
pub patch_case-raises :
    {W : Type 0} (rest_client : RestClient W) (case_id : ObjectId) (payload : Assoc Value)
    (w w' : W) (e : Error)
    → patch_case rest_client case_id payload w ≡ some (err e, w')
    → (e ≡ integration_error) ⊎ ((code : ℕ) × (e ≡ system_exit code))
unfolding patch_case
patch_case-raises rest_client case_id payload w w' e h =
    caught-raises rest_client
      (tried rest_client case_id payload (rest_client.get (case_url case_id) w)) e w' h

-- Where the case is read, the changes can be made and the patch is answered with status 200 and a
-- dictionary, the patch that was sent has each field of the payload, those under "properties"
-- included, with its value, and with the case's own for the old value; and what is returned is the
-- answered dictionary with the id of the case.
pub patch_case_lem :
    {W : Type 0} (rest_client : RestClient W) (case_id : ObjectId) (payload fields : Assoc Value)
    (w w₁ w₂ : W) (case : Value) (p q q' : Patch) (r : Response) (fs : Fields) (k : String)
    (v : Value)
    → flattened payload ≡ some fields
    → IsUnique fields
    → rest_client.get (case_url case_id) w ≡ (ok case, w₁)
    → new_patch case null ≡ ok p
    → add_payload payload p ≡ (ok tt, q)
    → rest_client.patch (case_url case_id) q w₁ ≡ some ((ok r, q'), w₂)
    → r.status_code ≡ 200
    → r.json ≡ some (dict fs)
    → lookup k fields ≡ some v
    → (patch_case rest_client case_id payload w
        ≡ some (ok (dict_of (insert "id" (id_value case_id) (entries fs))), w₂))
      × (get_new_value q k ≡ ok v)
      × (get_old_value q k ≡ get_base_value p k)
unfolding patch_case chk_status
patch_case_lem rest_client case_id payload fields w w₁ w₂ case p q q' r fs k v flat u read new added
      answer status has held =
    let checked : chk_status r ≡ ok (dict fs) = ground arith in
    let (n, o) =
      add_values-get k v fields p q u held
        (sym (add_payload-flattened payload fields p flat) ∙ added) in
    (rw (read, new, added, answer, checked), n, o)

-- ===== src/BaseClient/Organizations.antt =====
-- Which organization a session is opened in.
use resilient_python_api.Prelude.{
  none_not_some, some-eq, String, Bool, true, false, Option, none, some, ◌≡◌, refl, List, [], ◌∷◌,
  arith, if◌then◌else◌, map, ◌||◌, lookup, ap, sym, ◌∙◌,
}
use resilient_python_api.Value.{
  Value, Fields, Items, null, truthy, str, bool, list, dict, list_of, eq_value, get_field,
  get_field_or,
}
use resilient_python_api.Value.Laws.{elements-of_elements}
use resilient_python_api.Outcome.{Result, ok, err, ◌>>=◌, plain_exception, iterate}
use resilient_python_api.BaseClient.{BaseClient}
use resilient_python_api.BaseClient.Login.{
  org_matches, select_org, enabled_orgs, selected, choose_org, extract_org_id,
}

-- Whether an entry of the session's "orgs" has the text for its account, uuid or name. One that it
-- does not have counts as the empty text; a null or another value is no text.
abbrev pub is_named : String → Fields → Bool
is_named n org =
    eq_value (str n) (get_field_or "cloud_account" (str "") org)
    || eq_value (str n) (get_field_or "uuid" (str "") org)
    || eq_value (str n) (get_field_or "name" (str "") org)

abbrev pub is_enabled : Fields → Bool
is_enabled org = truthy (get_field_or "enabled" (bool false) org)

-- The first organization with that account, uuid or name.
abbrev pub named_org : String → List Fields → Option Fields
named_org n [] = none
named_org n (o ∷ os) = if is_named n o then some o else named_org n os

abbrev pub enabled_only : List Fields → List Fields
enabled_only [] = []
enabled_only (o ∷ os) = if is_enabled o then o ∷ enabled_only os else enabled_only os

-- What opening a session in an organization comes to.
abbrev pub opened : BaseClient → List Fields → Option Fields → Result BaseClient
opened client orgs none =
    err (plain_exception "The user is not a member of the specified organization")
opened client orgs (some o) =
    if is_enabled o
    then ok (record client {
      org_id = get_field_or "id" null o;
      all_orgs = map (λ org. dict org) (enabled_only orgs);
    })
    else err (plain_exception "This organization is not accessible to you.")

org_matches-dict : (n : String) (o : Fields) → org_matches (str n) (dict o) ≡ ok (is_named n o)
unfolding org_matches
org_matches-dict n o = ground arith

abbrev as_dict : Option Fields → Option Value
as_dict none = none
as_dict (some o) = some (dict o)

select_org-dicts :
    (n : String) (os : List Fields)
    → select_org (str n) (map (λ org. dict org) os) ≡ ok (as_dict (named_org n os))
unfolding select_org
select_org-dicts n [] = refl
select_org-dicts n (o ∷ os) = rw (org_matches-dict n o) (ground (arith, select_org-dicts n os))

enabled_or_null :
    (o : Fields) (v : Option Value)
    → truthy (elim v [ none ↦ null | some held ↦ held ])
      ≡ truthy (elim v [ none ↦ bool false | some held ↦ held ])
enabled_or_null o none = refl
enabled_or_null o (some held) = refl

enabled_orgs-dicts :
    (os : List Fields)
    → enabled_orgs (map (λ org. dict org) os) ≡ ok (map (λ org. dict org) (enabled_only os))
unfolding enabled_orgs
enabled_orgs-dicts [] = refl
enabled_orgs-dicts (o ∷ os) =
    rw (enabled_orgs-dicts os) (ground (arith, enabled_or_null o (get_field "enabled" o)))

named_one :
    (n : String) (p o : Fields) (same : Bool) (later : Option Fields)
    → is_named n p ≡ same
    → (if same then some p else later) ≡ some o
    → (later ≡ some o → is_named n o ≡ true)
    → is_named n o ≡ true
named_one n p o true later named h k = ap (is_named n) (sym (some-eq h)) ∙ named
named_one n p o false later named h k = k h

named_org-is_named :
    (n : String) (os : List Fields) (o : Fields) → named_org n os ≡ some o → is_named n o ≡ true
named_org-is_named n [] o h = absurd (none_not_some h)
named_org-is_named n (p ∷ os) o h =
    named_one n p o (is_named n p) (named_org n os) refl h (named_org-is_named n os o)

-- An organization that is named is no empty dict.
is_named-truthy :
    (n : String) (o : Fields) → truthy (str n) ≡ true → is_named n o ≡ true → truthy (dict o) ≡ true
unfolding lookup eq_value
is_named-truthy n (Fields.field k v fs) t h = refl
is_named-truthy n Fields.end t h = absurd (ground arith)

selected-dicts :
    (client : BaseClient) (orgs : List Fields) (found : Option Fields)
    → ((o : Fields) → found ≡ some o → truthy (dict o) ≡ true)
    → selected client (map (λ org. dict org) orgs) (as_dict found) ≡ opened client orgs found
unfolding selected
selected-dicts client orgs none full = refl
selected-dicts client orgs (some o) full =
    rw (full o refl) (rw (enabled_orgs-dicts orgs) (ground arith))

choose_org-dicts :
    (client : BaseClient) (n : String) (orgs : List Fields)
    → client.org_name ≡ str n
    → truthy (str n) ≡ true
    → choose_org client (map (λ org. dict org) orgs) ≡ opened client orgs (named_org n orgs)
unfolding choose_org
choose_org-dicts client n orgs e t =
    ap
      (λ (v : Value).
        select_org v (map (λ org. dict org) orgs) >>= selected client (map (λ org. dict org) orgs))
      e
    ∙ rw (select_org-dicts n orgs) (
        selected-dicts client orgs (named_org n orgs)
          (λ o found. is_named-truthy n o t (named_org-is_named n orgs o found)))

-- On a session, a dict whose "orgs" is a list of at least one dict, and for a client that names an
-- organization: the client takes the id of the first entry whose cloud account, uuid or name is the
-- given text, and keeps the list of the enabled ones; it raises if there is none, or if that one is not
-- enabled, even where a later one would match.
pub extract_org_id_lem :
    (client : BaseClient) (n : String) (session : Fields) (o : Fields) (os : List Fields)
    → client.org_name ≡ str n
    → truthy (str n) ≡ true
    → get_field "orgs" session ≡ some (list_of (map (λ org. dict org) (o ∷ os)))
    → extract_org_id client (dict session) ≡ opened client (o ∷ os) (named_org n (o ∷ os))
unfolding extract_org_id iterate
extract_org_id_lem client n session o os e t held =
    let named : truthy client.org_name ≡ true = ap truthy e ∙ t in
    let orgs : get_field_or "orgs" (list Items.nil) session
        ≡ list_of (map (λ org. dict org) (o ∷ os)) =
      ap (λ v. elim v [ none ↦ list Items.nil | some w ↦ w ]) held in
    rw orgs (
      rw (elements-of_elements (map (λ org. dict org) os), named)
        (choose_org-dicts client n (o ∷ os) e t))

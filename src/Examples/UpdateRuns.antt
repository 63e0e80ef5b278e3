-- ===== src/Examples/UpdateRuns.antt =====
-- Runs of the get/apply/put loop, and of the choice of an organization.
use resilient_python_api.Prelude.{◌+◌, true, false, none, some, ◌≡◌, refl, [], ◌∷◌, lookup}
use resilient_python_api.Value.{
  Value, Fields, null, bool, str, int, pos, dict, dict_of, list_of, of_entries, eq_value,
}
use resilient_python_api.Outcome.{ok, err, Response, no_change}
use resilient_python_api.Http.{Session}
use resilient_python_api.BaseClient.{execute_request, raise_if_error}
use resilient_python_api.BaseClient.GetPut.{Apply, get_put}
use resilient_python_api.BaseClient.Login.{extract_org_id}
use resilient_python_api.BaseClient.Updating.{
  Updated, update, settled, conflict, get_put_retries, get_put_repeats,
}
use resilient_python_api.BaseClient.Organizations.{extract_org_id_lem}
use resilient_python_api.Examples.Script.{Script, scripted, client, answered_with}

abbrev named : Value
named = dict_of (("name", str "old") ∷ [])

abbrev renamed_to : Value
renamed_to = dict_of (("name", str "new") ∷ [])

abbrev rename : Apply
rename payload = (ok tt, renamed_to)

abbrev keep : Apply
keep payload = (err no_change, payload)

abbrev reads : Response
reads = answered_with 200 named

abbrev busy : Response
busy = answered_with 409 null

abbrev writes : Response
writes = answered_with 200 renamed_to

abbrev is_empty : Response
is_empty = answered_with 200 (dict_of [])

updated :
    (r : Response) (rs : Script)
    → Updated scripted client "/incidents/1" rename null (reads ∷ r ∷ rs) r rs
unfolding execute_request raise_if_error
updated r rs = update named renamed_to refl refl refl

get_put_retries_example :
    get_put scripted client "/incidents/1" (1 + 3) rename null (reads ∷ busy ∷ reads ∷ writes ∷ [])
    ≡ some (ok renamed_to, [])
get_put_retries_example =
    get_put_retries scripted client "/incidents/1" rename null 2 1
      (reads ∷ busy ∷ reads ∷ writes ∷ []) (reads ∷ writes ∷ []) [] writes renamed_to
      (conflict busy (updated busy (reads ∷ writes ∷ [])) refl settled) (updated writes []) refl
      refl refl

-- A server that accepts every request, and answers it with an empty dictionary.
abbrev empty_answers : Session Unit
empty_answers = record { send = λ req w. (ok is_empty, w); clear_cookies = λ w. w }

empty_updated :
    (w : Unit {0}) → Updated empty_answers client "/incidents/1" rename null w is_empty w
unfolding execute_request raise_if_error
empty_updated w = update (dict_of []) renamed_to refl refl refl

get_put_repeats_example : get_put empty_answers client "/incidents/1" 100 rename null tt ≡ none
get_put_repeats_example =
    get_put_repeats empty_answers client "/incidents/1" rename null
      (λ w. (is_empty, w, dict_of [], empty_updated w, refl, refl, refl)) 100 tt

-- An entry without an account, and one whose account is null.
abbrev acme : Fields
acme = of_entries (
    ("id", int (pos 201)) ∷ ("name", str "Acme") ∷ ("uuid", str "u1") ∷ ("enabled", bool true) ∷ [])

abbrev other : Fields
other = of_entries (
    ("id", int (pos 202))
    ∷ ("name", str "Other")
    ∷ ("cloud_account", null)
    ∷ ("enabled", bool false)
    ∷ [])

abbrev opened_session : Fields
opened_session =
    of_entries (("csrf_token", str "t") ∷ ("orgs", list_of (dict other ∷ dict acme ∷ [])) ∷ [])

extract_org_id_lem_example :
    extract_org_id client (dict opened_session)
    ≡ ok (record client { org_id = int (pos 201); all_orgs = dict acme ∷ [] })
unfolding lookup eq_value
extract_org_id_lem_example =
    extract_org_id_lem client "Acme" opened_session other (acme ∷ []) refl refl refl

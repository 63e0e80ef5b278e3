-- ===== src/Examples/IncidentRuns.antt =====
-- Runs of the functions on attachments and incidents.
use resilient_python_api.Prelude.{
  ℕ, suc, false, some, if◌then◌else◌, ◌≡◌, refl, [], ◌∷◌, ◌==◌, Assoc, lookup, has_key, insert,
  split_dot,
}
use resilient_python_api.Value.{Value, str, int, pos, null, dict_of, eq_value}
use resilient_python_api.Outcome.{Result, ok}
use resilient_python_api.BaseClient.Requests.{no_content}
use resilient_python_api.Patch.{
  Patch, new_patch, add_value, get_base_value, get_new_value, get_old_value,
}
use resilient_python_api.RestClient.{RestClient, text, shown}
use resilient_python_api.Incidents.{
  close_incident, required_fields, add_values, incident_uri, response_of,
}
use resilient_python_api.Incidents.Closing.{close_incident_patches, plan_status_of}
use resilient_python_api.Examples.Script.{answered_with}

-- The fields of an incident, of which one is required on close, and an incident. The world counts
-- the patches.
abbrev types : Value
types = dict_of (
    (
      "fields",
      dict_of
          (("name", dict_of []) ∷ ("resolution_id", dict_of (("required", str "close") ∷ [])) ∷ []),
    )
    ∷ [])

abbrev incident : Value
incident = dict_of (("vers", int (pos 3)) ∷ ("resolution_id", null) ∷ ("plan_status", str "A") ∷ [])

abbrev metadata : Value
metadata = dict_of (("name", str "mail.eml") ∷ [])

abbrev server : RestClient ℕ
server = record {
  get = λ uri n. (
    ok (
        if uri == "/types/incident"
        then types
        else if uri == "/incidents/7/attachments/4"
        then metadata
        else incident),
    n,
  );
  get_content = λ uri n. (ok no_content, n);
  patch = λ uri p n. some ((ok (answered_with 200 null), p), suc n);
}

-- No cache.
abbrev uncached : (ℕ → Result Value × ℕ) → ℕ → Result Value × ℕ
uncached request n = request n

abbrev resolution : Assoc Value
resolution = ("resolution_id", int (pos 9)) ∷ []

abbrev fields_of_types : Value
fields_of_types =
    dict_of
      (("name", dict_of []) ∷ ("resolution_id", dict_of (("required", str "close") ∷ [])) ∷ [])

needs_resolution : required_fields fields_of_types ≡ ok ("resolution_id" ∷ [])
unfolding required_fields lookup eq_value
needs_resolution = refl

abbrev blank : Patch
blank = record { previous_object = incident; version = int (pos 3); changes = [] }

abbrev filled_in : Patch
filled_in = record blank {
  changes =
      (
        "resolution_id",
        record { field_name = "resolution_id"; new_value = int (pos 9); old_value = null },
      )
      ∷ (
        "plan_status",
        record { field_name = "plan_status"; new_value = str "C"; old_value = str "A" },
      )
      ∷ [];
}

close_incident_patches_example :
    (close_incident server uncached (text "7") resolution false 0
      ≡ response_of server (server.patch (incident_uri (text "7") false) filled_in 0))
    × (get_new_value filled_in "resolution_id" ≡ ok (int (pos 9)))
    × (get_old_value filled_in "resolution_id" ≡ get_base_value blank "resolution_id")
    × (get_new_value filled_in "plan_status" ≡ ok (plan_status_of resolution))
unfolding lookup has_key insert new_patch add_values add_value get_base_value split_dot shown
close_incident_patches_example =
    close_incident_patches server uncached (text "7") resolution false 0 0 fields_of_types
      ("resolution_id" ∷ []) refl refl needs_resolution 0 incident blank filled_in "resolution_id"
      (int (pos 9)) (refl, tt) refl refl refl refl refl

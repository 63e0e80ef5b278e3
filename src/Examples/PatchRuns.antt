-- ===== src/Examples/PatchRuns.antt =====
-- Patches.
use resilient_python_api.Prelude.{
  String, false, none, ◌≡◌, refl, [], ◌∷◌, lookup, insert, has_key, split_dot,
}
use resilient_python_api.Value.{Value, str, int, pos, dict_of}
use resilient_python_api.Outcome.{ok}
use resilient_python_api.Patch.{Patch, set_change, update_for_overwrite}
use resilient_python_api.Patch.Changes.{
  IsConsistent, adds, overwrites, deletes, calls, calls-IsConsistent,
}
use resilient_python_api.Patch.Reading.{At, here, into}
use resilient_python_api.Patch.Overwrite.{
  Failure, status_of, AllChanged, map_change, revised, update_for_overwrite_lem,
}

abbrev pub incident : Value
incident = dict_of (
    ("name", str "Breach")
    ∷ ("vers", int (pos 4))
    ∷ ("properties", dict_of (("owner", str "ann") ∷ []))
    ∷ [])

abbrev fresh : Patch
fresh = record { previous_object = incident; version = int (pos 4); changes = [] }

abbrev pub renamed : Patch
renamed = set_change "name" (str "Outage") (str "Breach") fresh

abbrev pub name_failure : Failure
name_failure = record { failed_field = "name"; original = str "Breach"; actual = str "Leak" }

renamed-IsConsistent : IsConsistent renamed
unfolding insert has_key
renamed-IsConsistent = record { unique = (refl, tt); named = (refl, tt) }

calls-IsConsistent_example : IsConsistent (
    calls
      (adds "properties.owner" (str "bob") none
        ∷ overwrites (status_of false (name_failure ∷ []))
        ∷ deletes "name"
        ∷ [])
      renamed)
calls-IsConsistent_example =
    calls-IsConsistent
      (adds "properties.owner" (str "bob") none
        ∷ overwrites (status_of false (name_failure ∷ []))
        ∷ deletes "name"
        ∷ [])
      renamed renamed-IsConsistent

owner-At : At incident (split_dot "properties.owner") (str "ann")
unfolding split_dot lookup
owner-At = into refl (into refl here)

pub name_AllChanged : AllChanged (name_failure ∷ []) renamed.changes
unfolding insert has_key
name_AllChanged = (refl, tt)

update_for_overwrite_lem_example :
    (q : Patch) × (update_for_overwrite (status_of false (name_failure ∷ [])) renamed ≡ (ok tt, q))
    × ((j : String)
        → lookup j q.changes
          ≡ map_change (revised (name_failure ∷ []) j) (lookup j renamed.changes))
update_for_overwrite_lem_example =
    update_for_overwrite_lem false name_failure [] renamed name_AllChanged

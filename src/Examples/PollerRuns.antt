-- ===== src/Examples/PollerRuns.antt =====
-- Runs of the updates of cases, and of the filter of comments.
use resilient_python_api.Prelude.{
  ℕ, suc, String, some, ◌≡◌, [], ◌∷◌, ◌++◌, ◌==◌, if◌then◌else◌, Assoc,
}
use resilient_python_api.Value.{Value, str, int, pos, dict_of}
use resilient_python_api.Outcome.{ok, err, key_error}
use resilient_python_api.BaseClient.Requests.{no_content}
use resilient_python_api.Patch.{Patch}
use resilient_python_api.RestClient.{RestClient}
use resilient_python_api.Poller.{filter_comments}
use resilient_python_api.Poller.Comments.{keep, filter_comments-keep_again}
use resilient_python_api.Examples.Script.{answered_with}

abbrev case : Value
case = dict_of (("vers", int (pos 3)) ∷ ("name", str "old") ∷ ("color", str "red") ∷ [])

abbrev updated : Value
updated = dict_of (("success", str "yes") ∷ [])

abbrev server : RestClient ℕ
server = record {
  get = λ uri n. (ok case, n);
  get_content = λ uri n. (ok no_content, n);
  patch = λ uri p n. some ((ok (answered_with 200 updated), p), suc n);
}

abbrev broken : RestClient ℕ
broken = record server { get = λ uri n. (err key_error, n) }

abbrev payload : Assoc Value
payload = ("name", str "new") ∷ ("properties", dict_of (("color", str "blue") ∷ [])) ∷ []

abbrev flat_payload : Assoc Value
flat_payload = ("name", str "new") ∷ ("color", str "blue") ∷ []

abbrev blank : Patch
blank = record { previous_object = case; version = int (pos 3); changes = [] }

abbrev filled_in : Patch
filled_in = record blank {
  changes =
      ("name", record { field_name = "name"; new_value = str "new"; old_value = str "old" })
      ∷ ("color", record { field_name = "color"; new_value = str "blue"; old_value = str "red" })
      ∷ [];
}

-- The text of a fragment without its ends.
abbrev bare : String → String
bare s = if s == "<p>old</p>" then "old" else s

filter_comments-keep_again_example :
    (filter_comments bare ("<p>old</p>" ∷ []) ("old" ∷ "SOAR: b" ∷ "new" ∷ []) (some "SOAR")
      ≡ "new" ∷ [])
    × (filter_comments bare
          (("<p>old</p>" ∷ []) ++ "new" ∷ [])
          ("old" ∷ "SOAR: b" ∷ "new" ∷ [])
          (some "SOAR")
        ≡ [])
unfolding keep
filter_comments-keep_again_example =
    filter_comments-keep_again bare ("<p>old</p>" ∷ []) ("old" ∷ "SOAR: b" ∷ "new" ∷ [])
      (some "SOAR")

-- ===== src/Examples/CtsRuns.antt =====
-- Runs of the custom threat service.
use resilient_python_api.Prelude.{
  String, Bool, true, false, Option, none, some, [], ◌∷◌, ◌≡◌, ◌≢◌, refl, arith, ◌==◌, ◌&&◌, eq_iff,
  if◌then◌else◌, mapped, true-and, inl,
}
use resilient_python_api.Value.{Value, Fields, str, dict, of_entries, null}
use resilient_python_api.Outcome.{ok}
use resilient_python_api.Cts.{
  RequestData, Key, TtlCache, Service, Settings, LookupEvent, value, many, lookup_complete,
  searcher_channel, handle_get_request,
}
use resilient_python_api.Cts.Lookups.{lookup_complete-get_request, get_request-gives_up, get_after}
use resilient_python_api.Cts.Authentication.{check_authentication, check_authentication-colon}

abbrev Held : Type 0
Held = Key → Option RequestData

abbrev same_key : Key → Key → Bool
same_key (a, b) (c, d) = (a == c) && (b == d)

same_key_refl : (k : Key) → same_key k k ≡ true
same_key_refl (a, b) = true-and (a == a) (b == b) ((eq_iff a a).1 refl) ((eq_iff b b).1 refl)

abbrev put : Key → Option RequestData → Held → Held
put k d c j = if same_key k j then d else c j

put_self : (k : Key) (d : Option RequestData) (c : Held) → put k d c k ≡ d
put_self k d c = rw (same_key_refl k)

-- A cache from which nothing expires.
abbrev lasting : TtlCache Held
lasting = record {
  get = λ k c. c k;
  set = λ k d c. put k (some d) c;
  pop = λ k c. put k none c;
  change = λ k f c. put k (mapped f (c k)) c;
  wait = λ seconds c. c;
  get-set = λ k d c. put_self k (some d) c;
  get-pop = λ k c. put_self k none c;
  get-change = λ k f c. put_self k (mapped f (c k)) c;
  get-wait = λ k seconds c. inl refl;
}

abbrev settings : Settings
settings = record { first_retry_secs = 5; later_retry_secs = 60; max_retries = 2 }

abbrev body : Fields
body = of_entries (("type", str "net.uri") ∷ ("value", str "http://x") ∷ [])

abbrev uuid5 : Value → String
uuid5 v = "id"

abbrev event : LookupEvent
event = record {
  request_id = "id";
  name = str "net.uri";
  artifact = dict body;
  cts_channel = searcher_channel ("gsb" ∷ []);
}

abbrev idle : Service Held
idle = record { cache = λ k. none; fired = [] }

abbrev looked_up : Service Held
looked_up = lookup_complete lasting event (many (value (str "hit") ∷ value null ∷ [])) idle

lookup_complete-get_request_example :
    let answer = handle_get_request lasting settings (some ("gsb" ∷ [], "id")) looked_up in
    (answer.0.hits ≡ str "hit" ∷ []) × (answer.0.status ≡ 200) × (answer.1.fired ≡ [])
lookup_complete-get_request_example =
    lookup_complete-get_request lasting settings ("gsb" ∷ []) event
      (many (value (str "hit") ∷ value null ∷ [])) idle refl (omega arith)

abbrev waiting : RequestData
waiting = record { id = "id"; artifact = dict body; hits = []; complete = false; count = 0 }

abbrev asked : Service Held
asked = record idle { cache = put (searcher_channel ("gsb" ∷ []), "id") (some waiting) (λ k. none) }

get_request-gives_up_example :
    let last = get_after lasting settings 60 2 ("gsb" ∷ []) "id" asked in
    ((get_after lasting settings 60 1 ("gsb" ∷ []) "id" asked).0.status ≡ 303)
    × (last.0.status ≡ 200)
    × (last.1.cache (searcher_channel ("gsb" ∷ []), "id") ≡ none)
    × (last.1.fired ≡ [])
get_request-gives_up_example =
    get_request-gives_up lasting settings 60 1 ("gsb" ∷ []) "id" waiting asked
      (put_self (searcher_channel ("gsb" ∷ []), "id") (some waiting) (λ k. none)) refl refl
      ((tt, refl), refl) (omega arith)

check_authentication-colon_example :
    check_authentication
      (record { auth_user = str "u"; auth_password = str "p:q" })
      (some (ok "u:p:q"))
    ≢ ok true
check_authentication-colon_example =
    check_authentication-colon (str "u") "p:q" (some (ok "u:p:q")) refl

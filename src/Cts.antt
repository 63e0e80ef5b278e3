-- ===== src/Cts.antt =====
-- rc-cts/rc_cts/components/threat_webservice.py: the custom threat service, which answers requests for
-- the hits of an artifact from a cache, and fires an event for the searchers. The cache is one of
-- cachetools; entries may leave it at any time.
pub mod Authentication
pub mod Lookups
use resilient_python_api.Prelude.{
  ℕ, suc, ◌+◌, String, Bool, true, false, Option, none, some, List, [], ◌∷◌, ◌++◌, ◌≡◌, ◌≢◌, ◌⊎◌,
  if◌then◌else◌, leb, ltb, ◌==◌, ◌&&◌, Assoc, mapped,
}
use Prim.Native.String.{◌++◌ as ◌⧺◌}
use resilient_python_api.Value.{
  Value, Fields, null, bool, int, str, list, dict, dict_of, truthy, get_field, get_field_or,
  eq_value,
}

-- ".".join(sub_urls)
abbrev join_dots : List String → String
join_dots [] = ""
join_dots (part ∷ []) = part
join_dots (part ∷ (next ∷ parts)) = part ⧺ ("." ⧺ join_dots (next ∷ parts))

-- rc-cts/rc_cts/lib/threat_models.py
abbrev pub searcher_channel : List String → String
searcher_channel sub_urls = "cts_search." ⧺ join_dots sub_urls

-- What the cache has of a request. A count that is not there reads as 0.
pub record RequestData : Type 0 where
  pub id : String
  pub artifact : Value
  pub hits : List Value
  pub complete : Bool
  pub count : ℕ

abbrev pub Key : Type 0
Key = String × String

-- TTLCache: what is read of a key at once after each operation. An operation on one key may remove
-- others, but changes nothing else. `change` is a change of the object that the cache has. `wait` is
-- the passing of seconds: what the cache has of a key stays or expires.
pub record TtlCache (C : Type 0) : Type 0 where
  pub get : Key → C → Option RequestData
  pub set : Key → RequestData → C → C
  pub pop : Key → C → C
  pub change : Key → (RequestData → RequestData) → C → C
  pub wait : ℕ → C → C
  pub get-set : (k : Key) (d : RequestData) (c : C) → get k (set k d c) ≡ some d
  pub get-pop : (k : Key) (c : C) → get k (pop k c) ≡ none
  pub get-change :
      (k : Key) (f : RequestData → RequestData) (c : C) → get k (change k f c) ≡ mapped f (get k c)
  pub get-wait :
      (k : Key) (seconds : ℕ) (c : C)
      → (get k (wait seconds c) ≡ get k c) ⊎ (get k (wait seconds c) ≡ none)

-- ThreatServiceLookupEvent
pub record LookupEvent : Type 0 where
  pub request_id : String
  pub name : Value
  pub artifact : Value
  pub cts_channel : String

pub record Service (C : Type 0) : Type 0 where
  pub cache : C
  -- The events that were fired, the last one first.
  pub fired : List LookupEvent

pub record Settings : Type 0 where
  pub first_retry_secs : ℕ
  pub later_retry_secs : ℕ
  pub max_retries : ℕ

-- A response with the status and the dict that is returned.
pub record Reply : Type 0 where
  pub status : ℕ
  pub id : Value
  pub hits : List Value
  pub retry_secs : Option ℕ

abbrev pub no_hits : ℕ → Value → Reply
no_hits status id = record { status = status; id = id; hits = []; retry_secs = none }

-- The body of a POST: nothing, or what is no JSON, or what JSON gives.
pub data Body : Type 0 where
  empty undecodable : Body
  decoded : Value → Body

-- What one searcher gives: a value, ThreatLookupIncompleteException, another exception, or the tuple
-- of an exception's type, itself and its traceback.
pub data LookupResult : Type 0 where
  value : Value → LookupResult
  incomplete other_exception exc_info : LookupResult

-- event.parent.value.getValue()
pub data Results : Type 0 where
  many : List LookupResult → Results
  single : LookupResult → Results

-- One result: the hits and whether the lookup is complete.
abbrev pub look_at : LookupResult → List Value × Bool → List Value × Bool
look_at (value v) (hits, complete) = (if truthy v then hits ++ v ∷ [] else hits, complete)
look_at incomplete (hits, complete) = (hits, false)
look_at exc_info (hits, complete) = (hits, false)
look_at other_exception (hits, complete) = (hits, complete)

unfoldable pub look_at_all : List LookupResult → List Value × Bool → List Value × Bool
look_at_all [] seen = seen
look_at_all (result ∷ results) seen = look_at_all results (look_at result seen)

unfoldable pub outcome_of : Results → List Value × Bool
unfolding look_at_all
outcome_of (many results) = look_at_all results ([], true)
outcome_of (single result) = look_at result ([], true)

-- What `resutil threatservicetest` sends.
abbrev pub is_service_test : Fields → Bool
is_service_test body =
    eq_value (get_field_or "type" (str "unknown") body) (str "net.name")
    && eq_value (get_field_or "value" null body) (str "localhost")

abbrev pub new_request : String → Value → RequestData
new_request request_id body = record {
  id = request_id;
  artifact = body;
  hits = [];
  complete = false;
  count = 0;
}

abbrev pub counted : RequestData → RequestData
counted d = record d { count = d.count + 1 }

module _ {C : Type 0} (cache : TtlCache C) where
  -- _lookup_complete, for the event that is complete
  unfoldable pub lookup_complete : LookupEvent → Results → Service C → Service C
  unfolding outcome_of
  lookup_complete event results self =
      let (hits, complete) = outcome_of results in
      record self {
        cache =
            cache.set (event.cts_channel, event.request_id)
              (record {
                id = event.request_id;
                artifact = event.artifact;
                hits = hits;
                complete = complete;
                count = 0;
              })
              self.cache;
      }

  module _ (settings : Settings) where
    abbrev pub found_reply : ℕ → Key → RequestData → Reply
    found_reply status key d = record (no_hits status (str key.1)) { hits = d.hits }

    -- A request that the cache has.
    abbrev pub get_found : Key → RequestData → Service C → Reply × Service C
    get_found key d self =
        let self' = record self { cache = cache.change key counted self.cache } in
        if d.complete
        then (found_reply 200 key d, self)
        else (if ltb settings.max_retries (d.count + 1)
            then (
              record (found_reply 200 key d) { retry_secs = some settings.later_retry_secs },
              record self' { cache = cache.pop key self'.cache },
            )
            else (
              record (found_reply 303 key d) { retry_secs = some settings.later_retry_secs },
              self',
            ))

    abbrev pub get_request : Key → Option RequestData → Service C → Reply × Service C
    get_request key none self = (no_hits 200 (str key.1), self)
    get_request key (some d) self = get_found key d self

    -- _handle_get_request; the path is `args` with the request's id behind it, or empty.
    unfoldable pub handle_get_request :
        Option (List String × String) → Service C → Reply × Service C
    handle_get_request none self = (no_hits 200 null, self)
    handle_get_request (some (args, request_id)) self =
        let key : Key = (searcher_channel args, request_id) in
        get_request key (cache.get key self.cache) self

  module _ (settings : Settings) (uuid5 : Value → String) where
    -- setdefault, where the cache has `held` under the key
    abbrev set_default : Key → RequestData → Option RequestData → C → C
    set_default key d none c = cache.set key d c
    set_default key d (some held) c = c

    -- A request that is not complete: the searchers are told of it.
    abbrev pub looked_up : String → Fields → Option RequestData → Service C → Reply × Service C
    looked_up channel body held self =
        let request_id = uuid5 (dict body) in
        (
          record (no_hits 303 (str request_id)) { retry_secs = some settings.first_retry_secs },
          record self {
            cache =
                set_default (channel, request_id) (new_request request_id (dict body)) held
                  self.cache;
            fired =
                record {
                  request_id = request_id;
                  name = get_field_or "type" (str "unknown") body;
                  artifact = dict body;
                  cts_channel = channel;
                }
                ∷ self.fired;
          },
        )

    abbrev pub answered_from : String → Fields → Option RequestData → Service C → Reply × Service C
    answered_from channel body none self = looked_up channel body none self
    answered_from channel body (some held) self =
        if held.complete
        then (record (no_hits 200 (str (uuid5 (dict body)))) { hits = held.hits }, self)
        else looked_up channel body (some held) self

    abbrev pub post_artifact : String → Fields → Service C → Reply × Service C
    post_artifact channel body self =
        let request_id = uuid5 (dict body) in
        if is_service_test body
        then (no_hits 200 (str request_id), self)
        else answered_from channel body (cache.get (channel, request_id) self.cache) self

    -- _handle_post_request, where `uuid4` is the new random id
    unfoldable pub handle_post_request :
        (uuid4 : String) → List String → Body → Service C → Reply × Service C
    unfolding eq_value
    handle_post_request uuid4 args (decoded (dict body)) self =
        post_artifact (searcher_channel args) body self
    handle_post_request uuid4 args (decoded v) self = (no_hits 200 (str uuid4), self)
    handle_post_request uuid4 args empty self = (no_hits 200 (str uuid4), self)
    handle_post_request uuid4 args undecodable self = (no_hits 200 (str uuid4), self)

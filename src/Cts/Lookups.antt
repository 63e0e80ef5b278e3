-- ===== src/Cts/Lookups.antt =====
-- What becomes of a request while lookups run.
use resilient_python_api.Prelude.{
  ℕ, zero, suc, ◌≤◌, ◌<◌, String, Bool, true, false, none, some, List, [], ◌∷◌, ◌++◌, ◌≡◌, refl, ap,
  sym, subst, ◌∙◌, if◌then◌else◌, ◌&&◌, arith, Bool-cases, inl, inr, mapped,
}
use native.Mathlib.Nat.{eq-or-lt_of_le}
use mathlib.Core.List.{append_assoc, append-nil}
use resilient_python_api.Value.{Value, Fields, str, dict, truthy}
use resilient_python_api.Cts.{
  RequestData, Key, TtlCache, Service, Settings, Reply, no_hits, LookupEvent, LookupResult, value,
  incomplete, other_exception, exc_info, Results, many, single, look_at_all, outcome_of,
  lookup_complete, searcher_channel, handle_get_request, handle_post_request, decoded, get_found,
  is_service_test, counted,
}

-- The hits among the results, and whether none of them asks for another lookup.
abbrev pub hits_in : List LookupResult → List Value
hits_in [] = []
hits_in (value v ∷ results) = let rest = hits_in results in if truthy v then v ∷ rest else rest
hits_in (_ ∷ results) = hits_in results

abbrev pub is_final : LookupResult → Bool
is_final incomplete = false
is_final exc_info = false
is_final _ = true

abbrev pub all_final : List LookupResult → Bool
all_final [] = true
all_final (result ∷ results) = is_final result && all_final results

and_false :
    (hits more : List Value) (complete : Bool)
    → ◌≡◌ {A = List Value × Bool} (hits ++ more, false) (hits ++ more, complete && false)
and_false hits more complete = ground arith

look_at_all_lem :
    (results : List LookupResult) (hits : List Value) (complete : Bool)
    → look_at_all results (hits, complete)
      ≡ (hits ++ hits_in results, complete && all_final results)
unfolding look_at_all
look_at_all_lem [] hits complete = rw append-nil (ground arith)
look_at_all_lem (value v ∷ results) hits complete = elim (Bool-cases (truthy v)) [
  | inl t ↦ rw t (
      look_at_all_lem results (hits ++ v ∷ []) complete
      ∙ rw (append_assoc hits (v ∷ []) (hits_in results)))
  | inr f ↦ rw f (look_at_all_lem results hits complete)
]
look_at_all_lem (incomplete ∷ results) hits complete =
    look_at_all_lem results hits false ∙ and_false hits (hits_in results) complete
look_at_all_lem (exc_info ∷ results) hits complete =
    look_at_all_lem results hits false ∙ and_false hits (hits_in results) complete
look_at_all_lem (other_exception ∷ results) hits complete = look_at_all_lem results hits complete

-- The results of one searcher, or of several.
abbrev pub results_in : Results → List LookupResult
results_in (many results) = results
results_in (single result) = result ∷ []

outcome_of_lem :
    (results : Results)
    → outcome_of results ≡ (hits_in (results_in results), all_final (results_in results))
unfolding outcome_of look_at_all
outcome_of_lem (many results) = look_at_all_lem results [] true
outcome_of_lem (single result) = look_at_all_lem (result ∷ []) [] true

-- A GET of an id that the cache has, and one POST.
module _ {C : Type 0} (cache : TtlCache C) (settings : Settings) where
  -- What a lookup gave.
  abbrev pub looked_at : LookupEvent → Results → RequestData
  looked_at event results = record {
    id = event.request_id;
    artifact = event.artifact;
    hits = hits_in (results_in results);
    complete = all_final (results_in results);
    count = 0;
  }

  lookup_complete-get :
      (event : LookupEvent) (results : Results) (self : Service C)
      → cache.get
          (event.cts_channel, event.request_id)
          (lookup_complete cache event results self).cache
        ≡ some (looked_at event results)
  unfolding lookup_complete
  lookup_complete-get event results self = rw (outcome_of_lem results) (cache.get-set _ _ _)

  lookup_complete-fired :
      (event : LookupEvent) (results : Results) (self : Service C)
      → (lookup_complete cache event results self).fired ≡ self.fired
  unfolding lookup_complete
  lookup_complete-fired event results self = refl

  get_found_lem :
      (key : Key) (d : RequestData) (self : Service C)
      → 0 < settings.max_retries
      → d.count ≡ 0
      → ((get_found cache settings key d self).0.hits ≡ d.hits)
        × ((get_found cache settings key d self).0.status ≡ (if d.complete then 200 else 303))
        × ((get_found cache settings key d self).1.fired ≡ self.fired)
  get_found_lem key d self retries new = ground (arith, retries, new)

  -- After the lookup of one searcher or of several, a GET of its id, with nothing between, is answered
  -- with the truthy values that they gave, in their order. Where at least one retry is allowed, the
  -- status is 303 if one of them gave ThreatLookupIncompleteException or the tuple of an exception, and
  -- else 200, also if one gave another exception; no event is fired.
  pub lookup_complete-get_request :
      (args : List String) (event : LookupEvent) (results : Results) (self : Service C)
      → event.cts_channel ≡ searcher_channel args
      → 0 < settings.max_retries
      → let answer =
          handle_get_request cache settings
            (some (args, event.request_id))
            (lookup_complete cache event results self) in
        (answer.0.hits ≡ hits_in (results_in results))
        × (answer.0.status ≡ (if all_final (results_in results) then 200 else 303))
        × (answer.1.fired ≡ self.fired)
  unfolding handle_get_request lookup_complete
  lookup_complete-get_request args event results self channel retries = rw (← channel) (
      rw (lookup_complete-get event results self) (
        get_found_lem (event.cts_channel, event.request_id) (looked_at event results)
          (lookup_complete cache event results self) retries refl))

  -- Where none gave ThreatLookupIncompleteException or a tuple, a POST of the artifact is answered at once
  -- with their hits, and nothing is fired.
  pub lookup_complete-post_request :
      (uuid5 : Value → String) (uuid4 : String) (args : List String) (body : Fields)
      (event : LookupEvent) (results : Results) (self : Service C)
      → event.cts_channel ≡ searcher_channel args
      → event.request_id ≡ uuid5 (dict body)
      → is_service_test body ≡ false
      → all_final (results_in results) ≡ true
      → handle_post_request cache settings uuid5 uuid4 args
          (decoded (dict body))
          (lookup_complete cache event results self)
        ≡ (
          record (no_hits 200 (str (uuid5 (dict body)))) { hits = hits_in (results_in results) },
          lookup_complete cache event results self,
        )
  unfolding handle_post_request
  lookup_complete-post_request uuid5 uuid4 args body event results self channel id no_test final =
      rw (← channel, ← id, no_test) (rw (lookup_complete-get event results self) (rw final (rw id)))

  -- The service when the given seconds have passed.
  abbrev pub waited : ℕ → Service C → Service C
  waited seconds self = record self { cache = cache.wait seconds self.cache }

  -- The service after some GETs of an id, the given seconds after the last one.
  unfoldable pub after_gets : (seconds : ℕ) → ℕ → List String → String → Service C → Service C
  after_gets seconds zero args request_id self = self
  after_gets seconds (suc n) args request_id self =
      waited seconds
        (handle_get_request cache settings (some (args, request_id))
          (after_gets seconds n args request_id self)).1

  -- What the cache has of the id did not expire in the pauses before the last of `n` GETs.
  abbrev pub Stays : (seconds n : ℕ) → List String → String → Service C → Type 0
  Stays seconds zero args request_id self = Unit
  Stays seconds (suc n) args request_id self =
      let key : Key = (searcher_channel args, request_id) in
      let answered =
        (handle_get_request cache settings (some (args, request_id))
          (after_gets seconds n args request_id self)).1 in
      Stays seconds n args request_id self
      × (cache.get key (cache.wait seconds answered.cache) ≡ cache.get key answered.cache)

  abbrev with_count : RequestData → ℕ → RequestData
  with_count d n = record d { count = n }

  -- A GET of an id that the cache has without an outcome.
  get_request-counts :
      (args : List String) (request_id : String) (d : RequestData) (self : Service C)
      → cache.get (searcher_channel args, request_id) self.cache ≡ some d
      → d.complete ≡ false
      → d.count < settings.max_retries
      → let answer = handle_get_request cache settings (some (args, request_id)) self in
        (answer.0.status ≡ 303)
        × (cache.get (searcher_channel args, request_id) answer.1.cache ≡ some (counted d))
        × (answer.1.fired ≡ self.fired)
  unfolding handle_get_request
  get_request-counts args request_id d self held waits more =
      let key : Key = (searcher_channel args, request_id) in
      let changed : cache.get key (cache.change key counted self.cache) ≡ some (counted d) =
        cache.get-change key counted self.cache ∙ ap (mapped counted) held in
      rw held (ground (arith, waits, more, changed))

  get_request-drops :
      (args : List String) (request_id : String) (d : RequestData) (self : Service C)
      → cache.get (searcher_channel args, request_id) self.cache ≡ some d
      → d.complete ≡ false
      → d.count ≡ settings.max_retries
      → let answer = handle_get_request cache settings (some (args, request_id)) self in
        (answer.0.status ≡ 200)
        × (cache.get (searcher_channel args, request_id) answer.1.cache ≡ none)
        × (answer.1.fired ≡ self.fired)
  unfolding handle_get_request
  get_request-drops args request_id d self held waits last =
      let key : Key = (searcher_channel args, request_id) in
      let dropped = cache.get-pop key (cache.change key counted self.cache) in
      rw held (ground (arith, waits, last, dropped))

  after_gets-held :
      (seconds n : ℕ) (args : List String) (request_id : String) (d : RequestData)
      (self : Service C)
      → Stays seconds n args request_id self
      → cache.get (searcher_channel args, request_id) self.cache ≡ some (with_count d 0)
      → d.complete ≡ false
      → n ≤ settings.max_retries
      → (cache.get
            (searcher_channel args, request_id)
            (after_gets seconds n args request_id self).cache
          ≡ some (with_count d n))
        × ((after_gets seconds n args request_id self).fired ≡ self.fired)
  unfolding after_gets
  after_gets-held seconds zero args request_id d self stays held waits le = (held, refl)
  after_gets-held seconds (suc n) args request_id d self (stays, last) held waits le =
      let before =
        after_gets-held seconds n args request_id d self stays held waits (omega arith) in
      let step =
        get_request-counts args request_id (with_count d n)
          (after_gets seconds n args request_id self) before.0 waits le in
      (last ∙ step.1 ∙ ap (λ m. some (with_count d m)) (omega arith), step.2 ∙ before.1)

  abbrev pub get_after : (seconds : ℕ) → ℕ → List String → String → Service C → Reply × Service C
  get_after seconds n args request_id self =
      handle_get_request cache settings (some (args, request_id))
        (after_gets seconds n args request_id self)

  Stays-le :
      (seconds n m : ℕ) (args : List String) (request_id : String) (self : Service C)
      → Stays seconds m args request_id self
      → n ≤ m
      → Stays seconds n args request_id self
  Stays-le seconds zero m args request_id self h le = tt
  Stays-le seconds (suc n) zero args request_id self h le = absurd (omega arith)
  Stays-le seconds (suc n) (suc m) args request_id self (h, last) le = elim (eq-or-lt_of_le le) [
    | inl same ↦ subst (λ k. Stays seconds k args request_id self) (sym same) (h, last)
    | inr less ↦ Stays-le seconds (suc n) m args request_id self h (omega arith)
  ]

  -- Where no lookup of an id completes, no other request comes between and the cache's entry of the id
  -- does not expire before the last GET: its first GETs, one after each pause, as many as the maximum of
  -- retries, are answered with status 303. The next one is answered with status 200, and the id is
  -- unknown then. No GET fires an event, so that no searcher is asked again.
  pub get_request-gives_up :
      (seconds n : ℕ) (args : List String) (request_id : String) (d : RequestData)
      (self : Service C)
      → cache.get (searcher_channel args, request_id) self.cache ≡ some d
      → d.complete ≡ false
      → d.count ≡ 0
      → Stays seconds settings.max_retries args request_id self
      → n < settings.max_retries
      → let last = get_after seconds settings.max_retries args request_id self in
        ((get_after seconds n args request_id self).0.status ≡ 303)
        × (last.0.status ≡ 200)
        × (cache.get (searcher_channel args, request_id) last.1.cache ≡ none)
        × (last.1.fired ≡ self.fired)
  get_request-gives_up seconds n args request_id d self held waits new stays lt =
      let held_new : cache.get (searcher_channel args, request_id) self.cache
          ≡ some (with_count d 0) =
        held ∙ (λ i. some (with_count d (new i))) in
      let at_n =
        after_gets-held seconds n args request_id d self
          (Stays-le seconds n settings.max_retries args request_id self stays (omega arith))
          held_new waits (omega arith) in
      let at_last =
        after_gets-held seconds settings.max_retries args request_id d self stays held_new waits
          (omega arith) in
      let answer =
        get_request-counts args request_id (with_count d n)
          (after_gets seconds n args request_id self) at_n.0 waits lt in
      let drop =
        get_request-drops args request_id (with_count d settings.max_retries)
          (after_gets seconds settings.max_retries args request_id self) at_last.0 waits refl in
      (answer.0, drop.0, drop.1, drop.2 ∙ at_last.1)

-- ===== src/Actions/Heartbeats.antt =====
-- When the HeartbeatTimeout events end the process.
use resilient_python_api.Prelude.{
  ℕ, ◌-◌, ◌≤◌, false, Option, if◌then◌else◌, List, [], ◌∷◌, ◌++◌, ◌≡◌, refl, ap, ◌∙◌, ◌≢◌, arith,
  ltb,
}
use resilient_python_api.Outcome.{Result, ok, err, index_error, system_exit}
use resilient_python_api.Actions.{Actions}
use resilient_python_api.Actions.Connection.{
  with_time, insert_sorted, sort, last_of, is_single, check_delta, as_events, on_heartbeat_timeout,
}

-- The least and the greatest time.
abbrev pub oldest : ℕ → List ℕ → ℕ
oldest ts [] = ts
oldest ts (other ∷ times) = let least = oldest other times in if ltb least ts then least else ts

abbrev pub newest : ℕ → List ℕ → ℕ
newest ts [] = ts
newest ts (other ∷ times) = let most = newest other times in if ltb ts most then most else ts

-- A list that is sorted has its least time first and its greatest last.
abbrev IsSorted : ℕ → List ℕ → Type 0
IsSorted ts [] = Unit {0}
IsSorted ts (other ∷ times) = (ts ≤ other) × IsSorted other times

abbrev greater : ℕ → ℕ → ℕ
greater a b = if ltb a b then b else a

last_of-IsSorted : (ts : ℕ) (times : List ℕ) → IsSorted ts times → ts ≤ last_of ts times
last_of-IsSorted ts [] s = omega arith
last_of-IsSorted ts (other ∷ times) s = let later = last_of-IsSorted other times s.1 in ground arith

insert_sorted-last_of :
    (ts least : ℕ) (times : List ℕ)
    → IsSorted least times
    → least ≤ ts
    → (last_of least (insert_sorted ts times) ≡ greater ts (last_of least times))
      × IsSorted least (insert_sorted ts times)
unfolding insert_sorted
insert_sorted-last_of ts least [] s le = ground arith
insert_sorted-last_of ts least (other ∷ times) s le =
    ground (arith, last_of-IsSorted other times s.1, insert_sorted-last_of ts other times s.1)

-- The first element and the last, of a list that is sorted.
abbrev SortedFrom : (least most : ℕ) → List ℕ → Type 0
SortedFrom least most [] = ⊥
SortedFrom least most (ts ∷ times) = (ts ≡ least) × (last_of ts times ≡ most) × IsSorted ts times

insert_sorted-SortedFrom :
    (ts least most : ℕ) (times : List ℕ)
    → SortedFrom least most times
    → SortedFrom (if ltb least ts then least else ts) (greater ts most) (insert_sorted ts times)
unfolding insert_sorted
insert_sorted-SortedFrom ts least most [] s = absurd s
insert_sorted-SortedFrom ts least most (other ∷ times) s =
    ground (arith, s, last_of-IsSorted other times s.2, insert_sorted-last_of ts other times s.2)

sort-SortedFrom :
    (ts : ℕ) (times : List ℕ) → SortedFrom (oldest ts times) (newest ts times) (sort (ts ∷ times))
unfolding sort insert_sorted
sort-SortedFrom ts [] = (refl, refl, tt)
sort-SortedFrom ts (other ∷ times) =
    insert_sorted-SortedFrom ts (oldest other times) (newest other times) (sort (other ∷ times))
      (sort-SortedFrom other times)

-- The exit code, or the exception, for the times that are known.
abbrev pub outcome : (threshold : ℕ) → List ℕ → Result (Unit {0})
outcome threshold [] = err index_error
outcome threshold (ts ∷ times) =
    if ltb threshold (newest ts times - oldest ts times) then err (system_exit 34) else ok tt

check_delta-outcome :
    (threshold least most : ℕ) (times : List ℕ) (self : Actions)
    → SortedFrom least most times
    → (check_delta threshold times self).0
      ≡ (if ltb threshold (most - least) then err (system_exit 34) else ok tt)
check_delta-outcome threshold least most [] self s = absurd s
check_delta-outcome threshold least most (ts ∷ times) self s = ground (arith, s)

sorted-outcome :
    (threshold : ℕ) (times : List ℕ) (self : Actions)
    → (check_delta threshold (sort times) self).0 ≡ outcome threshold times
unfolding sort
sorted-outcome threshold [] self = refl
sorted-outcome threshold (ts ∷ times) self =
    check_delta-outcome threshold (oldest ts times) (newest ts times) (sort (ts ∷ times)) self
      (sort-SortedFrom ts times)

two_events :
    (held ts : Option ℕ) (earlier : List (Option ℕ))
    → is_single ((held ∷ earlier) ++ (ts ∷ [])) ≡ false
two_events held ts [] = refl
two_events held ts (other ∷ earlier) = refl

-- From the second HeartbeatTimeout on, with a threshold, the process ends with the exit code 34 if and
-- only if the newest and the oldest known time are further apart than the threshold, in whatever order
-- the events arrive. Where no event has a time, an IndexError is raised.
pub on_heartbeat_timeout-outcome :
    (threshold : ℕ) (ts held : Option ℕ) (earlier : List (Option ℕ)) (self : Actions)
    → threshold ≢ 0
    → self.heartbeat_timeouts ≡ held ∷ earlier
    → (on_heartbeat_timeout threshold ts self).0
      ≡ outcome threshold (with_time (self.heartbeat_timeouts ++ (ts ∷ [])))
unfolding on_heartbeat_timeout
on_heartbeat_timeout-outcome threshold ts held earlier self ne e =
    let events = self.heartbeat_timeouts ++ (ts ∷ []) in
    let many : is_single events ≡ false =
      ap (λ held. is_single (held ++ (ts ∷ []))) e ∙ two_events held ts earlier in
    let times = with_time events in
    ground (
      arith,
      ne,
      many,
      sorted-outcome threshold times (record self { heartbeat_timeouts = as_events (sort times) }),
    )

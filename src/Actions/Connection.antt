-- ===== src/Actions/Connection.antt =====
-- The handlers of the events of the STOMP connection, and `filter_heartbeat_timeout_events` of
-- resilient-circuits/resilient_circuits/helpers.py. What `opts` holds is an argument; a timer is the
-- event that it will fire.
use resilient_python_api.Prelude.{
  ℕ, ◌-◌, Bool, true, false, Option, none, some, if◌then◌else◌, List, [], ◌∷◌, ◌++◌, not, ◌&&◌,
  ◌||◌, eqb, ltb, leb,
}
use resilient_python_api.Outcome.{Exec, ok, err, attribute_error, index_error, system_exit}
use resilient_python_api.Actions.{
  connect, disconnect, reconnect_later, subscribe_to_all, Actions, StompComponent, fire,
}

-- [hb for hb in heartbeat_timeouts if hb.ts != -1]
unfoldable pub with_time : List (Option ℕ) → List ℕ
with_time [] = []
with_time (none ∷ heartbeat_timeouts) = with_time heartbeat_timeouts
with_time (some ts ∷ heartbeat_timeouts) = ts ∷ with_time heartbeat_timeouts

unfoldable pub insert_sorted : ℕ → List ℕ → List ℕ
insert_sorted ts [] = ts ∷ []
insert_sorted ts (other ∷ times) =
    if leb ts other then ts ∷ other ∷ times else other ∷ insert_sorted ts times

-- heartbeat_timeouts.sort()
unfoldable pub sort : List ℕ → List ℕ
unfolding insert_sorted
sort [] = []
sort (ts ∷ times) = insert_sorted ts (sort times)

unfoldable pub filter_heartbeat_timeout_events : List (Option ℕ) → List ℕ
unfolding with_time sort
filter_heartbeat_timeout_events heartbeat_timeouts = sort (with_time heartbeat_timeouts)

-- The last element, where the first is given.
abbrev pub last_of : ℕ → List ℕ → ℕ
last_of ts [] = ts
last_of ts (other ∷ times) = last_of other times

abbrev pub as_events : List ℕ → List (Option ℕ)
as_events [] = []
as_events (ts ∷ times) = some ts ∷ as_events times

-- Fire a Disconnect event to reconnect.
abbrev pub drop_connection : Exec Actions (Unit {0})
drop_connection self = (ok tt, fire (disconnect false true) self)

-- The difference between the oldest and the newest time, where `[-1]` and `[0]` raise on no elements.
abbrev pub check_delta : (threshold : ℕ) → List ℕ → Exec Actions (Unit {0})
check_delta threshold [] self = (err index_error, self)
check_delta threshold (oldest ∷ times) self =
    if ltb threshold (last_of oldest times - oldest)
    then (err (system_exit 34), self)
    else drop_connection self

abbrev pub is_single : List (Option ℕ) → Bool
is_single (_ ∷ []) = true
is_single _ = false

abbrev pub check_heartbeats : (threshold : ℕ) → Exec Actions (Unit {0})
check_heartbeats threshold self =
    if is_single self.heartbeat_timeouts
    then drop_connection self
    else check_delta threshold (filter_heartbeat_timeout_events self.heartbeat_timeouts)
        (record self {
          heartbeat_timeouts = as_events (filter_heartbeat_timeout_events self.heartbeat_timeouts);
        })

-- on_heartbeat_timeout; the threshold is 0 where it is not set.
unfoldable pub on_heartbeat_timeout : (threshold : ℕ) → (ts : Option ℕ) → Exec Actions (Unit {0})
unfolding filter_heartbeat_timeout_events
on_heartbeat_timeout threshold ts self =
    if eqb threshold 0
    then drop_connection self
    else check_heartbeats threshold
        (record self { heartbeat_timeouts = self.heartbeat_timeouts ++ (ts ∷ []) })

abbrev pub try_connect : Bool → Option StompComponent → Exec Actions (Unit {0})
try_connect subscribe none self = (err attribute_error, self)
try_connect subscribe (some stomp) self = (ok tt, fire (connect subscribe) self)

abbrev pub is_connected : Option StompComponent → Bool
is_connected none = false
is_connected (some stomp) = stomp.connected

-- _reconnect; `stomp_enabled` is opts["resilient"].get("stomp") != "0"
unfoldable pub reconnect_stomp_component :
    (stomp_enabled subscribe : Bool) → Exec Actions (Unit {0})
reconnect_stomp_component stomp_enabled subscribe self =
    if self.resilient_mock || is_connected self.stomp_component || not stomp_enabled
    then (ok tt, self)
    else try_connect subscribe self.stomp_component self

-- connected_succesfully, for the Connect event with that `subscribe`
unfoldable pub connected_succesfully : (subscribe : Bool) → Actions → Actions
connected_succesfully subscribe self = if subscribe then fire subscribe_to_all self else self

unfoldable pub retry_connection : (event_reconnect reloading : Bool) → Actions → Actions
retry_connection event_reconnect reloading self =
    if event_reconnect && not reloading then fire reconnect_later self else self

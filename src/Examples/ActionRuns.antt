-- ===== src/Examples/ActionRuns.antt =====
-- Runs of the action dispatch.
use resilient_python_api.Prelude.{
  String, true, false, none, some, List, [], ◌∷◌, ◌≡◌, refl, arith, Assoc, lookup, eq_iff,
}
use resilient_python_api.Value.{Value, str, null, bool, int, pos, dict_of}
use resilient_python_api.Outcome.{Result, ok, err, system_exit}
use resilient_python_api.Actions.Ids.{find_id, has_id}
use resilient_python_api.Actions.{
  Frame, action, ActionEvent, ack, send, dispatch, AckFailure, SendFailure, StompComponent, Actions,
}
use resilient_python_api.Actions.Messages.{on_stomp_message, event_for, event_of}
use resilient_python_api.Actions.Destinations.{get_queue}
use resilient_python_api.Actions.Results.{Returned, plain_value}
use resilient_python_api.Actions.Completion.{on_event}
use resilient_python_api.Actions.Delivery.{
  phase, unseen, in_progress, settled, Arrival, on_stomp_message-Arrival, arrivals,
  arrivals-in_progress, dispatches,
}
use resilient_python_api.Actions.Settling.{arrive, arrive-arrive}
use resilient_python_api.Actions.Redelivery.{arrive-on_event-settles}
use resilient_python_api.Actions.Interim.{on_send_success-retried}
use resilient_python_api.Actions.Retries.{on_send_success, on_send_failure, retry_send_failures}
use resilient_python_api.Actions.GivingUp.{send_rounds, send_gives_up}
use resilient_python_api.Actions.Reacknowledging.{ack_rounds, ack_rounds-find}
use resilient_python_api.Actions.Destinations.{action_destination}
use resilient_python_api.Actions.Channels.{has_char, on_server, get_queue-action_destination}
use resilient_python_api.Actions.Queues.{Component}
use resilient_python_api.Actions.Connection.{on_heartbeat_timeout, with_time}
use resilient_python_api.Actions.Heartbeats.{on_heartbeat_timeout-outcome}

-- The organization 201, connected, with at most 3 attempts.
abbrev idle : Actions
idle = record {
  stomp_ack_delivery_failures = [];
  resilient_ack_delivery_failures = [];
  current_msgs_processing = [];
  all_acks = [];
  max_retry_count = 3;
  stomp_component = some (record { connected = true; subscribed = [] });
  listeners = [];
  org_id = "201";
  resilient_mock = false;
  reconnect_stomp = true;
  heartbeat_timeouts = [];
  ignore_message_failure = false;
  fired = [];
}

abbrev headers : Assoc String
headers =
    ("message-id", "m1")
    ∷ ("destination", "/queue/actions.201.lookup")
    ∷ ("reply-to", "acks")
    ∷ ("correlation-id", "c1")
    ∷ []

abbrev payload : Value
payload = dict_of (("action_id", str "7") ∷ [])

abbrev frame : Frame
frame = record { headers = headers; json = some payload }

abbrev float_of : String → Result (Unit {0})
float_of text = ok tt

abbrev action_name : Value → Result String
action_name action_id = ok "Look up"

-- The message is being handled.
abbrev busy : Actions
busy = record idle { current_msgs_processing = (some "m1", frame) ∷ [] }

-- The message was acknowledged.
abbrev done : Actions
done = record idle { all_acks = (some "m1", tt) ∷ [] }

on_stomp_message-Arrival_example :
    let after = (on_stomp_message float_of action_name frame done).1 in
    Arrival float_of action_name (some "m1") (some "m1") done after
    × (after.fired ≡ ack frame none ∷ [])
unfolding lookup phase has_id
on_stomp_message-Arrival_example =
    on_stomp_message-Arrival float_of action_name frame (some "m1") done (ground arith)
      (ground (arith, eq_iff "m1" ""))

arrivals-in_progress_example :
    (dispatches (some "m1") (arrivals float_of action_name (frame ∷ frame ∷ []) busy).fired ≡ 0)
    × (phase (some "m1") (arrivals float_of action_name (frame ∷ frame ∷ []) busy) ≡ in_progress)
unfolding phase has_id
arrivals-in_progress_example =
    arrivals-in_progress float_of action_name (frame ∷ frame ∷ []) (some "m1") busy refl

-- The event for that message, and what its handler returned.
abbrev event : ActionEvent
event = event_of float_of action_name action frame payload (str "Look up")

abbrev returned : List Returned
returned = plain_value (str "found") ∷ []

abbrev shown : Value → String
shown v = "?"

-- The same message in another frame.
abbrev later : Frame
later = record frame { json = none }

arrive-on_event-settles_example :
    let redelivered = arrive float_of action_name later busy in
    let handled = (on_event shown event returned redelivered).2 in
    let last = arrive float_of action_name frame handled in
    (redelivered.fired ≡ [])
    × ((on_event shown event returned redelivered).0 ≡ ok tt)
    × (handled.fired
        ≡ send "c1"
            (dict_of (
              ("message_type", int (pos 0))
              ∷ ("message", str "found")
              ∷ ("complete", bool true)
              ∷ []))
            "acks"
            (some "m1")
          ∷ ack later (some "m1")
          ∷ [])
    × (phase (some "m1") handled ≡ settled)
    × (last.fired ≡ ack frame none ∷ handled.fired)
    × (phase (some "m1") last ≡ unseen)
unfolding lookup phase has_id
arrive-on_event-settles_example =
    arrive-on_event-settles shown float_of action_name "m1" event returned "acks" "c1" later frame
      busy (ground arith) refl refl refl refl refl (ground (arith, eq_iff "m1" "")) refl refl refl

arrive-arrive_example :
    ((arrive float_of action_name frame done).fired ≡ ack frame none ∷ [])
    × ((arrive float_of action_name frame (arrive float_of action_name frame done)).fired
        ≡ dispatch event "actions.lookup" ∷ ack frame none ∷ [])
unfolding lookup phase has_id get_queue event_for
arrive-arrive_example =
    arrive-arrive float_of action_name "m1" frame frame ("actions", "201", "lookup") event
      "actions.lookup" done refl refl (ground (arith, eq_iff "m1" "")) refl refl refl

-- An interim status could not be sent.
abbrev failed_status : SendFailure
failed_status = record {
  retry_count = 1;
  from_prev_conn = false;
  correlation_id = "c1";
  body = null;
  destination = "acks";
}

abbrev unsent : Actions
unsent = record busy { resilient_ack_delivery_failures = (some "m1", failed_status) ∷ [] }

abbrev link : StompComponent
link = record { connected = true; subscribed = [] }

on_send_success-retried_example :
    phase (some "m1") (on_send_success (some "m1") (retry_send_failures unsent)) ≡ unseen
unfolding find_id has_id
on_send_success-retried_example =
    on_send_success-retried (some "m1") failed_status link unsent refl refl (refl, tt) tt refl refl
      refl refl

send_gives_up_example :
    find_id
      (some "m1")
      (send_rounds "c1" null "acks"
        (some "m1")
        3
        (on_send_failure "c1" null "acks" (some "m1") idle)).resilient_ack_delivery_failures
    ≡ none
unfolding find_id
send_gives_up_example =
    send_gives_up "c1" null "acks" (some "m1") link 3 idle (refl, refl, refl, tt) refl
      (ground arith) (omega arith)

abbrev failed_ack : AckFailure
failed_ack = record { retry_count = 1; from_prev_conn = false; message_frame = frame }

abbrev unacknowledged : Actions
unacknowledged = record idle { stomp_ack_delivery_failures = (some "m1", failed_ack) ∷ [] }

ack_rounds-find_example :
    find_id (some "m1") (ack_rounds 5 unacknowledged).stomp_ack_delivery_failures
    ≡ some (record failed_ack { retry_count = 6 })
unfolding find_id
ack_rounds-find_example =
    ack_rounds-find "m1" failed_ack link 5 unacknowledged (refl, refl, (refl, tt)) refl refl

get_queue-action_destination_example :
    get_queue (on_server (action_destination "201" "fn_main.mock"))
    ≡ some ("actions", "201", "fn_main.mock")
unfolding has_char
get_queue-action_destination_example =
    get_queue-action_destination "201" "fn_main.mock" refl refl refl

-- One component listens to the queue "lookup".
abbrev listening : Actions
listening = record idle { listeners = ("lookup", "finder" ∷ []) ∷ [] }

abbrev finder : Component
finder = record {
  name = "finder";
  functions = ("fn_find", "find_queue") ∷ [];
  app_config_queue = none;
  has_app_configs = false;
}

abbrev waiting : Actions
waiting = record idle { heartbeat_timeouts = some 160 ∷ none ∷ [] }

on_heartbeat_timeout-outcome_example :
    (on_heartbeat_timeout 50 (some 100) waiting).0 ≡ err (system_exit 34)
unfolding with_time
on_heartbeat_timeout-outcome_example =
    on_heartbeat_timeout-outcome 50 (some 100) (some 160) (none ∷ []) waiting (ground arith) refl

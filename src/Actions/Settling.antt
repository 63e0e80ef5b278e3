-- ===== src/Actions/Settling.antt =====
-- How the handling of a message ends, and what a later delivery of the same message leads to.
use resilient_python_api.Prelude.{
  String, true, false, Option, none, some, List, ◌∷◌, lookup, ◌≡◌, ◌≢◌, arith, eq_iff, ap, ◌∙◌,
}
use resilient_python_api.Value.{Value}
use resilient_python_api.Outcome.{Result, ok}
use resilient_python_api.Actions.Ids.{same_id_iff, has_id, drop_id, has_id-put_id, has_id-drop_id}
use resilient_python_api.Actions.Destinations.{Queue, get_queue}
use resilient_python_api.Actions.Results.{Returned, action_outcome, function_outcome}
use resilient_python_api.Actions.{
  Frame, Kind, function, inbound, ActionEvent, ack, send, dispatch, Actions, fire,
}
use resilient_python_api.Actions.Messages.{on_stomp_message, on_message_id, read_event}
use resilient_python_api.Actions.Completion.{message_id_of, latest_frame, on_event, success_body}
use resilient_python_api.Actions.Delivery.{unseen, in_progress, settled, phase, arriving_id}

abbrev pub outcome_of : Kind → List Returned → Option Value × List Value
outcome_of function values = function_outcome values
outcome_of _ values = action_outcome values

module _ (repr : Value → String) where
  abbrev pub reply_of : ActionEvent → List Returned → Value
  reply_of fevent values =
      let (function_result, status_messages) = outcome_of fevent.kind values in
      success_body repr function_result status_messages

  -- A custom action or function that was handled with success is acknowledged, with the frame of its
  -- latest delivery, and then answered; it is no longer in progress, and its id is kept as acknowledged.
  pub on_event-settles :
      (fevent : ActionEvent) (values : List Returned) (reply_to correlation_id : String)
      (self : Actions)
      → fevent.kind ≢ inbound
      → fevent.deferred ≡ false
      → fevent.test ≡ false
      → lookup "reply-to" fevent.headers ≡ some reply_to
      → lookup "correlation-id" fevent.headers ≡ some correlation_id
      → let id = message_id_of fevent in
        let after = (on_event repr fevent values self).2 in
        ((on_event repr fevent values self).0 ≡ ok tt)
        × (after.fired
            ≡ send correlation_id (reply_of fevent values) reply_to id
              ∷ ack (latest_frame fevent self) id
              ∷ self.fired)
        × (has_id id after.current_msgs_processing ≡ false)
        × (has_id id after.all_acks ≡ true)
  unfolding on_event
  on_event-settles fevent values reply_to correlation_id self k d t r c = ground (
    arith,
    k,
    d,
    t,
    r,
    c,
    same_id_iff (message_id_of fevent) (message_id_of fevent),
    has_id-drop_id (message_id_of fevent) (message_id_of fevent) self.current_msgs_processing,
    has_id-put_id (message_id_of fevent) (message_id_of fevent) tt self.all_acks,
  )

  -- While its reply and acknowledgement could be sent, the message is settled then.
  pub on_event-phase :
      (fevent : ActionEvent) (values : List Returned) (reply_to correlation_id : String)
      (self : Actions)
      → fevent.kind ≢ inbound
      → fevent.deferred ≡ false
      → fevent.test ≡ false
      → lookup "reply-to" fevent.headers ≡ some reply_to
      → lookup "correlation-id" fevent.headers ≡ some correlation_id
      → phase (message_id_of fevent) self ≡ in_progress
      → phase (message_id_of fevent) (on_event repr fevent values self).2 ≡ settled
  unfolding on_event phase
  on_event-phase fevent values reply_to correlation_id self k d t r c p = ground (
    arith,
    k,
    d,
    t,
    r,
    c,
    p,
    same_id_iff (message_id_of fevent) (message_id_of fevent),
    has_id-drop_id (message_id_of fevent) (message_id_of fevent) self.current_msgs_processing,
    has_id-put_id (message_id_of fevent) (message_id_of fevent) tt self.all_acks,
  )

  -- A deferred message is not in progress any more, though its handling goes on.
  pub on_event-deferred :
      (fevent : ActionEvent) (values : List Returned) (self : Actions)
      → fevent.deferred ≡ true
      → phase (message_id_of fevent) self ≡ in_progress
      → has_id (message_id_of fevent) self.all_acks ≡ false
      → phase (message_id_of fevent) (on_event repr fevent values self).2 ≡ unseen
  unfolding on_event phase
  on_event-deferred fevent values self d p a = ground (
    arith,
    d,
    p,
    a,
    same_id_iff (message_id_of fevent) (message_id_of fevent),
    has_id-drop_id (message_id_of fevent) (message_id_of fevent) self.current_msgs_processing,
  )

module _ (float_of : String → Result (Unit {0})) (action_name : Value → Result String) where
  abbrev pub queue_of : Frame → Option Queue
  queue_of frame = elim (lookup "destination" frame.headers) [
    | none ↦ get_queue ""
    | some d ↦ get_queue d
  ]

  unfoldable pub arrive : Frame → Actions → Actions
  unfolding on_stomp_message
  arrive frame self = (on_stomp_message float_of action_name frame self).1

  pub arrive-on_message_id :
      (id : String) (frame : Frame) (self : Actions)
      → arriving_id frame ≡ some id
      → id ≢ ""
      → arrive frame self ≡ (on_message_id float_of action_name frame (some id) self).1
  unfolding arrive on_stomp_message
  arrive-on_message_id id frame self e ne = ground (arith, e, eq_iff id "")

  pub arrive-settled :
      (id : String) (frame : Frame) (self : Actions)
      → arriving_id frame ≡ some id
      → id ≢ ""
      → phase (some id) self ≡ settled
      → arrive frame self
        ≡ fire (ack frame none) (record self { all_acks = drop_id (some id) self.all_acks })
  unfolding phase
  arrive-settled id frame self e ne p = ground (arith, arrive-on_message_id id frame self e ne, p)

  arrive-unseen :
      (id : String) (frame : Frame) (queue : Queue) (event : ActionEvent) (channel : String)
      (self : Actions)
      → arriving_id frame ≡ some id
      → id ≢ ""
      → phase (some id) self ≡ unseen
      → queue_of frame ≡ some queue
      → read_event float_of action_name queue frame ≡ ok (event, channel)
      → (arrive frame self).fired ≡ dispatch event channel ∷ self.fired
  unfolding phase
  arrive-unseen id frame queue event channel self e ne p q r =
      ground (arith, arrive-on_message_id id frame self e ne, p, q, r)

  -- After a message was acknowledged, its first delivery more is only acknowledged, but the one after
  -- that is dispatched, as if the message were new.
  pub arrive-arrive :
      (id : String) (frame later : Frame) (queue : Queue) (event : ActionEvent) (channel : String)
      (self : Actions)
      → arriving_id frame ≡ some id
      → arriving_id later ≡ some id
      → id ≢ ""
      → phase (some id) self ≡ settled
      → queue_of later ≡ some queue
      → read_event float_of action_name queue later ≡ ok (event, channel)
      → ((arrive frame self).fired ≡ ack frame none ∷ self.fired)
        × ((arrive later (arrive frame self)).fired
            ≡ dispatch event channel ∷ ack frame none ∷ self.fired)
  unfolding phase
  arrive-arrive id frame later queue event channel self e e' ne p q r =
      let s = arrive-settled id frame self e ne p in
      let after =
        fire (ack frame none) (record self { all_acks = drop_id (some id) self.all_acks }) in
      let p' : phase (some id) after ≡ unseen = ground (
        arith,
        p,
        same_id_iff (some id) (some id),
        has_id-drop_id (some id) (some id) self.all_acks,
      ) in
      let n = arrive-unseen id later queue event channel after e' ne p' q r in
      (ap (λ a. a.fired) s, ap (λ a. (arrive later a).fired) s ∙ n)

-- ===== src/Actions/Redelivery.antt =====
-- A message that is delivered again while it is handled and once more after that, with what is sent for
-- it (resilient-circuits/resilient_circuits/actions_component.py).
use resilient_python_api.Prelude.{
  String, true, false, Option, none, some, List, [], ◌∷◌, map, lookup, ◌≡◌, ◌≢◌, refl, arith, ap,
  sym, ◌∙◌, Assoc,
}
use resilient_python_api.Value.{Value, bool, int, pos, str, dict_of}
use resilient_python_api.Outcome.{Result, ok}
use resilient_python_api.Actions.Ids.{
  put_id, find_id-put_id, has_id-put_id, has_id-drop_id, same_id_iff,
}
use resilient_python_api.Actions.Results.{
  Returned, first_result, function_statuses, action_statuses, or_default, action_outcome,
  status_text, join_lines,
}
use resilient_python_api.Actions.Outcomes.{
  first_plain, without_first_plain, function_outcome-first_result,
}
use resilient_python_api.Actions.{
  Frame, Kind, action, function, inbound, ActionEvent, ack, send, Actions,
}
use resilient_python_api.Actions.Completion.{message_id_of, latest_frame, on_event, success_body}
use resilient_python_api.Actions.Delivery.{unseen, in_progress, settled, phase, arriving_id}
use resilient_python_api.Actions.Settling.{
  outcome_of, reply_of, on_event-settles, on_event-phase, arrive, arrive-on_message_id,
  arrive-settled,
}

-- The result of a message and the texts of its reply, by what its handlers returned.
abbrev pub expected : Kind → List Returned → Option Value × List Value
expected function values = elim (first_result values) [
  | some v ↦ (some v, or_default "Completed" (function_statuses values))
  | none ↦
      (first_plain values, or_default "Completed" (function_statuses (without_first_plain values)))
]
expected _ values =
    (none, or_default "No handler returned a result for this action" (action_statuses values))

abbrev pub results_entry : Option Value → Assoc Value
results_entry none = []
results_entry (some v) = ("results", v) ∷ []

module _ (repr : Value → String) where
  abbrev pub body_with : Option Value × List Value → Value
  body_with (result, texts) = dict_of (
      ("message_type", int (pos 0))
      ∷ ("message", str (join_lines (map (status_text repr) texts)))
      ∷ ("complete", bool true)
      ∷ results_entry result)

  success_body-body_with :
      (result : Option Value) (texts : List Value)
      → success_body repr result texts ≡ body_with (result, texts)
  success_body-body_with none texts = refl
  success_body-body_with (some v) texts = refl

  outcome_of-expected :
      (kind : Kind) (values : List Returned) → outcome_of kind values ≡ expected kind values
  unfolding action_outcome
  outcome_of-expected function values = function_outcome-first_result values
  outcome_of-expected action values = refl
  outcome_of-expected inbound values = refl

  reply_of_lem :
      (fevent : ActionEvent) (values : List Returned)
      → reply_of repr fevent values ≡ body_with (expected fevent.kind values)
  reply_of_lem fevent values =
      let o = outcome_of fevent.kind values in
      success_body-body_with o.0 o.1 ∙ ap body_with (outcome_of-expected fevent.kind values)

  module _ (float_of : String → Result (Unit {0})) (action_name : Value → Result String) where
    arrive-in_progress :
        (id : String) (frame : Frame) (self : Actions)
        → arriving_id frame ≡ some id
        → id ≢ ""
        → phase (some id) self ≡ in_progress
        → arrive float_of action_name frame self ≡ record self {
          current_msgs_processing = put_id (some id) frame self.current_msgs_processing;
        }
    unfolding phase
    arrive-in_progress id frame self e ne p =
        ground (arith, arrive-on_message_id float_of action_name id frame self e ne, p)

    latest_frame-put_id :
        (fevent : ActionEvent) (id : String) (frame : Frame) (self : Actions)
        → message_id_of fevent ≡ some id
        → latest_frame fevent (record self {
          current_msgs_processing = put_id (some id) frame self.current_msgs_processing;
        })
          ≡ frame
    latest_frame-put_id fevent id frame self e = ground (
      arith,
      e,
      same_id_iff (some id) (some id),
      find_id-put_id (some id) (some id) frame self.current_msgs_processing,
    )

    phase-in_progress :
        (id : String) (frame : Frame) (self : Actions)
        → phase (some id) self ≡ in_progress
        → phase (some id) (record self {
          current_msgs_processing = put_id (some id) frame self.current_msgs_processing;
        })
          ≡ in_progress
    unfolding phase
    phase-in_progress id frame self p = ground (
      arith,
      p,
      same_id_iff (some id) (some id),
      has_id-put_id (some id) (some id) frame self.current_msgs_processing,
    )

    arrive-unseen_after :
        (id : String) (frame : Frame) (self : Actions)
        → arriving_id frame ≡ some id
        → id ≢ ""
        → phase (some id) self ≡ settled
        → ((arrive float_of action_name frame self).fired ≡ ack frame none ∷ self.fired)
          × (phase (some id) (arrive float_of action_name frame self) ≡ unseen)
    unfolding phase
    arrive-unseen_after id frame self e ne p = ground (
      arith,
      p,
      arrive-settled float_of action_name id frame self e ne p,
      same_id_iff (some id) (some id),
      has_id-drop_id (some id) (some id) self.all_acks,
    )

    -- A message that is handled as a custom action or a function is delivered again: nothing is fired.
    -- When it was handled with success, the later frame is acknowledged, and then the reply is sent, with
    -- the texts and the result of what the handlers returned: of an action all but None and
    -- FunctionResults are texts, of a function the result is the first FunctionResult or else the first
    -- plain value, and the other texts and StatusMessages are the texts. A third delivery is only
    -- acknowledged, and the message is unknown then.
    pub arrive-on_event-settles :
        (id : String) (fevent : ActionEvent) (values : List Returned)
        (reply_to correlation_id : String) (later again : Frame) (self : Actions)
        → fevent.kind ≢ inbound
        → fevent.deferred ≡ false
        → fevent.test ≡ false
        → lookup "reply-to" fevent.headers ≡ some reply_to
        → lookup "correlation-id" fevent.headers ≡ some correlation_id
        → message_id_of fevent ≡ some id
        → id ≢ ""
        → arriving_id later ≡ some id
        → arriving_id again ≡ some id
        → phase (some id) self ≡ in_progress
        → let redelivered = arrive float_of action_name later self in
          let handled = (on_event repr fevent values redelivered).2 in
          let last = arrive float_of action_name again handled in
          (redelivered.fired ≡ self.fired)
          × ((on_event repr fevent values redelivered).0 ≡ ok tt)
          × (handled.fired
              ≡ send correlation_id (body_with (expected fevent.kind values)) reply_to (some id)
                ∷ ack later (some id)
                ∷ self.fired)
          × (phase (some id) handled ≡ settled)
          × (last.fired ≡ ack again none ∷ handled.fired)
          × (phase (some id) last ≡ unseen)
    arrive-on_event-settles id fevent values reply_to correlation_id later again self k d t r c e ne
          at_later at_again p =
        let self' : Actions = record self {
          current_msgs_processing = put_id (some id) later self.current_msgs_processing;
        } in
        let arrived = arrive-in_progress id later self at_later ne p in
        rw arrived (
          let (done, fired, dropped, kept) =
            on_event-settles repr fevent values reply_to correlation_id self' k d t r c in
          let p' = phase-in_progress id later self p in
          let s : phase (some id) (on_event repr fevent values self').2 ≡ settled =
            ap (λ i. phase i (on_event repr fevent values self').2) (sym e)
            ∙ on_event-phase repr fevent values reply_to correlation_id self' k d t r c
                (ap (λ i. phase i self') e ∙ p') in
          let (acked, unknown) =
            arrive-unseen_after id again (on_event repr fevent values self').2 at_again ne s in
          (
            refl,
            done,
            fired
                ∙ ap
                    (λ i.
                      send correlation_id (reply_of repr fevent values) reply_to i
                      ∷ ack (latest_frame fevent self') i
                      ∷ self.fired)
                    e
                ∙ ap
                    (λ b.
                      send correlation_id b reply_to (some id)
                      ∷ ack (latest_frame fevent self') (some id)
                      ∷ self.fired)
                    (reply_of_lem fevent values)
                ∙ ap
                    (λ f.
                      send correlation_id (body_with (expected fevent.kind values)) reply_to
                        (some id)
                      ∷ ack f (some id)
                      ∷ self.fired)
                    (latest_frame-put_id fevent id later self e),
            s,
            acked,
            unknown,
          ))

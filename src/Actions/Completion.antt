-- ===== src/Actions/Completion.antt =====
-- `_on_event`, `exception` and `_status`: the acknowledgement and the reply to a message.
use resilient_python_api.Prelude.{
  ℕ, String, Bool, true, false, Option, none, some, if◌then◌else◌, List, [], ◌∷◌, ◌++◌, map, lookup,
  Assoc, not, ◌&&◌,
}
use resilient_python_api.Value.{Value, bool, int, str, dict_of, pos, truthy}
use resilient_python_api.Outcome.{Result, Exec, ok, err, key_error}
use resilient_python_api.Actions.Ids.{MessageId, find_id, put_id, drop_id}
use resilient_python_api.Actions.Results.{
  Returned, action_outcome, function_outcome, status_text, join_lines,
}
use Prim.Native.String.{◌++◌ as ◌⧺◌}
use resilient_python_api.Actions.{
  Frame, Kind, action, function, inbound, ActionEvent, Fired, ack, send, test_response, test_result,
  Actions, fire,
}

abbrev pub message_id_of : ActionEvent → MessageId
message_id_of fevent = lookup "message-id" fevent.headers

-- The frame of a message that arrived again meanwhile, and the message is no longer in progress.
abbrev pub latest_frame : ActionEvent → Actions → Frame
latest_frame fevent self = elim (find_id (message_id_of fevent) self.current_msgs_processing) [
  | none ↦ fevent.frame
  | some frame ↦ frame
]

abbrev pub finish : ActionEvent × Actions → ActionEvent × Actions
finish (fevent, self) = (
  record fevent { frame = latest_frame fevent self },
  record self {
    current_msgs_processing = drop_id (message_id_of fevent) self.current_msgs_processing;
  },
)

-- self.fire(Ack(fevent.frame, message_id)); self._all_acks[message_id] = True
abbrev pub acknowledge : Frame → (ack_id id : MessageId) → Actions → Actions
acknowledge frame ack_id id self = record (fire (ack frame ack_id) self) {
  all_acks = put_id id tt self.all_acks;
}

-- The ActionAcknowledgementDTO
abbrev pub reply_dto : (message_type : ℕ) → Value → (complete : Bool) → Assoc Value
reply_dto message_type message complete =
    ("message_type", int (pos message_type))
    ∷ ("message", message)
    ∷ ("complete", bool complete)
    ∷ []

-- fire(Send(...)) with the headers of the message
abbrev pub reply : ActionEvent → Value → Exec Actions (Unit {0})
reply fevent body self = elim (lookup "reply-to" fevent.headers) [
  | none ↦ (err key_error, self)
  | some reply_to ↦ elim (lookup "correlation-id" fevent.headers) [
    | none ↦ (err key_error, self)
    | some correlation_id ↦
        (ok tt, fire (send correlation_id body reply_to (message_id_of fevent)) self)
  ]
]

abbrev pub fire_all : List Fired → Actions → Actions
fire_all [] self = self
fire_all (event ∷ events) self = fire_all events (fire event self)

-- The same for a message of the test tool, to which nothing is sent.
abbrev pub reply_to_test : ActionEvent → List Fired → Exec Actions (Unit {0})
reply_to_test fevent events self = elim (lookup "reply-to" fevent.headers) [
  | none ↦ (err key_error, self)
  | some reply_to ↦ elim (lookup "correlation-id" fevent.headers) [
    | none ↦ (err key_error, self)
    | some correlation_id ↦ (ok tt, fire_all events self)
  ]
]

abbrev pub with_results : Option Value → Assoc Value → Assoc Value
with_results none dto = dto
with_results (some v) (entry ∷ dto) = entry ∷ with_results (some v) dto
with_results (some v) [] = ("results", v) ∷ []

module _ (repr : Value → String) where
  abbrev pub success_body : Option Value → List Value → Value
  success_body function_result status_messages = dict_of (
      with_results function_result
        (reply_dto 0 (str (join_lines (map (status_text repr) status_messages))) true))

  abbrev pub success_reply :
      ActionEvent → List Fired → Option Value × List Value → Exec Actions (Unit {0})
  success_reply fevent results (function_result, status_messages) self =
      if fevent.test
      then reply_to_test fevent
          (results ++ (test_response (success_body function_result status_messages) ∷ [])) self
      else reply fevent (success_body function_result status_messages)
          (acknowledge fevent.frame (message_id_of fevent) (message_id_of fevent) self)

  abbrev pub succeeded : Kind → ActionEvent → List Returned → Exec Actions (Unit {0})
  succeeded inbound fevent values self =
      if fevent.test
      then (ok tt, self)
      else (ok tt, acknowledge fevent.frame none (message_id_of fevent) self)
  succeeded action fevent values self = success_reply fevent [] (action_outcome values) self
  succeeded function fevent values self =
      success_reply fevent (test_result (function_outcome values).0 ∷ []) (function_outcome values)
        self

  abbrev pub with_event :
      ActionEvent → Result (Unit {0}) × Actions → Result (Unit {0}) × ActionEvent × Actions
  with_event fevent (result, self) = (result, fevent, self)

  abbrev pub succeeded_unless_deferred :
      ActionEvent × Actions → List Returned → Result (Unit {0}) × ActionEvent × Actions
  succeeded_unless_deferred (fevent, self) values =
      if fevent.deferred
      then (ok tt, fevent, self)
      else with_event fevent (succeeded fevent.kind fevent values self)

  -- _on_event, where a message was handled with success and its handlers returned `values`
  unfoldable pub on_event :
      ActionEvent → List Returned → Actions → Result (Unit {0}) × ActionEvent × Actions
  unfolding action_outcome function_outcome
  on_event fevent values self = succeeded_unless_deferred (finish (fevent, self)) values

-- What was raised: a BaseFunctionError, another exception, or none that is known.
pub data Raised : Type 0 where
  function_error other_error : String → Raised
  no_type : Raised

-- The text of the reply, where the log level is not DEBUG
abbrev pub failure_text : Raised → String
failure_text (function_error value) = value
failure_text (other_error value) = "ERROR:\n\n" ⧺ value
failure_text no_type = "Processing failed"

abbrev pub has_stomp : Actions → Bool
has_stomp self = elim self.stomp_component [ none ↦ false | some _ ↦ true ]

abbrev pub failed : Kind → ActionEvent → Value → Actions → Actions
failed inbound fevent body self =
    if fevent.test then self else acknowledge fevent.frame none (message_id_of fevent) self
failed _ fevent body self =
    if not fevent.test && has_stomp self
    then (reply fevent body
        (acknowledge fevent.frame (message_id_of fevent) (message_id_of fevent) self)).1
    else (reply_to_test fevent (test_response body ∷ []) self).1

-- exception; what is raised in it is caught and logged
unfoldable pub exception : ActionEvent → Raised → Actions → ActionEvent × Actions
exception fevent raised self =
    let (fevent', self') = finish (fevent, self) in
    (
      fevent',
      failed fevent'.kind fevent' (dict_of (reply_dto 1 (str (failure_text raised)) true)) self',
    )

-- message = event.text; if not message: message = "(No status)"
abbrev pub status_or_none : Value → Value
status_or_none text = if truthy text then text else str "(No status)"

-- _status; `is_error` for a FunctionErrorEvent
unfoldable pub status : (is_error : Bool) → Value → ActionEvent → Exec Actions (Unit {0})
status is_error text fevent self =
    let body = dict_of (reply_dto (if is_error then 1 else 0) (status_or_none text) is_error) in
    if fevent.test
    then reply_to_test fevent (test_response body ∷ []) self
    else reply fevent body self

-- ===== src/Actions/Messages.antt =====
-- `on_stomp_message`: what is done with a message from a queue. The number that `float` reads in the
-- header "timestamp", and the name of an action, which may have to be asked for, are parameters; the
-- log of messages in files is left out.
use resilient_python_api.Prelude.{
  String, false, Option, none, some, if◌then◌else◌, ◌||◌, lookup, Assoc, ◌==◌,
}
use resilient_python_api.Value.{Value, null, str, dict, truthy}
use resilient_python_api.Outcome.{
  Result, Exec, ok, err, ◌>>=◌, value_error, key_error, type_error, attribute_error,
  json_decode_error, get_key, get_item, get_default, or_raise,
}
use resilient_python_api.Actions.Ids.{MessageId, find_id, has_id, put_id, drop_id}
use resilient_python_api.Actions.Destinations.{Queue, get_queue, inbound_msg_dest_prefix}
use Prim.Native.String.{◌++◌ as ◌⧺◌}
use resilient_python_api.Actions.{
  Frame, Kind, action, function, inbound, ActionEvent, ack, send, dispatch, AckFailure, SendFailure,
  Actions, fire,
}

-- (message.get(key) or {}).get(...), which raises where the value is truthy and no dict
abbrev pub check_named : String → Value → Result (Unit {0})
check_named key message = do
  v ← get_key message key
  if truthy v then (do _ ← get_key v "name"; ok tt) else ok tt

module _ (float_of : String → Result (Unit {0})) (action_name : Value → Result String) where
  abbrev pub check_timestamp : Option String → Result (Unit {0})
  check_timestamp none = ok tt
  check_timestamp (some ts) = float_of ts

  -- ActionMessageBase.__init__: what it reads of a message, where None stands for {}.
  abbrev pub read_base : Assoc String → Value → Result (Unit {0})
  read_base headers null = check_timestamp (lookup "timestamp" headers)
  read_base headers message = do
    _ ← get_key message "action_id"
    _ ← check_timestamp (lookup "timestamp" headers)
    _ ← check_named "principal" message
    check_named "workflow" message

  abbrev pub event_of : Kind → Frame → Value → Value → ActionEvent
  event_of kind frame message displayname = record {
    kind = kind;
    headers = frame.headers;
    message = message;
    frame = frame;
    displayname = displayname;
    deferred = false;
    test = false;
  }

  abbrev pub channel_name : Value → Result String
  channel_name (str name) = ok ("functions." ⧺ name)
  channel_name _ = err type_error

  abbrev pub inbound_message : Frame → String → Value → Result (ActionEvent × String)
  inbound_message frame queue_name message = do
    _ ← read_base frame.headers message
    ok (
      event_of inbound frame message (str queue_name),
      inbound_msg_dest_prefix ⧺ ("." ⧺ queue_name),
    )

  abbrev pub function_message : Frame → Value → Result (ActionEvent × String)
  function_message frame message = do
    called ← get_item message "function"
    name ← get_item called "name"
    channel ← channel_name name
    _ ← read_base frame.headers message
    display_name ← get_default called "display_name" name
    ok (event_of function frame message display_name, channel)

  abbrev pub action_message : Frame → String → Value → Result (ActionEvent × String)
  action_message frame queue_name message = do
    _ ← read_base frame.headers message
    action_id ← get_key message "action_id"
    displayname ← action_name action_id
    ok (event_of action frame message (str displayname), "actions." ⧺ queue_name)

  abbrev pub called_or_action : Frame → String → Value → Value → Result (ActionEvent × String)
  called_or_action frame queue_name message called =
      if truthy called
      then function_message frame message
      else action_message frame queue_name message

  -- The event for a message, with its channel.
  unfoldable pub event_for : Queue → Frame → Value → Result (ActionEvent × String)
  event_for (queue_type, org_id, queue_name) frame message =
      if queue_type == inbound_msg_dest_prefix
      then inbound_message frame queue_name message
      else get_key message "function" >>= called_or_action frame queue_name message

  abbrev pub read_event : Queue → Frame → Result (ActionEvent × String)
  read_event queue frame = do
    message ← or_raise frame.json json_decode_error
    event_for queue frame message

  -- except Exception: a message that is no dict cannot be logged by b64encode, and an ActionMessage
  -- of None cannot be made.
  abbrev pub not_read : Option Value → Exec Actions (Unit {0})
  not_read (some (dict fs)) self =
      if self.ignore_message_failure then (err attribute_error, self) else (ok tt, self)
  not_read _ self = (err type_error, self)

  abbrev pub dispatched : Frame → Result (ActionEvent × String) → Exec Actions (Unit {0})
  dispatched frame (ok (event, channel)) self = (ok tt, fire (dispatch event channel) self)
  dispatched frame (err e) self = not_read frame.json self

  -- A message that was not seen before.
  abbrev pub new_message : Frame → MessageId → Option Queue → Exec Actions (Unit {0})
  new_message frame id none self = (err type_error, self)
  new_message frame id (some queue) self =
      dispatched frame (read_event queue frame)
        (record self { current_msgs_processing = put_id id frame self.current_msgs_processing })

  -- The saved reply goes out again, to where the new frame asks for it.
  abbrev pub resend : Frame → MessageId → Option SendFailure → Exec Actions (Unit {0})
  resend frame id none self = (ok tt, self)
  resend frame id (some failure_info) self = elim (lookup "correlation-id" frame.headers) [
    | none ↦ (err key_error, self)
    | some correlation_id ↦ elim (lookup "reply-to" frame.headers) [
      | none ↦ (err key_error, self)
      | some reply_to ↦ (
        ok tt,
        fire (send correlation_id failure_info.body reply_to id) (record self {
          resilient_ack_delivery_failures = drop_id id self.resilient_ack_delivery_failures;
        }),
      )
    ]
  ]

  abbrev pub ack_again :
      Frame
      → MessageId
      → Option AckFailure
      → Result (Unit {0}) × Actions
      → Result (Unit {0}) × Actions
  ack_again frame id failure_info (err e, self) = (err e, self)
  ack_again frame id none (ok _, self) = (ok tt, self)
  ack_again frame id (some failure_info) (ok _, self) = (
    ok tt,
    fire (ack frame none)
        (record self { stomp_ack_delivery_failures = drop_id id self.stomp_ack_delivery_failures }),
  )

  abbrev pub on_message_id : Frame → MessageId → Exec Actions (Unit {0})
  on_message_id frame id self =
      if has_id id self.resilient_ack_delivery_failures
        || has_id id self.stomp_ack_delivery_failures
      then ack_again frame id (find_id id self.stomp_ack_delivery_failures)
          (resend frame id (find_id id self.resilient_ack_delivery_failures) self)
      else if has_id id self.current_msgs_processing
      then (
        ok tt,
        record self { current_msgs_processing = put_id id frame self.current_msgs_processing },
      )
      else if has_id id self.all_acks
      then (ok tt, fire (ack frame none) (record self { all_acks = drop_id id self.all_acks }))
      else new_message frame id
          (elim (lookup "destination" frame.headers) [ none ↦ get_queue "" | some d ↦ get_queue d ])
          self

  -- if not msg_id: raise ValueError
  abbrev pub on_header : Frame → Option String → Exec Actions (Unit {0})
  on_header frame none self = (err (value_error "Stomp message with no message id received"), self)
  on_header frame (some id) self =
      if id == ""
      then (err (value_error "Stomp message with no message id received"), self)
      else on_message_id frame (some id) self

  unfoldable pub on_stomp_message : Frame → Exec Actions (Unit {0})
  unfolding event_for get_queue
  on_stomp_message frame self = on_header frame (lookup "message-id" frame.headers) self

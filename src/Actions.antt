-- ===== src/Actions.antt =====
-- class Actions of resilient-circuits/resilient_circuits/actions_component.py: the messages in
-- progress, the acknowledgements that failed, and the queues that components listen to. An event
-- that the component fires is put before those that it fired earlier.
pub mod Ids
pub mod Destinations
pub mod Messages
pub mod Results
pub mod Outcomes
pub mod Completion
pub mod Connection
pub mod Queues
pub mod Channels
pub mod Listening
pub mod Heartbeats
pub mod Retries
pub mod Settling
pub mod Redelivery
pub mod Interim
pub mod Delivery
pub mod GivingUp
pub mod Reacknowledging
use resilient_python_api.Prelude.{
  ℕ, String, Bool, true, false, Option, none, some, List, [], ◌∷◌, Assoc,
}
use resilient_python_api.Value.{Value}
use resilient_python_api.Outcome.{Result, ok, err, Exec}
use resilient_python_api.Actions.Ids.{MessageId, MsgDict}

-- A STOMP frame: its headers, and its body as `json.loads` reads it, `none` where it is no JSON. The
-- body is a text, as stomp.py decodes it.
pub record Frame : Type 0 where
  pub headers : Assoc String
  pub json : Option Value

-- The classes of ActionMessageBase.
pub data Kind : Type 0 where
  action function inbound : Kind

-- An ActionMessage, FunctionMessage or InboundMessage.
pub record ActionEvent : Type 0 where
  pub kind : Kind
  pub headers : Assoc String
  pub message : Value
  pub frame : Frame
  pub displayname : Value
  pub deferred : Bool
  pub test : Bool

-- The events that the component fires. The body of a Send is the dictionary before it is printed.
pub data Fired : Type 0 where
  ack : Frame → MessageId → Fired
  send : (correlation_id : String) (body : Value) (destination : String) → MessageId → Fired
  dispatch : ActionEvent → (channel : String) → Fired
  test_response : (body : Value) → Fired
  test_result : Option Value → Fired
  connect : (subscribe : Bool) → Fired
  disconnect : (flush reconnect : Bool) → Fired
  reconnect : (subscribe : Bool) → Fired
  reconnect_later : Fired
  subscribe unsubscribe : (destination : String) → Fired
  subscribe_to_all : Fired

pub record AckFailure : Type 0 where
  pub retry_count : ℕ
  pub from_prev_conn : Bool
  pub message_frame : Frame

-- `result` of the source: what was to be sent.
pub record SendFailure : Type 0 where
  pub retry_count : ℕ
  pub from_prev_conn : Bool
  pub correlation_id : String
  pub body : Value
  pub destination : String

-- What the component reads of its StompClient.
pub record StompComponent : Type 0 where
  pub connected : Bool
  pub subscribed : List String

-- Components are known by their names. `all_acks` is a cache
-- with a time to live: entries leave it also by themselves. The times in `heartbeat_timeouts` are
-- whole seconds, `none` for the -1 of an event without a time.
pub record Actions : Type 0 where
  pub stomp_ack_delivery_failures : MsgDict AckFailure
  pub resilient_ack_delivery_failures : MsgDict SendFailure
  pub current_msgs_processing : MsgDict Frame
  pub all_acks : MsgDict (Unit {0})
  pub max_retry_count : ℕ
  pub stomp_component : Option StompComponent
  pub listeners : Assoc (List String)
  pub org_id : String
  pub resilient_mock : Bool
  pub reconnect_stomp : Bool
  pub heartbeat_timeouts : List (Option ℕ)
  pub ignore_message_failure : Bool
  pub fired : List Fired

-- self.fire(event)
abbrev pub fire : Fired → Actions → Actions
fire event self = record self { fired = event ∷ self.fired }

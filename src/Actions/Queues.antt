-- ===== src/Actions/Queues.antt =====
-- The queues that components listen to: `registered`, `subscribe_to_queues`, `prepare_unregister`,
-- `_subscribe`, `_unsubscribe` and `disconnect`. A set of components, and a set of channels, is the
-- list of its elements in the order in which it is read.
use resilient_python_api.Prelude.{
  String, Bool, true, false, Option, none, some, if◌then◌else◌, List, [], ◌∷◌, not, ◌&&◌, Assoc,
  lookup, insert, keys, ◌==◌, eqb,
}
use resilient_python_api.Outcome.{
  Result, Exec, ok, err, attribute_error, index_error, integration_error,
}
use Prim.Native.Char.{code}
use Prim.Native.String.{[] as empty, ◌∷◌ as ◌◂◌, ◌++◌ as ◌⧺◌}
use resilient_python_api.Actions.Destinations.{
  split_first, dot, inbound_msg_dest_prefix, action_destination,
}
use resilient_python_api.Actions.{disconnect, reconnect, subscribe, unsubscribe, Actions, fire}

-- s.startswith(prefix)
unfoldable pub starts_with : (prefix s : String) → Bool
starts_with empty s = true
starts_with (◌◂◌ c prefix) empty = false
starts_with (◌◂◌ c prefix) (◌◂◌ d s) =
    let rest = starts_with prefix s in if eqb (code c) (code d) then rest else false

-- A component: the message destinations of its functions, and the name that its app.config gives to
-- the inbound queue, where it has `app_configs`.
pub record Component : Type 0 where
  pub name : String
  pub functions : Assoc String
  pub app_config_queue : Option String
  pub has_app_configs : Bool

abbrev pub is_empty : Assoc String → Bool
is_empty [] = true
is_empty (_ ∷ _) = false

-- channel.split(".", 1)[1]
abbrev pub after_dot : String → Result String
after_dot channel = elim (split_first dot channel) [
  | none ↦ err index_error
  | some (before, after) ↦ ok after
]

-- handler_name = app_config_q_name or the name in the channel
abbrev pub handler_name : Component → String → Result String
handler_name component channel = elim component.app_config_queue [
  | none ↦ after_dot channel
  | some name ↦ if name == "" then after_dot channel else ok name
]

abbrev pub inbound_queue : (org_id : String) → Component → String → Result String
inbound_queue org_id component channel =
    if component.has_app_configs
    then elim (handler_name component channel) [
      | err e ↦ err e
      | ok name ↦ ok (inbound_msg_dest_prefix ⧺ ("." ⧺ (org_id ⧺ ("." ⧺ name))))
    ]
    else err integration_error

-- A function is not subscribed in a test, nor one that the server does not know.
abbrev pub function_queue : (test_mode : Bool) → Component → String → Result (Option String)
function_queue test_mode component channel =
    if test_mode
    then ok none
    else elim (after_dot channel) [ err e ↦ err e | ok name ↦ ok (lookup name component.functions) ]

abbrev pub some_queue : Result String → Result (Option String)
some_queue (err e) = err e
some_queue (ok name) = ok (some name)

-- The queue of a channel, `none` where the loop goes on with the next channel.
unfoldable pub queue_name_of :
    (org_id : String) (test_mode : Bool) → Component → String → Result (Option String)
unfolding starts_with split_first
queue_name_of org_id test_mode component channel =
    if starts_with "actions." channel
    then some_queue (after_dot channel)
    else if starts_with "functions." channel && not (is_empty component.functions)
    then function_queue test_mode component channel
    else if starts_with inbound_msg_dest_prefix channel
    then some_queue (inbound_queue org_id component channel)
    else ok none

abbrev pub is_in_set : String → List String → Bool
is_in_set x [] = false
is_in_set x (y ∷ ys) = let rest = is_in_set x ys in if y == x then true else rest

-- set([component]) with the components that listen already
abbrev pub with_listener : String → Option (List String) → List String
with_listener component none = component ∷ []
with_listener component (some comps) =
    if is_in_set component comps then comps else component ∷ comps

abbrev pub listen : (component : String) → Option String → Assoc (List String) → Assoc (List String)
listen component none listeners = listeners
listen component (some queue_name) listeners =
    insert queue_name (with_listener component (lookup queue_name listeners)) listeners

-- The loop over the channels, which a raise ends.
unfoldable pub listen_all :
    (test_mode : Bool) → Component → (channels : List String) → Exec Actions (Unit {0})
listen_all test_mode component [] self = (ok tt, self)
listen_all test_mode component (channel ∷ channels) self =
    elim (queue_name_of self.org_id test_mode component channel) [
      | err e ↦ (err e, self)
      | ok queue ↦
          listen_all test_mode component channels
            (record self { listeners = listen component.name queue self.listeners })
    ]

-- registered, for another component than Actions itself, with its channels and those of its handlers
unfoldable pub registered :
    (test_mode : Bool) → Component → (channels : List String) → Exec Actions (Unit {0})
unfolding listen_all queue_name_of
registered = listen_all

abbrev pub has_listeners : Option (List String) → Bool
has_listeners (some (_ ∷ _)) = true
has_listeners _ = false

abbrev pub connected : Actions → Bool
connected self = elim self.stomp_component [ none ↦ false | some stomp ↦ stomp.connected ]

unfoldable pub subscribe_queue : (queue_name : String) → Actions → Actions
unfolding starts_with
subscribe_queue queue_name self =
    if self.resilient_mock
    then self
    else if starts_with inbound_msg_dest_prefix queue_name
    then fire (subscribe queue_name) self
    else if connected self && has_listeners (lookup queue_name self.listeners)
    then fire (subscribe (action_destination self.org_id queue_name)) self
    else self

abbrev pub subscribe_each : List String → Actions → Actions
subscribe_each [] self = self
subscribe_each (queue_name ∷ names) self = subscribe_each names (subscribe_queue queue_name self)

abbrev pub subscribe_listeners : Actions → Actions
subscribe_listeners self = subscribe_each (keys self.listeners) self

abbrev pub subscribe_after_wait : Exec Actions (Unit {0})
subscribe_after_wait self = elim self.stomp_component [
  | none ↦ (err attribute_error, self)
  | some stomp ↦
      (ok tt, subscribe_listeners (if stomp.connected then self else fire (reconnect true) self))
]

-- subscribe_to_queues; `waited` is what other handlers do to the component until it is connected or
-- the time is over.
unfoldable pub subscribe_to_queues : (waited : Actions → Actions) → Exec Actions (Unit {0})
unfolding subscribe_queue
subscribe_to_queues waited self = elim self.stomp_component [
  | none ↦ (ok tt, self)
  | some stomp ↦
      if stomp.connected
      then (ok tt, subscribe_listeners self)
      else subscribe_after_wait (waited self)
]

unfoldable pub unsubscribe_queue : (queue_name : String) → Actions → Actions
unsubscribe_queue queue_name self =
    if connected self && has_listeners (lookup queue_name self.listeners)
    then fire (unsubscribe (action_destination self.org_id queue_name)) self
    else self

unfoldable pub disconnect_component : (then_reconnect flush : Bool) → Actions → Actions
disconnect_component then_reconnect flush self = elim self.stomp_component [
  | none ↦ self
  | some stomp ↦ fire (disconnect flush then_reconnect) self
]

abbrev pub without_component : String → List String → List String
without_component component [] = []
without_component component (other ∷ comps) =
    let rest = without_component component comps in
    if other == component then rest else other ∷ rest

-- `comps` is the set that the dictionary holds: removing the component changes both.
abbrev pub unsubscribe_if_empty : (queue_name : String) → List String → Actions → Actions
unsubscribe_if_empty queue_name [] self = unsubscribe_queue queue_name self
unsubscribe_if_empty queue_name (_ ∷ _) self = self

abbrev pub stop_listening :
    (component queue_name : String) → Option (List String) → Actions → Actions
stop_listening component queue_name none self = self
stop_listening component queue_name (some comps) self =
    if is_in_set component comps
    then unsubscribe_if_empty queue_name (without_component component comps) (record self {
      listeners = insert queue_name (without_component component comps) self.listeners;
    })
    else self

-- channel.partition(".")[2]
abbrev pub partition_dot : String → String
partition_dot channel = elim (split_first dot channel) [ none ↦ "" | some (before, after) ↦ after ]

abbrev pub leave_channel : (component channel : String) → Actions → Actions
leave_channel component channel self =
    if starts_with "actions." channel
    then stop_listening component (partition_dot channel)
        (lookup (partition_dot channel) self.listeners) self
    else self

abbrev pub leave_channels : (component : String) → (channels : List String) → Actions → Actions
leave_channels component [] self = self
leave_channels component (channel ∷ channels) self =
    leave_channels component channels (leave_channel component channel self)

-- prepare_unregister; `is_self` where Actions itself is unregistered
unfoldable pub prepare_unregister :
    (is_self : Bool) → (component : String) → (channels : List String) → Actions → Actions
unfolding starts_with split_first unsubscribe_queue disconnect_component
prepare_unregister is_self component channels self = leave_channels component channels (
    if is_self
    then record (disconnect_component false true self) {
      reconnect_stomp = false;
      stomp_component = none;
    }
    else self)

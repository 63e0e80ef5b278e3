-- ===== src/Stomp.antt =====
-- class StompClient of resilient-circuits/resilient_circuits/stomp_component.py: which requests to the
-- library stomp.py its handlers make, and what they remember of them. The library, and the server
-- behind it, are a world that its requests read and change; `body.encode` is not modelled, nor are the
-- headers, which are passed on unread.
pub mod Attempts
use resilient_python_api.Prelude.{
  ℕ, suc, ◌+◌, String, Bool, true, false, Option, none, some, if◌then◌else◌, List, [], ◌∷◌, not,
  ◌&&◌, ◌||◌, eqb, leb, ltb, ◌==◌,
}
use resilient_python_api.Outcome.{Result, ok, err, Error, system_exit}
use Prim.Native.Char.{code}
use Prim.Native.String.{[] as empty, ◌∷◌ as ◌◂◌}

-- The exceptions of the library, and any other, with the text that `str` gives.
pub data Raised : Type 0 where
  connect_failed not_connected other_stomp other_exception : String → Raised

-- What a request gives: nothing, or an exception.
abbrev pub Outcome : Type 0
Outcome = Option Raised

-- stomp.StompConnection12
pub record Connection (W : Type 0) : Type 0 where
  pub is_connected : W → Bool
  pub connect : W → Outcome × W
  pub disconnect : W → Outcome × W
  pub subscribe : (destination : String) → W → Outcome × W
  pub unsubscribe : (destination : String) → W → Outcome × W
  pub ack : (id : Option String) → W → Outcome × W
  pub send : (destination body : String) → W → Outcome × W

-- The events that StompClient fires; OnStompError without its frame and text.
pub data Announced : Type 0 where
  connected connection_failed stomp_error : Announced
  disconnected : (reconnect : Bool) → Announced

-- `_stomp_max_connection_errors` is 0 where there is no limit.
pub record StompClient : Type 0 where
  pub subscribed : List String
  pub stomp_connection_errors : ℕ
  pub stomp_max_connection_errors : ℕ
  pub announced : List Announced

-- What init sets, where the component may have been used before.
unfoldable pub init : (max_errors : ℕ) → StompClient → StompClient
init max_errors self = record self {
  subscribed = [];
  stomp_connection_errors = 0;
  stomp_max_connection_errors = max_errors;
}

abbrev pub announce : Announced → StompClient → StompClient
announce event self = record self { announced = event ∷ self.announced }

-- How a handler ends: event.success, an exception that it raises again, or sys.exit(1).
pub data Ending : Type 0 where
  success failure raised exits : Ending

-- s.lower() starts with a text, and has it as a part; for texts of small Latin letters without k
unfoldable pub starts_lower : (part s : String) → Bool
starts_lower empty s = true
starts_lower (◌◂◌ d part) empty = false
starts_lower (◌◂◌ d part) (◌◂◌ c s) =
    let rest = starts_lower part s in
    if eqb (code c) (code d) || (leb 65 (code c) && leb (code c) 90 && eqb (code c + 32) (code d))
    then rest
    else false

unfoldable pub contains_lower : (part s : String) → Bool
unfolding starts_lower
contains_lower part empty = starts_lower part empty
contains_lower part (◌◂◌ c s) =
    let rest = contains_lower part s in if starts_lower part (◌◂◌ c s) then true else rest

abbrev pub is_in : String → List String → Bool
is_in x [] = false
is_in x (y ∷ ys) = let rest = is_in x ys in if y == x then true else rest

abbrev pub without : String → List String → List String
without x [] = []
without x (y ∷ ys) = let rest = without x ys in if y == x then rest else y ∷ rest

-- self._subscribed[destination] = True
abbrev pub remember : String → StompClient → StompClient
remember destination self =
    if is_in destination self.subscribed
    then self
    else record self { subscribed = destination ∷ self.subscribed }

module _ {W : Type 0} (stomp : Connection W) where
  abbrev pub Handler : Type 0
  Handler = StompClient → W → Ending × StompClient × W

  -- event.success = False; self.fire(ConnectionFailed(...))
  abbrev pub fail_connection : Handler
  fail_connection self w = (failure, announce connection_failed self, w)

  abbrev pub count_error : Handler
  count_error self w =
      let self' = record self { stomp_connection_errors = suc self.stomp_connection_errors } in
      if not (eqb self.stomp_max_connection_errors 0)
        && leb self.stomp_max_connection_errors self'.stomp_connection_errors
      then (exits, self', w)
      else fail_connection self' w

  abbrev pub refused : String → Handler
  refused text self w =
      if contains_lower "no more data" text then count_error self w else fail_connection self w

  abbrev pub connect_outcome : Outcome → Handler
  connect_outcome none self w =
      if stomp.is_connected w
      then (success, record (announce connected self) { stomp_connection_errors = 0 }, w)
      else fail_connection self w
  connect_outcome (some (connect_failed text)) self w = refused text self w
  connect_outcome (some (not_connected text)) self w = refused text self w
  connect_outcome (some (other_stomp text)) self w = (exits, self, w)
  connect_outcome (some (other_exception text)) self w = (raised, self, w)

  unfoldable pub connect : Handler
  unfolding contains_lower starts_lower
  connect self w = let (outcome, w') = stomp.connect w in connect_outcome outcome self w'

  abbrev pub disconnect_outcome : (reconnect : Bool) → Outcome → Handler
  disconnect_outcome reconnect (some (other_exception text)) self w = (raised, self, w)
  disconnect_outcome reconnect _ self w = (success, announce (disconnected reconnect) self, w)

  -- _disconnect
  unfoldable pub disconnect : (flush reconnect : Bool) → Handler
  disconnect flush reconnect self w =
      let self' = if flush then record self { subscribed = [] } else self in
      if stomp.is_connected w
      then (let (outcome, w') = stomp.disconnect w in disconnect_outcome reconnect outcome self' w')
      else (success, announce (disconnected reconnect) self', w)

  abbrev pub unsubscribe_outcome : (destination : String) → Outcome → Handler
  unsubscribe_outcome destination none self w =
      (success, record self { subscribed = without destination self.subscribed }, w)
  unsubscribe_outcome destination (some (other_exception text)) self w = (raised, self, w)
  unsubscribe_outcome destination (some _) self w = (failure, self, w)

  -- _unsubscribe
  unfoldable pub unsubscribe : (destination : String) → Handler
  unsubscribe destination self w =
      if is_in destination self.subscribed
      then (let (outcome, w') = stomp.unsubscribe destination w in
          unsubscribe_outcome destination outcome self w')
      else (success, self, w)

  abbrev pub subscribe_outcome : (destination : String) → Outcome → Handler
  subscribe_outcome destination none self w = (success, remember destination self, w)
  subscribe_outcome destination (some (other_exception text)) self w = (exits, self, w)
  subscribe_outcome destination (some _) self w = (failure, announce stomp_error self, w)

  -- _subscribe, which goes on where the destination is subscribed already
  unfoldable pub subscribe : (destination : String) → Handler
  subscribe destination self w =
      let (outcome, w') = stomp.subscribe destination w in
      subscribe_outcome destination outcome self w'

  -- For Ack and Send: the exception is raised again, so that Ack_failure or Send_failure is fired.
  abbrev pub delivery_outcome : Outcome → Handler
  delivery_outcome none self w = (success, self, w)
  delivery_outcome (some (other_exception text)) self w = (raised, self, w)
  delivery_outcome (some _) self w = (raised, announce stomp_error self, w)

  unfoldable pub ack_frame : (id : Option String) → Handler
  ack_frame id self w = let (outcome, w') = stomp.ack id w in delivery_outcome outcome self w'

  unfoldable pub send : (destination body : String) → Handler
  send destination body self w =
      let (outcome, w') = stomp.send destination body w in delivery_outcome outcome self w'

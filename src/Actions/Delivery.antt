-- ===== src/Actions/Delivery.antt =====
-- What a message that arrives again leads to, as a machine of four phases of a message id, and the
-- events with which a message is dispatched.
use resilient_python_api.Prelude.{
  ℕ, suc, ◌+◌, String, Bool, true, false, Option, none, some, if◌then◌else◌, List, [], ◌∷◌, lookup,
  Assoc, ◌≡◌, refl, ◌≢◌, ◌⊎◌, inl, inr, arith, ◌||◌, ◌==◌, Bool-cases, eq_iff, ap, ◌∙◌,
}
use resilient_python_api.Value.{Value}
use resilient_python_api.Outcome.{Result, ok, err}
use resilient_python_api.Actions.Ids.{
  MessageId, same_id, same_id_iff, find_id, has_id, put_id, has_id-put_id, has_id-drop_id,
}
use resilient_python_api.Actions.Destinations.{Queue, get_queue}
use resilient_python_api.Actions.{
  Frame, ActionEvent, Fired, ack, dispatch, AckFailure, SendFailure, Actions,
}
use resilient_python_api.Actions.Messages.{
  on_stomp_message, on_header, on_message_id, new_message, dispatched, not_read, event_for,
  read_event, resend, ack_again,
}

-- Not known; its event is being handled; its handling ended and it was acknowledged; its reply or
-- acknowledgement could not be sent.
pub data Phase : Type 0 where
  unseen in_progress settled undelivered : Phase

abbrev pub phase_from : (undelivered? in_progress? settled? : Bool) → Phase
phase_from true _ _ = undelivered
phase_from false true _ = in_progress
phase_from false false true = settled
phase_from false false false = unseen

unfoldable pub phase : MessageId → Actions → Phase
phase id self =
    phase_from
      (has_id id self.resilient_ack_delivery_failures || has_id id self.stomp_ack_delivery_failures)
      (has_id id self.current_msgs_processing) (has_id id self.all_acks)

-- How many of the events are dispatched messages with an id.
abbrev pub is_dispatch : MessageId → Fired → ℕ
is_dispatch id (dispatch event channel) =
    if same_id (lookup "message-id" event.headers) id then 1 else 0
is_dispatch id _ = 0

abbrev pub dispatches : MessageId → List Fired → ℕ
dispatches id [] = 0
dispatches id (event ∷ events) = is_dispatch id event + dispatches id events

-- What the arrival of a message may do to its phase, and to the number of events dispatched for it,
-- which is `n` before and `n'` after.
abbrev pub Arrives : Phase → (n n' : ℕ) → Phase → Type 0
Arrives unseen n n' after =
    ((n' ≡ suc n) × (after ≡ in_progress)) ⊎ (n' ≡ n) × ((after ≡ in_progress) ⊎ (after ≡ unseen))
Arrives in_progress n n' after = (n' ≡ n) × (after ≡ in_progress)
Arrives settled n n' after = (n' ≡ n) × (after ≡ unseen)
Arrives undelivered n n' after = n' ≡ n

-- What is fired for a message whose id is in a phase, where that does not depend on what it says.
abbrev pub Answers : Phase → Frame → (before after : List Fired) → Type 0
Answers settled frame before after = after ≡ ack frame none ∷ before
Answers in_progress frame before after = after ≡ before
Answers unseen frame before after = Unit {0}
Answers undelivered frame before after = Unit {0}

-- The header "message-id" of a frame.
abbrev pub arriving_id : Frame → MessageId
arriving_id frame = lookup "message-id" frame.headers

module _ (float_of : String → Result (Unit {0})) (action_name : Value → Result String) where
  not_read-state :
      (json : Option Value) (self : Actions) → (not_read float_of action_name json self).1 ≡ self
  not_read-state none self = refl
  not_read-state (some v) self = ground arith

  -- The headers of the event are those of the frame.
  abbrev pub HasHeaders : Assoc String → Result (ActionEvent × String) → Type 0
  HasHeaders headers (ok (event, channel)) = event.headers ≡ headers
  HasHeaders headers (err e) = Unit {0}

  read_event-HasHeaders :
      (queue : Queue) (frame : Frame)
      → HasHeaders frame.headers (read_event float_of action_name queue frame)
  unfolding event_for
  read_event-HasHeaders (queue_type, org_id, queue_name) frame = ground arith

  -- `dispatched` changes no dictionary.
  dispatched-kept :
      (id : MessageId) (frame : Frame) (r : Result (ActionEvent × String)) (self : Actions)
      → phase id (dispatched float_of action_name frame r self).1 ≡ phase id self
  unfolding phase
  dispatched-kept id frame (ok (event, channel)) self = refl
  dispatched-kept id frame (err e) self = ap (phase id) (not_read-state frame.json self)

  abbrev pub is_read : Result (ActionEvent × String) → ℕ
  is_read (ok _) = 1
  is_read (err _) = 0

  dispatched-count :
      (id : MessageId) (frame : Frame) (r : Result (ActionEvent × String)) (self : Actions)
      → HasHeaders frame.headers r
      → dispatches id (dispatched float_of action_name frame r self).1.fired
        ≡ (if same_id (lookup "message-id" frame.headers) id then is_read r else 0)
          + dispatches id self.fired
  dispatched-count id frame (ok (event, channel)) self h = ground (arith, h)
  dispatched-count id frame (err e) self h = ground (arith, not_read-state frame.json self)

  -- What a message with the id `a` does to the id `b`.
  abbrev pub Arrival : (a b : MessageId) → (before after : Actions) → Type 0
  Arrival a b before after =
      if same_id a b
      then Arrives (phase b before) (dispatches b before.fired) (dispatches b after.fired)
          (phase b after)
      else (dispatches b after.fired ≡ dispatches b before.fired) × (phase b after ≡ phase b before)

  new_message-Arrival :
      (id b : MessageId) (frame : Frame) (queue : Option Queue) (self : Actions)
      → lookup "message-id" frame.headers ≡ id
      → phase id self ≡ unseen
      → Arrival id b self (new_message float_of action_name frame id queue self).1
  unfolding phase
  new_message-Arrival id b frame none self e p = ground (arith, same_id_iff id b, p)
  new_message-Arrival id b frame (some queue) self e p =
      let self' = record self {
        current_msgs_processing = put_id id frame self.current_msgs_processing;
      } in
      let r = read_event float_of action_name queue frame in
      ground (
        arith,
        same_id_iff id b,
        p,
        e,
        dispatched-kept b frame r self',
        dispatched-count b frame r self' (read_event-HasHeaders queue frame),
        has_id-put_id id b frame self.current_msgs_processing,
      )

  -- What is sent again: no event is dispatched, and other ids keep their phase.
  SentAgain : (a b : MessageId) → (before after : Actions) → Type 0
  SentAgain a b before after =
      (dispatches b after.fired ≡ dispatches b before.fired)
      × (same_id a b ≡ false → phase b after ≡ phase b before)

  resend-SentAgain :
      (id b : MessageId) (frame : Frame) (held : Option SendFailure) (self : Actions)
      → SentAgain id b self (resend float_of action_name frame id held self).1
  unfolding phase SentAgain
  resend-SentAgain id b frame none self = (refl, λ d. refl)
  resend-SentAgain id b frame (some failure) self =
      ground (arith, has_id-drop_id id b self.resilient_ack_delivery_failures)

  ack_again-SentAgain :
      (id b : MessageId) (frame : Frame) (held : Option AckFailure) (before self : Actions)
      (r : Result (Unit {0}))
      → SentAgain id b before self
      → SentAgain id b before (ack_again float_of action_name frame id held (r, self)).1
  unfolding phase SentAgain
  ack_again-SentAgain id b frame held before self (err e) h = h
  ack_again-SentAgain id b frame none before self (ok u) h = h
  ack_again-SentAgain id b frame (some failure) before self (ok u) h =
      ground (arith, h, has_id-drop_id id b self.stomp_ack_delivery_failures)

  on_message_id-Arrival :
      (id b : MessageId) (frame : Frame) (self : Actions)
      → lookup "message-id" frame.headers ≡ id
      → Arrival id b self (on_message_id float_of action_name frame id self).1
  unfolding phase SentAgain
  on_message_id-Arrival id b frame self e =
      let sent =
        resend float_of action_name frame id (find_id id self.resilient_ack_delivery_failures)
          self in
      let queue : Option Queue = elim (lookup "destination" frame.headers) [
        | none ↦ get_queue ""
        | some d ↦ get_queue d
      ] in
      let h = resend-SentAgain id b frame (find_id id self.resilient_ack_delivery_failures) self in
      let h' =
        ack_again-SentAgain id b frame (find_id id self.stomp_ack_delivery_failures) self sent.1
          sent.0 h in
      ground (
        arith,
        same_id_iff id b,
        e,
        h',
        new_message-Arrival id b frame queue self e,
        has_id-put_id id b frame self.current_msgs_processing,
        has_id-drop_id id b self.all_acks,
      )

  on_message_id-Answers :
      (id : MessageId) (frame : Frame) (self : Actions)
      → Answers
          (phase id self)
          frame
          self.fired
          (on_message_id float_of action_name frame id self).1.fired
  unfolding phase
  on_message_id-Answers id frame self = ground arith

  on_header-Answers :
      (frame : Frame) (header : Option String) (self : Actions)
      → header ≢ none
      → header ≢ some ""
      → Answers
          (phase header self)
          frame
          self.fired
          (on_header float_of action_name frame header self).1.fired
  on_header-Answers frame none self given full = absurd (given refl)
  on_header-Answers frame (some id) self given full = elim (Bool-cases (id == "")) [
    | inl empty ↦ absurd (full (ap some ((eq_iff id "").0 empty)))
    | inr text ↦ rw text (on_message_id-Answers (some id) frame self)
  ]

  on_header-Arrival :
      (frame : Frame) (header : Option String) (b : MessageId) (self : Actions)
      → arriving_id frame ≡ header
      → let after = (on_header float_of action_name frame header self).1 in
        Arrival header b self after ⊎ (after ≡ self) × ((header ≡ none) ⊎ (header ≡ some ""))
  on_header-Arrival frame none b self e = inr (refl, inl refl)
  on_header-Arrival frame (some id) b self e =
      ground (arith, eq_iff id "", on_message_id-Arrival (some id) b frame self e)

  -- A message that arrives with an id is dispatched, at most once, only where its id is unseen, and is in
  -- progress then; for an id in progress nothing is fired, and it stays so; for an id that was
  -- acknowledged the message is acknowledged again and nothing else is fired, and the id is unseen then;
  -- an id whose reply or acknowledgement could not be sent is not dispatched. The other ids are as before.
  pub on_stomp_message-Arrival :
      (frame : Frame) (b : MessageId) (self : Actions)
      → arriving_id frame ≢ none
      → arriving_id frame ≢ some ""
      → let after = (on_stomp_message float_of action_name frame self).1 in
        Arrival (arriving_id frame) b self after
        × Answers (phase (arriving_id frame) self) frame self.fired after.fired
  unfolding on_stomp_message
  on_stomp_message-Arrival frame b self given full = (
    ground (arith, on_header-Arrival frame (lookup "message-id" frame.headers) b self refl),
    on_header-Answers frame (lookup "message-id" frame.headers) self given full,
  )

  -- Messages that arrive one after the other; what is raised in a handler ends only that handler.
  unfoldable pub arrivals : List Frame → Actions → Actions
  arrivals [] self = self
  arrivals (frame ∷ frames) self =
      arrivals frames (on_stomp_message float_of action_name frame self).1

  on_stomp_message-in_progress :
      (frame : Frame) (b : MessageId) (self : Actions)
      → phase b self ≡ in_progress
      → (dispatches b (on_stomp_message float_of action_name frame self).1.fired
          ≡ dispatches b self.fired)
        × (phase b (on_stomp_message float_of action_name frame self).1 ≡ in_progress)
  unfolding on_stomp_message
  on_stomp_message-in_progress frame b self p =
      ground (arith, p, on_header-Arrival frame (lookup "message-id" frame.headers) b self refl)

  -- While a message is handled, it is not dispatched again, whatever messages arrive and however often.
  pub arrivals-in_progress :
      (frames : List Frame) (b : MessageId) (self : Actions)
      → phase b self ≡ in_progress
      → (dispatches b (arrivals frames self).fired ≡ dispatches b self.fired)
        × (phase b (arrivals frames self) ≡ in_progress)
  unfolding arrivals
  arrivals-in_progress [] b self p = (refl, p)
  arrivals-in_progress (frame ∷ frames) b self p =
      let (n, q) = on_stomp_message-in_progress frame b self p in
      let (n', q') =
        arrivals-in_progress frames b (on_stomp_message float_of action_name frame self).1 q in
      (n' ∙ n, q')

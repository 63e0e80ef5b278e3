-- ===== src/Actions/Reacknowledging.antt =====
-- What becomes of an acknowledgement that could not be sent, when the timer sends it again.
use resilient_python_api.Prelude.{
  ℕ, zero, suc, ◌+◌, true, false, none, some, List, [], ◌∷◌, String, ◌≡◌, refl, arith, ◌∙◌, ap, sym,
  subst,
}
use resilient_python_api.Actions.Ids.{
  MessageId, MsgDict, same_id_iff, find_id, find_id-put_id, find_id-drop_id, UniqueIds,
  put_id-UniqueIds, drop_id-UniqueIds, without_prev-find, without_prev-UniqueIds,
}
use resilient_python_api.Actions.{
  Fired, ack, send, dispatch, test_response, test_result, connect, disconnect, reconnect,
  reconnect_later, subscribe, unsubscribe, subscribe_to_all, AckFailure, SendFailure, Actions,
  StompComponent,
}
use resilient_python_api.Actions.Retries.{
  on_ack_success, acks_to_retry, sends_to_retry, retry_ack, retry_acks, retry_send, retry_sends,
  retry_connected, retry_send_failures,
}
use resilient_python_api.Actions.GivingUp.{retry_send_failures-connected}

abbrev pub counted_ack : AckFailure → AckFailure
counted_ack f = record f { retry_count = suc f.retry_count }

pub retry_acks-find :
    (id : MessageId) (l : MsgDict AckFailure) (self : Actions)
    → UniqueIds l
    → find_id id (retry_acks l self).stomp_ack_delivery_failures ≡ elim (find_id id l) [
      | none ↦ find_id id self.stomp_ack_delivery_failures
      | some f ↦ some (counted_ack f)
    ]
unfolding retry_acks find_id
retry_acks-find id [] self u = refl
retry_acks-find id ((j, f) ∷ l) self u = ground (
  arith,
  retry_acks-find id l (retry_ack j f self) u.1,
  same_id_iff j id,
  find_id-put_id j id (counted_ack f) self.stomp_ack_delivery_failures,
)

retry_acks-UniqueIds :
    (l : MsgDict AckFailure) (self : Actions)
    → UniqueIds self.stomp_ack_delivery_failures
    → UniqueIds (retry_acks l self).stomp_ack_delivery_failures
      × ((retry_acks l self).stomp_component ≡ self.stomp_component)
unfolding retry_acks
retry_acks-UniqueIds [] self u = (u, refl)
retry_acks-UniqueIds ((j, f) ∷ l) self u =
    retry_acks-UniqueIds l (retry_ack j f self)
      (put_id-UniqueIds j (counted_ack f) self.stomp_ack_delivery_failures u)

retry_sends-acks :
    (l : MsgDict SendFailure) (self : Actions)
    → ((retry_sends l self).stomp_ack_delivery_failures ≡ self.stomp_ack_delivery_failures)
      × ((retry_sends l self).stomp_component ≡ self.stomp_component)
unfolding retry_sends
retry_sends-acks [] self = (refl, refl)
retry_sends-acks ((j, f) ∷ l) self = retry_sends-acks l (retry_send j f self)

-- The connection is up, and no id is held twice.
abbrev pub AcksReady : StompComponent → Actions → Type 0
AcksReady stomp self =
    (self.stomp_component ≡ some stomp)
    × (stomp.connected ≡ true)
    × UniqueIds self.stomp_ack_delivery_failures

-- One event of the component: if it is an Ack, it succeeds, and the handler of Ack_success has the id
-- that the Ack was fired with.
abbrev pub ack_succeeds : Fired → Actions → Actions
ack_succeeds (ack frame id) self = on_ack_success id self
ack_succeeds _ self = self

abbrev pub acks_succeed : List Fired → Actions → Actions
acks_succeed [] self = self
acks_succeed (event ∷ events) self = acks_succeed events (ack_succeeds event self)

abbrev pub succeeds : Actions → Actions
succeeds self = acks_succeed self.fired (record self { fired = [] })

-- The timer, and then the success of every Ack that it fired.
unfoldable pub ack_rounds : ℕ → Actions → Actions
ack_rounds zero self = self
ack_rounds (suc n) self = succeeds (retry_send_failures (record (ack_rounds n self) { fired = [] }))

pub retry_connected-acks :
    (stomp : StompComponent) (self : Actions)
    → AcksReady stomp self
    → (retry_connected self).stomp_ack_delivery_failures
      ≡ (retry_acks
          (acks_to_retry self.stomp_ack_delivery_failures)
          self).stomp_ack_delivery_failures
retry_connected-acks stomp self r =
    let self' = retry_acks (acks_to_retry self.stomp_ack_delivery_failures) self in
    (retry_sends-acks (sends_to_retry self'.resilient_ack_delivery_failures) self').0

-- No Ack among the events has the id of its message.
abbrev HasNoId : Fired → Type 0
HasNoId (ack frame id) = id ≡ none
HasNoId _ = Unit

abbrev NoIds : List Fired → Type 0
NoIds [] = Unit
NoIds (event ∷ events) = HasNoId event × NoIds events

retry_acks-NoIds :
    (l : MsgDict AckFailure) (self : Actions) → NoIds self.fired → NoIds (retry_acks l self).fired
unfolding retry_acks
retry_acks-NoIds [] self h = h
retry_acks-NoIds ((j, f) ∷ l) self h = retry_acks-NoIds l (retry_ack j f self) (refl, h)

retry_sends-NoIds :
    (l : MsgDict SendFailure) (self : Actions) → NoIds self.fired → NoIds (retry_sends l self).fired
unfolding retry_sends
retry_sends-NoIds [] self h = h
retry_sends-NoIds ((j, f) ∷ l) self h = retry_sends-NoIds l (retry_send j f self) (tt, h)

retry_connected-NoIds : (self : Actions) → NoIds self.fired → NoIds (retry_connected self).fired
retry_connected-NoIds self h =
    let self' = retry_acks (acks_to_retry self.stomp_ack_delivery_failures) self in
    retry_sends-NoIds (sends_to_retry self'.resilient_ack_delivery_failures) self'
      (retry_acks-NoIds (acks_to_retry self.stomp_ack_delivery_failures) self h)

retry_connected-AcksReady :
    (stomp : StompComponent) (self : Actions)
    → AcksReady stomp self
    → AcksReady stomp (retry_connected self)
retry_connected-AcksReady stomp self (e, up, u) =
    let acks = acks_to_retry self.stomp_ack_delivery_failures in
    let self' = retry_acks acks self in
    let (u', e') = retry_acks-UniqueIds acks self u in
    let (a, e'') = retry_sends-acks (sends_to_retry self'.resilient_ack_delivery_failures) self' in
    (e'' ∙ e' ∙ e, up, subst UniqueIds (sym a) u')

on_ack_success-AcksReady :
    (stomp : StompComponent) (id : MessageId) (self : Actions)
    → AcksReady stomp self
    → AcksReady stomp (on_ack_success id self)
unfolding on_ack_success
on_ack_success-AcksReady stomp id self (e, up, u) = (e, up, drop_id-UniqueIds id _ u)

on_ack_success-find :
    (id : String) (self : Actions)
    → find_id (some id) (on_ack_success none self).stomp_ack_delivery_failures
      ≡ find_id (some id) self.stomp_ack_delivery_failures
unfolding on_ack_success
on_ack_success-find id self = ground (
  arith,
  same_id_iff none (some id),
  find_id-drop_id none (some id) self.stomp_ack_delivery_failures,
)

-- The connection is as it was, and an acknowledgement with an id is held as it was.
abbrev IsHeldAlike : StompComponent → String → (before after : Actions) → Type 0
IsHeldAlike stomp id before after =
    AcksReady stomp after
    × (find_id (some id) after.stomp_ack_delivery_failures
        ≡ find_id (some id) before.stomp_ack_delivery_failures)

ack_succeeds-IsHeldAlike :
    (stomp : StompComponent) (id : String) (event : Fired) (self : Actions)
    → HasNoId event
    → AcksReady stomp self
    → IsHeldAlike stomp id self (ack_succeeds event self)
ack_succeeds-IsHeldAlike stomp id (ack frame i) self e r = (
  on_ack_success-AcksReady stomp i self r,
  ap (λ j. find_id (some id) (on_ack_success j self).stomp_ack_delivery_failures) e
      ∙ on_ack_success-find id self,
)
ack_succeeds-IsHeldAlike stomp id (send c b d i) self e r = (r, refl)
ack_succeeds-IsHeldAlike stomp id (dispatch f c) self e r = (r, refl)
ack_succeeds-IsHeldAlike stomp id (test_response b) self e r = (r, refl)
ack_succeeds-IsHeldAlike stomp id (test_result b) self e r = (r, refl)
ack_succeeds-IsHeldAlike stomp id (connect b) self e r = (r, refl)
ack_succeeds-IsHeldAlike stomp id (disconnect b c) self e r = (r, refl)
ack_succeeds-IsHeldAlike stomp id (reconnect b) self e r = (r, refl)
ack_succeeds-IsHeldAlike stomp id reconnect_later self e r = (r, refl)
ack_succeeds-IsHeldAlike stomp id (subscribe b) self e r = (r, refl)
ack_succeeds-IsHeldAlike stomp id (unsubscribe b) self e r = (r, refl)
ack_succeeds-IsHeldAlike stomp id subscribe_to_all self e r = (r, refl)

acks_succeed-IsHeldAlike :
    (stomp : StompComponent) (id : String) (events : List Fired) (self : Actions)
    → NoIds events
    → AcksReady stomp self
    → IsHeldAlike stomp id self (acks_succeed events self)
acks_succeed-IsHeldAlike stomp id [] self h r = (r, refl)
acks_succeed-IsHeldAlike stomp id (event ∷ events) self (e, h) r =
    let (ready, same) = ack_succeeds-IsHeldAlike stomp id event self e r in
    let (ready', same') =
      acks_succeed-IsHeldAlike stomp id events (ack_succeeds event self) h ready in
    (ready', same' ∙ same)

retry_connected-find :
    (id : String) (f : AckFailure) (stomp : StompComponent) (self : Actions)
    → AcksReady stomp self
    → find_id (some id) self.stomp_ack_delivery_failures ≡ some f
    → f.from_prev_conn ≡ false
    → find_id (some id) (retry_connected self).stomp_ack_delivery_failures ≡ some (counted_ack f)
retry_connected-find id f stomp self r e p = ground (
  arith,
  e,
  p,
  retry_connected-acks stomp self r,
  retry_acks-find (some id) (acks_to_retry self.stomp_ack_delivery_failures) self (
      without_prev-UniqueIds (λ failure. failure.from_prev_conn) self.stomp_ack_delivery_failures
        r.2),
  without_prev-find (λ failure. failure.from_prev_conn) (some id) self.stomp_ack_delivery_failures
      r.2,
)

-- One round, where `self` has no events.
ack_round-find :
    (id : String) (f : AckFailure) (stomp : StompComponent) (self : Actions)
    → AcksReady stomp self
    → NoIds self.fired
    → find_id (some id) self.stomp_ack_delivery_failures ≡ some f
    → f.from_prev_conn ≡ false
    → AcksReady stomp (succeeds (retry_send_failures self))
      × (find_id (some id) (succeeds (retry_send_failures self)).stomp_ack_delivery_failures
          ≡ some (counted_ack f))
ack_round-find id f stomp self r none_there e p =
    let (ready, held) =
      acks_succeed-IsHeldAlike stomp id (retry_connected self).fired
        (record (retry_connected self) { fired = [] }) (retry_connected-NoIds self none_there)
        (retry_connected-AcksReady stomp self r) in
    rw (retry_send_failures-connected self stomp r.0 r.1)
      (ready, held ∙ retry_connected-find id f stomp self r e p)

ack_rounds-AcksReady :
    (id : String) (f : AckFailure) (stomp : StompComponent) (n : ℕ) (self : Actions)
    → AcksReady stomp self
    → find_id (some id) self.stomp_ack_delivery_failures ≡ some f
    → f.from_prev_conn ≡ false
    → AcksReady stomp (ack_rounds n self)
      × (find_id (some id) (ack_rounds n self).stomp_ack_delivery_failures
          ≡ some (record f { retry_count = n + f.retry_count }))
unfolding ack_rounds
ack_rounds-AcksReady id f stomp zero self r e p = (r, ground arith)
ack_rounds-AcksReady id f stomp (suc n) self r e p =
    let g : AckFailure = record f { retry_count = n + f.retry_count } in
    let (ready, found) = ack_rounds-AcksReady id f stomp n self r e p in
    let (ready', held) =
      ack_round-find id g stomp (record (ack_rounds n self) { fired = [] }) ready tt found p in
    let k : suc (n + f.retry_count) ≡ suc n + f.retry_count = omega arith in
    (ready', held ∙ ap (λ c. some (record f { retry_count = c })) k)

-- While the connection is up, an acknowledgement that once failed is tried again in every round of the
-- timer, one more try in each, even where every Ack that the timer fires succeeds: it is never removed,
-- since the Ack is fired without the id of the message.
pub ack_rounds-find :
    (id : String) (f : AckFailure) (stomp : StompComponent) (n : ℕ) (self : Actions)
    → AcksReady stomp self
    → find_id (some id) self.stomp_ack_delivery_failures ≡ some f
    → f.from_prev_conn ≡ false
    → find_id (some id) (ack_rounds n self).stomp_ack_delivery_failures
      ≡ some (record f { retry_count = n + f.retry_count })
ack_rounds-find id f stomp n self r e p = (ack_rounds-AcksReady id f stomp n self r e p).1

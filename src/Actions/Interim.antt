-- ===== src/Actions/Interim.antt =====
-- What the timer does about an interim status that could not be sent.
use resilient_python_api.Prelude.{
  true, false, some, if◌then◌else◌, [], ◌∷◌, ◌≡◌, refl, arith, subst, sym,
}
use resilient_python_api.Actions.Ids.{
  MessageId, MsgDict, same_id_iff, find_id, has_id, has_id-find_id, has_id-drop_id, UniqueIds,
  without_prev-find, without_prev-UniqueIds,
}
use resilient_python_api.Actions.{AckFailure, SendFailure, Actions, StompComponent}
use resilient_python_api.Actions.Retries.{
  on_send_success, retry_send_failures, retry_connected, retry_acks, retry_sends, retry_ack,
  retry_send, acks_to_retry, sends_to_retry,
}
use resilient_python_api.Actions.Delivery.{unseen, phase}
use resilient_python_api.Actions.GivingUp.{retry_send_failures-connected, retry_acks-kept}
use resilient_python_api.Actions.Reacknowledging.{AcksReady, retry_acks-find, retry_connected-acks}

retry_acks-progress :
    (b : MessageId) (l : MsgDict AckFailure) (self : Actions)
    → let after = retry_acks l self in
      (has_id b after.current_msgs_processing
        ≡ (if has_id b l then false else has_id b self.current_msgs_processing))
      × (after.all_acks ≡ self.all_acks)
unfolding retry_acks has_id
retry_acks-progress b [] self = (refl, refl)
retry_acks-progress b ((j, f) ∷ l) self = ground (
  arith,
  retry_acks-progress b l (retry_ack j f self),
  has_id-drop_id j b self.current_msgs_processing,
)

retry_sends-progress :
    (b : MessageId) (l : MsgDict SendFailure) (self : Actions)
    → let after = retry_sends l self in
      (has_id b after.current_msgs_processing
        ≡ (if has_id b l then false else has_id b self.current_msgs_processing))
      × (after.all_acks ≡ self.all_acks)
unfolding retry_sends has_id
retry_sends-progress b [] self = (refl, refl)
retry_sends-progress b ((j, f) ∷ l) self = ground (
  arith,
  retry_sends-progress b l (retry_send j f self),
  has_id-drop_id j b self.current_msgs_processing,
)

retry_connected-has_ack :
    (b : MessageId) (stomp : StompComponent) (self : Actions)
    → AcksReady stomp self
    → has_id b self.stomp_ack_delivery_failures ≡ false
    → has_id b (retry_connected self).stomp_ack_delivery_failures ≡ false
retry_connected-has_ack b stomp self r e =
    let acks = self.stomp_ack_delivery_failures in
    ground (
      arith,
      e,
      retry_connected-acks stomp self r,
      has_id-find_id b acks,
      has_id-find_id b (retry_connected self).stomp_ack_delivery_failures,
      retry_acks-find b (acks_to_retry acks) self
          (without_prev-UniqueIds (λ failure. failure.from_prev_conn) acks r.2),
      without_prev-find (λ failure. failure.from_prev_conn) b acks r.2,
    )

retry_connected-progress :
    (b : MessageId) (f : SendFailure) (self : Actions)
    → UniqueIds self.resilient_ack_delivery_failures
    → find_id b self.resilient_ack_delivery_failures ≡ some f
    → f.from_prev_conn ≡ false
    → (has_id b (retry_connected self).current_msgs_processing ≡ false)
      × ((retry_connected self).all_acks ≡ self.all_acks)
retry_connected-progress b f self u e p =
    let self' = retry_acks (acks_to_retry self.stomp_ack_delivery_failures) self in
    let d = (retry_acks-kept (acks_to_retry self.stomp_ack_delivery_failures) self).0 in
    let u' = subst UniqueIds (sym d) u in
    let sends = sends_to_retry self'.resilient_ack_delivery_failures in
    ground (
      arith,
      e,
      p,
      d,
      retry_acks-progress b (acks_to_retry self.stomp_ack_delivery_failures) self,
      retry_sends-progress b sends self',
      has_id-find_id b sends,
      without_prev-find (λ failure. failure.from_prev_conn) b self'.resilient_ack_delivery_failures
          u',
    )

-- The Send of an interim status failed while the message is handled. When the timer sends it again with
-- success, the message is unseen, though its handling goes on.
pub on_send_success-retried :
    (id : MessageId) (f : SendFailure) (stomp : StompComponent) (self : Actions)
    → self.stomp_component ≡ some stomp
    → stomp.connected ≡ true
    → UniqueIds self.resilient_ack_delivery_failures
    → UniqueIds self.stomp_ack_delivery_failures
    → find_id id self.resilient_ack_delivery_failures ≡ some f
    → f.from_prev_conn ≡ false
    → has_id id self.stomp_ack_delivery_failures ≡ false
    → has_id id self.all_acks ≡ false
    → phase id (on_send_success id (retry_send_failures self)) ≡ unseen
unfolding phase on_send_success
on_send_success-retried id f stomp self e up u u' h p a b =
    rw (retry_send_failures-connected self stomp e up) (
      ground (
        arith,
        a,
        b,
        same_id_iff id id,
        retry_connected-progress id f self u h p,
        retry_connected-has_ack id stomp self (e, up, u') a,
        has_id-drop_id id id (retry_connected self).resilient_ack_delivery_failures,
      ))

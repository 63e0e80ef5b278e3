-- ===== src/Actions/Retries.antt =====
-- What is done about acknowledgements and replies that could not be sent: the handlers of Ack_failure,
-- Ack_success, Send_failure and Send_success, the timer's `_retry_send_failures`, and
-- `on_stomp_connected`.
use resilient_python_api.Prelude.{
  ℕ, suc, Bool, true, false, Option, none, some, if◌then◌else◌, [], ◌∷◌, String, not, ◌&&◌, eqb,
  ltb,
}
use resilient_python_api.Value.{Value}
use resilient_python_api.Actions.Ids.{MessageId, MsgDict, find_id, put_id, drop_id, without_prev}
use resilient_python_api.Actions.{
  Frame, ack, send, AckFailure, SendFailure, Actions, StompComponent, fire,
}

-- self.max_retry_count != 0 and retry_count > self.max_retry_count
abbrev pub gives_up : Actions → ℕ → Bool
gives_up self retry_count = not (eqb self.max_retry_count 0) && ltb self.max_retry_count retry_count

abbrev pub record_ack_failure : Frame → MessageId → Option AckFailure → Actions → Actions
record_ack_failure frame id none self = record self {
  stomp_ack_delivery_failures =
      put_id id (record { retry_count = 1; from_prev_conn = false; message_frame = frame })
        self.stomp_ack_delivery_failures;
}
record_ack_failure frame id (some failure) self =
    if gives_up self failure.retry_count
    then record self { stomp_ack_delivery_failures = drop_id id self.stomp_ack_delivery_failures }
    else record self {
      stomp_ack_delivery_failures =
          put_id id (record failure { message_frame = frame }) self.stomp_ack_delivery_failures;
    }

-- _on_ack_failure, for the event Ack(frame, message_id)
unfoldable pub on_ack_failure : Frame → MessageId → Actions → Actions
on_ack_failure frame message_id self =
    record_ack_failure frame message_id (find_id message_id self.stomp_ack_delivery_failures) self

-- _on_ack_success
unfoldable pub on_ack_success : MessageId → Actions → Actions
on_ack_success message_id self = record self {
  stomp_ack_delivery_failures = drop_id message_id self.stomp_ack_delivery_failures;
}

-- _on_send_success
unfoldable pub on_send_success : MessageId → Actions → Actions
on_send_success message_id self = record self {
  resilient_ack_delivery_failures = drop_id message_id self.resilient_ack_delivery_failures;
}

abbrev pub record_send_failure :
    String → Value → String → MessageId → Option SendFailure → Actions → Actions
record_send_failure correlation_id body destination id none self = record self {
  resilient_ack_delivery_failures =
      put_id id
        (record {
          retry_count = 1;
          from_prev_conn = false;
          correlation_id = correlation_id;
          body = body;
          destination = destination;
        })
        self.resilient_ack_delivery_failures;
}
record_send_failure correlation_id body destination id (some failure) self =
    if gives_up self failure.retry_count
    then record self {
      resilient_ack_delivery_failures = drop_id id self.resilient_ack_delivery_failures;
    }
    else record self {
      resilient_ack_delivery_failures =
          put_id id
            (record failure {
              correlation_id = correlation_id;
              body = body;
              destination = destination;
            })
            self.resilient_ack_delivery_failures;
    }

-- _on_send_failure, for the event Send(headers, body, destination, message_id)
unfoldable pub on_send_failure : String → Value → String → MessageId → Actions → Actions
on_send_failure correlation_id body destination message_id self =
    record_send_failure correlation_id body destination message_id
      (find_id message_id self.resilient_ack_delivery_failures) self

abbrev pub acks_to_retry : MsgDict AckFailure → MsgDict AckFailure
acks_to_retry d = without_prev (λ failure. failure.from_prev_conn) d

abbrev pub sends_to_retry : MsgDict SendFailure → MsgDict SendFailure
sends_to_retry d = without_prev (λ failure. failure.from_prev_conn) d

-- The body of the first loop: the Ack is fired without the id of the message.
abbrev pub retry_ack : MessageId → AckFailure → Actions → Actions
retry_ack id failure self = fire (ack failure.message_frame none) (record self {
  stomp_ack_delivery_failures =
      put_id id (record failure { retry_count = suc failure.retry_count })
        self.stomp_ack_delivery_failures;
  current_msgs_processing = drop_id id self.current_msgs_processing;
})

unfoldable pub retry_acks : MsgDict AckFailure → Actions → Actions
retry_acks [] self = self
retry_acks ((id, failure) ∷ to_retry) self = retry_acks to_retry (retry_ack id failure self)

-- The body of the second loop.
abbrev pub retry_send : MessageId → SendFailure → Actions → Actions
retry_send id failure self =
    fire (send failure.correlation_id failure.body failure.destination id) (record self {
      resilient_ack_delivery_failures =
          put_id id (record failure { retry_count = suc failure.retry_count })
            self.resilient_ack_delivery_failures;
      current_msgs_processing = drop_id id self.current_msgs_processing;
    })

unfoldable pub retry_sends : MsgDict SendFailure → Actions → Actions
retry_sends [] self = self
retry_sends ((id, failure) ∷ to_retry) self = retry_sends to_retry (retry_send id failure self)

abbrev pub retry_connected : Actions → Actions
retry_connected self =
    let self' = retry_acks (acks_to_retry self.stomp_ack_delivery_failures) self in
    retry_sends (sends_to_retry self'.resilient_ack_delivery_failures) self'

abbrev pub retry_with : Option StompComponent → Actions → Actions
retry_with none self = self
retry_with (some stomp) self = if stomp.connected then retry_connected self else self

-- _retry_send_failures
unfoldable pub retry_send_failures : Actions → Actions
unfolding retry_acks retry_sends
retry_send_failures self = retry_with self.stomp_component self

-- for key in d: d[key]["from_prev_conn"] = True
abbrev pub acks_of_prev : MsgDict AckFailure → MsgDict AckFailure
acks_of_prev [] = []
acks_of_prev ((id, failure) ∷ d) = (id, record failure { from_prev_conn = true }) ∷ acks_of_prev d

abbrev pub sends_of_prev : MsgDict SendFailure → MsgDict SendFailure
sends_of_prev [] = []
sends_of_prev ((id, failure) ∷ d) = (id, record failure { from_prev_conn = true }) ∷ sends_of_prev d

unfoldable pub on_stomp_connected : Actions → Actions
on_stomp_connected self = record self {
  heartbeat_timeouts = [];
  stomp_ack_delivery_failures = acks_of_prev self.stomp_ack_delivery_failures;
  resilient_ack_delivery_failures = sends_of_prev self.resilient_ack_delivery_failures;
}

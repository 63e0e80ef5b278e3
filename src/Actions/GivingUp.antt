-- ===== src/Actions/GivingUp.antt =====
-- How often a reply and an acknowledgement that could not be sent are tried again.
use resilient_python_api.Prelude.{
  ℕ, zero, suc, ◌≤◌, true, false, Option, none, some, if◌then◌else◌, [], ◌∷◌, String, ◌≡◌, refl,
  ◌≢◌, arith, ◌∙◌, sym, subst, ltb,
}
use resilient_python_api.Value.{Value}
use resilient_python_api.Actions.Ids.{
  MessageId, MsgDict, same_id_iff, find_id, find_id-put_id, find_id-drop_id, UniqueIds,
  put_id-UniqueIds, drop_id-UniqueIds, without_prev-find, without_prev-UniqueIds,
}
use resilient_python_api.Actions.{AckFailure, SendFailure, Actions, StompComponent}
use resilient_python_api.Actions.Retries.{
  gives_up, on_send_failure, record_send_failure, acks_to_retry, sends_to_retry, retry_ack,
  retry_acks, retry_send, retry_sends, retry_connected, retry_send_failures,
}

abbrev pub counted : SendFailure → SendFailure
counted f = record f { retry_count = suc f.retry_count }

retry_sends-find :
    (id : MessageId) (l : MsgDict SendFailure) (self : Actions)
    → UniqueIds l
    → find_id id (retry_sends l self).resilient_ack_delivery_failures ≡ elim (find_id id l) [
      | none ↦ find_id id self.resilient_ack_delivery_failures
      | some f ↦ some (counted f)
    ]
unfolding retry_sends find_id
retry_sends-find id [] self u = refl
retry_sends-find id ((j, f) ∷ l) self u = ground (
  arith,
  retry_sends-find id l (retry_send j f self) u.1,
  same_id_iff j id,
  find_id-put_id j id (counted f) self.resilient_ack_delivery_failures,
)

-- What the two loops leave as it is.
pub retry_acks-kept :
    (l : MsgDict AckFailure) (self : Actions)
    → let after = retry_acks l self in
      (after.resilient_ack_delivery_failures ≡ self.resilient_ack_delivery_failures)
      × (after.stomp_component ≡ self.stomp_component)
      × (after.max_retry_count ≡ self.max_retry_count)
unfolding retry_acks
retry_acks-kept [] self = (refl, refl, refl)
retry_acks-kept ((j, f) ∷ l) self = retry_acks-kept l (retry_ack j f self)

retry_sends-kept :
    (l : MsgDict SendFailure) (self : Actions)
    → UniqueIds self.resilient_ack_delivery_failures
    → let after = retry_sends l self in
      UniqueIds after.resilient_ack_delivery_failures
      × (after.stomp_component ≡ self.stomp_component)
      × (after.max_retry_count ≡ self.max_retry_count)
unfolding retry_sends
retry_sends-kept [] self u = (u, refl, refl)
retry_sends-kept ((j, f) ∷ l) self u =
    retry_sends-kept l (retry_send j f self)
      (put_id-UniqueIds j (counted f) self.resilient_ack_delivery_failures u)

-- The connection is up, and no id is held twice.
abbrev pub Ready : StompComponent → ℕ → Actions → Type 0
Ready stomp max self =
    (self.stomp_component ≡ some stomp)
    × (stomp.connected ≡ true)
    × (self.max_retry_count ≡ max)
    × UniqueIds self.resilient_ack_delivery_failures

pub retry_send_failures-connected :
    (self : Actions) (stomp : StompComponent)
    → self.stomp_component ≡ some stomp
    → stomp.connected ≡ true
    → retry_send_failures self ≡ retry_connected self
unfolding retry_send_failures
retry_send_failures-connected self stomp e up = ground arith

pub retry_connected-Ready :
    {stomp : StompComponent} {max : ℕ} (self : Actions)
    → Ready stomp max self
    → Ready stomp max (retry_connected self)
retry_connected-Ready self (e, up, m, u) =
    let acks = acks_to_retry self.stomp_ack_delivery_failures in
    let self' = retry_acks acks self in
    let (d, e', m') = retry_acks-kept acks self in
    let (u', e'', m'') =
      retry_sends-kept (sends_to_retry self'.resilient_ack_delivery_failures) self'
        (subst UniqueIds (sym d) u) in
    (e'' ∙ e' ∙ e, up, m'' ∙ m' ∙ m, u')

-- What the timer does to what is held for an id.
abbrev pub retried : Option SendFailure → Option SendFailure
retried none = none
retried (some f) = if f.from_prev_conn then some f else some (counted f)

pub retry_connected-find :
    (id : MessageId) (self : Actions)
    → UniqueIds self.resilient_ack_delivery_failures
    → find_id id (retry_connected self).resilient_ack_delivery_failures
      ≡ retried (find_id id self.resilient_ack_delivery_failures)
retry_connected-find id self u =
    let acks = acks_to_retry self.stomp_ack_delivery_failures in
    let self' = retry_acks acks self in
    let (d, _, _) = retry_acks-kept acks self in
    let u' = subst UniqueIds (sym d) u in
    let sends = sends_to_retry self'.resilient_ack_delivery_failures in
    ground (
      arith,
      d,
      retry_sends-find id sends self'
          (without_prev-UniqueIds _ self'.resilient_ack_delivery_failures u'),
      without_prev-find (λ failure. failure.from_prev_conn) id self'.resilient_ack_delivery_failures
          u',
    )

-- The Send of a reply fails again and again: the timer tries it, and Send_failure is fired for it.
module _ (correlation_id : String) (body : Value) (destination : String) (id : MessageId) where
  abbrev pub pending : ℕ → SendFailure
  pending n = record {
    retry_count = n;
    from_prev_conn = false;
    correlation_id = correlation_id;
    body = body;
    destination = destination;
  }

  unfoldable pub send_rounds : ℕ → Actions → Actions
  send_rounds zero self = self
  send_rounds (suc n) self =
      on_send_failure correlation_id body destination id (retry_send_failures (send_rounds n self))

  record_send_failure-Ready :
      {stomp : StompComponent} {max : ℕ} (held : Option SendFailure) (self : Actions)
      → Ready stomp max self
      → Ready stomp max (record_send_failure correlation_id body destination id held self)
  record_send_failure-Ready none self (e, up, m, u) =
      (e, up, m, put_id-UniqueIds id (pending 1) self.resilient_ack_delivery_failures u)
  record_send_failure-Ready (some f) self (e, up, m, u) = ground (
    arith,
    e,
    up,
    m,
    drop_id-UniqueIds id self.resilient_ack_delivery_failures u,
    put_id-UniqueIds id
        (record f { correlation_id = correlation_id; body = body; destination = destination })
        self.resilient_ack_delivery_failures u,
  )

  on_send_failure-Ready :
      {stomp : StompComponent} {max : ℕ} (self : Actions)
      → Ready stomp max self
      → Ready stomp max (on_send_failure correlation_id body destination id self)
  unfolding on_send_failure
  on_send_failure-Ready self =
      record_send_failure-Ready (find_id id self.resilient_ack_delivery_failures) self

  send_rounds-Ready :
      {stomp : StompComponent} {max : ℕ} (n : ℕ) (self : Actions)
      → Ready stomp max self
      → Ready stomp max (send_rounds n self)
  unfolding send_rounds
  send_rounds-Ready zero self r = r
  send_rounds-Ready {stomp} (suc n) self r =
      let before = send_rounds n self in
      let ready = send_rounds-Ready n self r in
      on_send_failure-Ready (retry_send_failures before) (
        subst (Ready stomp _) (sym (retry_send_failures-connected before stomp ready.0 ready.1))
          (retry_connected-Ready before ready))

  -- One round, where the reply was tried `n` times.
  on_send_failure-find :
      (n : ℕ) (self : Actions)
      → find_id id self.resilient_ack_delivery_failures ≡ some (pending n)
      → find_id id
          (on_send_failure correlation_id body destination id self).resilient_ack_delivery_failures
        ≡ (if gives_up self n then none else some (pending n))
  unfolding on_send_failure
  on_send_failure-find n self e = ground (
    arith,
    same_id_iff id id,
    find_id-drop_id id id self.resilient_ack_delivery_failures,
    find_id-put_id id id (pending n) self.resilient_ack_delivery_failures,
  )

  send_rounds-find :
      {stomp : StompComponent} {max : ℕ} (n : ℕ) (self : Actions)
      → Ready stomp max self
      → find_id id self.resilient_ack_delivery_failures ≡ some (pending 1)
      → max ≢ 0
      → n ≤ max
      → find_id id (send_rounds n self).resilient_ack_delivery_failures
        ≡ (if ltb n max then some (pending (suc n)) else none)
  unfolding send_rounds
  send_rounds-find {stomp} {max} zero self r e ne le = ground (arith)
  send_rounds-find {stomp} {max} (suc n) self r e ne le =
      let before = send_rounds n self in
      let held = send_rounds-find n self r e ne (omega arith) in
      let ready = send_rounds-Ready n self r in
      let c = retry_send_failures-connected before stomp ready.0 ready.1 in
      let m = (retry_connected-Ready before ready).2 in
      let f = retry_connected-find id before ready.3 in
      let f' =
        on_send_failure-find (suc (suc n)) (retry_connected before) (ground (arith, held, f)) in
      ground (arith, c, f', m)

-- The first failure of a reply is recorded. Then, while the connection is up and the Send fails
-- whenever the timer tries it, the reply is held after n rounds with n + 1 tries if n is less than
-- the maximum, and it is given up in the round whose number is the maximum.
pub send_gives_up :
    (correlation_id : String) (body : Value) (destination : String) (id : MessageId)
    (stomp : StompComponent) (n : ℕ) (self : Actions)
    → Ready stomp self.max_retry_count self
    → find_id id self.resilient_ack_delivery_failures ≡ none
    → self.max_retry_count ≢ 0
    → n ≤ self.max_retry_count
    → find_id id
        (send_rounds correlation_id body destination id n
          (on_send_failure correlation_id body destination id self)).resilient_ack_delivery_failures
      ≡ (if ltb n self.max_retry_count
          then some (pending correlation_id body destination id (suc n))
          else none)
unfolding on_send_failure
send_gives_up correlation_id body destination id stomp n self r e ne le =
    send_rounds-find correlation_id body destination id n
      (on_send_failure correlation_id body destination id self)
      (on_send_failure-Ready correlation_id body destination id self r)
      (ground (
        arith,
        same_id_iff id id,
        find_id-put_id id id (pending correlation_id body destination id 1)
            self.resilient_ack_delivery_failures,
      ))
      ne le

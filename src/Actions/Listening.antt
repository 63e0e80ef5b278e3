-- ===== src/Actions/Listening.antt =====
-- The components that listen to a queue, when a component is registered and when it leaves.
use resilient_python_api.Prelude.{
  String, Bool, true, false, Option, none, some, List, [], ◌∷◌, Assoc, lookup, ◌≡◌, refl, sym, ap,
  subst, inl, inr, Bool-cases, ◌∙◌, arith, ◌==◌, eq_iff, lookup-insert,
}
use resilient_python_api.Outcome.{Result, ok, err}
use resilient_python_api.Actions.{Actions}
use resilient_python_api.Actions.Queues.{
  Component, prepare_unregister, leave_channels, leave_channel, stop_listening, unsubscribe_queue,
  without_component, is_in_set, partition_dot, listen_all, registered, queue_name_of, listen,
  with_listener,
}

stop_listening-fired :
    (component queue_name : String) (comps : Option (List String)) (self : Actions)
    → (stop_listening component queue_name comps self).fired ≡ self.fired
unfolding unsubscribe_queue
stop_listening-fired component queue_name none self = refl
stop_listening-fired component queue_name (some comps) self = ground (
  arith,
  eq_iff queue_name queue_name,
  lookup-insert queue_name queue_name (without_component component comps) self.listeners,
)

leave_channels-fired :
    (component : String) (channels : List String) (self : Actions)
    → (leave_channels component channels self).fired ≡ self.fired
leave_channels-fired component [] self = refl
leave_channels-fired component (channel ∷ channels) self =
    let queue_name = partition_dot channel in
    ground (
      arith,
      leave_channels-fired component channels (leave_channel component channel self),
      stop_listening-fired component queue_name (lookup queue_name self.listeners) self,
    )

-- When a component other than Actions leaves, nothing is fired: not even an Unsubscribe for a queue
-- to which no component listens any more.
pub prepare_unregister-fired :
    (component : String) (channels : List String) (self : Actions)
    → (prepare_unregister false component channels self).fired ≡ self.fired
unfolding prepare_unregister
prepare_unregister-fired = leave_channels-fired

-- The component listens to the queue.
abbrev pub listens : String → String → Assoc (List String) → Bool
listens component queue_name listeners = elim (lookup queue_name listeners) [
  | none ↦ false
  | some comps ↦ is_in_set component comps
]

listens-listen :
    (component other queue_name : String) (queue : Option String) (listeners : Assoc (List String))
    → listens component queue_name listeners ≡ true
    → listens component queue_name (listen other queue listeners) ≡ true
listens-listen component other queue_name none listeners h = h
listens-listen component other queue_name (some q') listeners h = ground (
  arith,
  h,
  eq_iff q' queue_name,
  eq_iff other component,
  lookup-insert q' queue_name (with_listener other (lookup q' listeners)) listeners,
)

listen-listens :
    (component queue_name : String) (listeners : Assoc (List String))
    → listens component queue_name (listen component (some queue_name) listeners) ≡ true
listen-listens component queue_name listeners = ground (
  arith,
  eq_iff queue_name queue_name,
  eq_iff component component,
  lookup-insert queue_name queue_name (with_listener component (lookup queue_name listeners))
      listeners,
)

-- What the loop goes on with, after a channel.
abbrev next_channel :
    (test_mode : Bool)
    → Component
    → List String
    → Actions
    → Result (Option String)
    → Result (Unit {0}) × Actions
next_channel test_mode component channels self (err e) = (err e, self)
next_channel test_mode component channels self (ok queue) =
    listen_all test_mode component channels
      (record self { listeners = listen component.name queue self.listeners })

listen_all-next_channel :
    (test_mode : Bool) (component : Component) (channel : String) (channels : List String)
    (self : Actions)
    → listen_all test_mode component (channel ∷ channels) self
      ≡ next_channel test_mode component channels self
          (queue_name_of self.org_id test_mode component channel)
unfolding listen_all
listen_all-next_channel test_mode component channel channels self = ground arith

next_channel-listens :
    (test_mode : Bool) (component : Component) (other queue_name : String) (channels : List String)
    (self : Actions) (r : Result (Option String))
    → listens other queue_name self.listeners ≡ true
    → ((queue : Option String)
        → listens other queue_name
            (listen_all test_mode component channels
              (record self { listeners = listen component.name queue self.listeners })).1.listeners
          ≡ true)
    → listens other queue_name (next_channel test_mode component channels self r).1.listeners ≡ true
next_channel-listens test_mode component other queue_name channels self (err e) h next = h
next_channel-listens test_mode component other queue_name channels self (ok queue) h next =
    next queue

listen_all-listens :
    (test_mode : Bool) (component : Component) (other queue_name : String) (channels : List String)
    (self : Actions)
    → listens other queue_name self.listeners ≡ true
    → listens other queue_name (listen_all test_mode component channels self).1.listeners ≡ true
unfolding listen_all
listen_all-listens test_mode component other queue_name [] self h = h
listen_all-listens test_mode component other queue_name (channel ∷ channels) self h =
    rw (listen_all-next_channel test_mode component channel channels self) (
      next_channel-listens test_mode component other queue_name channels self
        (queue_name_of self.org_id test_mode component channel) h
        (λ queue.
          listen_all-listens test_mode component other queue_name channels
            (record self { listeners = listen component.name queue self.listeners })
            (listens-listen other component.name queue_name queue self.listeners h)))

-- What is known of a channel that was handled before the loop ended.
abbrev pub Heard : Component → Result (Option String) → Actions → Type 0
Heard component (err e) self = Unit {0}
Heard component (ok none) self = Unit {0}
Heard component (ok (some queue_name)) self =
    listens component.name queue_name self.listeners ≡ true

-- A channel that is handled now, and one that is handled later.
next_channel-now :
    (test_mode : Bool) (component : Component) (channels : List String) (self : Actions)
    (r : Result (Option String))
    → Heard component r (next_channel test_mode component channels self r).1
next_channel-now test_mode component channels self (err e) = tt
next_channel-now test_mode component channels self (ok none) = tt
next_channel-now test_mode component channels self (ok (some queue_name)) =
    listen_all-listens test_mode component component.name queue_name channels
      (record self { listeners = listen component.name (some queue_name) self.listeners })
      (listen-listens component.name queue_name self.listeners)

next_channel-later :
    (test_mode : Bool) (component : Component) (channel : String) (channels : List String)
    (self : Actions) (r : Result (Option String))
    → (next_channel test_mode component channels self r).0 ≡ ok tt
    → ((queue : Option String)
        → let after =
            listen_all test_mode component channels
              (record self { listeners = listen component.name queue self.listeners }) in
          after.0 ≡ ok tt
          → Heard component (queue_name_of self.org_id test_mode component channel) after.1)
    → Heard component
        (queue_name_of self.org_id test_mode component channel)
        (next_channel test_mode component channels self r).1
next_channel-later test_mode component channel channels self (err e) o next = ground arith
next_channel-later test_mode component channel channels self (ok queue) o next = next queue o

listen_all-Heard :
    (test_mode : Bool) (component : Component) (channel : String) (channels : List String)
    (self : Actions)
    → (listen_all test_mode component channels self).0 ≡ ok tt
    → is_in_set channel channels ≡ true
    → Heard component
        (queue_name_of self.org_id test_mode component channel)
        (listen_all test_mode component channels self).1
listen_all-Heard test_mode component channel [] self o m = ground arith
listen_all-Heard test_mode component channel (other ∷ channels) self o m =
    let e = listen_all-next_channel test_mode component other channels self in
    let r = queue_name_of self.org_id test_mode component other in
    rw e (elim (Bool-cases (other == channel)) [
      | inl same ↦
          subst
            (λ c.
              Heard component (queue_name_of self.org_id test_mode component c)
                (next_channel test_mode component channels self r).1)
            ((eq_iff other channel).0 same) (next_channel-now test_mode component channels self r)
      | inr different ↦
          next_channel-later test_mode component channel channels self r (ap (λ x. x.0) (sym e) ∙ o)
            (λ queue o'.
              listen_all-Heard test_mode component channel channels
                (record self { listeners = listen component.name queue self.listeners }) o'
                (ground (arith, m, different)))
    ])

-- Where no channel raises, the component listens then to the queue of each of its channels.
pub registered-listens :
    (test_mode : Bool) (component : Component) (channel : String) (channels : List String)
    (self : Actions)
    → (registered test_mode component channels self).0 ≡ ok tt
    → is_in_set channel channels ≡ true
    → Heard component
        (queue_name_of self.org_id test_mode component channel)
        (registered test_mode component channels self).1
unfolding registered
registered-listens = listen_all-Heard

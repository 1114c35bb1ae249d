-- ===== src/Muflone/Subscriptions.antt =====
-- internal/muflone/servicebus.go and deadletters.go: who is subscribed to what, and how the subscriptions
-- become consumers. The router of watermill, which runs them, is outside; tracing is left out.
use cj_beer_company.Prelude.{String, Option, none, some, List, [], ◌∷◌, ◌++◌, str_eq, if◌then◌else◌}
use cj_beer_company.Outcome.{Result, Exec, World, pure, lift, on_store, on_bus, ◌>>=◌, ◌>>◌}
use cj_beer_company.Dict.{Dict, lookup}
use cj_beer_company.Muflone.Registry.{Payload}
use cj_beer_company.Muflone.ServiceBus.{
  command_topic_prefix, domain_event_topic_prefix, integration_event_topic_prefix,
}
use Prim.Native.String.{◌++◌ as ◌<>◌}

abbrev pub dead_letter_topic : String
dead_letter_topic = "brewup.dead_letter"

-- message.Message
pub record Message : Type 0 where
  pub payload : Payload
  pub metadata : Dict String

-- W is what the handlers work on.
pub record PendingSubscription (W : Type 0) : Type 0 where
  pub name : String
  pub topic : String
  pub handler : Message → Exec W Unit

-- Metadata.Get
abbrev get_metadata : Option String → String
get_metadata none = ""
get_metadata (some value) = value

module _ {W : Type 0} where
  unfoldable pub subscribe :
      String
      → String
      → (Message → Exec W Unit)
      → List (PendingSubscription W)
      → List (PendingSubscription W)
  subscribe name topic handler pending =
      pending ++ record { name = name; topic = topic; handler = handler } ∷ []

  -- The monitor of dead letters, which only logs, is the first subscription of a bus.
  unfoldable pub new_service_bus : List (PendingSubscription W)
  unfolding subscribe
  new_service_bus = subscribe "muflone.dead_letter_monitor" dead_letter_topic (λ msg. pure tt) []

  -- json.Unmarshal of the payload, then the handler.
  unfoldable pub decoding :
      {M : Type 0} → (Payload → Result M) → (M → Exec W Unit) → Message → Exec W Unit
  decoding unmarshal handle msg = do m ← lift (unmarshal msg.payload); handle m

  module _ {M : Type 0} (message_name : String) (unmarshal : Payload → Result M)
      (handle : M → Exec W Unit) where
    unfoldable pub register_command_handler :
        List (PendingSubscription W) → List (PendingSubscription W)
    unfolding subscribe decoding
    register_command_handler =
        subscribe ("handler." <> message_name) (command_topic_prefix <> message_name)
          (decoding unmarshal handle)

    unfoldable pub register_domain_event_handler :
        String → List (PendingSubscription W) → List (PendingSubscription W)
    unfolding subscribe decoding
    register_domain_event_handler name =
        subscribe name (domain_event_topic_prefix <> message_name) (decoding unmarshal handle)

  unfoldable pub subscribe_integration_event :
      String
      → String
      → (Payload → Exec W Unit)
      → List (PendingSubscription W)
      → List (PendingSubscription W)
  unfolding subscribe
  subscribe_integration_event name message_name handler =
      subscribe name (integration_event_topic_prefix <> message_name) (λ msg. handler msg.payload)

  -- The keys are those of the poison middleware of watermill.
  unfoldable pub on_dead_letter :
      String
      → (String → Payload → String → Exec W Unit)
      → List (PendingSubscription W)
      → List (PendingSubscription W)
  unfolding subscribe lookup
  on_dead_letter name handler = subscribe name dead_letter_topic (λ msg.
      handler (get_metadata (lookup "topic_poisoned" msg.metadata)) msg.payload
        (get_metadata (lookup "reason_poisoned" msg.metadata)))

  -- The router hands a message of a topic to each of its consumers, whatever the others return.
  unfoldable pub consumers_of : String → List (PendingSubscription W) → List (Message → Exec W Unit)
  consumers_of topic [] = []
  consumers_of topic (p ∷ ps) =
      let rest = consumers_of topic ps in if str_eq p.topic topic then p.handler ∷ rest else rest

  unfoldable pub hand_to : Message → List (Message → Exec W Unit) → W → List (Result (Unit {0})) × W
  hand_to msg [] w = ([], w)
  hand_to msg (handler ∷ handlers) w =
      let (r, w₁) = handler msg w in let (rs, w₂) = hand_to msg handlers w₁ in (r ∷ rs, w₂)

  unfoldable pub deliver :
      String → Message → List (PendingSubscription W) → W → List (Result (Unit {0})) × W
  unfolding consumers_of hand_to
  deliver topic msg pending w = hand_to msg (consumers_of topic pending) w

  -- SubscriberFor of the transport and AddConsumerHandler of the router are arguments; the state of the
  -- transport is the store, that of the router the bus. `done` is the result that attach.Do has kept.
  module _ {T R Subscriber : Type 0} (subscriber_for : String → Exec T Subscriber)
      (add_consumer_handler : PendingSubscription W → Subscriber → Exec R Unit) where
    -- the loop of attachHandlers
    attach_all : List (PendingSubscription W) → Exec (World T R) Unit
    attach_all [] = pure tt
    attach_all (pending ∷ rest) = do
      subscriber ← on_store (subscriber_for pending.name)
      on_bus (add_consumer_handler pending subscriber)
      attach_all rest

    unfoldable pub attach_handlers :
        Option (Result (Unit {0})) → List (PendingSubscription W) → Exec (World T R) Unit
    unfolding attach_all
    attach_handlers none pending = attach_all pending
    attach_handlers (some attached) pending = lift attached

    -- Run, whose last step is the router's.
    unfoldable pub run :
        Exec R Unit
        → Option (Result (Unit {0}))
        → List (PendingSubscription W)
        → Exec (World T R) Unit
    unfolding attach_handlers
    run run_router done pending = attach_handlers done pending >> on_bus run_router

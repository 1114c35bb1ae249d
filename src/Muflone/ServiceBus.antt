-- ===== src/Muflone/ServiceBus.antt =====
-- internal/muflone/servicebus.go: what is sent, and under which topics. The broker that takes the
-- messages, and encoding/json, are parameters.
use cj_beer_company.Prelude.{String}
use cj_beer_company.Outcome.{Result, Exec, lift, ◌>>=◌}
use cj_beer_company.Muflone.Registry.{Payload}
use Prim.Native.String.{◌++◌ as ◌<>◌}

-- `publisher` is the message.Publisher of the transport; B is what the transport keeps.
pub record ServiceBus (B : Type 0) : Type 0 where
  pub publisher : String → Payload → Exec B Unit

-- What the bus asks of a message: its MessageName, and json.Marshal on it.
pub record MessageType (M : Type 0) : Type 0 where
  pub message_name : M → String
  pub marshal : M → Result Payload

abbrev pub command_topic_prefix : String
command_topic_prefix = "commands."

abbrev pub domain_event_topic_prefix : String
domain_event_topic_prefix = "events."

abbrev pub integration_event_topic_prefix : String
integration_event_topic_prefix = "integrationevents."

module _ {B M : Type 0} (bus : ServiceBus B) (type : MessageType M) where
  unfoldable pub publish : String → M → Exec B Unit
  publish topic msg = do payload ← lift (type.marshal msg); bus.publisher topic payload

  unfoldable pub send : M → Exec B Unit
  unfolding publish
  send command = publish (command_topic_prefix <> type.message_name command) command

  unfoldable pub publish_domain_event : M → Exec B Unit
  unfolding publish
  publish_domain_event event = publish (domain_event_topic_prefix <> type.message_name event) event

  unfoldable pub publish_integration_event : M → Exec B Unit
  unfolding publish
  publish_integration_event event =
      publish (integration_event_topic_prefix <> type.message_name event) event

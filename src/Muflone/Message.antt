-- ===== src/Muflone/Message.antt =====
-- internal/muflone/message.go: the identity that commands and events carry.
use cj_beer_company.CustomTypes.{Uuid}

pub record CommandBase : Type 0 where
  pub aggregate_id : Uuid
  pub commit_id : Uuid

pub record DomainEventBase : Type 0 where
  pub aggregate_id : Uuid
  pub commit_id : Uuid

pub record IntegrationEventBase : Type 0 where
  pub commit_id : Uuid

abbrev pub new_command_base : Uuid → Uuid → CommandBase
new_command_base aggregate_id commit_id = record {
  aggregate_id = aggregate_id;
  commit_id = commit_id;
}

abbrev pub new_domain_event_base : Uuid → Uuid → DomainEventBase
new_domain_event_base aggregate_id commit_id = record {
  aggregate_id = aggregate_id;
  commit_id = commit_id;
}

abbrev pub new_integration_event_base : Uuid → IntegrationEventBase
new_integration_event_base commit_id = record { commit_id = commit_id }

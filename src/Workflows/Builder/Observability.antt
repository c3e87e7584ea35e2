-- ===== src/Workflows/Builder/Observability.antt =====
-- `ObservabilityBuilderExt` of testing-framework/workflows/src/builder/mod.rs: its two implementations,
-- for a scenario without capabilities and for one with observability settings.
pub mod Unset
pub mod Present
pub mod Agreement
use logos_blockchain_testing.Prelude.{Option, none, String, Result, map_err}
use logos_blockchain_testing.Workflows.Builder.{BuilderInputError, invalid_url}

-- `reqwest::Url`, and its parser, an error with its message
pub record Urls : Type 1 where
  pub Url : Type 0
  pub parse : String → Result Url String

pub record ObservabilityCapability (u : Urls) : Type 0 where
  pub metrics_query_url : Option u.Url
  pub metrics_otlp_ingest_url : Option u.Url
  pub grafana_url : Option u.Url

abbrev pub no_urls : (u : Urls) → ObservabilityCapability u
no_urls u = record { metrics_query_url = none; metrics_otlp_ingest_url = none; grafana_url = none }

-- `Url::parse(url).map_err(..)` with the name of the field
abbrev pub parse_field : (u : Urls) → String → String → Result u.Url BuilderInputError
parse_field u field url = map_err (λ message. invalid_url field url message) (u.parse url)

-- ===== src/Workflows/Builder/Observability/Unset.antt =====
-- The implementation for `ScenarioBuilder<()>` in testing-framework/workflows/src/builder/mod.rs.
use logos_blockchain_testing.Prelude.{none, some, String, Result, ok, err, ◌>>=◌}
use logos_blockchain_testing.Vendor.{Vendor}
use logos_blockchain_testing.Config.Ledger.{Ledger}
use logos_blockchain_testing.Scenario.Definition as Definitions
use logos_blockchain_testing.Scenario.Definition.{Components, Builder}
use logos_blockchain_testing.Workflows.Builder.{BuilderInputError}
use logos_blockchain_testing.Workflows.Builder.Observability.{
  Urls, ObservabilityCapability, parse_field,
}

module _ {v : Vendor} {l : Ledger v} (c : Components v l) (u : Urls) where
  unfoldable pub with_metrics_query_url :
      Builder c (Unit {0}) → u.Url → Builder c (ObservabilityCapability u)
  unfolding Definitions.with_capabilities
  with_metrics_query_url b url =
      Definitions.with_capabilities c b (record {
        metrics_query_url = some url;
        metrics_otlp_ingest_url = none;
        grafana_url = none;
      })

  unfoldable pub with_metrics_query_url_str :
      Builder c (Unit {0}) → String → Builder c (ObservabilityCapability u)
  unfolding with_metrics_query_url
  with_metrics_query_url_str b url = elim (u.parse url) [
    | ok parsed ↦ with_metrics_query_url b parsed
    | err message ↦
        Definitions.with_capabilities c b
          (record { metrics_query_url = none; metrics_otlp_ingest_url = none; grafana_url = none })
  ]

  unfoldable pub try_with_metrics_query_url_str :
      Builder c (Unit {0})
      → String
      → Result (Builder c (ObservabilityCapability u)) BuilderInputError
  unfolding with_metrics_query_url
  try_with_metrics_query_url_str b url = do
    parsed ← parse_field u "metrics_query_url" url
    ok (with_metrics_query_url b parsed)

  unfoldable pub with_metrics_otlp_ingest_url :
      Builder c (Unit {0}) → u.Url → Builder c (ObservabilityCapability u)
  unfolding Definitions.with_capabilities
  with_metrics_otlp_ingest_url b url =
      Definitions.with_capabilities c b (record {
        metrics_query_url = none;
        metrics_otlp_ingest_url = some url;
        grafana_url = none;
      })

  unfoldable pub with_metrics_otlp_ingest_url_str :
      Builder c (Unit {0}) → String → Builder c (ObservabilityCapability u)
  unfolding with_metrics_otlp_ingest_url
  with_metrics_otlp_ingest_url_str b url = elim (u.parse url) [
    | ok parsed ↦ with_metrics_otlp_ingest_url b parsed
    | err message ↦
        Definitions.with_capabilities c b
          (record { metrics_query_url = none; metrics_otlp_ingest_url = none; grafana_url = none })
  ]

  unfoldable pub try_with_metrics_otlp_ingest_url_str :
      Builder c (Unit {0})
      → String
      → Result (Builder c (ObservabilityCapability u)) BuilderInputError
  unfolding with_metrics_otlp_ingest_url
  try_with_metrics_otlp_ingest_url_str b url = do
    parsed ← parse_field u "metrics_otlp_ingest_url" url
    ok (with_metrics_otlp_ingest_url b parsed)

  unfoldable pub with_grafana_url :
      Builder c (Unit {0}) → u.Url → Builder c (ObservabilityCapability u)
  unfolding Definitions.with_capabilities
  with_grafana_url b url =
      Definitions.with_capabilities c b (record {
        metrics_query_url = none;
        metrics_otlp_ingest_url = none;
        grafana_url = some url;
      })

  unfoldable pub with_grafana_url_str :
      Builder c (Unit {0}) → String → Builder c (ObservabilityCapability u)
  unfolding with_grafana_url
  with_grafana_url_str b url = elim (u.parse url) [
    | ok parsed ↦ with_grafana_url b parsed
    | err message ↦
        Definitions.with_capabilities c b
          (record { metrics_query_url = none; metrics_otlp_ingest_url = none; grafana_url = none })
  ]

  unfoldable pub try_with_grafana_url_str :
      Builder c (Unit {0})
      → String
      → Result (Builder c (ObservabilityCapability u)) BuilderInputError
  unfolding with_grafana_url
  try_with_grafana_url_str b url = do
    parsed ← parse_field u "grafana_url" url
    ok (with_grafana_url b parsed)

-- ===== src/Workflows/Builder/Observability/Present.antt =====
-- The implementation for `ScenarioBuilder<ObservabilityCapability>` in
-- testing-framework/workflows/src/builder/mod.rs.
use logos_blockchain_testing.Prelude.{some, String, Result, ok, err, ◌>>=◌}
use logos_blockchain_testing.Vendor.{Vendor}
use logos_blockchain_testing.Config.Ledger.{Ledger}
use logos_blockchain_testing.Scenario.Definition.{Components, Builder}
use logos_blockchain_testing.Workflows.Builder.{BuilderInputError}
use logos_blockchain_testing.Workflows.Builder.Observability.{
  Urls, ObservabilityCapability, parse_field,
}

module _ {v : Vendor} {l : Ledger v} (c : Components v l) (u : Urls) where
  abbrev set_capabilities :
      Builder c (ObservabilityCapability u)
      → ObservabilityCapability u
      → Builder c (ObservabilityCapability u)
  set_capabilities b capabilities = record b { capabilities = capabilities }

  unfoldable pub with_metrics_query_url :
      Builder c (ObservabilityCapability u) → u.Url → Builder c (ObservabilityCapability u)
  with_metrics_query_url b url =
      set_capabilities b (record (b.capabilities) { metrics_query_url = some url })

  unfoldable pub with_metrics_query_url_str :
      Builder c (ObservabilityCapability u) → String → Builder c (ObservabilityCapability u)
  unfolding with_metrics_query_url
  with_metrics_query_url_str b url = elim (u.parse url) [
    | ok parsed ↦ with_metrics_query_url b parsed
    | err message ↦ b
  ]

  unfoldable pub try_with_metrics_query_url_str :
      Builder c (ObservabilityCapability u)
      → String
      → Result (Builder c (ObservabilityCapability u)) BuilderInputError
  unfolding with_metrics_query_url
  try_with_metrics_query_url_str b url = do
    parsed ← parse_field u "metrics_query_url" url
    ok (with_metrics_query_url b parsed)

  unfoldable pub with_metrics_otlp_ingest_url :
      Builder c (ObservabilityCapability u) → u.Url → Builder c (ObservabilityCapability u)
  with_metrics_otlp_ingest_url b url =
      set_capabilities b (record (b.capabilities) { metrics_otlp_ingest_url = some url })

  unfoldable pub with_metrics_otlp_ingest_url_str :
      Builder c (ObservabilityCapability u) → String → Builder c (ObservabilityCapability u)
  unfolding with_metrics_otlp_ingest_url
  with_metrics_otlp_ingest_url_str b url = elim (u.parse url) [
    | ok parsed ↦ with_metrics_otlp_ingest_url b parsed
    | err message ↦ b
  ]

  unfoldable pub try_with_metrics_otlp_ingest_url_str :
      Builder c (ObservabilityCapability u)
      → String
      → Result (Builder c (ObservabilityCapability u)) BuilderInputError
  unfolding with_metrics_otlp_ingest_url
  try_with_metrics_otlp_ingest_url_str b url = do
    parsed ← parse_field u "metrics_otlp_ingest_url" url
    ok (with_metrics_otlp_ingest_url b parsed)

  unfoldable pub with_grafana_url :
      Builder c (ObservabilityCapability u) → u.Url → Builder c (ObservabilityCapability u)
  with_grafana_url b url = set_capabilities b (record (b.capabilities) { grafana_url = some url })

  unfoldable pub with_grafana_url_str :
      Builder c (ObservabilityCapability u) → String → Builder c (ObservabilityCapability u)
  unfolding with_grafana_url
  with_grafana_url_str b url = elim (u.parse url) [
    | ok parsed ↦ with_grafana_url b parsed
    | err message ↦ b
  ]

  unfoldable pub try_with_grafana_url_str :
      Builder c (ObservabilityCapability u)
      → String
      → Result (Builder c (ObservabilityCapability u)) BuilderInputError
  unfolding with_grafana_url
  try_with_grafana_url_str b url = do
    parsed ← parse_field u "grafana_url" url
    ok (with_grafana_url b parsed)

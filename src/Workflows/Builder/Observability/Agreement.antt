-- ===== src/Workflows/Builder/Observability/Agreement.antt =====
-- The two implementations agree, and so do the versions that report an error and those that do not.
use logos_blockchain_testing.Prelude.{◌≡◌, refl, String, inl, inr, Result-cases}
use logos_blockchain_testing.Vendor.{Vendor}
use logos_blockchain_testing.Config.Ledger.{Ledger}
use logos_blockchain_testing.Scenario.Definition.{Components, Builder, with_capabilities}
use logos_blockchain_testing.Workflows.Builder.Flow.{or_else}
use logos_blockchain_testing.Workflows.Builder.Observability.{
  Urls, ObservabilityCapability, no_urls,
}
use logos_blockchain_testing.Workflows.Builder.Observability.Unset
use logos_blockchain_testing.Workflows.Builder.Observability.Present

module _ {v : Vendor} {l : Ledger v} (c : Components v l) (u : Urls) where
  -- On a scenario without capabilities each method does what it does on the same scenario with settings
  -- that are all unset.
  pub unset-agrees :
      (b : Builder c (Unit {0})) (url : String)
      → let d = with_capabilities c b (no_urls u) in
        (Unset.with_metrics_query_url_str c u b url ≡ Present.with_metrics_query_url_str c u d url)
        × (Unset.try_with_metrics_query_url_str c u b url
            ≡ Present.try_with_metrics_query_url_str c u d url)
        × (Unset.with_metrics_otlp_ingest_url_str c u b url
            ≡ Present.with_metrics_otlp_ingest_url_str c u d url)
        × (Unset.try_with_metrics_otlp_ingest_url_str c u b url
            ≡ Present.try_with_metrics_otlp_ingest_url_str c u d url)
        × (Unset.with_grafana_url_str c u b url ≡ Present.with_grafana_url_str c u d url)
        × (Unset.try_with_grafana_url_str c u b url ≡ Present.try_with_grafana_url_str c u d url)
  unfolding Unset.with_metrics_query_url_str Unset.try_with_metrics_query_url_str
      Present.with_metrics_query_url_str Present.try_with_metrics_query_url_str
      Unset.with_metrics_otlp_ingest_url_str Unset.try_with_metrics_otlp_ingest_url_str
      Present.with_metrics_otlp_ingest_url_str Present.try_with_metrics_otlp_ingest_url_str
      Unset.with_grafana_url_str Unset.try_with_grafana_url_str Present.with_grafana_url_str
      Present.try_with_grafana_url_str with_capabilities
  unset-agrees b url = elim (Result-cases (u.parse url)) [
    | inl (parsed, e) ↦ rw e (refl, refl, refl, refl, refl, refl)
    | inr (message, e) ↦ rw e (refl, refl, refl, refl, refl, refl)
  ]

  -- A method for a text sets what the one that reports errors sets, and keeps the scenario where that
  -- one reports an error: it never panics.
  pub str-agrees :
      (b : Builder c (ObservabilityCapability u)) (url : String)
      → (Present.with_metrics_query_url_str c u b url
          ≡ or_else b (Present.try_with_metrics_query_url_str c u b url))
        × (Present.with_metrics_otlp_ingest_url_str c u b url
            ≡ or_else b (Present.try_with_metrics_otlp_ingest_url_str c u b url))
        × (Present.with_grafana_url_str c u b url
            ≡ or_else b (Present.try_with_grafana_url_str c u b url))
  unfolding Present.with_metrics_query_url_str Present.try_with_metrics_query_url_str
      Present.with_metrics_otlp_ingest_url_str Present.try_with_metrics_otlp_ingest_url_str
      Present.with_grafana_url_str Present.try_with_grafana_url_str
  str-agrees b url = elim (Result-cases (u.parse url)) [
    | inl (parsed, e) ↦ (
      rw (e, Present.with_metrics_query_url_str) refl,
      rw (e, Present.with_metrics_otlp_ingest_url_str) refl,
      rw (e, Present.with_grafana_url_str) refl,
    )
    | inr (message, e) ↦ (
      rw (e, Present.with_metrics_query_url_str) refl,
      rw (e, Present.with_metrics_otlp_ingest_url_str) refl,
      rw (e, Present.with_grafana_url_str) refl,
    )
  ]

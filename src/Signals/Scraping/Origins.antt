-- ===== src/Signals/Scraping/Origins.antt =====
-- The signals of `checkNodeUsage`, and what `collectSignals` finds with it.
use app_lifecycle_kubernetes.Base.{
  ℕ, String, Option, some, List, [], ◌∷◌, ◌≡◌, refl, Result, ok, err, pure-Yields, bind-Yields,
  Bool-cases, inl, inr, ◌||◌, Every-append, default_if_zero,
}
use app_lifecycle_kubernetes.Base.Int.{ℤ, pos}
use app_lifecycle_kubernetes.Types.{
  node_usage, AdaptiveThrottlingConfig, SignalChecksConfig, MetricsScrapeConfig,
}
use app_lifecycle_kubernetes.Kube.{Node}
use app_lifecycle_kubernetes.Client.{Client}
use app_lifecycle_kubernetes.Signals.{or_workers}
use app_lifecycle_kubernetes.Signals.Collect.{NodeMetricsCache, Usage, Found, collect_signals}
use app_lifecycle_kubernetes.Signals.Kinds.{OfType}
use app_lifecycle_kubernetes.Signals.Usages.{ScrapesUsage}
use app_lifecycle_kubernetes.Signals.Enabled.{Enabled, collect_signals_lem}
use app_lifecycle_kubernetes.Signals.Readers.{Metrics, read_percents}
use app_lifecycle_kubernetes.Signals.Scraping.{
  Totals, add_reading, measure_nodes, check_node_usage, is_measured, url_source, reaches,
  nodes_or_all,
}

add_reading-OfType :
    (cpu memory : ℕ) (node : Node) (reading : Result (ℤ × ℤ)) (t : Totals)
    → OfType node_usage t.signals
    → OfType node_usage (add_reading cpu memory node reading t).signals
unfolding add_reading
add_reading-OfType cpu memory node (err e) t p = p
add_reading-OfType cpu memory node (ok (a, b)) t p =
    elim (Bool-cases (reaches a cpu || reaches b memory)) [
      | inl y ↦ rw y (Every-append _ _ _ p (refl, tt))
      | inr n ↦ rw n p
    ]

module _ {W F : Type 0} (m : Metrics W F) where
  measure_nodes-OfType :
      (cpu memory : ℕ) (config : Option MetricsScrapeConfig) (nodes : List Node) (t : Totals)
      (w : W)
      → OfType node_usage t.signals
      → OfType node_usage (measure_nodes m cpu memory config nodes t w).0.signals
  unfolding measure_nodes
  measure_nodes-OfType cpu memory config [] t w p = p
  measure_nodes-OfType cpu memory config (node ∷ rest) t w p =
      elim (Bool-cases (is_measured node)) [
        | inl y ↦
            rw (measure_nodes, y)
              (let r = read_percents m config node (url_source config) w in
                measure_nodes-OfType cpu memory config rest (add_reading cpu memory node r.0 t) r.1
                  (add_reading-OfType cpu memory node r.0 t p))
        | inr n ↦ rw (measure_nodes, n) (measure_nodes-OfType cpu memory config rest t w p)
      ]

  check_node_usage-ScrapesUsage : (c : Client W) → ScrapesUsage (check_node_usage m c)
  unfolding check_node_usage
  check_node_usage-ScrapesUsage c selector cpu memory config w =
      bind-Yields (λ _ _. Unit {0}) (λ a _. OfType node_usage a.0)
        (c.list_nodes (some (or_workers selector))) _ w (λ _ _ _. tt)
        (λ found u _.
          bind-Yields (λ _ _. Unit {0}) (λ a _. OfType node_usage a.0) (nodes_or_all c found) _ u
            (λ _ _ _. tt)
            (λ nodes v _ a z e.
              pure-Yields (λ (a : Usage) (_ : W). OfType node_usage a.0) _ _
                (measure_nodes-OfType (default_if_zero 80 cpu) (default_if_zero 80 memory) config
                  nodes
                  (record { signals = []; total_cpu = pos 0; total_memory = pos 0; node_count = 0 })
                  v tt)
                a z e))

-- Where the cache holds signals of node usage only, every signal that is collected, with node usage read
-- from the kubelet or a URL, belongs to a check that is configured and switched on, and the cache goes
-- on to hold signals of node usage only.
pub collect_signals-Enabled :
    {W F : Type 0} (m : Metrics W F) (c : Client W) (config : AdaptiveThrottlingConfig)
    (checks : SignalChecksConfig) (namespace : String) (v : NodeMetricsCache × W) (found : Found)
    (v₁ : NodeMetricsCache × W)
    → OfType node_usage v.0.signals
    → config.signal_checks ≡ some checks
    → collect_signals c (check_node_usage m c) (some config) namespace v ≡ (ok found, v₁)
    → Enabled checks found.0 × OfType node_usage v₁.0.signals
collect_signals-Enabled m c config checks namespace v found v₁ =
    collect_signals_lem c (check_node_usage m c) config checks namespace v found v₁
      (check_node_usage-ScrapesUsage m c)

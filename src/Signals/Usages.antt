-- ===== src/Signals/Usages.antt =====
-- The usage of the nodes, from the cache or from a scrape, is told by signals of node usage.
use app_lifecycle_kubernetes.Base.{
  ℕ, String, Option, none, some, ◌≡◌, ◌-◌, refl, Result, ok, err, Action, Yields, pure-Yields,
  Bool-cases, inl, inr, ltb,
}
use app_lifecycle_kubernetes.Base.Dict.{Dict}
use app_lifecycle_kubernetes.Types.{
  node_usage, AdaptiveThrottlingConfig, NodeUsageCheckConfig, MetricsScrapeConfig,
}
use app_lifecycle_kubernetes.Client.{Client}
use app_lifecycle_kubernetes.Signals.{}
use app_lifecycle_kubernetes.Signals.Collect.{
  NodeMetricsCache, Usage, Scrape, keep_usage, or_scrape, with_ttl, read_usage, cache_get,
  cache_set,
}
use app_lifecycle_kubernetes.Signals.Kinds.{OfType}

-- A hit of the cache is of the check of node usage.
abbrev HitUsed : Option Usage → Type 0
HitUsed none = Unit {0}
HitUsed (some usage) = OfType node_usage usage.0

-- The scrape answers with signals of node usage only.
abbrev pub ScrapesUsage : {W : Type 0} → Scrape W → Type 0
ScrapesUsage {W = W} scrape =
    (selector : Option (Dict String)) (cpu memory : ℕ) (source : Option MetricsScrapeConfig) (w : W)
    → Yields (λ a _. OfType node_usage a.0) (scrape selector cpu memory source) w

-- What the cache and the scrape give is of the check of node usage.
abbrev pub Used : {W : Type 0} → Usage → NodeMetricsCache × W → Type 0
Used usage v = OfType node_usage usage.0 × OfType node_usage v.0.signals

cache_get-Used :
    (cache : NodeMetricsCache) (now : ℕ)
    → OfType node_usage cache.signals
    → HitUsed (cache_get cache now)
unfolding cache_get
cache_get-Used cache now old = elim (Bool-cases (ltb (now - cache.fetched_at) cache.ttl)) [
  | inl y ↦ rw y old
  | inr n ↦ rw n tt
]

module _ {W : Type 0} (c : Client W) (scrape : Scrape W) (config : AdaptiveThrottlingConfig) where
  keep_usage-Used :
      (cache : NodeMetricsCache) (r : Result Usage × W)
      → ((a : Usage) (u : W) → r ≡ (ok a, u) → OfType node_usage a.0)
      → (a : Usage) (v : NodeMetricsCache × W) → keep_usage c scrape cache r ≡ (ok a, v)
      → Used a v
  keep_usage-Used cache (err x, w) p a v e = cc e
  keep_usage-Used cache (ok (signals, cpu, memory), w) p a v e =
      let fresh = p (signals, cpu, memory) w refl in
      unfold cache_set in pure-Yields Used (signals, cpu, memory) _ (fresh, fresh) a v e

  or_scrape-Used :
      (cached : Option Usage) (m : Action W Usage) (v : NodeMetricsCache × W)
      → OfType node_usage v.0.signals
      → HitUsed cached
      → Yields (λ a _. OfType node_usage a.0) m v.1
      → Yields Used (or_scrape c scrape cached m) v
  or_scrape-Used (some usage) m (cache, w) old hit p = pure-Yields Used usage _ (hit, old)
  or_scrape-Used none m (cache, w) old hit p = keep_usage-Used cache (m w) p

  pub read_usage-Used :
      (check : NodeUsageCheckConfig) (v : NodeMetricsCache × W)
      → ScrapesUsage scrape
      → OfType node_usage v.0.signals
      → Yields Used (read_usage c scrape config check) v
  unfolding read_usage
  read_usage-Used check (cache, w) p old =
      let timed = with_ttl config cache in
      let now = (c.now w).0 in
      let w₁ = (c.now w).1 in
      or_scrape-Used (cache_get timed now)
        (scrape config.node_selector check.cpu_threshold_percent check.memory_threshold_percent
          check.scrape)
        (timed, w₁) old (cache_get-Used timed now old)
        (p config.node_selector check.cpu_threshold_percent check.memory_threshold_percent
          check.scrape w₁)

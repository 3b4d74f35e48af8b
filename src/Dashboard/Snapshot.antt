-- ===== src/Dashboard/Snapshot.antt =====
-- The snapshots of src/cache.py and src/rate_limiter.py, and `_build_snapshot` of src/dashboard.py.
-- `rate hits total` is `round(hits / total * 100, 1)` in tenths.
use custom_network_proxy_ser.Base.{ℕ, ◌+◌, [], ◌∷◌, ltb, if◌then◌else◌, length}
use custom_network_proxy_ser.Text.{Text, codes}
use custom_network_proxy_ser.Text.Number.{pos}
use custom_network_proxy_ser.LogSchema.{text, int, tenths}
use custom_network_proxy_ser.Json.{
  Json, scalar, thousandths, array, object, no_members, member, items_of,
}
use custom_network_proxy_ser.Cache.Stats.{CacheStats}
use custom_network_proxy_ser.RateLimiter.Registry.{RateLimiter}
use custom_network_proxy_ser.Logger.{Logger, Metrics, get_top_hosts}

abbrev natural : ℕ → Json
natural n = scalar (int (pos n))

-- `CacheStats.snapshot`
unfoldable pub stats_snapshot : (ℕ → ℕ → ℕ) → CacheStats → Json
stats_snapshot rate s =
    let total = s.hits + s.misses in
    object (
      member (codes "hits") (natural s.hits) (
        member (codes "misses") (natural s.misses) (
          member (codes "evictions") (natural s.evictions) (
            member (codes "stores") (natural s.stores) (
              member (codes "current_entries") (natural s.current_entries) (
                member (codes "current_bytes") (natural s.current_bytes) (
                  member (codes "hit_rate")
                    (scalar (tenths (if ltb 0 total then rate s.hits total else 0)))
                    no_members)))))))

-- `RateLimiter.snapshot`
unfoldable pub limiter_snapshot : RateLimiter Text → Json
limiter_snapshot r = object (
    member (codes "active_buckets") (natural (length r.buckets)) (
      member (codes "capacity") (natural r.capacity)
        (member (codes "refill_rate") (thousandths r.refill_rate) no_members)))

-- `dict(metrics)`
abbrev metrics_json : Metrics → Json
metrics_json m = object (
    member (codes "total") (natural m.total) (
      member (codes "allowed") (natural m.allowed) (
        member (codes "blocked") (natural m.blocked) (
          member (codes "cached") (natural m.cached) (
            member (codes "rate_limited") (natural m.rate_limited)
              (member (codes "errors") (natural m.errors) no_members))))))

abbrev host_json : Text × ℕ → Json
host_json (host, count) =
    array (items_of (λ (j : Json). j) (scalar (text host) ∷ natural count ∷ []))

-- The shared state that the dashboard reads.
pub record State : Type 0 where
  pub logger : Logger
  pub stats : CacheStats
  pub limiter : RateLimiter Text

unfoldable pub build_snapshot : (ℕ → ℕ → ℕ) → State → Json
unfolding stats_snapshot limiter_snapshot get_top_hosts
build_snapshot rate s = object (
    member (codes "metrics") (metrics_json s.logger.metrics) (
      member (codes "cache") (stats_snapshot rate s.stats) (
        member (codes "rate_limiter") (limiter_snapshot s.limiter) (
          member (codes "top_hosts") (array (items_of host_json (get_top_hosts 10 s.logger)))
            no_members))))

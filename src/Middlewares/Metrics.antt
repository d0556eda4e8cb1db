-- ===== src/Middlewares/Metrics.antt =====
-- The metrics middleware of middlewares/prometheus/prometheus.go. The prometheus package and the
-- clock are a parameter.
use go_web.Prelude.{ℕ, Option, none, some, List, [], ◌∷◌, ◌-◌, maybe}
use mathlib.Core.Logic.{ite}
use go_web.Strings.{Bytes, Bytes-discrete, bytes}
use go_web.Http.{Context, returned, Middleware, and_then}

-- `MiddlewareBuilder`; a nil map of labels is an empty one.
pub record MetricsBuilder : Type 0 where
  pub name : Bytes
  pub subsystem : Bytes
  pub const_labels : List (Bytes × Bytes)
  pub help : Bytes

abbrev pub apply_all : List (MetricsBuilder → MetricsBuilder) → MetricsBuilder → MetricsBuilder
apply_all [] m = m
apply_all (opt ∷ opts) m = apply_all opts (opt m)

-- `NewPremotheusBuilder`, and its options.
unfoldable pub new_premotheus_builder : List (MetricsBuilder → MetricsBuilder) → MetricsBuilder
new_premotheus_builder opts = apply_all opts (record {
  name = bytes "prometheus";
  subsystem = bytes "default";
  const_labels = [];
  help = bytes "this is a default Prometheus Middleware";
})

abbrev pub with_name : Bytes → MetricsBuilder → MetricsBuilder
with_name name m = record m { name = name }

abbrev pub with_subsystem : Bytes → MetricsBuilder → MetricsBuilder
with_subsystem subsystem m = record m { subsystem = subsystem }

abbrev pub with_help : Bytes → MetricsBuilder → MetricsBuilder
with_help help m = record m { help = help }

abbrev pub with_const_labels : List (Bytes × Bytes) → MetricsBuilder → MetricsBuilder
with_const_labels labels m = record m { const_labels = labels }

-- A summary vector `V`: its making with the names of its labels, its registration, `none` for the
-- panic of a name that is taken, an observation of microseconds, and the clock.
pub record Prometheus (V S : Type 0) : Type 0 where
  pub new_summary_vec : MetricsBuilder → List Bytes → V
  pub must_register : V → S → Option S
  pub observe : V → Bytes → Bytes → ℕ → ℕ → S → S
  pub now : S → S × ℕ

module _ {V S : Type 0} (lib : Prometheus V S) where
  -- `report`.
  unfoldable pub report : ℕ → V → Context S → Context S
  report dur vec c =
      let pattern = ite (Bytes-discrete c.match_route []) (bytes "unkown") c.match_route in
      record c { shared = lib.observe vec pattern c.r.method c.resp_status_code dur c.shared }

  -- What `Build` does before it returns the middleware.
  unfoldable pub summary_vec : MetricsBuilder → S → Option (V × S)
  summary_vec m s =
      let vec = lib.new_summary_vec m (bytes "pattern" ∷ bytes "method" ∷ bytes "status" ∷ []) in
      maybe none (λ s'. some (vec, s')) (lib.must_register vec s)

  -- The middleware. `go` is how a goroutine runs what it was started with, now or later.
  module _ (go : (Context S → Context S) → Context S → Context S) where
    unfoldable pub build_metrics : V → Middleware S
    unfolding report
    build_metrics vec next ctx =
        let (s, start_time) = lib.now ctx.shared in
        and_then (next (record ctx { shared = s })) (λ c.
          let (s', end_time) = lib.now c.shared in
          returned (go (report (end_time - start_time) vec) (record c { shared = s' })))

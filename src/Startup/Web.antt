-- ===== src/Startup/Web.antt =====
-- pkg/controller/httpserver.go: the web server with the metrics and the probes. The server, its routes
-- and the library of the probes are parameters.
use kubervisor.Prelude.{
  ◌≡◌, refl, Bool, true, ◌&&◌, Option, none, some, String, Error, errorf, not, is_some,
  if◌then◌else◌, false,
}
use kubervisor.Kube.Exec.{Exec}

-- Whether the caches are filled, when a probe asks.
pub record Synced : Type 0 where
  pub breaker_synced : Bool
  pub pod_synced : Bool
  pub service_synced : Bool

abbrev Check : Type 0
Check = Synced → Option Error

-- The probes `H`, the handlers `T` of requests, and the routes `M`.
pub record WebOps (H T M : Type 0) : Type 0 where
  pub new_handler : H
  pub add_readiness_check : String → (Synced → Option Error) → H → H
  pub of_health : H → T
  pub metrics_handler : T
  pub new_serve_mux : M
  pub handle : String → T → M → M

-- The three checks.
abbrev breaker_check : Check
breaker_check s =
    if s.breaker_synced then none else some (errorf "KubervisorService cache not sync")

abbrev pod_check : Check
pod_check s = if s.pod_synced then none else some (errorf "Pod cache not sync")

abbrev service_check : Check
service_check s = if s.service_synced then none else some (errorf "Service cache not sync")

module _ {H T M : Type 0} (ops : WebOps H T M) where
  unfoldable pub configure_health : H
  configure_health = ops.add_readiness_check "Service_cache_sync" service_check (
      ops.add_readiness_check "Pod_cache_sync" pod_check
        (ops.add_readiness_check "KubervisorService_cache_sync" breaker_check ops.new_handler))

  unfoldable pub configure_http_server : M
  unfolding configure_health
  configure_http_server =
      ops.handle "/" (ops.of_health configure_health)
        (ops.handle "/metrics" ops.metrics_handler ops.new_serve_mux)

-- The server listens in a goroutine, whose error is only logged, until the channel is closed; then it
-- is shut down.
unfoldable pub run_http_server :
    {W : Type 0} → (W → W) → (W → W) → Exec W (Unit {0}) → Exec W (Unit {0})
run_http_server listen await_stop shutdown w = shutdown (await_stop (listen w))

-- A check passes if its cache is filled.
passes : (synced : Bool) (e : Error) → not (is_some (if synced then none else some e)) ≡ synced
passes true e = refl
passes false e = refl

module _ {H T M : Type 0} (ops : WebOps H T M) (ready : H → Synced → Bool)
    (ready_new : (s : Synced) → ready ops.new_handler s ≡ true)
    (ready_add : (name : String) (check : Synced → Option Error) (h : H) (s : Synced)
      → ready (ops.add_readiness_check name check h) s
        ≡ (ready h s && not (is_some (check s)))) where
  -- If the library's probe succeeds exactly if every check that was added does, then the program is
  -- ready exactly while the caches of resources, pods and services are all filled.
  ready-configure_health :
      (s : Synced)
      → ready (configure_health ops) s ≡ (s.breaker_synced && s.pod_synced && s.service_synced)
  unfolding configure_health
  ready-configure_health s =
      rw
        (
          ready_add "Service_cache_sync" service_check _ s,
          ready_add "Pod_cache_sync" pod_check _ s,
          ready_add "KubervisorService_cache_sync" breaker_check ops.new_handler s,
          ready_new s,
          passes s.service_synced (errorf "Service cache not sync"),
          passes s.pod_synced (errorf "Pod cache not sync"),
          passes s.breaker_synced (errorf "KubervisorService cache not sync"),
        )
        refl

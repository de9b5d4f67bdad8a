-- ===== src/Manager/Main.antt =====
-- `main`: each step that fails is logged, and ends the process with code 1.
use swagger_hub_controller.Base.{
  ℕ, String, none, some, List, [], ◌∷◌, Error, ok, err, panic, Action, inl, inr, if◌then◌else◌,
  ◌==◌,
}
use swagger_hub_controller.Kube.Meta.{pos, Selector}
use swagger_hub_controller.Kube.Workload.{Container}
use swagger_hub_controller.Kube.Client.{Client}
use swagger_hub_controller.Api.Scheme.{Scheme, group_version_kind, add_known_types}
use swagger_hub_controller.Merge.{StrategicPatch}
use swagger_hub_controller.Definition.Fetch.{HttpClient}
use swagger_hub_controller.Specification.OpenApi.{OpenApiLibrary}
use swagger_hub_controller.Manager.Runtime.{
  WatchOptions, LeaderElectionOptions, Flags, CacheOptions, ManagerOptions, Controller, Runtime,
}
use swagger_hub_controller.Manager.Setup.{
  secret_kind, setup_hub, setup_definition, setup_specification,
}

-- How the process ends.
pub data Exit : Type 0 where
  returned : Exit
  exited : ℕ → Exit
  crashed : String → Exit

-- The defaults of the flags; those of the libraries' options are given.
unfoldable pub default_flags : LeaderElectionOptions → WatchOptions → Flags
default_flags leader_election_options watch_options = record {
  metrics_addr = ":9556";
  health_addr = ":9557";
  concurrent = pos 4;
  graceful_shutdown_timeout = pos 600000000000;
  default_swagger_ui_image = "swaggerapi/swagger-ui:latest";
  leader_election_options = leader_election_options;
  watch_options = watch_options;
}

-- A step, what is logged if it fails, and the rest of the process. A process that panics crashes.
unfoldable pub or_exit :
    {W A : Type 0} → (Error → W → W) → Action W A → (A → W → Exit × W) → W → Exit × W
or_exit log m rest w = elim (m w).0 [
  | ok a ↦ rest a (m w).1
  | err e ↦ (exited 1, log e (m w).1)
  | panic p ↦ (crashed p, (m w).1)
]

module _ {K : Client} {W : Type 0} (R : Runtime K W) where
  -- `init`
  unfoldable pub init_scheme : Scheme → Scheme
  unfolding add_known_types
  init_scheme scheme =
      add_known_types R.add_to_group_version
        (R.core_add_to_scheme (R.client_go_add_to_scheme scheme))

  unfoldable pub leader_election_id : WatchOptions → String
  leader_election_id options =
      if options.label_selector == ""
      then "swagger-hub-controller-leader-election"
      else R.generate_id "swagger-hub-controller-leader-election" options.label_selector

  unfoldable pub watch_namespace : WatchOptions → W → String
  watch_namespace options w = if options.all_namespaces then "" else R.getenv "RUNTIME_NAMESPACE" w

  unfoldable pub cache_options : Selector → String → CacheOptions
  cache_options selector namespace = record {
    by_object =
        (group_version_kind "SwaggerHub", selector)
        ∷ (group_version_kind "SwaggerDefinition", selector)
        ∷ (group_version_kind "SwaggerSpecification", selector)
        ∷ [];
    default_namespaces = if namespace == "" then [] else namespace ∷ [];
  }

  -- `opts`
  unfoldable pub manager_options : Flags → Selector → String → ManagerOptions
  unfolding init_scheme leader_election_id cache_options
  manager_options flags selector namespace = record {
    scheme = init_scheme [];
    metrics_bind_address = flags.metrics_addr;
    health_probe_bind_address = flags.health_addr;
    leader_election = flags.leader_election_options.enable;
    leader_election_release_on_cancel = flags.leader_election_options.release_on_cancel;
    lease_duration = flags.leader_election_options.lease_duration;
    renew_deadline = flags.leader_election_options.renew_deadline;
    retry_period = flags.leader_election_options.retry_period;
    graceful_shutdown_timeout = flags.graceful_shutdown_timeout;
    leader_election_id = leader_election_id flags.watch_options;
    cache = cache_options selector namespace;
    disable_for = secret_kind ∷ [];
  }

  -- `ctrl.GetConfigOrDie()`, which may end the process.
  unfoldable pub with_config : (R.Config → W → Exit × W) → W → Exit × W
  with_config rest w = elim (R.get_config_or_die w).0 [
    | inl config ↦ rest config (R.get_config_or_die w).1
    | inr code ↦ (exited code, (R.get_config_or_die w).1)
  ]

  -- The controllers, in the order in which they are set up, with their names.
  unfoldable pub controllers :
      HttpClient K.World
      → StrategicPatch Container
      → OpenApiLibrary
      → Flags
      → List (String × Controller K)
  unfolding setup_hub setup_definition setup_specification
  controllers H P L flags =
      (
        "SwaggerHub",
        setup_hub K P flags.default_swagger_ui_image (record {
          max_concurrent_reconciles = flags.concurrent;
          default_swagger_ui_image = flags.default_swagger_ui_image;
        }),
      )
      ∷ (
        "SwaggerDefinition",
        setup_definition K H (record { max_concurrent_reconciles = flags.concurrent }),
      )
      ∷ (
        "SwaggerSpecification",
        setup_specification K L (record { max_concurrent_reconciles = flags.concurrent }),
      )
      ∷ []

  -- The three calls of `SetupWithManager`.
  unfoldable pub set_up : R.Manager → List (String × Controller K) → (W → Exit × W) → W → Exit × W
  unfolding or_exit
  set_up mgr [] rest = rest
  set_up mgr ((name, controller) ∷ others) rest =
      or_exit (λ e. R.log_error e "unable to create controller" (some name))
        (R.complete mgr controller) (λ _. set_up mgr others rest)

  -- `main` from the probes on
  unfoldable pub run_manager : List (String × Controller K) → R.Manager → W → Exit × W
  unfolding or_exit set_up
  run_manager cs mgr =
      or_exit (λ e. R.log_error e "Could not add liveness probe" none)
        (R.add_healthz_check mgr "healthz")
        λ _.
          or_exit (λ e. R.log_error e "Could not add readiness probe" none)
            (R.add_readyz_check mgr "readyz")
            λ _. set_up mgr cs λ w.
              or_exit (λ e. R.log_error e "problem running manager" none) (R.start mgr)
                (λ _ w. (returned, w)) (R.log_info "starting manager" w)

  unfoldable pub main :
      HttpClient K.World → StrategicPatch Container → OpenApiLibrary → Flags → W → Exit × W
  unfolding or_exit with_config manager_options watch_namespace controllers run_manager
  main H P L defaults w =
      let (flags, w') = R.parse defaults w in
      let namespace = watch_namespace flags.watch_options w' in
      or_exit (λ e. R.log_error e "unable to configure watch label selector for manager" none)
        (λ w. (R.get_watch_selector flags.watch_options, w))
        (λ selector. with_config λ config.
          or_exit (λ e. R.log_error e "unable to start manager" none)
            (R.new_manager config (manager_options flags selector namespace))
            (run_manager (controllers H P L flags)))
        w'

-- ===== src/Tests/ManagerTests.antt =====
-- The conditions and the manager at concrete resources and flags.
use swagger_hub_controller.Base.{
  String, true, false, List, [], ◌∷◌, ok, err, errorf, inl, inr, ◌≡◌, refl, ◌⊎◌, ℕ, if◌then◌else◌,
  ◌==◌,
}
use swagger_hub_controller.Base.Lists.{All}
use swagger_hub_controller.Kube.Meta.{pos, ObjectKey}
use swagger_hub_controller.Api.Scheme.{Scheme, recognizes}
use swagger_hub_controller.Manager.Runtime.{Flags, Controller, Runtime}
use swagger_hub_controller.Manager.Setup.{
  config_map_kind, secret_kind, service_kind, deployment_kind, setup_hub, setup_definition,
}
use swagger_hub_controller.Manager.Main.{main, default_flags, controllers}
use swagger_hub_controller.Manager.Kinds.{SchemeLawful, IsServed, controllers-IsServed}
use swagger_hub_controller.Manager.Steps.{Logged}
use swagger_hub_controller.Manager.Startup.{Started, main-Started, main-exited}
use swagger_hub_controller.Tests.Cluster.{cluster}
use swagger_hub_controller.Tests.DefinitionTests.{server}
use swagger_hub_controller.Tests.MergeTests.{image_only}
use swagger_hub_controller.Tests.SpecificationTests.{library}

abbrev kubernetes : Scheme
kubernetes = config_map_kind ∷ secret_kind ∷ service_kind ∷ deployment_kind ∷ []

-- A process that keeps a log, whose controllers can be completed if the address of the probes is not empty.
abbrev process : String → Runtime cluster (List String)
process broken = record {
  Config = Unit;
  Manager = String;
  client_go_add_to_scheme = λ s. kubernetes;
  core_add_to_scheme = λ s. s;
  add_to_group_version = λ s. s;
  parse = λ flags w. (flags, w);
  generate_id = λ id selector. id;
  getenv = λ name w. "";
  get_watch_selector = λ options. ok (λ labels. true);
  get_config_or_die = λ w. (inl tt, "config" ∷ w);
  new_manager = λ config options w. (ok options.health_probe_bind_address, "manager" ∷ w);
  add_healthz_check = λ mgr name w. (ok tt, name ∷ w);
  add_readyz_check = λ mgr name w. (ok tt, name ∷ w);
  complete = λ mgr c w.
      (if c.for_kind.kind == broken then err (errorf "broken") else ok tt, c.for_kind.kind ∷ w);
  start = λ mgr w. (ok tt, "started" ∷ w);
  log_info = λ message w. message ∷ w;
  log_error = λ e message controller w. message ∷ w;
}

abbrev own_key : ObjectKey
own_key = record { namespace = "apps"; name = "own" }

abbrev flags : Flags
flags =
    default_flags
      (record {
        enable = false;
        release_on_cancel = false;
        lease_duration = pos 35;
        renew_deadline = pos 30;
        retry_period = pos 5;
      })
      (record { label_selector = ""; all_namespaces = true })

-- All of the steps succeed.
abbrev stopped : List String
stopped =
    "started" ∷ "starting manager" ∷ "SwaggerSpecification" ∷ "SwaggerDefinition" ∷ "SwaggerHub"
    ∷ "readyz" ∷ "healthz" ∷ "manager" ∷ "config" ∷ []

main-Started_example : Started (process "") server image_only library flags [] stopped
unfolding main default_flags
main-Started_example = main-Started (process "") server image_only library flags [] refl

-- The second controller fails: the third is not built, and the manager is not started.
main-exited_example :
    ((◌≡◌ {A = ℕ} 1 1)
      × Logged (process "SwaggerDefinition") (
          "unable to create controller" ∷ "SwaggerDefinition" ∷ "SwaggerHub" ∷ "readyz" ∷ "healthz"
          ∷ "manager" ∷ "config" ∷ []))
    ⊎ ((u : List String) × ((process "SwaggerDefinition").get_config_or_die u ≡ (
      inr 1,
      "unable to create controller" ∷ "SwaggerDefinition" ∷ "SwaggerHub" ∷ "readyz" ∷ "healthz"
          ∷ "manager" ∷ "config" ∷ [],
    )))
unfolding main default_flags
main-exited_example =
    main-exited (process "SwaggerDefinition") server image_only library flags [] refl

abbrev hub_controller : Controller cluster
hub_controller =
    setup_hub cluster image_only ""
      (record { max_concurrent_reconciles = pos 4; default_swagger_ui_image = "" })

abbrev definition_controller : Controller cluster
definition_controller =
    setup_definition cluster server (record { max_concurrent_reconciles = pos 4 })

kubernetes-SchemeLawful : SchemeLawful (process "")
unfolding recognizes
kubernetes-SchemeLawful = record {
  add_to_group_version = λ s k h. h;
  core = λ s k h. h;
  client_go = λ s. (refl, (refl, (refl, (refl, tt))));
}

controllers-IsServed_example :
    All
      (λ c. IsServed (process "") (λ labels. true) "apps" c.1)
      (controllers (process "") server image_only library flags)
controllers-IsServed_example =
    controllers-IsServed (process "") kubernetes-SchemeLawful server image_only library flags
      (λ labels. true) "apps"

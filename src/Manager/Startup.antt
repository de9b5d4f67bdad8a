-- ===== src/Manager/Startup.antt =====
-- When `main` returns, and how it exits.
use swagger_hub_controller.Base.{ℕ, String, none, List, ok, Action, ◌⊎◌, inl, inr, ◌≡◌, ap, ◌∙◌}
use swagger_hub_controller.Kube.Meta.{Selector}
use swagger_hub_controller.Kube.Workload.{Container}
use swagger_hub_controller.Kube.Client.{Client}
use swagger_hub_controller.Merge.{StrategicPatch}
use swagger_hub_controller.Definition.Fetch.{HttpClient}
use swagger_hub_controller.Specification.OpenApi.{OpenApiLibrary}
use swagger_hub_controller.Manager.Runtime.{Flags, Controller, Runtime}
use swagger_hub_controller.Manager.Main.{
  Exit, returned, exited, or_exit, with_config, watch_namespace, manager_options, controllers,
  set_up, run_manager, main,
}
use swagger_hub_controller.Manager.Steps.{
  or_exit-returned, or_exit-exited, logging, Completes, set_up-returned, Logged, set_up-exited,
  with_config-returned, with_config-exited,
}

module _ {K : Client} {W : Type 0} (R : Runtime K W) where
  module _ (cs : List (String × Controller K)) (mgr : R.Manager) where
    -- What follows each of the steps.
    abbrev run : W → Exit × W
    run w =
        or_exit (logging R "problem running manager" none) (R.start mgr) (λ _ w. (returned, w))
          (R.log_info "starting manager" w)

    abbrev after_healthz : Unit {0} → W → Exit × W
    after_healthz _ =
        or_exit (logging R "Could not add readiness probe" none) (R.add_readyz_check mgr "readyz")
          (λ _. set_up R mgr cs run)

    -- The steps of the manager have all succeeded.
    abbrev pub Ran : W → W → Type 0
    Ran w v =
        (w₁ : W) × (R.add_healthz_check mgr "healthz" w ≡ (ok tt, w₁))
        × (w₂ : W) × (R.add_readyz_check mgr "readyz" w₁ ≡ (ok tt, w₂))
        × (w₃ : W) × Completes R mgr cs w₂ w₃
        × (R.start mgr (R.log_info "starting manager" w₃) ≡ (ok tt, v))

    run_manager-Ran : (w : W) {v : W} → run_manager R cs mgr w ≡ (returned, v) → Ran w v
    unfolding run_manager
    run_manager-Ran w {v} e =
        let (_, w₁, q₁, e₁) =
          or_exit-returned (logging R "Could not add liveness probe" none)
            (R.add_healthz_check mgr "healthz") after_healthz w e in
        let (_, w₂, q₂, e₂) =
          or_exit-returned (logging R "Could not add readiness probe" none)
            (R.add_readyz_check mgr "readyz") (λ _. set_up R mgr cs run) w₁ e₁ in
        let (w₃, all, e₃) = set_up-returned R mgr cs run w₂ e₂ in
        let (_, u, q₃, e₄) =
          or_exit-returned (logging R "problem running manager" none) (R.start mgr)
            (λ _ w. (returned, w)) (R.log_info "starting manager" w₃) e₃ in
        (w₁, q₁, w₂, q₂, w₃, all, q₃ ∙ ap (λ y. (ok tt, y)) (ap (λ y. y.1) e₄))

    run_manager-exited :
        (w : W) {n : ℕ} {v : W} → run_manager R cs mgr w ≡ (exited n, v) → (n ≡ 1) × Logged R v
    unfolding run_manager
    run_manager-exited w {n} {v} e =
        elim (or_exit-exited (logging R "Could not add liveness probe" none)
          (R.add_healthz_check mgr "healthz") after_healthz w e) [
            | inl (x, u, q, one, l) ↦ (one, (x, "Could not add liveness probe", none, u, l))
            | inr (_, w₁, e₁) ↦
                elim (or_exit-exited (logging R "Could not add readiness probe" none)
                  (R.add_readyz_check mgr "readyz") (λ _. set_up R mgr cs run) w₁ e₁) [
                    | inl (x, u, q, one, l) ↦
                        (one, (x, "Could not add readiness probe", none, u, l))
                    | inr (_, w₂, e₂) ↦ elim (set_up-exited R mgr cs run w₂ e₂) [
                      | inl h ↦ h
                      | inr (w₃, e₃) ↦
                          elim (or_exit-exited (logging R "problem running manager" none)
                            (R.start mgr) (λ _ w. (returned, w)) (R.log_info "starting manager" w₃)
                            e₃) [
                              | inl (x, u, q, one, l) ↦
                                  (one, (x, "problem running manager", none, u, l))
                              | inr (_, _, e₄) ↦ never e₄
                            ]
                    ]
                  ]
          ]
      where
        never : {u : W} → ◌≡◌ {A = Exit × W} (returned, u) (exited n, v) → (n ≡ 1) × Logged R v
        never e = cc

  module _ (H : HttpClient K.World) (P : StrategicPatch Container) (L : OpenApiLibrary) where
    -- What has succeeded in a process with the parsed flags that has returned.
    abbrev pub Started : Flags → W → W → Type 0
    Started flags w v =
        (selector : Selector) × (R.get_watch_selector flags.watch_options ≡ ok selector)
        × (config : R.Config) × (w₁ : W) × (R.get_config_or_die w ≡ (inl config, w₁))
        × (mgr : R.Manager) × (w₂ : W) × (R.new_manager config
              (manager_options R flags selector (watch_namespace R flags.watch_options w)) w₁
            ≡ (ok mgr, w₂))
        × Ran (controllers R H P L flags) mgr w₂ v

    -- What follows each of the steps.
    module _ (flags : Flags) (namespace : String) where
      abbrev with_manager : Selector → R.Config → W → Exit × W
      with_manager selector config =
          or_exit (logging R "unable to start manager" none)
            (R.new_manager config (manager_options R flags selector namespace))
            (run_manager R (controllers R H P L flags))

      abbrev select : Action W Selector
      select w = (R.get_watch_selector flags.watch_options, w)

    -- The process returns only where the selector was valid, a config was found, the manager was
    -- made with the options of the flags, both probes were added, all three controllers were
    -- completed and the manager has run and stopped without an error, in this order and with no
    -- other step in between but a line of the log.
    pub main-Started :
        (defaults : Flags) (w : W) {v : W}
        → main R H P L defaults w ≡ (returned, v)
        → Started (R.parse defaults w).0 (R.parse defaults w).1 v
    unfolding main
    main-Started defaults w {v} e =
        let (flags, u) = R.parse defaults w in
        let namespace = watch_namespace R flags.watch_options u in
        let (selector, w₀, q₀, e₀) =
          or_exit-returned (logging R "unable to configure watch label selector for manager" none)
            (select flags namespace) (λ s. with_config R (with_manager flags namespace s)) u e in
        let (config, w₁, q₁, e₁) =
          with_config-returned R (with_manager flags namespace selector) w₀ e₀ in
        let (mgr, w₂, q₂, e₂) =
          or_exit-returned (logging R "unable to start manager" none)
            (R.new_manager config (manager_options R flags selector namespace))
            (run_manager R (controllers R H P L flags)) w₁ e₁ in
        (
          selector,
          ap (λ y. y.0) q₀,
          config,
          w₁,
          ap R.get_config_or_die (ap (λ y. y.1) q₀) ∙ q₁,
          mgr,
          w₂,
          q₂,
          run_manager-Ran (controllers R H P L flags) mgr w₂ e₂,
        )

    -- Where the process exits, its code is 1 and the last thing that it has done is to log an
    -- error, unless no config was found, where it exits as `GetConfigOrDie` does.
    pub main-exited :
        (defaults : Flags) (w : W) {n : ℕ} {v : W}
        → main R H P L defaults w ≡ (exited n, v)
        → ((n ≡ 1) × Logged R v) ⊎ ((u : W) × (R.get_config_or_die u ≡ (inr n, v)))
    unfolding main
    main-exited defaults w {n} {v} e =
        let (flags, u) = R.parse defaults w in
        let namespace = watch_namespace R flags.watch_options u in
        elim (or_exit-exited (logging R "unable to configure watch label selector for manager" none)
          (select flags namespace) (λ s. with_config R (with_manager flags namespace s)) u e) [
            | inl (x, u, q, one, l) ↦
                inl (one, (x, "unable to configure watch label selector for manager", none, u, l))
            | inr (selector, w₀, e₀) ↦
                elim (with_config-exited R (with_manager flags namespace selector) w₀ e₀) [
                  | inl q ↦ inr (w₀, q)
                  | inr (config, w₁, e₁) ↦
                      elim (or_exit-exited (logging R "unable to start manager" none)
                        (R.new_manager config (manager_options R flags selector namespace))
                        (run_manager R (controllers R H P L flags)) w₁ e₁) [
                          | inl (x, u, q, one, l) ↦
                              inl (one, (x, "unable to start manager", none, u, l))
                          | inr (mgr, w₂, e₂) ↦
                              inl (run_manager-exited (controllers R H P L flags) mgr w₂ e₂)
                        ]
                ]
          ]

-- ===== src/Manager/Steps.antt =====
-- Steps of the start: what is known where the process returns, and where it exits.
use swagger_hub_controller.Base.{
  ℕ, String, Option, some, List, [], ◌∷◌, Error, Result, ok, err, panic, Action, ◌⊎◌, inl, inr, ◌≡◌,
  refl, sym, ap, ◌∙◌,
}
use swagger_hub_controller.Kube.Client.{Client}
use swagger_hub_controller.Manager.Runtime.{Controller, Runtime}
use swagger_hub_controller.Manager.Main.{
  Exit, returned, exited, crashed, or_exit, with_config, set_up,
}

module _ {W A : Type 0} (log : Error → W → W) (m : Action W A) (rest : A → W → Exit × W) where
  -- A process that returns has passed the step.
  pub or_exit-returned :
      (w : W) {v : W}
      → or_exit log m rest w ≡ (returned, v)
      → (a : A) × (u : W) × (m w ≡ (ok a, u)) × (rest a u ≡ (returned, v))
  unfolding or_exit
  or_exit-returned w {v} e = go (m w) refl e
    where
      go :
          (x : Result A × W)
          → m w ≡ x
          → ◌≡◌ {A = Exit × W}
              (elim x.0 [
                | ok a ↦ rest a x.1
                | err e ↦ (exited 1, log e x.1)
                | panic p ↦ (crashed p, x.1)
              ])
              (returned, v)
          → (a : A) × (u : W) × (m w ≡ (ok a, u)) × (rest a u ≡ (returned, v))
      go (ok a, u) q e = (a, u, q, e)
      go (err x, u) q e = cc
      go (panic x, u) q e = cc

  -- A process that exits has failed in the step or after it.
  pub or_exit-exited :
      (w : W) {n : ℕ} {v : W}
      → or_exit log m rest w ≡ (exited n, v)
      → ((x : Error) × (u : W) × (m w ≡ (err x, u)) × (n ≡ 1) × (v ≡ log x u))
        ⊎ ((a : A) × (u : W) × (rest a u ≡ (exited n, v)))
  unfolding or_exit
  or_exit-exited w {n} {v} e = go (m w) refl e
    where
      go :
          (x : Result A × W)
          → m w ≡ x
          → ◌≡◌ {A = Exit × W}
              (elim x.0 [
                | ok a ↦ rest a x.1
                | err e ↦ (exited 1, log e x.1)
                | panic p ↦ (crashed p, x.1)
              ])
              (exited n, v)
          → ((x : Error) × (u : W) × (m w ≡ (err x, u)) × (n ≡ 1) × (v ≡ log x u))
            ⊎ ((a : A) × (u : W) × (rest a u ≡ (exited n, v)))
      go (ok a, u) q e = inr (a, u, e)
      go (err x, u) q e = inl (x, u, q, cc, sym (ap (λ y. y.1) e))
      go (panic x, u) q e = cc

module _ {K : Client} {W : Type 0} (R : Runtime K W) where
  abbrev pub logging : String → Option String → Error → W → W
  logging m o x = R.log_error x m o

  abbrev pub not_created : String → Error → W → W
  not_created name = logging "unable to create controller" (some name)

  module _ (rest : R.Config → W → Exit × W) where
    pub with_config-returned :
        (w : W) {v : W}
        → with_config R rest w ≡ (returned, v)
        → (c : R.Config) × (u : W) × (R.get_config_or_die w ≡ (inl c, u))
          × (rest c u ≡ (returned, v))
    unfolding with_config
    with_config-returned w {v} e = go (R.get_config_or_die w) refl e
      where
        go :
            (x : (R.Config ⊎ ℕ) × W)
            → R.get_config_or_die w ≡ x
            → ◌≡◌ {A = Exit × W}
                (elim x.0 [ inl c ↦ rest c x.1 | inr code ↦ (exited code, x.1) ])
                (returned, v)
            → (c : R.Config) × (u : W) × (R.get_config_or_die w ≡ (inl c, u))
              × (rest c u ≡ (returned, v))
        go (inl c, u) q e = (c, u, q, e)
        go (inr code, u) q e = cc

    pub with_config-exited :
        (w : W) {n : ℕ} {v : W}
        → with_config R rest w ≡ (exited n, v)
        → (R.get_config_or_die w ≡ (inr n, v))
          ⊎ ((c : R.Config) × (u : W) × (rest c u ≡ (exited n, v)))
    unfolding with_config
    with_config-exited w {n} {v} e = go (R.get_config_or_die w) refl e
      where
        go :
            (x : (R.Config ⊎ ℕ) × W)
            → R.get_config_or_die w ≡ x
            → ◌≡◌ {A = Exit × W}
                (elim x.0 [ inl c ↦ rest c x.1 | inr code ↦ (exited code, x.1) ])
                (exited n, v)
            → (R.get_config_or_die w ≡ (inr n, v))
              ⊎ ((c : R.Config) × (u : W) × (rest c u ≡ (exited n, v)))
        go (inl c, u) q e = inr (c, u, e)
        go (inr code, u) q e = inl (q ∙ cc)

  -- All of the controllers are completed, one after another.
  abbrev pub Completes : R.Manager → List (String × Controller K) → W → W → Type 0
  Completes mgr [] w v = w ≡ v
  Completes mgr (c ∷ cs) w v = (u : W) × (R.complete mgr c.1 w ≡ (ok tt, u)) × Completes mgr cs u v

  pub set_up-returned :
      (mgr : R.Manager) (cs : List (String × Controller K)) (rest : W → Exit × W) (w : W) {v : W}
      → set_up R mgr cs rest w ≡ (returned, v)
      → (u : W) × Completes mgr cs w u × (rest u ≡ (returned, v))
  unfolding set_up
  set_up-returned mgr [] rest w e = (w, refl, e)
  set_up-returned mgr ((name, c) ∷ cs) rest w e =
      let (_, u, done, e₁) =
        or_exit-returned (not_created name) (R.complete mgr c) (λ _. set_up R mgr cs rest) w e in
      let (u', all, e₂) = set_up-returned mgr cs rest u e₁ in (u', (u, done, all), e₂)

  -- The process has logged an error at last.
  abbrev pub Logged : W → Type 0
  Logged v = (x : Error) × (m : String) × (o : Option String) × (u : W) × (v ≡ R.log_error x m o u)

  pub set_up-exited :
      (mgr : R.Manager) (cs : List (String × Controller K)) (rest : W → Exit × W) (w : W) {n : ℕ}
      {v : W}
      → set_up R mgr cs rest w ≡ (exited n, v)
      → ((n ≡ 1) × Logged v) ⊎ ((u : W) × (rest u ≡ (exited n, v)))
  unfolding set_up
  set_up-exited mgr [] rest w e = inr (w, e)
  set_up-exited mgr ((name, c) ∷ cs) rest w e =
      elim (or_exit-exited (not_created name) (R.complete mgr c) (λ _. set_up R mgr cs rest) w e) [
        | inl (x, u, q, one, l) ↦ inl (one, (x, "unable to create controller", some name, u, l))
        | inr (a, u, e₁) ↦ set_up-exited mgr cs rest u e₁
      ]

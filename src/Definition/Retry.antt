-- ===== src/Definition/Retry.antt =====
-- What follows a failed reconciliation of a definition.
use swagger_hub_controller.Base.{
  Bool, true, false, Error, Result, ok, err, panic, Run, pure, lift, if◌then◌else◌, ◌≡◌, refl, ap,
  sym, ◌∙◌, ◌⊎◌, inl, inr, subst, Bool-cases, ok-injective,
}
use swagger_hub_controller.Kube.Meta.{ObjectKey}
use swagger_hub_controller.Kube.Client.{Client}
use swagger_hub_controller.Api.Definition.{SwaggerDefinition}
use swagger_hub_controller.Shared.Outcome.{CtrlResult, no_requeue, is_positive, outcome, within}
use swagger_hub_controller.Definition.Fetch.{HttpClient}
use swagger_hub_controller.Definition.Reconcile.{
  patch_status, finish, reported, conclude, reconcile, attempt, reconcile_request,
}

module _ (K : Client) where
  -- What follows the patch of the status after a failure.
  abbrev after_patch : Error → Result SwaggerDefinition × K.World → Result CtrlResult × K.World
  after_patch m x = elim x.0 [
    | ok d ↦
        (if is_positive d.spec.interval
            then pure (record { requeue_after = d.spec.interval })
            else lift (outcome (err m)))
          x.1
    | err a ↦ (err a, x.1)
    | panic a ↦ (panic a, x.1)
  ]

  -- After a failure only a positive interval gives a result without an error.
  finish-positive :
      (m : Error) (d : SwaggerDefinition) (w : K.World) {res : CtrlResult}
      → (finish K (err m) d w).0 ≡ ok res
      → is_positive res.requeue_after ≡ true
  unfolding finish
  finish-positive m d w {res} e = patched (patch_status K d w) e
    where
      decided :
          (d' : SwaggerDefinition) (b : Bool)
          → is_positive d'.spec.interval ≡ b
          → (if b then ok (record { requeue_after = d'.spec.interval }) else outcome (err m))
            ≡ ok res
          → is_positive res.requeue_after ≡ true
      decided d' true p e =
          subst (λ (r : CtrlResult). is_positive r.requeue_after ≡ true) (ok-injective e) p
      decided d' false p e = cc

      patched :
          (x : Result SwaggerDefinition × K.World)
          → (after_patch m x).0 ≡ ok res
          → is_positive res.requeue_after ≡ true
      patched (ok d', v) e = elim (Bool-cases (is_positive d'.spec.interval)) [
        | inl p ↦ decided d' true p (rw p at e)
        | inr p ↦ decided d' false p (rw p at e)
      ]
      patched (err a, v) e = cc
      patched (panic a, v) e = cc

module _ (K : Client) (H : HttpClient K.World) (d : SwaggerDefinition) where
  -- The cluster as the reconciliation finds it.
  abbrev pub under_deadline : K.World → K.World
  under_deadline w = if is_positive d.spec.timeout then K.with_timeout d.spec.timeout w else w

  -- The reconciliation has succeeded, or the next request is after some time.
  abbrev pub IsRetried : K.World → CtrlResult → Type 0
  IsRetried w res =
      ((reconcile K H (record { world = w; object = d })).0 ≡ ok tt)
      ⊎ (is_positive res.requeue_after ≡ true)

  attempt-IsRetried :
      (w : K.World) {res : CtrlResult} → (attempt K H d w).0 ≡ ok res → IsRetried w res
  unfolding attempt conclude
  attempt-IsRetried w {res} e = go (reconcile K H (record { world = w; object = d })) e
    where
      go :
          (x : Result (Unit {0}) × Run K.World SwaggerDefinition)
          → (conclude K x.0 x.1.object x.1.world).0 ≡ ok res
          → (x.0 ≡ ok tt) ⊎ (is_positive res.requeue_after ≡ true)
      go (ok u, s) e = inl refl
      go (err m, s) e = inr (finish-positive K m (reported K (err m) s.world s.object) _ e)
      go (panic m, s) e = cc

  -- What follows the read of the definition.
  abbrev after_get : Result SwaggerDefinition × K.World → Result CtrlResult × K.World
  after_get x = elim x.0 [
    | ok d ↦
        if d.spec.suspend
        then (ok no_requeue, x.1)
        else if is_positive d.spec.timeout
        then within K d.spec.timeout (attempt K H d) x.1
        else attempt K H d x.1
    | err e ↦ if e.is_not_found then (ok no_requeue, x.1) else (err e, x.1)
    | panic m ↦ (panic m, x.1)
  ]

  -- A request for a definition that is found and not suspended, and that ends without an error,
  -- has reconciled the definition without an error, under its deadline if it has one, or asks to
  -- be repeated after a positive time.
  pub reconcile_request-IsRetried :
      (key : ObjectKey) (w v : K.World) {res : CtrlResult}
      → K.definitions.get key w ≡ (ok d, v)
      → d.spec.suspend ≡ false
      → (reconcile_request K H key w).0 ≡ ok res
      → IsRetried (under_deadline v) res
  unfolding reconcile_request within
  reconcile_request-IsRetried key w v {res} found active e = timed (is_positive d.spec.timeout) (
      sym (
        ap (λ (x : Result SwaggerDefinition × K.World). (after_get x).0) found
        ∙ ap (λ s. (if s then (ok no_requeue, v) else rest).0) active)
      ∙ e)
    where
      rest : Result CtrlResult × K.World
      rest =
          if is_positive d.spec.timeout
          then within K d.spec.timeout (attempt K H d) v
          else attempt K H d v

      timed :
          (p : Bool)
          → (if p then within K d.spec.timeout (attempt K H d) v else attempt K H d v).0 ≡ ok res
          → IsRetried (if p then K.with_timeout d.spec.timeout v else v) res
      timed true e = attempt-IsRetried (K.with_timeout d.spec.timeout v) e
      timed false e = attempt-IsRetried v e

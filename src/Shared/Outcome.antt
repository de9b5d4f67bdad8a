-- ===== src/Shared/Outcome.antt =====
-- What a reconciliation returns to controller-runtime, and deadlines.
use swagger_hub_controller.Base.{zero, suc, Bool, true, false, Result, ok, err, panic, Action}
use swagger_hub_controller.Kube.Meta.{ℤ, pos, negsuc}
use swagger_hub_controller.Kube.Client.{Client}

-- `ctrl.Result`, with the field that is used.
pub record CtrlResult : Type 0 where
  pub requeue_after : ℤ

-- `ctrl.Result{}`
abbrev pub no_requeue : CtrlResult
no_requeue = record { requeue_after = pos 0 }

-- `return result, err`: the result is `ctrl.Result{}` wherever `reconcile` returns.
abbrev pub outcome : Result (Unit {0}) → Result CtrlResult
outcome (ok u) = ok no_requeue
outcome (err e) = err e
outcome (panic m) = panic m

-- `d > 0`
abbrev pub is_positive : ℤ → Bool
is_positive (pos zero) = false
is_positive (pos (suc n)) = true
is_positive (negsuc n) = false

-- `ctx, cancel := context.WithTimeout(ctx, d); defer cancel()` round the rest of a function.
unfoldable pub within : (K : Client) {A : Type 0} → ℤ → Action K.World A → Action K.World A
within K d rest w = let (r, w') = rest (K.with_timeout d w) in (r, K.cancel w')

-- ===== src/Manager/Failures.antt =====
-- A controller that can not be set up.
use swagger_hub_controller.Base.{String, List, Result, ok, err, panic}
use swagger_hub_controller.Kube.Client.{Client}
use swagger_hub_controller.Manager.Runtime.{Controller, Runtime}
use swagger_hub_controller.Manager.Main.{Exit, exited, crashed}
use swagger_hub_controller.Manager.Steps.{not_created}

module _ {K : Client} {W : Type 0} (R : Runtime K W) (mgr : R.Manager) (name : String)
    (c : Controller K) (behind : List (String × Controller K)) (rest : W → Exit × W) where
  or_exit-of : String → (W → Exit × W) → Result (Unit {0}) × W → Exit × W
  or_exit-of name rest x = elim x.0 [
    | ok a ↦ rest x.1
    | err e ↦ (exited 1, not_created R name e x.1)
    | panic p ↦ (crashed p, x.1)
  ]

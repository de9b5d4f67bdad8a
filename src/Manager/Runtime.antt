-- ===== src/Manager/Runtime.antt =====
-- The options of the manager and of its controllers, and the libraries that `main` calls.
use swagger_hub_controller.Base.{ℕ, String, Bool, List, Option, Result, Error, Action, ◌⊎◌}
use swagger_hub_controller.Kube.Meta.{ℤ, ObjectMeta, ObjectKey, Selector}
use swagger_hub_controller.Kube.Client.{Client}
use swagger_hub_controller.Api.Scheme.{GroupVersionKind, Scheme}
use swagger_hub_controller.Shared.Outcome.{CtrlResult}

-- `helper.WatchOptions`
pub record WatchOptions : Type 0 where
  pub label_selector : String
  pub all_namespaces : Bool

-- `leaderelection.Options`
pub record LeaderElectionOptions : Type 0 where
  pub enable : Bool
  pub release_on_cancel : Bool
  pub lease_duration : ℤ
  pub renew_deadline : ℤ
  pub retry_period : ℤ

-- The variables that the flags set.
pub record Flags : Type 0 where
  pub metrics_addr : String
  pub health_addr : String
  pub concurrent : ℤ
  pub graceful_shutdown_timeout : ℤ
  pub default_swagger_ui_image : String
  pub leader_election_options : LeaderElectionOptions
  pub watch_options : WatchOptions

-- `ctrlcache.Options`: the kinds whose lists are restricted by labels, and the namespaces, where
-- there are any
pub record CacheOptions : Type 0 where
  pub by_object : List (GroupVersionKind × Selector)
  pub default_namespaces : List String

-- `ctrl.Options`
pub record ManagerOptions : Type 0 where
  pub scheme : Scheme
  pub metrics_bind_address : String
  pub health_probe_bind_address : String
  pub leader_election : Bool
  pub leader_election_release_on_cancel : Bool
  pub lease_duration : ℤ
  pub renew_deadline : ℤ
  pub retry_period : ℤ
  pub graceful_shutdown_timeout : ℤ
  pub leader_election_id : String
  pub cache : CacheOptions
  -- `Client.Cache.DisableFor`
  pub disable_for : List GroupVersionKind

-- How a change to a watched object becomes requests.
pub data Handler (K : Client) : Type 0 where
  -- `handler.EnqueueRequestsFromMapFunc`
  map_func : (ObjectMeta → Action K.World (List ObjectKey)) → Handler K
  -- `handler.EnqueueRequestForOwner` with `OnlyControllerOwner`
  controller_owner : GroupVersionKind → Handler K

-- `Watches(…)`
pub record Watch (K : Client) : Type 0 where
  pub kind : GroupVersionKind
  pub event_handler : Handler K

-- A controller as it is built and completed.
pub record Controller (K : Client) : Type 0 where
  pub for_kind : GroupVersionKind
  -- `predicate.GenerationChangedPredicate`
  pub generation_changed : Bool
  pub watches : List (Watch K)
  pub max_concurrent_reconciles : ℤ
  pub reconcile : ObjectKey → Action K.World CtrlResult

-- What `main` calls. `W` is the state of the process.
pub record Runtime (K : Client) (W : Type 0) : Type 1 where
  pub Config : Type 0
  pub Manager : Type 0
  -- `clientgoscheme.AddToScheme`, `corev1.AddToScheme` and `metav1.AddToGroupVersion`
  pub client_go_add_to_scheme : Scheme → Scheme
  pub core_add_to_scheme : Scheme → Scheme
  pub add_to_group_version : Scheme → Scheme
  -- `flag.Parse` with the defaults
  pub parse : Flags → W → Flags × W
  -- `leaderelection.GenerateID`
  pub generate_id : String → String → String
  -- `os.Getenv`
  pub getenv : String → W → String
  -- `helper.GetWatchSelector`
  pub get_watch_selector : WatchOptions → Result Selector
  -- `ctrl.GetConfigOrDie`: a config, or the end of the process with a code
  pub get_config_or_die : W → (Config ⊎ ℕ) × W
  pub new_manager : Config → ManagerOptions → Action W Manager
  pub add_healthz_check : Manager → String → Action W (Unit {0})
  pub add_readyz_check : Manager → String → Action W (Unit {0})
  -- `Complete` of a controller that was built
  pub complete : Manager → Controller K → Action W (Unit {0})
  -- `mgr.Start(ctrl.SetupSignalHandler())`
  pub start : Manager → Action W (Unit {0})
  -- `setupLog.Info`, and `setupLog.Error` with the value of `controller`, if there is any
  pub log_info : String → W → W
  pub log_error : Error → String → Option String → W → W

-- ===== src/Lib.antt =====
-- The SwaggerHub controller, a Kubernetes operator in Go: it fetches OpenAPI documents
-- (SwaggerDefinition), joins them into one (SwaggerSpecification) and serves them in a Swagger UI
-- (SwaggerHub). Each resource has a controller. A controller only talks to the others through the
-- cluster: the definition and specification controllers write config maps, which the specification
-- and hub controllers read, and a change of a definition or specification makes watches request
-- the reconciliation of those that may select it.
--
-- The files and the code:
-- - Base: Go results with errors and panics, calls on a world (Calls), what a call keeps and how it
--   may end (Runs), maps with text keys (Dict), lists and texts, and `slices.SortFunc` with the
--   comparison of the controllers (Sort).
-- - Kube: the types of Kubernetes that are used (Meta, Workload), the client, the recorder, the clock
--   and the helpers on conditions and selectors as a record of parameters (Client), what
--   theorems rely on of them (Laws), and calls that keep a property of the cluster (Guards).
-- - Api: api/v1beta1, the custom resources, the setters (Conditions) and accessors (Accessors) of their
--   conditions, and the registration of the types (Scheme).
-- - Merge: internal/merge, `MergePatchContainers` and `MergePatchDeployment`.
-- - Shared: what the controllers repeat: a `Get` that may find nothing and the selection by namespaces
--   and labels (Lookup), storing a config map (ConfigMaps), results and deadlines (Outcome).
-- - Definition: internal/controllers/swaggerdefinition_controller.go. Fetch has `fetchDefinition` and
--   `authenticateRequest`, Reconcile has `reconcile`, `patchStatus` and `Reconcile`.
-- - Hub: internal/controllers/swaggerhub_controller.go. Watch has the two watches, Catalog the
--   selection of definitions and specifications, Mounts the loop that copies config maps, ApiUrls
--   the JSON of `API_URLS`, which ApiText and ApiList read, Deployment the objects of
--   `reconcile`, Ownership `createOrUpdateWithOwnershipValidation` and `isOwner`, Reconcile the rest.
-- - Specification: internal/controllers/swaggerspecification_controller.go. Json is an untyped
--   document, References has `prefixRefs`, `prefixRef` and `replaceLast` and the renaming of schemas,
--   Generate has `generateOpenAPI`, Reconcile the rest and the watch.
-- - System: the three controllers on one cluster, as steps between which other programs act.
-- - Manager: main.go and the `SetupWithManager` functions. Runtime has the options and the libraries
--   that are called, Setup the three controllers with what they watch, Main the start of the process.
-- - A module Guards of a part has the rules of Base/Runs for the functions of the part.
-- - Tests: a cluster in memory, which has the laws, and the theorems at concrete resources.
--
-- A call is a function of the world that gives a result and the next world; what was written before
-- an error stays written. A reconciliation also carries its own copy of the resource, whose status
-- is written in memory and patched at the end. A panic is a result that no code of the repository
-- catches. All loops are structural recursions on lists, texts or documents; there is no fuel. Go
-- maps are lists of entries in one order: where the code ranges over a map, its result does not
-- depend on the order. The deployment of a hub shares its map of labels with the template in the hub's
-- spec: the labels are written in both, and the patch of the status has them. The user info of a url
-- is in its text, of which the HTTP client may make a header.
--
-- A request is served in one step: requests that run at the same time are not cut into their calls. What
-- other programs do between two calls of one request can be part of the client, whose calls are
-- only assumed to keep what the theorems name.
--
-- Parameters: controller-runtime, the flags of the libraries, the Kubernetes client, the HTTP
-- client, errors of `url.Parse` other than those on the scheme, JSON encoding of containers and
-- documents, the strategic merge patch, kin-openapi. The encoding of `API_URLS` is defined here.
-- Generations are natural numbers, durations nanoseconds.
--
-- Not modelled: logs of the controllers, the set-up of the logger and the flags that the libraries
-- bind; generated deep copies; manifests and charts.
pub mod Base
pub mod Kube
pub mod Api
pub mod Merge
pub mod Shared
pub mod Definition
pub mod Hub
pub mod Specification
pub mod System
pub mod Manager
pub mod Tests

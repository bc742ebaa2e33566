-- ===== src/Lib.antt =====
-- Verification of the noplane.io control plane provider for Cluster API.
--
-- The program. A controller (internal/controller/noplanecontrolplane_controller.go) reconciles
-- NoPlaneControlPlane objects (api/v1alpha1/noplanecontrolplane_types.go): it reads the object and
-- the API key from the management cluster, creates, follows and deletes a hosted control plane (a
-- plane) through a client interface (internal/api/noplane), and writes back the endpoint, two
-- secrets and the status. The interface has two implementations: an HTTP client
-- (internal/api/noplane/client.go) over a generated package
-- (internal/api/noplane/hack/v1/api.gen.go), and a fake for the controller's tests
-- (internal/api/noplane/fake/client.go).
--
-- The files.
--   Prelude: names, equality, association lists for Go maps, Go's integers with `int32(n)`.
--   Errors: errors.go, and Go's results: a value, an error or a panic. An error is the call that
--     builds it, with the format and the arguments of fmt.Errorf; texts are not formatted.
--   Exec: actions on an unknown world of type `W` and on the list of calls made so far with their
--     outcomes. Exec.Emits and Exec.Gives carry a property of calls and of results through a program,
--     and Exec.Keeps an invariant of the world and the calls.
--   Types, Plane: the Kubernetes objects, as far as the code reads and writes them; types.go and the
--     interface ClientInterface.
--   Kube: what the controller uses of other repositories (controller-runtime, Cluster API, clientcmd,
--     crypto): parameters of which nothing is assumed. A theorem that needs their documented
--     behaviour names it as a hypothesis.
--   Reconciler: the controller. One module for a function or two: PlaneId for resolvePlaneID, Secrets
--     for getAPIKey and reconcileKubeconfig, CaSecret for reconcileCASecret, Normal for
--     reconcileNormal, Reconcile for reconcileDelete and Reconcile; Calls has the calls that leave the
--     controller, Policy what a property of calls has to allow so that the whole controller keeps it.
--     An early return of a Go function is a branch; the part of a function after a call whose result
--     is matched on is a function of its own (adopt_or_fail, after_delete, put_ca_secret).
--     Template is the controller of templates
--     (internal/controller/noplanecontrolplanetemplate_controller.go).
--   Api: the client half of api.gen.go: Models, Http, Requests, Responses, Parse, Client. What it uses
--     of net/url, net/http, encoding/json and the runtime package is a parameter (HttpKit).
--   ApiServer: the server half of api.gen.go. Writer is net/http's ResponseWriter, Objects has the
--     request and response objects with the methods that write an answer, Chain and Strict the
--     strict handlers with their middlewares, Wrapper the binding of path parameters, Router the
--     routes, ParamErrors the errors about parameters. JSON, chi and the binding are a parameter
--     (ServerKit, Chi). Delivery and RoundTrip take an answer to the client's parsers.
--   ApiClient: client.go. Answers has the switches on the status code; the theorems of Controlled are
--     about the controller with this client.
--   Fake: fake/client.go, with a heap, since both its maps point at the same planes. Either map may be
--     nil.
--   DeepCopy: api/v1alpha1/zz_generated.deepcopy.go, on the structs of api/v1alpha1 as they are in
--     memory: pointers to int32 cells and slices by the address of their array. Kinds says what a
--     deep copy is, with one rule for each way to build one.
--   Manager: cmd/main.go.
--   Tests: runs at concrete inputs, and each theorem at a concrete input.
--
-- State. The controller keeps none between reconciliations; the object in memory is passed on, as an
-- update returns it. A panic ends a reconciliation. Every function terminates by its structure: no
-- loop needs fuel. Integers are ℤ; `int32(plane.Endpoint.Port)` keeps 32 bits. Delays are seconds.
-- After a read that failed, the object in memory is taken to be as before the read.
--
-- A deep copy takes fresh addresses only, one after another. A handler of the server works on one
-- answer: a middleware may write to it or pass other values on, but does not replace the writer.
--
-- Not modelled: logging, and contexts but for the values that the server adds; the formatting of
-- errors other than those about parameters; the registration with the scheme and with
-- controller-runtime (SetupWithManager, groupversion_info.go, the init functions), which only calls
-- libraries; which of the routes chi takes for a path; answers of the strict server by types of other
-- packages; flags of zap.
pub mod Prelude
pub mod Errors
pub mod Exec
pub mod Types
pub mod Plane
pub mod Kube
pub mod Reconciler
pub mod ApiServer
pub mod DeepCopy
pub mod Manager
pub mod Api
pub mod ApiClient
pub mod Fake
mod Tests

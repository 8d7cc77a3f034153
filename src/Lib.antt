-- ===== src/Lib.antt =====
-- The opnsense-operator: a Kubernetes operator that keeps firewall aliases and filter rules of an
-- OPNsense firewall in step with custom resources.
--
-- The program has three reconcilers (internal/controller), which the Kubernetes runtime calls with
-- the name of an object, and a client for the HTTP API of OPNsense (internal/opnsense), which the
-- reconcilers call. A reconcile reads its object, builds a client from the referenced
-- OPNsenseConnection and its Secret, looks the counterpart up in OPNsense, creates, updates or
-- deletes it, makes OPNsense load the change, and writes the finalizer or the status of the object.
-- The binary (cmd/main.go) reads flags, makes a manager of the Kubernetes runtime, adds the
-- reconcilers to it and starts it.
--
-- Which file models what:
--   Api          api/v1alpha1/*_types.go: specs, statuses and references, and what the operator
--                reads of Kubernetes' own types (Api.Meta); the group (Api.Group)
--   Base         tests, Go maps as association lists (Base.Dict), Go errors and `(value, err)`
--                pairs (Base.Outcome)
--   Text         the functions of strings, strconv, sort and net/url that the code uses
--   Json         JSON values, and what json.Unmarshal does with a value for each Go type in use
--   Runtime      `Env`, the code outside the repository as a parameter; the world with its log of
--                calls (Runtime.Monad); errors.Is, AsValidationError and Error() (Runtime.Errors)
--   Opnsense     internal/opnsense/client.go: NewClient and doJSON (Transport), the request bodies
--                (Payload), the responses (Decode, RuleDecode), the endpoints of aliases (Aliases)
--                and of rules (Rules), each a function from the client and its arguments
--   Controller   internal/controller: buildHTTPClient and buildOPNsenseClient (Connect), specToAlias,
--                specToRule and the drift tests (Convert), resolveExternalAlias (AliasLookup),
--                resolveExternalRule (RuleLookup), the status and finalizer writes (AliasStatus,
--                RuleStatus), and the three `Reconcile` (AliasReconciler, RuleReconciler,
--                ConnectionReconciler). The order of the calls of a reconcile is stated apart from
--                the code, as a step relation (Protocol), which the reconcilers of aliases and of
--                rules fill in (AliasReconciler.Protocol, RuleReconciler.Protocol); that of a
--                connection has one of its own (ConnectionReconciler.Protocol)
--   Manager      cmd/main.go: the flags and the options that they give (Options), the outside code
--                and the steps that end the process (Launch), `init`, `main` and `SetupWithManager`
--                (Program), and the order of the calls as a step relation (Order)
--   DeepCopy     api/v1alpha1/zz_generated.deepcopy.go: the structs with their slices and pointers as
--                addresses (Structs), the cells that these lead to, with commands that allocate, load
--                and store (Memory), and DeepCopyInto, DeepCopy and DeepCopyObject of every type
--                (Generated). What an address reads as is a `Shape`, and what a copy must satisfy is
--                `Independent`
--   Tests        a cluster and a server as an instance of `Env`, and runs on them
--
-- State. A step takes a world and gives a value and a world. The world holds a state that only the
-- code outside reads and changes, so that every answer may depend on all that happened before and on
-- other clients, and a log of the calls that can change something: requests to OPNsense and writes
-- of objects. The log is what the theorems speak of; the code never reads it. An object that a
-- reconcile changes in place is passed on as a new record, since no two variables share one. Only the
-- copies, whose promise is that nothing is shared, stand on a memory with addresses; a pointer or a
-- slice is an address or nil, and the array of a slice is one cell.
--
-- Parameters. `Runtime.Env` has the Kubernetes client, the helpers of apimachinery and
-- controller-runtime, net/http, the text layer of encoding/json, the order of a range over a map,
-- and three functions that turn on tables (%q, PEM, URL syntax). Theorems take three hypotheses
-- on it: `Runtime.IsForeign`, errors from outside do not wrap the client's own;
-- `Runtime.IsRange`, a range over a map goes through its entries in some order; and
-- `Runtime.KeepsConditions`, a condition that was set is found. `Manager.Launch.Host` has what
-- main calls: the parsing of the command line, the configuration of the cluster, the scheme and
-- the manager. `DeepCopy.Structs.Foreign` and `DeepCopy.Generated.Helpers` are apimachinery's own
-- structs and their DeepCopyInto, and `DeepCopy.Shape.Resources.Copies` says that these copy.
-- What OPNsense gives back of an object that was sent is a hypothesis of the theorems that need
-- it, as the document that it answers with.
--
-- Bounds. Every recursion is structural but the printing of a decimal, whose fuel is the number
-- itself, which has at least as many units as digits. Kubernetes' generations and status codes are
-- natural numbers, since they are only copied and compared; a sequence is an integer, and an integer
-- in JSON is refused outside 64 bits, as encoding/json does.
--
-- Not modelled: log lines and the options of the logger, contexts and cancellation, the markers that
-- the API server validates objects by, the charts and manifests, and the helpers of the end-to-end
-- tests. Three simplifications: the order of a range over a map is one for a run, where Go may choose
-- one for each statement; a number beyond a float64, which json.Unmarshal refuses in an interface, is
-- not refused (CheckConnectivity, and the array of GetAlias); and what a copied slice reads as does
-- not tell nil from an empty slice, though the copy itself does.
pub mod Base
pub mod Text
pub mod Api
pub mod Json
pub mod Runtime
pub mod Opnsense
pub mod Controller
pub mod Manager
pub mod DeepCopy
pub mod Tests

-- ===== src/Lib.antt =====
-- A verification library for provider-osb, the Crossplane provider that reconciles the Kubernetes
-- resources ServiceInstance and ServiceBinding with an Open Service Broker.
--
-- The program. Crossplane's managed reconciler calls Observe, Create, Update and Delete of the
-- external clients in internal/controller. They call the methods of the two resources in
-- apis/instance/v1alpha1 and apis/binding/v1alpha1, which validate the spec, build a request, send
-- it with the broker's client, write the answer into the status of the resource and, for some of
-- them, save the resource in Kubernetes. internal/controller/util holds what the two share, and
-- apis/common the schema of an instance, the OSB context and the actions.
--
-- The files, and the code that each is about:
--   Base, Exec             names of the libraries, and methods with a pointer receiver: the object
--                          in memory, the calls made so far, and an error or a panic as a result
--   Exec/Rules, Keeps, Leads, Ensures, Survives, AtMost, Inversion   rules for proofs about such
--                          methods: splitting on what was computed, invariants of the object, what
--                          holds of the object and of the value afterwards, the absence of panics,
--                          the number of calls, and what a method that succeeded must have done
--   Errors                 the error variables of each package with their texts, and fmt.Errorf
--   Json                   what encoding/json decodes into `any`, and reflect.DeepEqual
--   Osb                    the requests and responses of go-open-service-broker-client
--   Platform               the parameters of the model, with the laws that some theorems assume
--   Config                 apis/v1alpha1/providerconfig_types.go and providerconfig_methods.go
--   Common                 apis/common/common_types.go and common_methods.go
--   Util                   internal/controller/util/util.go; Util/Client has ResolveProviderConfig,
--                          NewOsbClient and MakeOriginatingIdentityFromValue
--   Instance               apis/instance/v1alpha1/serviceinstance_types.go and _methods.go; Requests
--                          has the builders, Operations has Provision, Update, Deprovision, polling,
--                          the comparison with the broker and ObserveState, Lifecycle
--                          an abstract machine for the last operation
--   Binding                apis/binding/v1alpha1/servicebinding_types.go and _methods.go; Requests has
--                          the builders, Renewal has HandleRenewalBindings, Operations has Bind,
--                          UnBind and TriggerRotation, Operations/Observe has ObserveState, Texts has
--                          the readers of endpoints and volume mounts
--   Controller/Instance    internal/controller/serviceinstance/serviceinstance.go; Connect has the
--                          connector
--   Controller/Binding     internal/controller/servicebinding/servicebinding.go; Connect has the
--                          connector
--   Controller/Instance/Bounds, Polling, Refines, Convergence, Creation, Deletion,
--   Controller/Binding/Runs, Bounds, Polling, Convergence, Creation, Deletion, Naming
--                          sequences of the methods that the reconciler calls; Readiness, Waiting
--                          and Availability have one observation each, Publication the connection
--                          details, and Saved what the reconciler stores after a method
--   Json/StringMap/Extensional, Instance/Operations/Contexts
--                          what it means that two maps, and two contexts, are the same
--   Controller/Identity    the identity from the connectors in the requests of the builders
--   Apis                   apis/osb.go, and the groups, kinds and registered objects of the packages
--                          under apis; Types has the list types and the types of a store and of a
--                          usage of a configuration
--   Start                  the flags of cmd/provider/main.go and internal/features/features.go;
--                          Controllers has Setup of internal/controller/osb.go, config/config.go and
--                          the two controllers, Main has main, and Runtime what they are given;
--                          Main/Promises says what the command line promises
--   Tests                  a concrete platform, broker and resources, at which the theorems are run
--
-- A method is a function from a session, the object and the calls made so far with the last one
-- first, to a result and a session. It is a function of the Go method's name in snake case. What a
-- method wrote or called before it failed stays in the session that it returns. A nil pointer that
-- is dereferenced is the result `panic`.
--
-- The parameters. `Platform` has the metadata helpers and the conditions of crossplane-runtime,
-- the JSON codec on the types that the provider hands to it, the texts of times, base64, and the
-- type of the broker's client with its default configuration; `World` has the broker, the usage
-- tracker, the provider's configurations and credentials, the making of the broker's client, the
-- Kubernetes client, the clock and fresh UUIDs, each a function of the number of calls before,
-- so that a value of it is any run of answers. A write of Kubernetes decodes the server's answer
-- into the object, which may change any part of it. `SchemeLibrary`, `FlagSet` and `Runtime` have the
-- scheme, the feature flags and the manager. The loop over the map of controllers takes the order as
-- an argument. A theorem that relies on how these behave says so in its hypotheses. A time is a
-- natural number of nanoseconds. No definition uses fuel: each loop of the source runs over the
-- entries of a map, in the order that the map's value gives them, and is structural recursion.
--
-- Not modelled. Generated code (deep copies, getters and setters of managed resources) and mocks
-- follow from the types. The parsing of the command line, logging, rate limiters, event recorders
-- and the registry of metrics are calls of libraries with no logic of the provider. The wrong Go
-- type as an argument of a controller's method is not a value of the model. Contexts, their
-- cancellation, and retries inside the clients are not modelled either, nor are two reconciliations
-- of one object at the same time, which the library excludes. The texts of wrapped errors are kept
-- as values, not as strings. Credentials are bytes that are valid text.
pub mod Apis
pub mod Base
pub mod Binding
pub mod Common
pub mod Config
pub mod Controller
pub mod Errors
pub mod Exec
pub mod Instance
pub mod Json
pub mod Osb
pub mod Platform
pub mod Start
pub mod Tests
pub mod Util

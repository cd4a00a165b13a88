-- ===== src/Lib.antt =====
-- Kubervisor: a controller that takes misbehaving pods out of the traffic of a service, and brings them
-- back, pauses them or kills them.
--
-- The parts and how they interact. A resource KubervisorService (pkg/api) names a service, a list of
-- breakers and an activator. The controller (pkg/controller) builds an item per resource. In an item
-- each breaker (pkg/breaker) asks its anomaly detector (pkg/anomalydetector) for pods out of bounds, and
-- cuts as many of them as the minimum in traffic allows; each activator (pkg/activate) looks at the pods
-- that are cut, and decides from their annotations. Both write pods through pkg/pod, which uses the
-- labels and annotations of pkg/labeling.
--
-- Where each part is modelled:
--   Prelude          the shared types and lemmas: outcomes, integers, maps, decimal numbers, lists
--   Kube             the pods, and the libraries of Kubernetes as parameters
--   Labeling         pkg/labeling/traffic.go and breaker.go: the labels and annotations of a pod
--   Pod              pkg/pod: the filters of tools.go (Tools), the writes of control.go (Requests on a
--                    pod, Control on the cluster), and the history of a pod's writes (History)
--   Api              pkg/api/kubervisor/v1alpha1: types.go, default.go (Defaults) and validation.go
--                    (Validation)
--   Breaker          pkg/breaker/breaker.go: the number of pods to cut (Count), a round of Run, and Run
--                    over its ticks (Round)
--   Activate         pkg/activate/activator.go: applyActivatorStrategy (Strategy), a round of Run, and Run
--                    over its ticks (Round)
--   Detector         pkg/anomalydetector: the counters of prometheus.go (Samples), the two analyses
--                    (Index, Discrete, Continuous), custom.go (Custom) and factory.go (Factory)
--   Controller       pkg/controller: utils.go (Conditions), gc.go (Collector, and its loop in Ticks),
--                    item/types.go and item/factory.go (Item, Status, and the goroutines that Start makes
--                    and Stop awaits in Routines, and their rounds one after another in Turns),
--                    informers.go (Informers), and of controller.go the worker (Worker), the
--                    synchronisation of a key (Sync), syncKubervisorService with the items it makes and
--                    removes (Reconcile, over a store of items in Store and the outside world in Env;
--                    Tracking and the files from Phases to TrackingLaws are about which items run, and
--                    Contract has a specification of it by the keys alone, and Cooperation is about
--                    clusters on which it succeeds),
--                    and the labels of pods (Pods)
--   Election         pkg/leaderelection/leaderelection.go: one attempt to lead (Attempt), and the loops
--                    that acquire and renew the lease (Loops)
--   Plugin           cmd/kubectl-plugin/main.go: which resources and conditions are shown, the path of
--                    the configuration, and the command (Command)
--   Registration     pkg/client/client.go: DefineKubervisorResources, NewClient (Connection), and the end
--                    of RegisterAPI of pkg/controller/config.go
--   Lifecycle        one pod under the breakers, the activators and the controller at once: how often it
--                    is cut between cleanings (Budget, Visits, Steps), and what ends its rest (Progress)
--   Startup          cmd/kubervisor/main.go, pkg/controller/config.go and New of controller.go, and Run of
--                    controller.go with what it starts (Running), and httpserver.go (Web)
--   Examples         concrete clusters and settings, on which the theorems are applied
--
-- How the code is translated. A function that may fail returns an `Outcome`: a value, an error with its
-- text and the errors below it, or a panic (a nil dereference, a write to a nil map, a division by
-- zero). A function that also changes the cluster or the metrics is a state passing function, `Exec`. A
-- pointer that may be nil is an `Option`, a map is an association list without order, an `int` is an
-- integer that wraps at 64 bits, and a `uint` a natural number that does. Most loops of the code run
-- over a list and are structural. The loops over a ticker (Run of a breaker, of an activator and of the
-- collector) recurse on the number of ticks or the list of what happens at each, and the worker on the
-- keys that its queue hands out. The loops of the election recurse on fuel, one unit for each round; a
-- theorem states how much is enough when the channel is closed or the lease is won. Goroutines that run
-- at once are a step relation, one constructor for each atomic step.
--
-- The parameters. The API server (`KubeClient`), the text of times (`TimeText`, with the round trip that
-- RFC 3339 gives down to the second), selectors (`SelectorOps`), floating point (`FloatOps`), the
-- listers of the caches, the store of items (`ItemStore`, with the laws of a map where a theorem needs
-- them), the clients and the clock of the controller (`Env`), the pauses and the polling of the wait
-- package, the server of resource definitions (`CrdApi`), and the query or the request of a detector
-- stand for code outside the repository's own. A theorem on numbers of pods asks that they and the
-- settings lie below 2 ^ 62, so that no `int` wraps.
--
-- Where the model stays coarser than the code. A resource has no version, so that a server which refuses
-- the second update of one synchronisation, since it carries the version from before the first, is one
-- of the servers that the parameters allow, but the theorem of a synchronisation that succeeds does not
-- speak of it. The range over the counters of the discrete analysis takes the order of the first
-- samples, where that of the code is random. Run of a breaker is two definitions, the loop (`run`) and
-- the loop after the making of its ticker, which may panic (`run_with_ticker`). In the start, DefineKubervisorResources is one of the makers and what Run comes to is a
-- parameter, though both are modelled on their own, in Registration and in Running.
--
-- What is not modelled. Log output, the generated clientset and deep copies, the vendored libraries, the
-- making of the informers and of the event recorder in New, the parsing of the command lines, and
-- the layout of the plugin's table.
pub mod Prelude
pub mod Kube
pub mod Labeling
pub mod Pod
pub mod Api
pub mod Breaker
pub mod Activate
pub mod Detector
pub mod Controller
pub mod Election
pub mod Plugin
pub mod Registration
pub mod Lifecycle
pub mod Startup
mod Examples

-- ===== src/Controller.antt =====
-- pkg/controller: the synchronisation of a resource (Sync), its conditions (Conditions), the labels of
-- its pods (Pods), the items that run its breakers (Item, Status), and the collector of labels that no
-- resource owns (Collector).
pub mod Conditions
pub mod ConditionLaws
pub mod Status
pub mod Collector
pub mod CollectorLaws
pub mod Ticks
pub mod TickLaws
pub mod TickCounters
pub mod Item
pub mod Store
pub mod Routines
pub mod RoutineLaws
pub mod RoutineStops
pub mod Tracking
pub mod StoreRules
pub mod Steps
pub mod Phases
pub mod Making
pub mod Ensuring
pub mod Maintaining
pub mod Keeping
pub mod TrackingLaws
pub mod Contract
pub mod Cooperation
pub mod SuccessLaws
pub mod ContractLaws
pub mod ReconcileLaws
pub mod Env
pub mod Reconcile
pub mod ItemLaws
pub mod ItemParts
pub mod Pods
pub mod Sync
pub mod Worker
pub mod WorkerLaws
pub mod Turns
pub mod TurnLaws
pub mod Informers
pub mod InformerLaws

-- ===== src/Examples.antt =====
-- Concrete inputs at which the theorems are applied, with instances of the parameters.
mod Fixtures
mod Pods
mod Apis
mod Breakers
mod Minima
mod Activators
mod Detectors
mod Controllers
mod Elections
mod Items
mod Workers
mod Lifecycles
mod Startups
mod Registrations
mod Reconciles
mod Serving
mod Turns
mod Events
mod Routines
mod Services

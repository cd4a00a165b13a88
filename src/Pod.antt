-- ===== src/Pod.antt =====
-- pkg/pod: the filters on lists of pods (Tools) and the pods that are written (Requests) and the
-- requests to the API server (Control).
pub mod Tools
pub mod Requests
pub mod RequestLaws
pub mod ControlLaws
pub mod RelabelLaws
pub mod History
pub mod Control
pub mod FilterLaws

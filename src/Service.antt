-- ===== src/Service.antt =====
-- The service of src/service: the controller of scans and searches.
pub mod Controller

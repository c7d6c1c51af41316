-- ===== src/Controller.antt =====
-- The controller service of internal/sharedhostpath/controllerserver.go. Each handler that the
-- source runs under the mutex is one step on the state. A gRPC error is its status code; the text
-- of its message is left out.
pub mod Requests
pub mod Provisioning
pub mod Publishing
pub mod Expansion
pub mod Listing
pub mod Unimplemented

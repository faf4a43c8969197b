-- ===== src/Route.antt =====
-- crates/milk-carton/src/route.rs: signed routes, the policy that they give, and its decisions.
pub mod Types
pub mod Libs
pub mod Validate
pub mod Manifest
pub mod Policy
pub mod Pointer
pub mod Decide
pub mod Prepare
pub mod Binding
pub mod Url

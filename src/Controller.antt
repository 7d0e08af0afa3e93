-- ===== src/Controller.antt =====
-- pkg/controllers/configmapsecret_controller.go: the reconciler, one child for each group of
-- methods.
pub mod Variables
pub mod MakeVariables
pub mod Refs
pub mod Render
pub mod Status
pub mod Owner
pub mod Sync
pub mod Reconcile
pub mod Steps
pub mod Settled
pub mod Manager
pub mod Keeps
pub mod Stable

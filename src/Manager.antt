-- ===== src/Manager.antt =====
-- cmd/main.go: the flags, the options of the servers and of the manager, and the start of the three
-- reconcilers, with the registration of the API types (api/v1alpha1) and `SetupWithManager`.
--
-- `Host` holds what main calls and does not implement: the parsing of the command line, the
-- configuration of the cluster, and the manager of controller-runtime.
pub mod Options
pub mod Launch
pub mod Program
pub mod Secured
pub mod Order
pub mod Started
pub mod Complete

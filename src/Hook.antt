-- ===== src/Hook.antt =====
-- shell-operator/pkg/hook: the bindings of a hook and the controllers that turn events into the
-- contexts that a hook runs with.
pub mod Bindings
pub mod Schedules
pub mod Kubernetes
pub mod Config
pub mod Manager
pub mod Controller
pub mod Init
pub mod Run
pub mod Tests
pub mod LoadTests

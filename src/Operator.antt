-- ===== src/Operator.antt =====
-- shell-operator/pkg/shell-operator: the operator that turns events into tasks and runs hooks.
pub mod Combine
pub mod Events
pub mod HookRun
pub mod Enable
pub mod Startup
pub mod Handler
pub mod System
pub mod Legacy
mod Tests
mod SystemTests

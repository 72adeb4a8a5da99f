-- ===== src/Kube.antt =====
-- Kubernetes events: the data of shell-operator/pkg/kube_events_manager and, in the children,
-- its manager and resource informers.
pub mod Types
pub mod Order
pub mod EventText
pub mod Monitor
pub mod Context
pub mod Informer
pub mod NamespaceInformer
pub mod MonitorState
pub mod Resync
pub mod Manager
pub mod Tests

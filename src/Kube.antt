-- ===== src/Kube.antt =====
-- pkg/kube, and the Kubernetes objects that the client reads.
pub mod Object
pub mod Config
pub mod ServerPod
pub mod Job
pub mod Launch

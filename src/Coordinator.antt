-- ===== src/Coordinator.antt =====
-- internal/coordinator: the registry of the control plane.
pub mod Registry

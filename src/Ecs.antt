-- ===== src/Ecs.antt =====
-- The entity component system, `ECS/`.
pub mod SparseArray
pub mod Components
pub mod Registry
pub mod Systems

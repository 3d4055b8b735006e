-- ===== src/Routing.antt =====
-- The model router: backend/internal/router/model_router.go, with the queries behind it in
-- backend/internal/storage/store.go. Locks are left out: each operation is one step.
pub mod Sort
pub mod Candidates
pub mod Order
pub mod Cost
pub mod Registry
pub mod KeySources
pub mod Selection
pub mod Guarantees
pub mod Workspace
pub mod Tests

-- ===== src/Domain.antt =====
-- The pure domain layer, packages/domain/src/domain: the registries of models, the serving
-- window, the life of a forecast cycle and the rules of reclamation.
pub mod Time
pub mod Horizon
pub mod Cadence
pub mod Temporal
pub mod Lifecycle
pub mod Reclamation
pub mod Coverage
pub mod Canonical
pub mod Registration
pub mod StorageDtype

-- ===== src/Delivery.antt =====
-- The delivery of fiscal documents by e-mail
-- (src/modules/fiscal-documents/domain/delivery and application/delivery).
pub mod StateMachine
pub mod RetryClassifier
pub mod Transitions
pub mod RetryBounds
pub mod Worker
mod Tests

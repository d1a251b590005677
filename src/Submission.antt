-- ===== src/Submission.antt =====
-- The submission of fiscal documents to Hacienda
-- (src/modules/fiscal-documents/domain/submission and application/submission).
pub mod StateMachine
pub mod Lifecycle
pub mod RetryClassifier
pub mod RetrySafety
pub mod Provider
pub mod State
pub mod Worker
pub mod Requests
pub mod Runs
mod Tests

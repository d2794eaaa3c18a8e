-- ===== src/Http.antt =====
-- The HTTP side: the failures of errors.py, the dependencies of deps.py and the handlers of
-- src/supernote_task_service/routers.
pub mod Failures
pub mod Deps
pub mod Tasks
pub mod Lists
pub mod Writes
pub mod Outcomes
pub mod Creation
pub mod ListWrites
pub mod Quota
pub mod Middleware
pub mod Responses
pub mod Service
mod Runs
mod Tests

-- ===== src/Downloads.antt =====
-- Syncing sources: src/downloader.rs, which runs one source, and src/services/downloads.rs, which
-- pauses, resumes and reports on all of them.
pub mod Retry
pub mod Source
pub mod Decide
pub mod Budget
pub mod Admit
pub mod Limits
pub mod Controls
pub mod Tokens
pub mod Stopping
pub mod Pausing
pub mod Resuming
pub mod Report
pub mod Queue
mod Tests

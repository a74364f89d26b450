-- ===== src/Jobs.antt =====
-- Crawl jobs: app/core/errors.py, app/db/models, app/db/repositories and app/api/routes/crawl_jobs.py.
pub mod Models
pub mod Database
pub mod Errors
pub mod Intake
pub mod Repository
pub mod Routes

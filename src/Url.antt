-- ===== src/Url.antt =====
-- app/services/crawler/url_normalizer.py: canonical URLs, the crawl scope, and the check that a
-- target is public. The parts of a URL have a module each.
pub mod Errors
pub mod Percent
pub mod Path
pub mod Query
pub mod Host
pub mod Normalize
pub mod Scope
pub mod Public

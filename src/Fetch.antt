-- ===== src/Fetch.antt =====
-- app/services/crawler/fetcher.py: fetching a page with retries, validated redirects and a bounded
-- body. The client, the clock and the resolver are a parameter, `Network` of Fetch/Network.antt.
pub mod Network
pub mod Content
pub mod Config
pub mod Retry
pub mod Page
pub mod Settings
pub mod Pinned

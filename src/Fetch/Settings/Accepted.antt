-- ===== src/Fetch/Settings/Accepted.antt =====
-- Which settings make a fetcher.
use webintel.Fetch.Config.{Config, default_retry_backoffs}
use webintel.Fetch.Settings.{Settings}

-- The fetcher has the limits of the settings.
abbrev pub config_of : Settings → Config
config_of s = record {
  user_agent = s.crawler_user_agent;
  timeout = s.fetch_timeout;
  retries = s.fetch_retries;
  max_redirects = s.fetch_max_redirects;
  max_response_bytes = s.fetch_max_response_bytes;
  backoffs = default_retry_backoffs;
}

-- ===== src/Fetch/Config.antt =====
-- PageFetcher.__init__: the limits of a fetcher, checked. The seconds of a float are given in
-- milliseconds.
use webintel.Prelude.{
  ℕ, ℤ, pos, negsuc, is_negative, is_below, pos_part, ◌≡◌, subst, ◌≤◌, Bool, false, ◌||◌, List, [],
  ◌∷◌, Text, ltb, length, is_empty, arith,
}
use webintel.Prelude.Result.{Result, ok, ◌>>◌, raise_if, >>=-eq-ok, raise_if-eq-ok, ok-injective}
use webintel.Py.Str.{strip, is_space}

pub data ConfigError : Type 0 where
  empty_user_agent limits_not_positive too_few_backoffs : ConfigError

-- DEFAULT_RETRY_BACKOFF_SECONDS
abbrev pub default_retry_backoffs : List ℕ
default_retry_backoffs = 1000 ∷ 3000 ∷ 5000 ∷ 10000 ∷ 20000 ∷ []

pub record Config : Type 0 where
  pub user_agent : Text
  pub timeout : ℕ
  pub retries : ℕ
  pub max_redirects : ℕ
  pub max_response_bytes : ℕ
  pub backoffs : List ℕ

unfoldable pub new_config : Text → ℤ → ℤ → ℤ → ℤ → List ℕ → Result ConfigError Config
new_config user_agent timeout retries max_redirects max_response_bytes backoffs = do
  raise_if (is_empty (strip is_space user_agent)) empty_user_agent
  raise_if
      (is_below timeout 1
        || is_negative retries
        || is_negative max_redirects
        || is_below max_response_bytes 1)
      limits_not_positive
  raise_if (ltb (length backoffs) (pos_part retries)) too_few_backoffs
  ok (record {
    user_agent = user_agent;
    timeout = pos_part timeout;
    retries = pos_part retries;
    max_redirects = pos_part max_redirects;
    max_response_bytes = pos_part max_response_bytes;
    backoffs = backoffs;
  })

-- There is a delay for each retry, and a body of at least one byte is allowed.
pub record IsValid (c : Config) : Type 0 where
  pub delays : c.retries ≤ length c.backoffs
  pub room : 1 ≤ c.max_response_bytes

below-one : (b : ℤ) → is_below b 1 ≡ false → 1 ≤ pos_part b
below-one (pos n) h = ground (arith, h)
below-one (negsuc n) h = cc

not-below :
    (t r m b : ℤ)
    → (is_below t 1 || is_negative r || is_negative m || is_below b 1) ≡ false
    → is_below b 1 ≡ false
not-below t r m b h = last (is_below t 1) (is_negative r) (is_negative m) (is_below b 1) h
  where
    last : (x y z w : Bool) → (x || y || z || w) ≡ false → w ≡ false
    last x y z w h = ground arith

-- A fetcher that the constructor accepts has a delay for each of its retries, and its limit allows
-- a body of at least one byte.
pub new_config-IsValid :
    (user_agent : Text) (timeout retries max_redirects max_response_bytes : ℤ) (backoffs : List ℕ)
    {c : Config}
    → new_config user_agent timeout retries max_redirects max_response_bytes backoffs ≡ ok c
    → IsValid c
unfolding new_config
new_config-IsValid ua t r m b backoffs h =
    let (u₁, e₁, h₁) = >>=-eq-ok (raise_if (is_empty (strip is_space ua)) _) _ h in
    let (u₂, e₂, h₂) =
      >>=-eq-ok (raise_if (is_below t 1 || is_negative r || is_negative m || is_below b 1) _) _
        h₁ in
    let (u₃, e₃, h₃) = >>=-eq-ok (raise_if (ltb (length backoffs) (pos_part r)) _) _ h₂ in
    let few = raise_if-eq-ok (ltb (length backoffs) (pos_part r)) _ e₃ in
    let positive =
      raise_if-eq-ok (is_below t 1 || is_negative r || is_negative m || is_below b 1) _ e₂ in
    subst IsValid (ok-injective h₃)
      (record { delays = ground (arith, few); room = below-one b (not-below t r m b positive) })

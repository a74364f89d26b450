-- ===== src/Fetch/Page/Outcomes.antt =====
-- How a fetch may end, and that each round of its loop keeps to the limits.
use webintel.Prelude.{
  ℕ, ◌+◌, ◌-◌, ◌*◌, ◌≤◌, ◌<◌, ◌≡◌, refl, false, List, [], ◌∷◌, ◌++◌, Option, none, some, Text, leb,
  arith, length, length-append, Bool-cases, inl, inr, codes,
}
use webintel.Prelude.Result.{Result, ok, err}
use webintel.Py.Tables.{Python}
use webintel.Url.Errors.{UrlError}
use webintel.Url.Normalize.{normalize_url}
use webintel.Fetch.Network.{timeout, transport, other, Network}
use webintel.Fetch.Content.{is_redirect_code}
use webintel.Fetch.Config.{Config}
use webintel.Fetch.Retry
use webintel.Fetch.Retry.{
  State, FetchedResponse, RequestError, response_too_large, http_error, filled,
  request_with_retries,
}
use webintel.Fetch.Retry.Trace.{opens, closes, requests, RequestLaw}
use webintel.Fetch.Page.{
  FetchResult, FetchError, url_error, fetch_timeout_error, fetch_network_error,
  redirect_fetch_error, response_too_large_error, client_error, index_error, assertion_error,
  out_of_fuel, Fetcher, Loop, Visit, follow, stop, raised, redirect_to, fetch_result, on_fetched,
  on_result,
}

-- The outcome of a fetch, where `sent` is the number of the requests that it sent: the attempts
-- that are reported are the requests; a result has followed no more redirects than allowed, with at
-- most one request and its retries for each; neither the fuel nor a delay was missing.
module _ (config : Config) (sent : ℕ) where
  abbrev pub Outcome : Result FetchError FetchResult → Type 0
  Outcome (ok r) =
      (sent ≡ r.attempts)
      × (1 ≤ r.attempts)
      × (r.attempts ≤ (config.retries + 1) * (length r.redirect_chain + 1))
      × (length r.redirect_chain ≤ config.max_redirects)
  Outcome (err (url_error e)) = Unit
  Outcome (err (client_error e)) = Unit
  Outcome (err (fetch_timeout_error f)) = sent ≡ f.attempts
  Outcome (err (fetch_network_error f)) = sent ≡ f.attempts
  Outcome (err (redirect_fetch_error f)) = sent ≡ f.attempts
  Outcome (err (response_too_large_error f)) = sent ≡ f.attempts
  Outcome (err index_error) = ⊥
  Outcome (err assertion_error) = ⊥
  Outcome (err out_of_fuel) = ⊥

-- A fetch that ends, from a log with `o` opened and `c` closed responses and `r` requests: all that
-- was opened is closed, and the requests sent are within the limits.
module _ {net : Network} (config : Config) (o c r : ℕ) where
  pub record IsBounded (answer : Result FetchError FetchResult × Fetcher net) : Type 0 where
    pub sent : ℕ
    pub balance : opens answer.1.outside.log + c ≡ closes answer.1.outside.log + o
    pub count : requests answer.1.outside.log ≡ r + sent
    pub limit : sent ≤ (config.retries + 1) * (config.max_redirects + 1)
    pub outcome : Outcome config sent answer.0

module _ (py : Python) (net : Network) (config : Config) (accepted : List Text) (requested : Text)
    (started : net.Time) (delays : config.retries ≤ length config.backoffs) (o c r : ℕ) where
  pub record LoopLaw (l : Loop net) : Type 0 where
    pub balance : opens l.fetcher.outside.log + c ≡ closes l.fetcher.outside.log + o
    pub count : requests l.fetcher.outside.log ≡ r + l.total_attempts
    pub attempts : l.total_attempts ≤ (config.retries + 1) * length l.redirect_chain
    pub redirects : length l.redirect_chain ≤ config.max_redirects

  abbrev pub VisitLaw : ℕ → Visit net → Type 0
  VisitLaw n (follow l) = LoopLaw l × (length l.redirect_chain ≡ n + 1)
  VisitLaw n (stop result f) = IsBounded config o c r (result, f)

  product_le : (a n m : ℕ) → n ≤ m → (a + 1) * n ≤ (a + 1) * m
  product_le a n m h = grind arith

  -- The attempts and the redirects of the loop's variables.
  abbrev LoopLaw' : Loop net → Type 0
  LoopLaw' l =
      (l.total_attempts ≤ (config.retries + 1) * length l.redirect_chain)
      × (length l.redirect_chain ≤ config.max_redirects)

  room :
      (l : Loop net) (n : ℕ)
      → l.total_attempts ≤ (config.retries + 1) * length l.redirect_chain
      → length l.redirect_chain ≤ config.max_redirects
      → n ≤ config.retries + 1
      → l.total_attempts + n ≤ (config.retries + 1) * (config.max_redirects + 1)
  room l n a d h =
      omega (arith, product_le config.retries (length l.redirect_chain) config.max_redirects d)

  pub below_limit :
      (l : Loop net)
      → l.total_attempts ≤ (config.retries + 1) * (length l.redirect_chain + 1)
      → length l.redirect_chain ≤ config.max_redirects
      → l.total_attempts ≤ (config.retries + 1) * (config.max_redirects + 1)
  below_limit l a d =
      omega (arith, product_le config.retries (length l.redirect_chain) config.max_redirects d)

  ok-law :
      (l : Loop net) (f : FetchedResponse)
      → opens l.fetcher.outside.log + c ≡ closes l.fetcher.outside.log + o
      → requests l.fetcher.outside.log ≡ r + l.total_attempts
      → 1 ≤ l.total_attempts
      → l.total_attempts ≤ (config.retries + 1) * (length l.redirect_chain + 1)
      → length l.redirect_chain ≤ config.max_redirects
      → IsBounded config o c r
          (ok (fetch_result py net config accepted requested started l f), l.fetcher)
  ok-law l f b k one a d = record {
    sent = l.total_attempts;
    balance = b;
    count = k;
    limit = below_limit l a d;
    outcome = (refl, one, a, d);
  }

  redirect_to-law :
      (l : Loop net) (next : Result UrlError Text)
      → opens l.fetcher.outside.log + c ≡ closes l.fetcher.outside.log + o
      → requests l.fetcher.outside.log ≡ r + l.total_attempts
      → l.total_attempts ≤ (config.retries + 1) * (length l.redirect_chain + 1)
      → length l.redirect_chain < config.max_redirects
      → VisitLaw (length l.redirect_chain) (
          redirect_to py net config accepted requested started
            (record l { redirect_chain = l.redirect_chain ++ l.current_url ∷ [] })
            next)
  redirect_to-law l (ok url) b k a d = (
    record {
      balance = b;
      count = k;
      attempts = rw (length-append l.redirect_chain (l.current_url ∷ [])) (omega arith);
      redirects = omega (arith, length-append l.redirect_chain (l.current_url ∷ []));
    },
    omega (arith, length-append l.redirect_chain (l.current_url ∷ [])),
  )
  redirect_to-law l (err e) b k a d = record {
    sent = l.total_attempts;
    balance = b;
    count = k;
    limit = below_limit l a (omega arith);
    outcome = tt;
  }

  on_fetched-law :
      (l : Loop net) (f : FetchedResponse) (location : Option Text)
      → opens l.fetcher.outside.log + c ≡ closes l.fetcher.outside.log + o
      → requests l.fetcher.outside.log ≡ r + l.total_attempts
      → 1 ≤ l.total_attempts
      → l.total_attempts ≤ (config.retries + 1) * (length l.redirect_chain + 1)
      → length l.redirect_chain ≤ config.max_redirects
      → VisitLaw
          (length l.redirect_chain)
          (on_fetched py net config accepted requested started l f location)
  unfolding on_fetched
  on_fetched-law l f none b k one a d = ok-law l f b k one a d
  on_fetched-law l f (some location) b k one a d =
      elim (Bool-cases (is_redirect_code f.status_code)) [
        | inr final ↦ rw final (ok-law l f b k one a d)
        | inl redirect ↦
            rw redirect (elim (Bool-cases (leb config.max_redirects (length l.redirect_chain))) [
              | inl over ↦ rw over (record {
                sent = l.total_attempts;
                balance = b;
                count = k;
                limit = below_limit l a d;
                outcome = refl;
              })
              | inr more ↦ rw more (
                  redirect_to-law l (normalize_url py location (some l.current_url) false) b k a
                    (ground (arith, more)))
            ])
      ]

  pub on_result-law :
      (l : Loop net) (answer : Result RequestError (FetchedResponse × ℕ) × State net)
      → LoopLaw' l
      → RequestLaw config o c (r + l.total_attempts) answer
      → VisitLaw
          (length l.redirect_chain)
          (on_result py net config accepted requested started l answer)
  unfolding on_result raised
  on_result-law l (ok (f, n), s) (a, d) (b, k, one, most) =
      on_fetched-law _ f (filled (f.header (codes "location"))) b (omega (arith, k)) (omega arith)
        (omega arith) d
  on_result-law l (err (response_too_large n), s) (a, d) (b, k, one, most) = record {
    sent = l.total_attempts + n;
    balance = b;
    count = omega (arith, k);
    limit = room l n a d most;
    outcome = refl;
  }
  on_result-law l (err (http_error timeout), s) (a, d) (b, k) = record {
    sent = l.total_attempts + (config.retries + 1);
    balance = b;
    count = omega (arith, k);
    limit = room l (config.retries + 1) a d (omega arith);
    outcome = refl;
  }
  on_result-law l (err (http_error transport), s) (a, d) (b, k) = record {
    sent = l.total_attempts + (config.retries + 1);
    balance = b;
    count = omega (arith, k);
    limit = room l (config.retries + 1) a d (omega arith);
    outcome = refl;
  }
  on_result-law l (err (http_error other), s) (a, d) (b, k, most) = record {
    sent = requests s.log - r;
    balance = b;
    count = omega arith;
    limit = omega (arith, room l (requests s.log - r - l.total_attempts) a d (omega arith));
    outcome = tt;
  }
  on_result-law l (err Retry.index_error, s) h bad = absurd bad
  on_result-law l (err Retry.assertion_error, s) h bad = absurd bad

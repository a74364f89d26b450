-- ===== src/Samples/FetchTests.antt =====
-- The theorems on the fetcher at the sample network.
use webintel.Prelude.{
  ℕ, ◌≡◌, refl, ◌∷◌, [], Text, none, codes, text_eq, text_Eq, nat_Eq, pair_Eq, arith,
}
use webintel.Prelude.Result.{Result, ok, err}
use webintel.Prelude.Dict
use webintel.Py.Split.{urlsplit, hostname, port}
use webintel.Url.Public.{port_or_default}
use webintel.Fetch.Content.{read_limited, content_length}
use webintel.Py.Str.{lower_char}
use webintel.Fetch.Content.Limit.{bytes, ending, read_limited_lem}
use webintel.Fetch.Pinned.{approve, connect_tcp}
use webintel.Fetch.Pinned.Dialing.{DialsOnly, connect_tcp-approve}
use webintel.Fetch.Retry.{request_with_retries}
use webintel.Fetch.Retry.Trace.{opens, closes, requests, RequestLaw, request_with_retries_trace}
use webintel.Fetch.Page.{fetch}
use webintel.Fetch.Page.Outcomes.{IsBounded}
use webintel.Fetch.Page.Bounds.{fetch_bounds}
use webintel.Fetch.Page.Guarded.{IsGuarded, fetch-IsGuarded}
use webintel.Samples.{
  sample_python, sample_network, sample_config, sample_fetcher, start_url, html_response,
  sample_address, target_of,
}

fetch-IsGuarded_example :
    IsGuarded
      (fetch sample_python sample_network sample_config [] start_url sample_fetcher).1.outside.log
fetch-IsGuarded_example =
    fetch-IsGuarded sample_python sample_network sample_config [] start_url sample_fetcher tt

fetch_bounds_example :
    IsBounded sample_config 0 0 0
      (fetch sample_python sample_network sample_config [] start_url sample_fetcher)
unfolding opens closes requests
fetch_bounds_example =
    fetch_bounds sample_python sample_network sample_config [] start_url sample_fetcher
      (omega arith)

request_with_retries_trace_example : RequestLaw sample_config 0 0 0 (
    request_with_retries sample_python sample_network sample_config [] start_url
      (sample_fetcher.outside))
unfolding opens closes requests
request_with_retries_trace_example =
    request_with_retries_trace sample_python sample_network sample_config [] start_url
      (sample_fetcher.outside) (omega arith)

read_limited_lem_example : read_limited sample_python html_response 100 ≡ ok (codes "<p></p>")
unfolding read_limited content_length bytes ending sample_python text_eq
read_limited_lem_example = read_limited_lem sample_python html_response 100

abbrev connect_refused : Unit {0} → Text → ℕ → Result (Unit {0}) (Unit {0}) × Unit {0}
connect_refused w address number = (err tt, tt)

connect_tcp-approve_example :
    DialsOnly connect_refused 80
      (sample_address ∷ [])
      (record { world = tt; dialed = [] })
      (connect_tcp connect_refused
        (Dict.set [] (codes "example.com", 80) (sample_address ∷ []))
        (codes "example.com")
        80
        (record { world = tt; dialed = [] })).1
unfolding port_or_default urlsplit hostname port approve sample_python text_eq lower_char
connect_tcp-approve_example =
    connect_tcp-approve connect_refused sample_python [] (target_of start_url)
      (record {
        scheme = codes "http";
        netloc = codes "example.com";
        path = codes "/start";
        query = [];
        fragment = [];
      })
      (codes "example.com") none (Dict.set [] (codes "example.com", 80) (sample_address ∷ []))
      (record { world = tt; dialed = [] }) refl refl refl refl

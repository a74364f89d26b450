-- ===== src/Samples.antt =====
-- Concrete environments: simple tables for the Python standard library, a network that redirects
-- once, and tables of rows. The tests below run the theorems on them.
use webintel.Prelude.{
  ℕ, ◌≡◌, refl, Bool, true, false, List, [], ◌∷◌, ◌++◌, Option, none, some, Text, ◌==◌, text_Eq,
  if◌then◌else◌, codes, map, pos,
}
use webintel.Prelude.Result.{Result, ok, err}
use webintel.Py.Str.{ascii_lower, partition, split, join, ascii_int}
use webintel.Py.Tables.{Python, IpAddress, v4}
use webintel.Url.Errors.{UrlError}
use webintel.Url.Public.{ResolvedPublicTarget}
use webintel.Fetch.Network.{HttpError, Body, done, chunk, Response, Network}
use webintel.Fetch.Config.{Config}
use webintel.Fetch.Page.{Fetcher}
use webintel.Html.{str, Element, TextNode, BeautifulSoup}
pub mod Codec
pub mod UrlTests
pub mod FetchTests
pub mod JobsTests
pub mod LinksTests
pub mod ParsingTests
pub mod RobotsTests
pub mod AppTests
pub mod HealthTests
pub mod LoggingTests
pub mod PagesTests
pub mod SchemaTests

abbrev pub sample_address : Text
sample_address = codes "93.184.216.34"

-- Queries without escapes: `name=value` joined by `&`.
unfoldable pub parse_item : Text → Text × Text
unfolding partition
parse_item s = let (name, found, value) = partition b'=' s in (name, value)

unfoldable pub parse_items : Text → List (Text × Text)
unfolding parse_item split
parse_items q = map parse_item (split b'&' q)

unfoldable pub print_items : List (Text × Text) → Text
unfolding join
print_items items = join b'&' (map (λ p. p.0 ++ b'=' ∷ p.1) items)

unfoldable pub sample_python : Python
unfolding ascii_int parse_items print_items
sample_python = record {
  unescape = λ s. s;
  lower = ascii_lower;
  int = λ s. elim (ascii_int s) [ none ↦ none | some n ↦ some (pos n) ];
  idna = λ s. some s;
  is_valid_netloc = λ s. true;
  urljoin = λ base url. some url;
  urldefrag = λ url. some url;
  unquote = λ s. s;
  parse_qsl = parse_items;
  urlencode = print_items;
  ip_address = λ s. if s == sample_address then some (v4 1572395042) else none;
  str_address = λ a. sample_address;
  is_global = λ a. true;
}

abbrev pub start_url : Text
start_url = codes "http://example.com/start"

abbrev pub end_url : Text
end_url = codes "http://example.com/end"

abbrev pub target_of : Text → ResolvedPublicTarget
target_of url = record { url = url; addresses = v4 1572395042 ∷ [] }

abbrev pub redirect_response : Response
redirect_response = record {
  status_code = 302;
  header = λ name. if name == codes "location" then some end_url else none;
  encoding = none;
  body = done;
}

abbrev pub html_response : Response
html_response = record {
  status_code = 200;
  header = λ name. if name == codes "content-type" then some (codes "text/html") else none;
  encoding = none;
  body = chunk (codes "<p>") (chunk (codes "</p>") done);
}

-- Times and worlds are of no account; the start page redirects to the end page.
abbrev pub sample_network : Network
sample_network = record {
  World = Unit {0};
  send = λ w url. (if url == start_url then ok redirect_response else ok html_response, w);
  validate = λ w url. (ok (target_of url), w);
  after_close = λ w. w;
  after_sleep = λ w n. w;
  Time = Unit {0};
  monotonic = λ w. tt;
  milliseconds = λ a b. pos 0;
  decode = λ encoding bytes. some bytes;
}

abbrev pub sample_config : Config
sample_config = record {
  user_agent = codes "bot";
  timeout = 1000;
  retries = 2;
  max_redirects = 5;
  max_response_bytes = 100;
  backoffs = 1000 ∷ 3000 ∷ [];
}

abbrev pub sample_fetcher : Fetcher sample_network
sample_fetcher = record { approved = none; outside = record { world = tt; log = [] } }

-- A document with one heading, one anchor and one string; a soup is of no account.
abbrev pub element_of : Text → Text → Text → Text → Element
element_of name attribute value text = record {
  name = name;
  get = λ wanted. if wanted == attribute then some (str value) else none;
  get_text = text;
}

abbrev pub sample_anchor : Element
sample_anchor = element_of (codes "a") (codes "href") end_url (codes "blog")

abbrev pub mail_anchor : Element
mail_anchor = element_of (codes "a") (codes "href") (codes "mailto:Me@a.io") (codes "write")

abbrev pub sample_heading : Element
sample_heading = element_of (codes "h1") [] [] (codes "Hi  all")

abbrev pub sample_string : TextNode
sample_string = record { is_comment = false; parent = some (codes "p"); string = codes "x@b.io " }

abbrev pub sample_html : List Element → BeautifulSoup
sample_html anchors = record {
  Soup = Unit {0};
  parse = λ text. tt;
  find_all = λ soup names. elim names [
    | [] ↦ []
    | name ∷ rest ↦ if name == codes "h1" then sample_heading ∷ [] else []
  ];
  find_all_href = λ soup name. if name == codes "a" then anchors else [];
  find_all_strings = λ soup. sample_string ∷ [];
  title = λ soup. some sample_heading;
}

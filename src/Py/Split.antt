-- ===== src/Py/Split.antt =====
-- urllib.parse: urlsplit, the properties of its result, and urlunsplit.
use webintel.Prelude.{
  ℕ, Bool, false, not, ◌&&◌, ◌||◌, [], ◌∷◌, ◌++◌, Option, none, some, leb, ◌==◌, nat_Eq, text_Eq,
  if◌then◌else◌, Text, all, contains, is_empty, keep,
}
use webintel.Py.Str.{
  lstrip, partition, rpartition, ascii_lower, is_upper, is_lower, is_alnum, ascii_int,
}
use webintel.Py.Tables.{Python}
pub mod Laws

pub record SplitResult : Type 0 where
  pub scheme : Text
  pub netloc : Text
  pub path : Text
  pub query : Text
  pub fragment : Text

abbrev is_scheme_char : ℕ → Bool
is_scheme_char c = is_alnum c || c == b'+' || c == b'-' || c == b'.'

abbrev starts_alpha : Text → Bool
starts_alpha [] = false
starts_alpha (c ∷ s) = is_upper c || is_lower c

-- The scheme in lower case, and what follows its colon.
unfoldable pub split_scheme : Text → Text × Text
unfolding partition
split_scheme url =
    let p = partition b':' url in
    if p.1 && starts_alpha url && all is_scheme_char p.0 then (ascii_lower p.0, p.2) else ([], url)

abbrev pub is_delimiter : ℕ → Bool
is_delimiter c = c == b'/' || c == b'?' || c == b'#'

-- The text before the first delimiter, and the rest.
unfoldable pub split_netloc : Text → Text × Text
split_netloc [] = ([], [])
split_netloc (c ∷ s) =
    let r = split_netloc s in if is_delimiter c then ([], c ∷ s) else (c ∷ r.0, r.1)

unfoldable pub netloc_and_rest : Text → Text × Text
unfolding split_netloc
netloc_and_rest (a ∷ b ∷ s) = if a == b'/' && b == b'/' then split_netloc s else ([], a ∷ b ∷ s)
netloc_and_rest s = ([], s)

-- One of "[" and "]" without the other is refused.
unfoldable pub has_balanced_brackets : Text → Bool
has_balanced_brackets s =
    (contains s b'[' && contains s b']') || (not (contains s b'[') && not (contains s b']'))

abbrev pub is_unsafe : ℕ → Bool
is_unsafe c = c == 9 || c == 10 || c == 13

-- urlsplit(url); `none` is ValueError
unfoldable pub urlsplit : Python → Text → Option SplitResult
unfolding split_scheme netloc_and_rest has_balanced_brackets partition lstrip
urlsplit py raw =
    let url = keep (λ c. not (is_unsafe c)) (lstrip (λ c. leb c 32) raw) in
    let s = split_scheme url in
    let n = netloc_and_rest s.1 in
    let f = partition b'#' n.1 in
    let q = partition b'?' f.0 in
    if has_balanced_brackets n.0 && py.is_valid_netloc n.0
    then some (record { scheme = s.0; netloc = n.0; path = q.0; query = q.2; fragment = f.2 })
    else none

-- SplitResult._hostinfo: the host and the port, each as it is written
unfoldable pub host_info : Text → Text × Text
unfolding partition rpartition
host_info netloc =
    let info = (rpartition b'@' netloc).2 in
    let b = partition b'[' info in
    let h = partition b']' b.2 in
    let plain = partition b':' info in
    if b.1 then (h.0, (partition b':' h.2).2) else (plain.0, plain.2)

-- SplitResult.hostname: a zone behind "%" keeps its case
unfoldable pub lower_host : Python → Text → Text
unfolding partition
lower_host py host = let z = partition b'%' host in py.lower z.0 ++ (if z.1 then b'%' ∷ z.2 else [])

unfoldable pub hostname : Python → SplitResult → Option Text
unfolding host_info lower_host
hostname py r =
    let host = (host_info r.netloc).0 in if is_empty host then none else some (lower_host py host)

-- SplitResult.port; the outer `none` is ValueError
abbrev pub in_range : Option ℕ → Option (Option ℕ)
in_range none = none
in_range (some n) = if leb n 65535 then some (some n) else none

unfoldable pub port : SplitResult → Option (Option ℕ)
unfolding host_info ascii_int
port r =
    let written = (host_info r.netloc).1 in
    if is_empty written then some none else in_range (ascii_int written)

-- SplitResult.username is not None; the password is None whenever the user name is.
unfoldable pub has_userinfo : SplitResult → Bool
unfolding rpartition
has_userinfo r = (rpartition b'@' r.netloc).1

abbrev pub with_slash : Text → Text
with_slash [] = []
with_slash (c ∷ s) = if c == b'/' then c ∷ s else b'/' ∷ c ∷ s

abbrev pub after_mark : ℕ → Text → Text
after_mark mark [] = []
after_mark mark (c ∷ s) = mark ∷ c ∷ s

-- urlunsplit((scheme, netloc, path, query, "")) for a network location that is not empty
unfoldable pub urlunsplit : Text → Text → Text → Text → Text
urlunsplit scheme netloc path query =
    (if is_empty scheme then [] else scheme ++ b':' ∷ [])
    ++ b'/' ∷ b'/' ∷ netloc
    ++ with_slash path
    ++ after_mark b'?' query

-- ===== src/Py/Split/Laws.antt =====
-- urlsplit reads back what urlunsplit wrote, and what its parts cannot contain.
use webintel.Prelude.{
  ℕ, ◌≡◌, refl, ap, ◌∙◌, ◌⊎◌, inl, inr, Bool, true, false, not, ◌||◌, [], ◌∷◌, ◌++◌, some, leb,
  ◌==◌, nat_Eq, text_Eq, Text, any, contains, keep, codes, arith, append-nil, append_assoc,
}
use webintel.Py.Str.{lower_char, lstrip, partition, rpartition}
use webintel.Py.Tables.{Python}
use webintel.Py.Split.{
  SplitResult, split_scheme, is_delimiter, split_netloc, is_unsafe, netloc_and_rest,
  has_balanced_brackets, urlsplit, urlunsplit, with_slash, after_mark,
}

pub partition-none : (c : ℕ) (s : Text) → contains s c ≡ false → partition c s ≡ (s, false, [])
unfolding partition
partition-none c [] h = refl
partition-none c (x ∷ s) h = let (e, k) = ground_split c x s h in rw (e, partition-none c s k) refl
  where
    ground_split :
        (c x : ℕ) (s : Text)
        → (x == c || contains s c) ≡ false
        → ((x == c) ≡ false) × (contains s c ≡ false)
    ground_split c x s h = (ground (arith, h), ground (arith, h))

pub partition-append :
    (c : ℕ) (s t : Text) → contains s c ≡ false → partition c (s ++ c ∷ t) ≡ (s, true, t)
unfolding partition
partition-append c [] t h = let e : (c == c) ≡ true = ground arith in rw e refl
partition-append c (x ∷ s) t h =
    let e : (x == c) ≡ false = ground (arith, h) in
    let k : contains s c ≡ false = ground (arith, h) in rw (e, partition-append c s t k) refl

pub rpartition-none : (c : ℕ) (s : Text) → contains s c ≡ false → rpartition c s ≡ ([], false, s)
unfolding rpartition
rpartition-none c [] h = refl
rpartition-none c (x ∷ s) h =
    let e : (x == c) ≡ false = ground (arith, h) in
    let k : contains s c ≡ false = ground (arith, h) in rw (rpartition-none c s k, e) refl

-- Nothing, or a text that begins with a delimiter.
abbrev pub IsTail : Text → Type 0
IsTail [] = Unit
IsTail (c ∷ s) = is_delimiter c ≡ true

pub split_netloc-append :
    (s t : Text) → any is_delimiter s ≡ false → IsTail t → split_netloc (s ++ t) ≡ (s, t)
unfolding split_netloc
split_netloc-append [] [] h k = refl
split_netloc-append [] (c ∷ t) h k = rw k refl
split_netloc-append (x ∷ s) t h k =
    let e : is_delimiter x ≡ false = ground (arith, h) in
    let l : any is_delimiter s ≡ false = ground (arith, h) in
    rw (e, split_netloc-append s t l k) refl

pub contains-append : (s t : Text) (c : ℕ) → contains (s ++ t) c ≡ (contains s c || contains t c)
contains-append [] t c = refl
contains-append (x ∷ s) t c = ground (arith, contains-append s t c)

pub keep-same : (p : ℕ → Bool) (s : Text) → any p s ≡ false → keep (λ c. not (p c)) s ≡ s
keep-same p [] h = refl
keep-same p (x ∷ s) h = ground (arith, keep-same p s)

-- A path behind a network location: empty, or with a slash at its head.
abbrev pub IsRooted : Text → Type 0
IsRooted [] = Unit
IsRooted (c ∷ s) = c ≡ b'/'

IsTail-rooted : (path query : Text) → IsRooted path → IsTail (path ++ after_mark b'?' query)
IsTail-rooted [] [] h = tt
IsTail-rooted [] (c ∷ q) h = refl
IsTail-rooted (c ∷ path) query h = ground (arith, h)

pub with_slash-rooted : (path : Text) → IsRooted path → with_slash path ≡ path
with_slash-rooted [] h = refl
with_slash-rooted (c ∷ s) h = ground (arith, h)

contains-after_mark :
    (query : Text) → contains query b'#' ≡ false → contains (after_mark b'?' query) b'#' ≡ false
contains-after_mark [] h = refl
contains-after_mark (c ∷ q) h = h

partition-query :
    (path query : Text)
    → contains path b'?' ≡ false
    → ((partition b'?' (path ++ after_mark b'?' query)).0 ≡ path)
      × ((partition b'?' (path ++ after_mark b'?' query)).2 ≡ query)
partition-query path [] h = rw (append-nil path, partition-none b'?' path h) (refl, refl)
partition-query path (c ∷ q) h = rw (partition-append b'?' path (c ∷ q) h) (refl, refl)

-- What is left of a URL behind its scheme is taken apart as it was put together.
module _ (py : Python) (scheme netloc path query : Text)
    (delimited : any is_delimiter netloc ≡ false) (balanced : has_balanced_brackets netloc ≡ true)
    (valid : py.is_valid_netloc netloc ≡ true) (rooted : IsRooted path)
    (no_mark : contains path b'?' ≡ false) (no_hash : contains path b'#' ≡ false)
    (query_no_hash : contains query b'#' ≡ false) where
  rest_of : Text
  rest_of = netloc ++ with_slash path ++ after_mark b'?' query

  netloc_and_rest-rest_of :
      netloc_and_rest (b'/' ∷ b'/' ∷ rest_of) ≡ (netloc, path ++ after_mark b'?' query)
  unfolding netloc_and_rest rest_of
  netloc_and_rest-rest_of =
      rw (with_slash-rooted path rooted, append_assoc netloc path (after_mark b'?' query))
        (split_netloc-append netloc (path ++ after_mark b'?' query) delimited
          (IsTail-rooted path query rooted))

  fragment_free : contains (path ++ after_mark b'?' query) b'#' ≡ false
  fragment_free =
      contains-append path (after_mark b'?' query) b'#'
      ∙ rw (no_hash, contains-after_mark query query_no_hash) refl

  abbrev pub parts : SplitResult
  parts = record { scheme = scheme; netloc = netloc; path = path; query = query; fragment = [] }

  urlsplit-rest_of :
      (url : Text)
      → keep (λ c. not (is_unsafe c)) (lstrip (λ c. leb c 32) url) ≡ url
      → split_scheme url ≡ (scheme, b'/' ∷ b'/' ∷ rest_of)
      → urlsplit py url ≡ some parts
  unfolding urlsplit
  urlsplit-rest_of url clean split =
      rw
        (
          clean,
          split,
          netloc_and_rest-rest_of,
          partition-none b'#' (path ++ after_mark b'?' query) fragment_free,
          balanced,
          valid,
          (partition-query path query no_mark).0,
          (partition-query path query no_mark).1,
        )
        refl

  -- The URL of a scheme http or https is split into its parts.
  pub urlsplit-urlunsplit :
      (scheme ≡ codes "http") ⊎ (scheme ≡ codes "https")
      → any is_unsafe (urlunsplit scheme netloc path query) ≡ false
      → urlsplit py (urlunsplit scheme netloc path query) ≡ some parts
  unfolding urlunsplit split_scheme partition lstrip rest_of lower_char
  urlsplit-urlunsplit (inl e) clean =
      urlsplit-rest_of (urlunsplit scheme netloc path query)
        (rw e (ap (λ t. codes "http" ++ t) (keep-same is_unsafe _ (rw e at clean)))) (rw e refl)
  urlsplit-urlunsplit (inr e) clean =
      urlsplit-rest_of (urlunsplit scheme netloc path query)
        (rw e (ap (λ t. codes "https" ++ t) (keep-same is_unsafe _ (rw e at clean)))) (rw e refl)

-- ===== src/Fetch/Content.antt =====
-- _read_limited, _media_type, _content_length and the sets of statuses and content types
use mathlib.Core.List.{flatten}
use webintel.Prelude.{
  ℕ, ℤ, pos, negsuc, ◌+◌, Bool, true, false, not, ◌&&◌, ◌||◌, List, [], ◌∷◌, ◌++◌, Option, none,
  some, Text, ltb, leb, ◌==◌, nat_Eq, text_Eq, if◌then◌else◌, contains, length, codes, is_empty,
}
use webintel.Prelude.Result.{Result, ok, err, ◌>>=◌, ◌>>◌, raise_if}
use webintel.Py.Str.{partition, strip, is_space, lower_char, ascii_int}
use webintel.Py.Tables.{Python}
use webintel.Fetch.Network.{HttpError, Body, done, chunk, broken, Response}
pub mod Limit

-- HTML_CONTENT_TYPES
abbrev pub html_content_types : List Text
html_content_types = codes "text/html" ∷ codes "application/xhtml+xml" ∷ []

-- TRANSIENT_STATUS_CODES
abbrev pub transient_status_codes : List ℕ
transient_status_codes = 429 ∷ 500 ∷ 502 ∷ 503 ∷ 504 ∷ []

-- REDIRECT_STATUS_CODES
abbrev pub redirect_status_codes : List ℕ
redirect_status_codes = 301 ∷ 302 ∷ 303 ∷ 307 ∷ 308 ∷ []

unfoldable pub is_transient : ℕ → Bool
is_transient code = contains transient_status_codes code

unfoldable pub is_redirect_code : ℕ → Bool
is_redirect_code code = contains redirect_status_codes code

abbrev pub nonempty : Text → Option Text
nonempty [] = none
nonempty (c ∷ s) = some (c ∷ s)

-- _media_type
unfoldable pub media_type : Python → Option Text → Option Text
unfolding partition strip is_space
media_type py none = none
media_type py (some value) = nonempty (py.lower (strip is_space (partition b';' value).0))

abbrev non_negative : Option ℤ → Option ℕ
non_negative (some (pos n)) = some n
non_negative _ = none

-- _content_length
unfoldable pub content_length : Python → Option Text → Option ℕ
content_length py none = none
content_length py (some value) = non_negative (py.int value)

pub data ReadError : Type 0 where
  too_large : ReadError
  failed : HttpError → ReadError

-- The loop over the chunks: what is kept, and its size.
pub read_chunks : ℕ → ℕ → List (List ℕ) → Body → Result ReadError (List ℕ)
read_chunks limit size chunks done = ok (flatten chunks)
read_chunks limit size chunks (broken e) = err (failed e)
read_chunks limit size chunks (chunk c rest) =
    let more = read_chunks limit (size + length c) (chunks ++ c ∷ []) rest in
    if ltb limit (size + length c) then err too_large else more

abbrev pub exceeds : Option ℕ → ℕ → Bool
exceeds none limit = false
exceeds (some n) limit = ltb limit n

-- _read_limited
unfoldable pub read_limited : Python → Response → ℕ → Result ReadError (List ℕ)
unfolding content_length read_chunks
read_limited py response limit = do
  let declared_length = content_length py (response.header (codes "content-length"))
  raise_if (exceeds declared_length limit) too_large
  read_chunks limit 0 [] response.body

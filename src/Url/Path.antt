-- ===== src/Url/Path.antt =====
-- _normalize_path
use webintel.Prelude.{
  ℕ, Bool, true, false, not, ◌&&◌, ◌||◌, List, [], ◌∷◌, ◌==◌, nat_Eq, text_Eq, if◌then◌else◌, Text,
  is_empty,
}
use webintel.Prelude.Result.{Result, ok, err, ◌>>=◌}
use webintel.Py.Str.{starts_with, rstrip}
use webintel.Py.Posix.{normpath, dot}
use webintel.Url.Errors.{UrlError}
use webintel.Url.Percent.{normalize_percent_encoding}
pub mod Laws
pub mod Joined
pub mod Fixed
pub mod Chars

abbrev pub is_slash : ℕ → Bool
is_slash c = c == b'/'

abbrev pub slash : Text
slash = b'/' ∷ []

-- What `_normalize_path` does behind `normpath`.
pub finish_path : Text → Text → Text
unfolding starts_with rstrip
finish_path path normpathed =
    let normalized =
      if starts_with path slash && not (starts_with normpathed slash)
      then b'/' ∷ normpathed
      else normpathed in
    if normalized == dot || normalized == slash then [] else rstrip is_slash normalized

unfoldable pub normalize_path : Text → Result UrlError Text
unfolding finish_path normpath
normalize_path path =
    if is_empty path || path == slash
    then ok []
    else (do encoded ← normalize_percent_encoding path; ok (finish_path path (normpath encoded)))

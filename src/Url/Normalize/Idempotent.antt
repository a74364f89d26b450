-- ===== src/Url/Normalize/Idempotent.antt =====
-- normalize_url, run on its own result.
use webintel.Prelude.{◌≡◌, Bool, false, nat_Eq, Text, Option, none, contains}
use webintel.Prelude.Result.{ok}
use webintel.Py.Tables.{Python}
use webintel.Url.Normalize.{normalize_url, normalize_absolute, prepare}
use webintel.Url.Normalize.Standard.{IsStandard}
use webintel.Url.Normalize.Fixed.{canonicalize-made}
use webintel.Url.Normalize.Made.{normalize_url-AreParts}

-- A URL that `normalize_url` returned, without a bracket in it, is returned unchanged when it is
-- given to `normalize_url` again, if `html.unescape` and the checks on blanks and on the length
-- leave it as it is.
pub normalize_url_idem :
    (py : Python) (value : Text) (base : Option Text) (reject : Bool) (url : Text)
    → IsStandard py
    → normalize_url py value base reject ≡ ok url
    → contains url b'[' ≡ false
    → prepare py url ≡ ok url
    → normalize_url py url none reject ≡ ok url
unfolding normalize_url normalize_absolute
normalize_url_idem py value base reject url std h bracketless settled =
    let p = normalize_url-AreParts py std value base reject url h bracketless in
    rw settled (
      canonicalize-made py std p.scheme p.host p.path p.query p.number p.allowed p.named p.in_bounds
        p.rooted p.path_chars p.query_chars reject url p.made p.checked p.path_again p.query_again)

-- ===== src/Url/Query.antt =====
-- _normalize_query
use webintel.Prelude.{
  ℕ, Bool, true, false, not, ◌&&◌, ◌||◌, List, [], ◌∷◌, ltb, ◌==◌, nat_Eq, text_Eq, if◌then◌else◌,
  Text, is_empty, contains, keep, codes,
}
use webintel.Prelude.Result.{Result, ok, err, ◌>>=◌, ◌>>◌, raise_if}
use webintel.Py.Str.{starts_with}
use webintel.Py.Tables.{Python}
use webintel.Url.Errors.{UrlError, normalization_error, invalid_percent_escape}
use webintel.Url.Percent.{has_invalid_escape}
pub mod Order
pub mod Laws

-- TRACKING_PARAMETERS
abbrev pub tracking_parameters : List Text
tracking_parameters =
    codes "dclid"
    ∷ codes "fbclid"
    ∷ codes "gclid"
    ∷ codes "gbraid"
    ∷ codes "mc_cid"
    ∷ codes "mc_eid"
    ∷ codes "msclkid"
    ∷ codes "twclid"
    ∷ codes "wbraid"
    ∷ []

-- The order of Python's `str`: by code points.
unfoldable pub text_le : Text → Text → Bool
text_le [] t = true
text_le (x ∷ s) [] = false
text_le (x ∷ s) (y ∷ t) = ltb x y || (x == y && text_le s t)

-- The order of the sort's keys, `(item[0], item[1])`.
unfoldable pub item_le : Text × Text → Text × Text → Bool
unfolding text_le
item_le (k, v) (l, w) = if k == l then text_le v w else text_le k l

-- parameters.sort(...): a stable insertion sort
unfoldable pub insert_item : Text × Text → List (Text × Text) → List (Text × Text)
unfolding item_le
insert_item p [] = p ∷ []
insert_item p (q ∷ qs) = if item_le p q then p ∷ q ∷ qs else q ∷ insert_item p qs

unfoldable pub sort_items : List (Text × Text) → List (Text × Text)
unfolding insert_item
sort_items [] = []
sort_items (p ∷ ps) = insert_item p (sort_items ps)

module _ (py : Python) where
  -- The parameters that the comprehension keeps.
  unfoldable pub is_kept : Text × Text → Bool
  unfolding starts_with
  is_kept (key, value) =
      not (starts_with (py.lower key) (codes "utm_"))
      && not (contains tracking_parameters (py.lower key))

  unfoldable pub kept_items : Text → List (Text × Text)
  unfolding is_kept sort_items
  kept_items query = sort_items (keep is_kept (py.parse_qsl query))

  unfoldable pub normalize_query : Text → Result UrlError Text
  unfolding has_invalid_escape kept_items
  normalize_query query = if is_empty query then ok [] else (do
    raise_if (has_invalid_escape query) (normalization_error invalid_percent_escape)
    ok (py.urlencode (kept_items query)))

-- ===== src/Url/Path/Fixed.antt =====
-- `_normalize_path` returns normal paths, and leaves them as they are.
use webintel.Prelude.{
  ℕ, ◌≡◌, refl, ap, subst, ◌∙◌, ◌⊎◌, true, false, List, [], ◌∷◌, arith, ◌==◌, nat_Eq, text_Eq, Text,
  All, text_eq_iff, inl, inr, Bool-cases, is_empty, text_eq,
}
use webintel.Prelude.Result.{Result, ok, >>=-eq-ok, ok-injective}
use webintel.Py.Str.{split, join}
use webintel.Py.Posix.{dot, normpath, components, initial_slashes}
use webintel.Py.Posix.Laws.{NoSlash, split-NoSlash, components-All, normpath-rooted}
use webintel.Url.Percent.{normalize_percent_encoding, sub_escapes}
use webintel.Url.Percent.Laws.{
  IsCanonical, plain, normalize_percent_encoding-IsCanonical, IsCanonical-ok, encoded-slash,
}
use webintel.Url.Errors.{UrlError}
use webintel.Url.Path.{slash, finish_path, normalize_path}
use webintel.Url.Path.Laws.{
  IsPart, IsNormalPath, root, one_slash, two_slashes, split-IsCanonical, join-IsCanonical,
}
use webintel.Url.Path.Joined.{
  finish_path-one, finish_path-two, join-shape, normpath_one, normpath_two,
}

normalize_path-by :
    (path encoded : Text)
    → is_empty path ≡ false
    → (path == slash) ≡ false
    → normalize_percent_encoding path ≡ ok encoded
    → normalize_path path ≡ ok (finish_path path (normpath encoded))
unfolding normalize_path
normalize_path-by path encoded e s h = rw (e, s, h)

slash_ne : (x : ℕ) (s : Text) → text_eq (b'/' ∷ x ∷ s) slash ≡ false
slash_ne x s = ground (arith, text_eq_iff (b'/' ∷ x ∷ s) slash)

-- A normal path is its own normal form.
pub IsNormalPath-fixed : {path : Text} → IsNormalPath path → normalize_path path ≡ ok path
unfolding normalize_path
IsNormalPath-fixed root = refl
IsNormalPath-fixed (one_slash c cs h) =
    let (x, s, e, ne) = join-shape c cs h in
    normalize_path-by (b'/' ∷ join b'/' (c ∷ cs)) _ refl (rw e (slash_ne x s))
      (IsCanonical-ok (plain (omega arith) (join-IsCanonical c cs h)))
    ∙ ap (λ t. ok (finish_path (b'/' ∷ join b'/' (c ∷ cs)) t)) (normpath_one c cs h)
    ∙ ap ok (finish_path-one (b'/' ∷ join b'/' (c ∷ cs)) c cs h)
IsNormalPath-fixed (two_slashes c cs h) =
    normalize_path-by (b'/' ∷ b'/' ∷ join b'/' (c ∷ cs)) _ refl (slash_ne _ _)
      (IsCanonical-ok (plain (omega arith) (plain (omega arith) (join-IsCanonical c cs h))))
    ∙ ap (λ t. ok (finish_path (b'/' ∷ b'/' ∷ join b'/' (c ∷ cs)) t)) (normpath_two c cs h)
    ∙ ap ok (finish_path-two (b'/' ∷ b'/' ∷ join b'/' (c ∷ cs)) c cs h)

pub initial-slash :
    (s : Text)
    → (initial_slashes (b'/' ∷ s) ≡ b'/' ∷ []) ⊎ (initial_slashes (b'/' ∷ s) ≡ b'/' ∷ b'/' ∷ [])
unfolding initial_slashes
initial-slash [] = inl refl
initial-slash (x ∷ []) = ground arith
initial-slash (x ∷ y ∷ s) = ground arith

finish_path-root :
    (path : Text) → (finish_path path (b'/' ∷ []) ≡ []) × (finish_path path (b'/' ∷ b'/' ∷ []) ≡ [])
unfolding finish_path
finish_path-root path = (
  ground (arith, text_eq_iff (b'/' ∷ []) dot, text_eq_iff (b'/' ∷ []) slash),
  ground (arith, text_eq_iff (b'/' ∷ b'/' ∷ []) dot, text_eq_iff (b'/' ∷ b'/' ∷ []) slash),
)

finish-one :
    (path : Text) (cs : List Text)
    → All IsPart cs
    → IsNormalPath (finish_path path (b'/' ∷ join b'/' cs))
unfolding join
finish-one path [] h = rw (finish_path-root path).0 root
finish-one path (c ∷ cs) h = rw (finish_path-one path c cs h) (one_slash c cs h)

finish-two :
    (path : Text) (cs : List Text)
    → All IsPart cs
    → IsNormalPath (finish_path path (b'/' ∷ b'/' ∷ join b'/' cs))
unfolding join
finish-two path [] h = rw (finish_path-root path).1 root
finish-two path (c ∷ cs) h = rw (finish_path-two path c cs h) (two_slashes c cs h)

All-both :
    (cs : List Text) → All NoSlash cs → All IsCanonical cs → All (λ c. NoSlash c × IsCanonical c) cs
All-both [] h k = tt
All-both (c ∷ cs) (h, hs) (k, ks) = ((h, k), All-both cs hs ks)

components-IsPart : (t : Text) → IsCanonical t → All IsPart (components true [] (split b'/' t))
components-IsPart t k =
    components-All (λ c. NoSlash c × IsCanonical c) [] (split b'/' t) tt
      (All-both (split b'/' t) (split-NoSlash t) (split-IsCanonical k))

finish-IsNormalPath :
    (path s : Text) → IsCanonical (b'/' ∷ s) → IsNormalPath (finish_path path (normpath (b'/' ∷ s)))
finish-IsNormalPath path s k = elim (initial-slash s) [
  | inl e ↦
      rw (normpath-rooted (b'/' ∷ s) b'/' [] e) (finish-one path _ (components-IsPart (b'/' ∷ s) k))
  | inr e ↦
      rw (normpath-rooted (b'/' ∷ s) b'/' (b'/' ∷ []) e)
        (finish-two path _ (components-IsPart (b'/' ∷ s) k))
]

pub normalize_path-eq-ok :
    (s r : Text)
    → (b'/' ∷ s == slash) ≡ false
    → normalize_path (b'/' ∷ s) ≡ ok r
    → (t : Text) × (normalize_percent_encoding (b'/' ∷ s) ≡ ok t)
      × (◌≡◌ {A = Result UrlError Text} (ok (finish_path (b'/' ∷ s) (normpath t))) (ok r))
unfolding normalize_path
normalize_path-eq-ok s r e h = >>=-eq-ok (normalize_percent_encoding (b'/' ∷ s)) _ (rw e at h)

-- What `_normalize_path` makes of a rooted path is "", or one or two slashes and components
-- joined by single slashes; no component is "", "." or "..", and its escapes are normal.
pub normalize_path-IsNormalPath : (s r : Text) → normalize_path (b'/' ∷ s) ≡ ok r → IsNormalPath r
unfolding normalize_path
normalize_path-IsNormalPath s r h = elim (Bool-cases (b'/' ∷ s == slash)) [
  | inl e ↦ rw (path_ok e h) root
  | inr e ↦
      let (t, encoded, finished) = normalize_path-eq-ok s r e h in
      let first = encoded-slash s t encoded in
      let k : IsCanonical t = normalize_percent_encoding-IsCanonical (b'/' ∷ s) t encoded in
      subst IsNormalPath (ok-injective finished)
        (rw first (finish-IsNormalPath (b'/' ∷ s) (sub_escapes s) (rw first at k)))
]
  where
    path_ok : (b'/' ∷ s == slash) ≡ true → normalize_path (b'/' ∷ s) ≡ ok r → r ≡ []
    path_ok e h = ground (arith, e, h)

-- The normal form of a path that begins with a slash is its own normal form.
pub normalize_path_idem : (s r : Text) → normalize_path (b'/' ∷ s) ≡ ok r → normalize_path r ≡ ok r
normalize_path_idem s r h = IsNormalPath-fixed (normalize_path-IsNormalPath s r h)

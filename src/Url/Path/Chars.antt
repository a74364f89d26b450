-- ===== src/Url/Path/Chars.antt =====
-- `_normalize_path` brings no "?", no "#", no tab and no line break into a path.
use webintel.Prelude.{
  ◌≡◌, refl, subst, inl, inr, true, List, [], ◌∷◌, ◌==◌, text_Eq, Text, All, Bool-cases, arith,
  ◌||◌, not, ◌&&◌, if◌then◌else◌,
}
use webintel.Prelude.Result.{ok, ok-injective}
use webintel.Py.Str.{split, join, starts_with, rstrip}
use webintel.Py.Str.Chars.{split-All, join-All, rstrip-All}
use webintel.Py.Posix.{dot, components, normpath}
use webintel.Py.Posix.Laws.{IsPlain, normpath-rooted, components-All}
use webintel.Url.Percent.Chars.{IsPathChar, normalize_percent_encoding-All}
use webintel.Url.Percent.Laws.{encoded-slash}
use webintel.Url.Path.{is_slash, slash, finish_path, normalize_path}
use webintel.Url.Path.Fixed.{initial-slash, normalize_path-eq-ok}

slash-IsPathChar : IsPathChar b'/'
slash-IsPathChar = (omega arith, (omega arith, refl))

All-second : (cs : List Text) → All (λ d. IsPlain d × All IsPathChar d) cs → All (All IsPathChar) cs
All-second [] h = tt
All-second (c ∷ cs) ((_, h), hs) = (h, All-second cs hs)

joined-All :
    (t : Text) → All IsPathChar t → All IsPathChar (join b'/' (components true [] (split b'/' t)))
joined-All t h = join-All IsPathChar b'/' _ slash-IsPathChar (
    All-second _
      (components-All (All IsPathChar) [] (split b'/' t) tt (split-All IsPathChar b'/' t h)))

normpath-All : (s : Text) → All IsPathChar (b'/' ∷ s) → All IsPathChar (normpath (b'/' ∷ s))
normpath-All s h = elim (initial-slash s) [
  | inl e ↦ rw (normpath-rooted (b'/' ∷ s) b'/' [] e) (slash-IsPathChar, joined-All (b'/' ∷ s) h)
  | inr e ↦
      rw (normpath-rooted (b'/' ∷ s) b'/' (b'/' ∷ []) e)
        (slash-IsPathChar, (slash-IsPathChar, joined-All (b'/' ∷ s) h))
]

finish_path-All : (s t : Text) → All IsPathChar t → All IsPathChar (finish_path (b'/' ∷ s) t)
unfolding finish_path
finish_path-All s t h =
    elim (Bool-cases (starts_with (b'/' ∷ s) slash && not (starts_with t slash))) [
      | inl e ↦ rw e (end (b'/' ∷ t) (slash-IsPathChar, h))
      | inr e ↦ rw e (end t h)
    ]
  where
    end :
        (t : Text)
        → All IsPathChar t
        → All IsPathChar (if t == dot || t == slash then [] else rstrip is_slash t)
    end t h = elim (Bool-cases (t == dot || t == slash)) [
      | inl e ↦ rw e tt
      | inr e ↦ rw e (rstrip-All IsPathChar is_slash t h)
    ]

pub normalize_path-All :
    (s r : Text) → normalize_path (b'/' ∷ s) ≡ ok r → All IsPathChar s → All IsPathChar r
unfolding normalize_path
normalize_path-All s r h k = elim (Bool-cases (b'/' ∷ s == slash)) [
  | inl e ↦ subst (All IsPathChar) (path_ok e h) tt
  | inr e ↦
      let (t, encoded, finished) = normalize_path-eq-ok s r e h in
      let all = normalize_percent_encoding-All (b'/' ∷ s) t encoded (slash-IsPathChar, k) in
      let first = encoded-slash s t encoded in
      subst (All IsPathChar) (ok-injective finished)
        (finish_path-All s (normpath t) (rw first (normpath-All _ (rw first at all))))
]
  where
    path_ok : (b'/' ∷ s == slash) ≡ true → normalize_path (b'/' ∷ s) ≡ ok r → [] ≡ r
    path_ok e h = ground (arith, e, h)

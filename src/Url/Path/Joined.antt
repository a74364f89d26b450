-- ===== src/Url/Path/Joined.antt =====
-- The joined components of a normal path, behind one slash or two, are kept by normpath.
use webintel.Prelude.{
  ℕ, ◌≡◌, ◌≢◌, refl, ap, ◌∙◌, true, List, [], ◌∷◌, ◌++◌, arith, nat_Eq, text_Eq, Text, All,
  text_eq_iff,
}
use webintel.Py.Str.{split, join, rstrip, rcons}
use webintel.Py.Posix.{dot, normpath, components, push_component, initial_slashes}
use webintel.Py.Posix.Laws.{NoSlash, split-join, components-plain, normpath-rooted, rstrip-append}
use webintel.Url.Path.{is_slash, slash, finish_path}
use webintel.Url.Path.Laws.{IsPart}

-- The joined components begin with a character that is no slash.
pub join-shape :
    (c : Text) (cs : List Text)
    → All IsPart (c ∷ cs)
    → (x : ℕ) × (s : Text) × (join b'/' (c ∷ cs) ≡ x ∷ s) × (x ≢ b'/')
unfolding join
join-shape [] cs (((ne, _, _), _), _) = absurd (ne refl)
join-shape (x ∷ c) [] ((_, ((ne, _), _)), _) = (x, c, refl, ne)
join-shape (x ∷ c) (d ∷ cs) ((_, ((ne, _), _)), _) = (x, c ++ b'/' ∷ join b'/' (d ∷ cs), refl, ne)

rstrip-NoSlash : (s : Text) → NoSlash s → rstrip is_slash s ≡ s
unfolding rstrip
rstrip-NoSlash [] h = refl
rstrip-NoSlash (c ∷ []) (p, h) = ground (arith, p)
rstrip-NoSlash (c ∷ d ∷ s) (p, h) = ap (rcons is_slash c) (rstrip-NoSlash (d ∷ s) h)

rstrip-cons :
    (c x : ℕ) (s : Text) → rstrip is_slash (x ∷ s) ≡ x ∷ s → rstrip is_slash (c ∷ x ∷ s) ≡ c ∷ x ∷ s
rstrip-cons c x s h = rstrip-append is_slash (c ∷ []) x s h

rstrip-join :
    (c : Text) (cs : List Text)
    → All IsPart (c ∷ cs)
    → rstrip is_slash (join b'/' (c ∷ cs)) ≡ join b'/' (c ∷ cs)
unfolding join
rstrip-join c [] ((_, (ns, _)), _) = rstrip-NoSlash c ns
rstrip-join c (d ∷ cs) (_, h) =
    let (x, s, e, _) = join-shape d cs h in
    rstrip-append is_slash c b'/' (join b'/' (d ∷ cs))
      (rw e (rstrip-cons b'/' x s (rw e at (rstrip-join d cs h))))

components-skip : (kept cs : List Text) → components true kept ([] ∷ cs) ≡ components true kept cs
unfolding components push_component
components-skip kept cs = ground (arith, text_eq_iff [] [])

All-plain :
    (cs : List Text) → All IsPart cs → All (λ c. (c ≢ []) × (c ≢ dot) × (c ≢ b'.' ∷ b'.' ∷ [])) cs
All-plain [] h = tt
All-plain (c ∷ cs) ((p, _), h) = (p, All-plain cs h)

All-NoSlash : (cs : List Text) → All IsPart cs → All NoSlash cs
All-NoSlash [] h = tt
All-NoSlash (c ∷ cs) ((_, (n, _)), h) = (n, All-NoSlash cs h)

-- The components of the joined text, behind its first slashes.
components-join :
    (c : Text) (cs : List Text)
    → All IsPart (c ∷ cs)
    → components true [] (split b'/' (join b'/' (c ∷ cs))) ≡ c ∷ cs
components-join c cs h =
    ap (components true []) (split-join c cs (All-NoSlash (c ∷ cs) h))
    ∙ components-plain (c ∷ cs) (All-plain (c ∷ cs) h)

split-slash_first : (s : Text) → split b'/' (b'/' ∷ s) ≡ [] ∷ split b'/' s
unfolding split
split-slash_first s = refl

initial_one : (x : ℕ) (s : Text) → x ≢ b'/' → initial_slashes (b'/' ∷ x ∷ s) ≡ b'/' ∷ []
unfolding initial_slashes
initial_one x s ne = ground (arith, ne)

initial_two :
    (x : ℕ) (s : Text) → x ≢ b'/' → initial_slashes (b'/' ∷ b'/' ∷ x ∷ s) ≡ b'/' ∷ b'/' ∷ []
unfolding initial_slashes
initial_two x s ne = ground (arith, ne)

module _ (c : Text) (cs : List Text) (h : All IsPart (c ∷ cs)) where
  abbrev joined : Text
  joined = join b'/' (c ∷ cs)

  kept-one : components true [] (split b'/' (b'/' ∷ joined)) ≡ c ∷ cs
  kept-one =
      ap (components true []) (split-slash_first joined)
      ∙ components-skip [] (split b'/' joined)
      ∙ components-join c cs h

  kept-two : components true [] (split b'/' (b'/' ∷ b'/' ∷ joined)) ≡ c ∷ cs
  kept-two =
      ap (components true []) (split-slash_first (b'/' ∷ joined))
      ∙ components-skip [] (split b'/' (b'/' ∷ joined))
      ∙ kept-one

  pub normpath_one : normpath (b'/' ∷ joined) ≡ b'/' ∷ joined
  normpath_one =
      let (x, s, e, ne) = join-shape c cs h in
      normpath-rooted (b'/' ∷ joined) b'/' [] (rw e (initial_one x s ne))
      ∙ ap (λ l. b'/' ∷ join b'/' l) kept-one

  pub normpath_two : normpath (b'/' ∷ b'/' ∷ joined) ≡ b'/' ∷ b'/' ∷ joined
  normpath_two =
      let (x, s, e, ne) = join-shape c cs h in
      normpath-rooted (b'/' ∷ b'/' ∷ joined) b'/' (b'/' ∷ []) (rw e (initial_two x s ne))
      ∙ ap (λ l. b'/' ∷ b'/' ∷ join b'/' l) kept-two

finish_path-kept :
    (path : Text) (x : ℕ) (s : Text)
    → rstrip is_slash (x ∷ s) ≡ x ∷ s
    → finish_path path (b'/' ∷ x ∷ s) ≡ b'/' ∷ x ∷ s
unfolding finish_path
finish_path-kept path x s h = ground (
  arith,
  rstrip-cons b'/' x s h,
  text_eq_iff (b'/' ∷ x ∷ s) dot,
  text_eq_iff (b'/' ∷ x ∷ s) slash,
)

module _ (path c : Text) (cs : List Text) (h : All IsPart (c ∷ cs)) where
  pub finish_path-one : finish_path path (b'/' ∷ join b'/' (c ∷ cs)) ≡ b'/' ∷ join b'/' (c ∷ cs)
  finish_path-one =
      let (x, s, e, ne) = join-shape c cs h in
      rw e (finish_path-kept path x s (rw e at (rstrip-join c cs h)))

  pub finish_path-two :
      finish_path path (b'/' ∷ b'/' ∷ join b'/' (c ∷ cs)) ≡ b'/' ∷ b'/' ∷ join b'/' (c ∷ cs)
  finish_path-two =
      let (x, s, e, ne) = join-shape c cs h in
      rw e
        (finish_path-kept path b'/' (x ∷ s) (rstrip-cons b'/' x s (rw e at (rstrip-join c cs h))))

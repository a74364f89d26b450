-- ===== src/Py/Posix.antt =====
-- posixpath.normpath
use webintel.Prelude.{
  ℕ, Bool, true, false, not, ◌&&◌, ◌||◌, List, [], ◌∷◌, ◌++◌, reverse, ◌==◌, text_Eq, if◌then◌else◌,
  Text, is_empty,
}
use webintel.Py.Str.{split, join, starts_with}
pub mod Laws

abbrev pub dot : Text
dot = b'.' ∷ []

abbrev pub dot_dot : Text
dot_dot = b'.' ∷ b'.' ∷ []

-- The slashes that the result begins with: POSIX keeps two, and makes one of three or more.
unfoldable pub initial_slashes : Text → Text
unfolding starts_with
initial_slashes path =
    if starts_with path (b'/' ∷ b'/' ∷ []) && not (starts_with path (b'/' ∷ b'/' ∷ b'/' ∷ []))
    then b'/' ∷ b'/' ∷ []
    else if starts_with path (b'/' ∷ [])
    then b'/' ∷ []
    else []

abbrev pub top_is_dot_dot : List Text → Bool
top_is_dot_dot [] = false
top_is_dot_dot (c ∷ cs) = c == dot_dot

abbrev pub pop : List Text → List Text
pop [] = []
pop (c ∷ cs) = cs

-- One round of the loop over the components; the list of the kept ones has its last at the head.
unfoldable pub push_component : Bool → List Text → Text → List Text
push_component rooted kept comp =
    if comp == [] || comp == dot
    then kept
    else if not (comp == dot_dot) || (not rooted && is_empty kept) || top_is_dot_dot kept
    then comp ∷ kept
    else pop kept

unfoldable pub components : Bool → List Text → List Text → List Text
components rooted kept [] = reverse kept
components rooted kept (comp ∷ comps) = components rooted (push_component rooted kept comp) comps

unfoldable pub or_dot : Text → Text
or_dot [] = dot
or_dot (c ∷ s) = c ∷ s

unfoldable pub normpath : Text → Text
unfolding initial_slashes components push_component split join or_dot
normpath path =
    let initial = initial_slashes path in
    let comps = components (not (is_empty initial)) [] (split b'/' path) in
    or_dot (initial ++ join b'/' comps)

-- ===== src/Parsing/Parse/Clean.antt =====
-- What `_clean_text` returns.
use webintel.Prelude.{
  ℕ, zero, suc, ◌≡◌, ◌≢◌, ◌≤◌, refl, subst, Option, none, some, Text, [], ◌∷◌, length,
  length-take-le, is_empty, false, arith, Bool, true, not, ◌&&◌, ◌||◌, ◌==◌, nat_Eq, List, ◌++◌,
  All, append-nil, ◌↔◌,
}
use webintel.Py.Str.{words, join, is_space}
use webintel.Py.Str.Words.{words-IsWord, words-join, NoSpace, IsWord}
use webintel.Parsing.Parse.{cut_some, clean_text}

-- There is no text, or one of at most `limit` characters, and not an empty one.
abbrev pub IsShortText : ℕ → Option Text → Type 0
IsShortText limit none = Unit
IsShortText limit (some t) = (length t ≤ limit) × (is_empty t ≡ false)

cut_some-IsShortText :
    (limit : ℕ) (t : Text) → 1 ≤ limit → IsShortText limit (cut_some (some limit) t)
cut_some-IsShortText limit [] h = tt
cut_some-IsShortText zero (c ∷ t) h = absurd (omega (arith, h))
cut_some-IsShortText (suc n) (c ∷ t) h = (length-take-le (suc n) (c ∷ t), refl)

pub clean_text-IsShortText :
    (limit : ℕ) (value : Text) → 1 ≤ limit → IsShortText limit (clean_text (some limit) value)
unfolding clean_text
clean_text-IsShortText limit value h = cut_some-IsShortText limit (join b' ' (words value)) h

cut_some-none : (t : Text) {s : Text} → cut_some none t ≡ some s → t ≡ s
cut_some-none [] h = cc
cut_some-none (c ∷ t) h = cc

-- White space is single blanks, between other characters; `after` is whether white space, or the
-- start, is in front.
abbrev pub is_tidy : Bool → Text → Bool
is_tidy after [] = not after
is_tidy after (c ∷ s) = (not (is_space c) || (c == b' ' && not after)) && is_tidy (is_space c) s

word-is_tidy :
    (w s : Text) (after : Bool)
    → NoSpace w
    → is_empty w ≡ false
    → is_tidy false s ≡ true
    → is_tidy after (w ++ s) ≡ true
word-is_tidy [] s after h ne k = cc
word-is_tidy (c ∷ []) s after (e, h) ne k = rw (e, k) refl
word-is_tidy (c ∷ d ∷ w) s after (e, h) ne k = rw (e, word-is_tidy (d ∷ w) s false h refl k) refl

blank-is_tidy : (s : Text) → is_tidy true s ≡ true → is_tidy false (b' ' ∷ s) ≡ true
unfolding is_space
blank-is_tidy s h = h

join-is_tidy :
    (w : Text) (ws : List Text) → All IsWord (w ∷ ws) → is_tidy true (join b' ' (w ∷ ws)) ≡ true
unfolding join
join-is_tidy w [] ((ne, h), _) = rw (← append-nil w) (word-is_tidy w [] true h ne refl)
join-is_tidy w (v ∷ ws) ((ne, h), k) =
    word-is_tidy w (b' ' ∷ join b' ' (v ∷ ws)) true h ne (blank-is_tidy _ (join-is_tidy v ws k))

tidy_ne : (t : Text) → is_tidy true t ≡ true → cut_some none t ≢ none
tidy_ne [] h = cc
tidy_ne (c ∷ t) h = λ e. cc

-- The text made of some words.
cleaned_words :
    (ws : List Text)
    → All IsWord ws
    → ((cleaned : Text)
        → cut_some none (join b' ' ws) ≡ some cleaned
        → (words cleaned ≡ ws) × (is_tidy true cleaned ≡ true))
      × ((cut_some none (join b' ' ws) ≡ none) ↔ (ws ≡ []))
unfolding join
cleaned_words [] h = ((λ cleaned e. cc), ((λ e. refl), (λ e. refl)))
cleaned_words (w ∷ ws) h = (
  λ cleaned e.
      subst (λ t. (words t ≡ w ∷ ws) × (is_tidy true t ≡ true))
        (cut_some-none (join b' ' (w ∷ ws)) e) (words-join (w ∷ ws) h, join-is_tidy w ws h),
  ((λ e. absurd (tidy_ne (join b' ' (w ∷ ws)) (join-is_tidy w ws h) e)), (λ e. cc)),
)

-- Without a limit: a text that is returned has the words of the given one, in their order, and its
-- white space is single blanks between them; and no text is returned exactly if the given one has
-- no word.
pub clean_text_lem :
    (value : Text)
    → ((cleaned : Text)
        → clean_text none value ≡ some cleaned
        → (words cleaned ≡ words value) × (is_tidy true cleaned ≡ true))
      × ((clean_text none value ≡ none) ↔ (words value ≡ []))
unfolding clean_text
clean_text_lem value = cleaned_words (words value) (words-IsWord value)

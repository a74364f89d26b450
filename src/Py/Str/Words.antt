-- ===== src/Py/Str/Words.antt =====
-- s.split() and " ".join: the words of joined words are these words.
use webintel.Prelude.{
  ◌≡◌, refl, ap, sym, ◌∙◌, false, List, [], ◌∷◌, ◌++◌, Text, All, is_empty, Bool-cases, inl, inr,
  append_assoc, append-nil, All-append,
}
use webintel.Py.Str.{is_space, push_word, words_from, words, join}

abbrev pub NoSpace : Text → Type 0
NoSpace = All (λ c. is_space c ≡ false)

-- A word is not empty and has no white space.
abbrev pub IsWord : Text → Type 0
IsWord w = (is_empty w ≡ false) × NoSpace w

push_word-IsWord :
    (w : Text) (ws : List Text) → NoSpace w → All IsWord ws → All IsWord (push_word w ws)
unfolding push_word
push_word-IsWord [] ws h k = k
push_word-IsWord (c ∷ w) ws h k = ((refl, h), k)

words_from-IsWord : (w s : Text) → NoSpace w → All IsWord (words_from w s)
unfolding words_from
words_from-IsWord w [] h = push_word-IsWord w [] h tt
words_from-IsWord w (c ∷ s) h = elim (Bool-cases (is_space c)) [
  | inl e ↦ rw e (push_word-IsWord w (words_from [] s) h (words_from-IsWord [] s tt))
  | inr e ↦ rw e (words_from-IsWord (w ++ c ∷ []) s (All-append _ w (c ∷ []) h (e, tt)))
]

pub words-IsWord : (s : Text) → All IsWord (words s)
unfolding words
words-IsWord s = words_from-IsWord [] s tt

words_from-append : (w v s : Text) → NoSpace v → words_from w (v ++ s) ≡ words_from (w ++ v) s
unfolding words_from
words_from-append w [] s h = ap (λ t. words_from t s) (sym (append-nil w))
words_from-append w (c ∷ v) s (e, h) =
    rw e
      (words_from-append (w ++ c ∷ []) v s h ∙ ap (λ t. words_from t s) (append_assoc w (c ∷ []) v))

push_word-word : (w : Text) (ws : List Text) → is_empty w ≡ false → push_word w ws ≡ w ∷ ws
unfolding push_word
push_word-word [] ws h = cc
push_word-word (c ∷ w) ws h = refl

-- The words of words joined by spaces are the words.
pub words-join : (ws : List Text) → All IsWord ws → words (join b' ' ws) ≡ ws
unfolding words join words_from is_space
words-join [] h = refl
words-join (w ∷ []) ((some_w, plain), h) =
    ap (words_from []) (sym (append-nil w))
    ∙ words_from-append [] w [] plain
    ∙ push_word-word w [] some_w
words-join (w ∷ v ∷ ws) ((some_w, plain), h) =
    words_from-append [] w (b' ' ∷ join b' ' (v ∷ ws)) plain
    ∙ push_word-word w (words_from [] (join b' ' (v ∷ ws))) some_w
    ∙ ap (λ l. w ∷ l) (words-join (v ∷ ws) h)

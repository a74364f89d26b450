-- ===== src/Url/Host/Names.antt =====
-- The characters of a public host name, and that canonicalizing leaves it as it is.
use webintel.Prelude.{
  ℕ, ◌≡◌, ◌≢◌, refl, ap, ◌∙◌, inl, inr, Bool, true, false, ◌||◌, List, [], ◌∷◌, ◌==◌, nat_Eq, Text,
  some, All, Bool-cases, all, is_empty, arith,
}
use webintel.Prelude.Result.{ok}
use webintel.Py.Str.{split, cons_first, rstrip, rcons}
use webintel.Py.Tables.{Python}
use webintel.Url.Host.{is_label_char, is_dns_label, is_public_hostname, canonicalize_hostname}

abbrev pub is_host_char : ℕ → Bool
is_host_char c = is_label_char c || c == b'.'

abbrev pub IsHostChar : ℕ → Type 0
IsHostChar c = is_host_char c ≡ true

label-All : (s : Text) → all is_label_char s ≡ true → All IsHostChar s
label-All [] h = tt
label-All (c ∷ s) h = (ground (arith, h), label-All s (ground (arith, h)))

dns_label-All : (s : Text) → is_dns_label s ≡ true → All IsHostChar s
unfolding is_dns_label
dns_label-All [] h = tt
dns_label-All (c ∷ s) h = (ground (arith, h), label-All s (ground (arith, h)))

labels-All : (ss : List Text) → all is_dns_label ss ≡ true → All (All IsHostChar) ss
labels-All [] h = tt
labels-All (s ∷ ss) h = (dns_label-All s (ground (arith, h)), labels-All ss (ground (arith, h)))

uncons_first-All :
    (c : ℕ) (ss : List Text)
    → All (All IsHostChar) (cons_first c ss)
    → IsHostChar c × All (All IsHostChar) ss
uncons_first-All c [] ((h, _), _) = (h, tt)
uncons_first-All c (s ∷ ss) ((h, k), ks) = (h, (k, ks))

unsplit-All : (s : Text) → All (All IsHostChar) (split b'.' s) → All IsHostChar s
unfolding split
unsplit-All [] h = tt
unsplit-All (c ∷ s) h = elim (Bool-cases (c == b'.')) [
  | inl e ↦ (ground (arith, e), unsplit-All s (rw e at h).1)
  | inr e ↦ let (k, ks) = uncons_first-All c (split b'.' s) (rw e at h) in (k, unsplit-All s ks)
]

pub is_public_hostname-All : (host : Text) → is_public_hostname host ≡ true → All IsHostChar host
unfolding is_public_hostname
is_public_hostname-All host h = unsplit-All host (labels-All (split b'.' host) (ground (arith, h)))

-- The labels behind the first one.
abbrev rest_labels : List Text → List Text
rest_labels [] = []
rest_labels (s ∷ ss) = ss

abbrev is_dot : ℕ → Bool
is_dot c = c == b'.'

rest_labels-cons_first : (c : ℕ) (ss : List Text) → rest_labels (cons_first c ss) ≡ rest_labels ss
rest_labels-cons_first c [] = refl
rest_labels-cons_first c (s ∷ ss) = refl

All-rest_labels : (ss : List Text) → All (λ l. l ≢ []) ss → All (λ l. l ≢ []) (rest_labels ss)
All-rest_labels [] h = tt
All-rest_labels (s ∷ ss) (h, k) = k

rcons-dot : (c : ℕ) (s : Text) → All (λ l. l ≢ []) (split b'.' s) → rcons is_dot c s ≡ c ∷ s
unfolding split
rcons-dot c [] (h, k) = absurd (h refl)
rcons-dot c (d ∷ s) h = refl

-- A text whose last label is not empty does not end with a dot.
rstrip-labels : (s : Text) → All (λ l. l ≢ []) (rest_labels (split b'.' s)) → rstrip is_dot s ≡ s
unfolding rstrip split
rstrip-labels [] h = refl
rstrip-labels (c ∷ s) h = elim (Bool-cases (c == b'.')) [
  | inl e ↦
      let k : All (λ l. l ≢ []) (split b'.' s) = rw e at h in
      ap (rcons is_dot c) (rstrip-labels s (All-rest_labels (split b'.' s) k)) ∙ rcons-dot c s k
  | inr e ↦
      ap (rcons is_dot c) (rstrip-labels s (rw (e, rest_labels-cons_first c (split b'.' s)) at h))
      ∙ rcons-other c s e
]
  where
    rcons-other : (c : ℕ) (s : Text) → (c == b'.') ≡ false → rcons is_dot c s ≡ c ∷ s
    rcons-other c [] e = rw e refl
    rcons-other c (d ∷ s) e = refl

labels_ne : (ss : List Text) → all is_dns_label ss ≡ true → All (λ l. l ≢ []) ss
unfolding is_dns_label
labels_ne [] h = tt
labels_ne ([] ∷ ss) h = absurd (ground (arith, h))
labels_ne ((c ∷ s) ∷ ss) h = (cc, labels_ne ss (ground (arith, h)))

rstrip-public : (host : Text) → is_public_hostname host ≡ true → rstrip is_dot host ≡ host
unfolding is_public_hostname
rstrip-public host h =
    rstrip-labels host
      (All-rest_labels (split b'.' host) (labels_ne (split b'.' host) (ground (arith, h))))

pub public_ne : (host : Text) → is_public_hostname host ≡ true → is_empty host ≡ false
unfolding is_public_hostname split is_dns_label
public_ne [] h = ground (arith, h)
public_ne (c ∷ s) h = refl

-- A public host name that is encoded as itself is canonical.
pub canonicalize_hostname-public :
    (py : Python) (host : Text)
    → is_public_hostname host ≡ true
    → py.idna host ≡ some host
    → py.lower host ≡ host
    → canonicalize_hostname py host ≡ ok host
unfolding canonicalize_hostname
canonicalize_hostname-public py host h i l =
    rw (rstrip-public host h, i) (rw l (rw (public_ne host h) refl))

-- ===== src/Fetch/Content/Limit.antt =====
-- `_read_limited` against the size of the whole body.
use mathlib.Core.List.{flatten}
use native.Mathlib.Nat.{zero-add}
use webintel.Prelude.{
  ℕ, ◌+◌, ◌≤◌, ◌≡◌, ap, ap₂, sym, subst, ◌∙◌, Bool, true, false, ◌||◌, List, [], ◌∷◌, ◌++◌,
  append_assoc, append-nil, ltb, if◌then◌else◌, length, length-append, arith, codes, Bool-cases,
  inl, inr,
}
use webintel.Prelude.Result.{Result, ok, err, ◌>>=◌, ok-injective}
use webintel.Py.Tables.{Python}
use webintel.Fetch.Network.{Body, done, chunk, broken, Response}
use webintel.Fetch.Content.{
  ReadError, too_large, failed, read_chunks, exceeds, content_length, read_limited,
}

-- All that the body delivers, and how it ends.
unfoldable pub bytes : Body → List ℕ
bytes done = []
bytes (chunk c rest) = c ++ bytes rest
bytes (broken e) = []

unfoldable pub ending : Body → List ℕ → Result ReadError (List ℕ)
ending done content = ok content
ending (chunk c rest) content = ending rest content
ending (broken e) content = err (failed e)

flatten-snoc :
    (chunks : List (List ℕ)) (c : List ℕ) → flatten (chunks ++ c ∷ []) ≡ flatten chunks ++ c
unfolding flatten
flatten-snoc [] c = append-nil c
flatten-snoc (d ∷ chunks) c =
    ap (λ l. d ++ l) (flatten-snoc chunks c) ∙ sym (append_assoc d (flatten chunks) c)

abbrev answer : ℕ → Body → ℕ → List ℕ → Result ReadError (List ℕ)
answer limit body size content = if ltb limit size then err too_large else ending body content

read_chunks_lem :
    (limit size : ℕ) (chunks : List (List ℕ)) (body : Body)
    → size ≤ limit
    → read_chunks limit size chunks body ≡ (
        if ltb limit (size + length (bytes body))
        then err too_large
        else ending body (flatten chunks ++ bytes body))
unfolding read_chunks bytes ending
read_chunks_lem limit size chunks done h = ground (arith, append-nil (flatten chunks))
read_chunks_lem limit size chunks (broken e) h = ground arith
read_chunks_lem limit size chunks (chunk c rest) h =
    elim (Bool-cases (ltb limit (size + length c))) [
      | inl over ↦ rw over (ground (arith, over, length-append c (bytes rest)))
      | inr fits ↦ rw fits (
          read_chunks_lem limit (size + length c) (chunks ++ c ∷ []) rest (ground (arith, fits))
          ∙ ap₂ (answer limit rest) (omega (arith, length-append c (bytes rest))) (
              ap (λ l. l ++ bytes rest) (flatten-snoc chunks c)
              ∙ append_assoc (flatten chunks) c (bytes rest)))
    ]

-- `_read_limited` gives up exactly if the declared length or the number of the bytes that arrive
-- is over the limit; otherwise it returns all the bytes, or raises the error that ends the body.
pub read_limited_lem :
    (py : Python) (response : Response) (limit : ℕ)
    → read_limited py response limit ≡ (
        if exceeds (content_length py (response.header (codes "content-length"))) limit
          || ltb limit (length (bytes response.body))
        then err too_large
        else ending response.body (bytes response.body))
unfolding read_limited flatten
read_limited_lem py response limit =
    elim (Bool-cases
      (exceeds (content_length py (response.header (codes "content-length"))) limit)) [
        | inl over ↦ rw (over, ◌>>=◌)
        | inr fits ↦ rw fits (
            read_chunks_lem limit 0 [] response.body (omega arith)
            ∙ ap (λ n. answer limit response.body n (bytes response.body))
                (zero-add (length (bytes response.body))))
      ]

ending-eq-ok :
    (body : Body) (content : List ℕ) {c : List ℕ} → ending body content ≡ ok c → content ≡ c
unfolding ending
ending-eq-ok done content h = ok-injective h
ending-eq-ok (chunk d rest) content h = ending-eq-ok rest content h
ending-eq-ok (broken e) content h = cc

-- What is read is never longer than the limit.
pub read_limited-le :
    (py : Python) (response : Response) (limit : ℕ) (content : List ℕ)
    → read_limited py response limit ≡ ok content
    → length content ≤ limit
read_limited-le py response limit content h =
    under (exceeds (content_length py (response.header (codes "content-length"))) limit)
      (sym (read_limited_lem py response limit) ∙ h)
  where
    under :
        (declared : Bool)
        → (if declared || ltb limit (length (bytes response.body))
            then err too_large
            else ending response.body (bytes response.body))
          ≡ ok content
        → length content ≤ limit
    under true k = absurd (ground (arith, k))
    under false k = elim (Bool-cases (ltb limit (length (bytes response.body)))) [
      | inl over ↦ absurd (ground (arith, over, k))
      | inr fits ↦
          let same : bytes response.body ≡ content =
            ending-eq-ok response.body (bytes response.body) (rw fits at k) in
          subst (λ c. length c ≤ limit) same (ground (arith, fits))
    ]

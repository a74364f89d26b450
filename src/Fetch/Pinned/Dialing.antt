-- ===== src/Fetch/Pinned/Dialing.antt =====
-- Which addresses a connection dials.
use webintel.Prelude.{
  ℕ, ◌≡◌, refl, sym, ◌∙◌, inl, inr, List, [], ◌∷◌, ◌++◌, append_assoc, Option, none, some, Text,
  map, All, All-append, Any, ==_refl, pair_Eq, text_Eq, nat_Eq,
}
use webintel.Prelude.Dict
use webintel.Prelude.Result.{Result, ok, ok-injective, Result-cases}
use webintel.Py.Tables.{Python}
use webintel.Py.Split.{SplitResult, urlsplit, hostname, port}
use webintel.Url.Public.{ResolvedPublicTarget, port_or_default}
use webintel.Fetch.Pinned.{Approved, approve, Dial, dial, dial_found, connect_tcp}

module _ {W S E : Type 0} (connect : W → Text → ℕ → Result E S × W) (number : ℕ) where
  -- All that was dialed since is one of the addresses, at the port.
  abbrev pub DialsOnly : List Text → Dial W → Dial W → Type 0
  DialsOnly addresses before after =
      (added : List (Text × ℕ)) × (after.dialed ≡ added ++ before.dialed)
      × All (λ p. Any (λ a. p ≡ (a, number)) addresses) added

  All-later :
      (a : Text) (addresses : List Text) (added : List (Text × ℕ))
      → All (λ p. Any (λ b. p ≡ (b, number)) addresses) added
      → All (λ p. Any (λ b. p ≡ (b, number)) (a ∷ addresses)) added
  All-later a addresses [] h = tt
  All-later a addresses (p ∷ added) (q, h) = (inr q, All-later a addresses added h)

  after_dial :
      (a : Text) (addresses : List Text) (w : W) (before after : Dial W)
      → DialsOnly addresses (record { world = w; dialed = (a, number) ∷ before.dialed }) after
      → DialsOnly (a ∷ addresses) before after
  after_dial a addresses w before after (added, e, h) = (
    added ++ (a, number) ∷ [],
    e ∙ sym (append_assoc added ((a, number) ∷ []) before.dialed),
    All-append _ added ((a, number) ∷ []) (All-later a addresses added h) (inl refl, tt),
  )

  dial-only :
      (addresses : List Text) (last : Option E) (d : Dial W)
      → DialsOnly addresses d (dial connect number last addresses d).1
  unfolding dial
  dial-only [] last d = ([], refl, tt)
  dial-only (a ∷ addresses) last d = elim (Result-cases (connect d.world a number).0) [
    | inl (stream, done) ↦ rw (done, dial) ((a, number) ∷ [], refl, (inl refl, tt))
    | inr (e, failed) ↦
        rw (failed, dial)
          (after_dial a addresses (connect d.world a number).1 d
            (dial connect number (some e) addresses
              (record { world = (connect d.world a number).1; dialed = (a, number) ∷ d.dialed })).1
            (dial-only addresses (some e)
              (record { world = (connect d.world a number).1; dialed = (a, number) ∷ d.dialed })))
  ]

  dial_found-only :
      (addresses : List Text) (d : Dial W)
      → DialsOnly addresses d (dial_found connect number (some addresses) d).1
  dial_found-only [] d = ([], refl, tt)
  dial_found-only (a ∷ addresses) d = dial-only (a ∷ addresses) none d

-- After `approve` of a target, a connection to the host name and the port of its URL (80 or 443 where
-- the URL has no port) dials, whatever the backend answers, only addresses of the target, at that port.
pub connect_tcp-approve :
    {W S E : Type 0} (connect : W → Text → ℕ → Result E S × W) (py : Python) (approved : Approved)
    (target : ResolvedPublicTarget) (parsed : SplitResult) (host : Text) (number : Option ℕ)
    (approved' : Approved) (d : Dial W)
    → urlsplit py target.url ≡ some parsed
    → hostname py parsed ≡ some host
    → port parsed ≡ some number
    → approve py approved target ≡ ok approved'
    → DialsOnly connect
        (port_or_default parsed.scheme number)
        (map py.str_address target.addresses)
        d
        (connect_tcp connect approved' host (port_or_default parsed.scheme number) d).1
unfolding approve connect_tcp
connect_tcp-approve connect py approved target parsed host number approved' d u v w h =
    let same : Dict.set approved (host, port_or_default parsed.scheme number)
          (map py.str_address target.addresses)
        ≡ approved' =
      ok-injective (rw (u, v, w) at h) in
    rw (← same) (
      rw
        (Dict.get-set approved (host, port_or_default parsed.scheme number)
          (host, port_or_default parsed.scheme number) (map py.str_address target.addresses))
        (rw (==_refl {A = Text × ℕ} (host, port_or_default parsed.scheme number)) (
          dial_found-only connect (port_or_default parsed.scheme number)
            (map py.str_address target.addresses) d)))

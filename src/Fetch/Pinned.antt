-- ===== src/Fetch/Pinned.antt =====
-- PinnedNetworkBackend: connections go only to addresses that the validation approved.
use webintel.Prelude.{
  ℕ, Bool, true, false, List, [], ◌∷◌, ◌++◌, Option, none, some, Text, map, pair_Eq, text_Eq,
  nat_Eq,
}
use webintel.Prelude.Dict
use webintel.Prelude.Dict.{Dict}
use webintel.Prelude.Result.{Result, ok, err, ◌>>=◌, or_raise}
use webintel.Py.Tables.{Python}
use webintel.Py.Split.{urlsplit, hostname, port}
use webintel.Url.Errors.{UrlError, value_error}
use webintel.Url.Public.{ResolvedPublicTarget, port_or_default}
pub mod Dialing

-- self._approved
abbrev pub Approved : Type 0
Approved = Dict (Text × ℕ) (List Text)

-- approve
unfoldable pub approve : Python → Approved → ResolvedPublicTarget → Result UrlError Approved
approve py approved target = do
  parsed ← or_raise (urlsplit py target.url) value_error
  host ← or_raise (hostname py parsed) value_error
  number ← or_raise (port parsed) value_error
  ok (
      Dict.set approved (host, port_or_default parsed.scheme number)
        (map py.str_address target.addresses))

-- What `connect_tcp` raises: no address is approved, the last error of the backend, or the
-- AssertionError behind the loop.
pub data ConnectError (E : Type 0) : Type 0 where
  not_approved : ConnectError E
  last_error : E → ConnectError E
  assertion_error : ConnectError E

-- The state of the network, and the addresses that were dialed, the newest first.
pub record Dial (W : Type 0) : Type 0 where
  pub world : W
  pub dialed : List (Text × ℕ)

-- `raise last_error`
abbrev pub raise_last : {S E : Type 0} → Option E → Result (ConnectError E) S
raise_last none = err assertion_error
raise_last (some e) = err (last_error e)

module _ {W S E : Type 0} (connect : W → Text → ℕ → Result E S × W) where
  -- The loop over the addresses.
  pub dial : ℕ → Option E → List Text → Dial W → Result (ConnectError E) S × Dial W
  dial number last [] d = (raise_last last, d)
  dial number last (a ∷ addresses) d =
      let answer = connect d.world a number in
      let d' : Dial W = record { world = answer.1; dialed = (a, number) ∷ d.dialed } in
      elim (answer.0) [ ok stream ↦ (ok stream, d') | err e ↦ dial number (some e) addresses d' ]

  abbrev dial_found : ℕ → Option (List Text) → Dial W → Result (ConnectError E) S × Dial W
  dial_found number none d = (err not_approved, d)
  dial_found number (some []) d = (err not_approved, d)
  dial_found number (some (a ∷ addresses)) d = dial number none (a ∷ addresses) d

  -- connect_tcp
  unfoldable pub connect_tcp : Approved → Text → ℕ → Dial W → Result (ConnectError E) S × Dial W
  unfolding dial
  connect_tcp approved host number d = dial_found number (Dict.get approved (host, number)) d

-- ===== src/Url/Public/Targets.antt =====
-- What is known of a target that `validate_public_url` returns.
use webintel.Prelude.{
  ◌≡◌, refl, sym, ap, subst, ◌∙◌, ◌⊎◌, inl, inr, true, false, List, [], ◌∷◌, Option, none, some,
  Text, All, is_empty,
}
use webintel.Prelude.Result.{
  ok, or_raise, raise_if, >>=-eq-ok, raise_if-eq-ok, or_raise-eq-ok, ok-injective,
}
use webintel.Py.Tables.{Python, IpAddress}
use webintel.Py.Split.{SplitResult, urlsplit, hostname, port}
use webintel.Url.Host.{direct_address}
use webintel.Url.Normalize.{normalize_url}
use webintel.Url.Normalize.Safety.{IsNormalUrl, normalize_url-IsNormalUrl}
use webintel.Url.Public.{
  ResolvedPublicTarget, Resolver, port_or_default, collect, checked_split, resolve_host, by_address,
  validate_public_url,
}
use webintel.Url.Public.Addresses.{IsGlobal, IsDistinct, collect_sound}

module _ (py : Python) where
  -- The addresses are the one that the host name is, or distinct global ones, at least one.
  abbrev pub HasAddresses : Text → List IpAddress → Type 0
  HasAddresses host addresses =
      ((a : IpAddress) × (direct_address py host ≡ some a) × (addresses ≡ a ∷ []))
      ⊎ ((direct_address py host ≡ none)
          × (is_empty addresses ≡ false)
          × All (IsGlobal py) addresses
          × IsDistinct addresses)

  pub record IsValidated (target : ResolvedPublicTarget) : Type 0 where
    pub normal : IsNormalUrl py true target.url
    pub parsed : SplitResult
    pub host : Text
    pub split : urlsplit py target.url ≡ some parsed
    pub of_host : hostname py parsed ≡ some host
    pub resolved : HasAddresses host target.addresses

  resolve_host-eq-ok :
      (resolver : Resolver) (url : Text) (parsed : SplitResult) (host : Text)
      {target : ResolvedPublicTarget}
      → resolve_host py resolver url parsed host ≡ ok target
      → (target.url ≡ url)
        × (is_empty target.addresses ≡ false)
        × All (IsGlobal py) target.addresses
        × IsDistinct target.addresses
  unfolding resolve_host
  resolve_host-eq-ok resolver url parsed host {target} h =
      let (number, e₁, h₁) = >>=-eq-ok (or_raise (port parsed) _) _ h in
      let (values, e₂, h₂) =
        >>=-eq-ok (resolver host (port_or_default parsed.scheme number)) _ h₁ in
      let (addresses, e₃, h₃) = >>=-eq-ok (collect py [] values) _ h₂ in
      let (u, some_left, h₄) = >>=-eq-ok (raise_if (is_empty addresses) _) _ h₃ in
      let (_, global, distinct) = collect_sound py [] values {found = addresses} tt tt e₃ in
      let made : target ≡ record { url = url; addresses = addresses } = sym (ok-injective h₄) in
      rw made (refl, raise_if-eq-ok (is_empty addresses) _ some_left, global, distinct)

  by_address-eq-ok :
      (resolver : Resolver) (url : Text) (parsed : SplitResult) (host : Text)
      (direct : Option IpAddress) {target : ResolvedPublicTarget}
      → direct_address py host ≡ direct
      → by_address py resolver url parsed host direct ≡ ok target
      → (target.url ≡ url) × HasAddresses host target.addresses
  by_address-eq-ok resolver url parsed host (some a) {target} d h =
      let made : target ≡ record { url = url; addresses = a ∷ [] } = sym (ok-injective h) in
      rw made (refl, inl (a, d, refl))
  by_address-eq-ok resolver url parsed host none d h =
      let (same, some_left, global, distinct) = resolve_host-eq-ok resolver url parsed host h in
      (same, inr (d, some_left, global, distinct))

-- Whatever the resolver, a target that `validate_public_url` returns has a URL in the normal form
-- that rejects non-public addresses; its addresses are the one that its host name is, or there is
-- at least one, no two are the same, and all are global.
pub validate_public_url-IsValidated :
    (py : Python) (resolver : Resolver) (url : Text) (target : ResolvedPublicTarget)
    → validate_public_url py resolver url ≡ ok target
    → IsValidated py target
unfolding validate_public_url
validate_public_url-IsValidated py resolver url target h =
    let (normalized, e₁, h₁) = >>=-eq-ok (normalize_url py url none true) _ h in
    let ((parsed, host), e₂, h₂) = >>=-eq-ok (checked_split py normalized) _ h₁ in
    let (parsed', e₃, h₃) = >>=-eq-ok (or_raise (urlsplit py normalized) _) _ e₂ in
    let (host', e₄, h₄) = >>=-eq-ok (or_raise (hostname py parsed') _) _ h₃ in
    let (same, resolved) =
      by_address-eq-ok py resolver normalized parsed host (direct_address py host) {target = target}
        refl h₂ in
    let pair : (parsed', host') ≡ (parsed, host) = ok-injective h₄ in
    record {
      normal =
          subst (IsNormalUrl py true) (sym same)
            (normalize_url-IsNormalUrl py url none true normalized e₁);
      parsed = parsed;
      host = host;
      split =
          ap (urlsplit py) same
          ∙ (or_raise-eq-ok (urlsplit py normalized) _ e₃
              ∙ ap (λ (p : SplitResult × Text). some p.0) pair);
      of_host =
          subst (λ (p : SplitResult × Text). hostname py p.0 ≡ some p.1) pair
            (or_raise-eq-ok (hostname py parsed') _ e₄);
      resolved = resolved;
    }

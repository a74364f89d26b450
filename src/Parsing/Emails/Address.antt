-- ===== src/Parsing/Emails/Address.antt =====
-- What every address that `_normalize_email` returns looks like.
use webintel.Prelude.{
  ◌≡◌, ◌≤◌, true, false, not, ◌||◌, ◌∷◌, ◌++◌, Option, none, some, Text, codes, is_empty, all,
  last?, length, ltb, ◌==◌, nat_Eq, text_Eq, Bool-cases, inl, inr, arith,
}
use webintel.Py.Str.{strip, rstrip, split, rpartition, count, starts_with, ends_with, has_sub}
use webintel.Py.Tables.{Python}
use webintel.Url.Host.{is_dns_label}
use webintel.Parsing.Emails.{
  is_quote, is_local_part, is_asset, is_email_domain, with_domain, normalize_email,
}

-- A local part of 1 to 64 characters with no dot at its ends and no two in a row, and a domain of at
-- least two DNS labels, the last of which is not the ending of an asset.
pub record IsEmail (email : Text) : Type 0 where
  pub local : Text
  pub domain : Text
  pub made : email ≡ local ++ b'@' ∷ domain
  pub some_local : is_empty local ≡ false
  pub short_local : length local ≤ 64
  pub no_first_dot : starts_with local (codes ".") ≡ false
  pub no_last_dot : ends_with local (codes ".") ≡ false
  pub no_double_dot : has_sub local (codes "..") ≡ false
  pub two_labels : 2 ≤ length (split b'.' domain)
  pub dns_labels : all is_dns_label (split b'.' domain) ≡ true
  pub no_asset : is_asset (last? (split b'.' domain)) ≡ false

with_domain-IsEmail :
    (local : Text) (o : Option Text) {email : Text}
    → is_local_part local ≡ true
    → with_domain local o ≡ some email
    → IsEmail email
with_domain-IsEmail local none h e = cc
with_domain-IsEmail local (some domain) {email} h e = elim (Bool-cases (is_email_domain domain)) [
  | inr bad ↦ absurd (ground (arith, rw bad at e))
  | inl good ↦
      let made : email ≡ local ++ b'@' ∷ domain = cc (rw good at e) in
      record {
        local = local;
        domain = domain;
        made = made;
        some_local = ground (arith, h);
        short_local = ground (arith, h);
        no_first_dot = ground (arith, h);
        no_last_dot = ground (arith, h);
        no_double_dot = ground (arith, h);
        two_labels = ground (arith, good);
        dns_labels = ground (arith, good);
        no_asset = ground (arith, good);
      }
]

pub normalize_email-IsEmail :
    (py : Python) (candidate : Text) {email : Text}
    → normalize_email py candidate ≡ some email
    → IsEmail email
unfolding normalize_email
normalize_email-IsEmail py candidate {email} h =
    let found = py.lower (strip is_quote candidate) in
    let parts = rpartition b'@' found in
    elim (Bool-cases (ltb 320 (length found) || not (count b'@' found == 1))) [
      | inl bad ↦ absurd (ground (arith, rw bad at h))
      | inr fits ↦ elim (Bool-cases (is_local_part parts.0)) [
        | inr bad ↦ absurd (ground (arith, rw (fits, bad) at h))
        | inl good ↦
            with_domain-IsEmail parts.0 (py.idna (rstrip (λ c. c == b'.') parts.2)) good
              (rw (fits, good) at h)
      ]
    ]

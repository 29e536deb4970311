-- ===== src/Auth/Verifier/Accept.antt =====
-- What an accepted token has shown.
use aniraku_backend.Base.{
  ◌==◌, Option-cases, length, any, Text, codes, text_eq, text_eq_iff, trim_space, ℕ, ◌+◌, ◌≤◌, ◌≡◌,
  refl, ap, ◌≢◌, ◌⊎◌, inl, inr, true, false, not, Option, none, some, List, [], ◌∷◌, arith,
}
use aniraku_backend.Auth.Verifier.{
  Claims, Header, Refusal, missing_kid, Outcome, ok, err, ◌>>=◌, ◌>>◌, or_refuse, refuse_if, leeway,
  Verifier, key_for, check_audience, check_issuer, check_expiry, check_not_before, check_claims,
  Jwt, verify, is_signing_alg, missing_alg, bad_alg, bad_token, bad_claims, no_subject,
}

-- A time before which the token must not be used has come, but for the leeway.
abbrev pub Started : Option ℕ → ℕ → Type 0
Started none now = Unit {0}
Started (some n) now = n ≤ now + leeway

-- What the claims show.
pub record Vouched (v : Verifier) (claims : Claims) (now : ℕ) : Type 0 where
  pub for_us : (v.aud ≡ []) ⊎ (any (λ a. text_eq a v.aud) claims.audience ≡ true)
  pub from_issuer : (v.issuer ≡ []) ⊎ (claims.issuer ≡ v.issuer)
  pub expiry : ℕ
  pub has_expiry : claims.expires_at ≡ some expiry
  pub not_expired : now ≤ expiry
  pub started : Started claims.not_before now
  pub named : trim_space claims.sub ≢ []

>>-eq-ok {ℓ} :
    {B : Type ℓ} (m : Outcome (Unit {0})) (k : Outcome B) {b : B}
    → (m >> k) ≡ ok b
    → (m ≡ ok tt) × (k ≡ ok b)
>>-eq-ok (ok u) k h = (refl, h)
>>-eq-ok (err e) k h = cc

-- A later step has run on what an earlier one gave.
>>=-steps {ℓ κ} :
    {Given : Type ℓ} {Last : Type κ} (next : Given → Outcome Last) (first : Outcome Given)
    {last : Last}
    → (first >>= next) ≡ ok last
    → (given : Given) × (next given ≡ ok last) × (first ≡ ok given)
>>=-steps next (err refusal) h = cc
>>=-steps next (ok given) h = (given, h, refl)

or_refuse-eq-ok {ℓ κ} :
    {A : Type ℓ} {B : Type κ} (o : Option A) (e : Refusal) (f : A → Outcome B) {b : B}
    → (or_refuse o e >>= f) ≡ ok b
    → (a : A) × (o ≡ some a) × (f a ≡ ok b)
or_refuse-eq-ok none e f h = cc
or_refuse-eq-ok (some a) e f h = (a, refl, h)

key_for-ok {ℓ} :
    {Key : Type ℓ} (get_key : Text → Option Key) (header : Header) (key : Key)
    → key_for get_key header ≡ ok key
    → (kid : Text) × (alg : Text) × (header ≡ record { kid = some kid; alg = some alg })
      × ((alg ≡ codes "RS256") ⊎ (alg ≡ codes "ES256"))
      × (get_key kid ≡ some key)
unfolding key_for
key_for-ok get_key header key h =
    let (kid, has_kid, h1) = or_refuse-eq-ok header.kid missing_kid _ h in
    let (alg, has_alg, h2) = or_refuse-eq-ok header.alg missing_alg _ h1 in
    let (signing, h3) = >>-eq-ok (refuse_if (not (is_signing_alg alg)) bad_alg) _ h2 in
    (
      kid,
      alg,
      ground arith,
      ground (arith, text_eq_iff alg (codes "RS256"), text_eq_iff alg (codes "ES256")),
      ground (arith, h3),
    )

module _ (v : Verifier) (claims : Claims) (now : ℕ) where
  check_audience-ok :
      check_audience v claims ≡ ok tt
      → (v.aud ≡ []) ⊎ (any (λ a. text_eq a v.aud) claims.audience ≡ true)
  unfolding check_audience
  check_audience-ok h = ground (arith, text_eq_iff v.aud [])

  check_issuer-ok : check_issuer v claims ≡ ok tt → (v.issuer ≡ []) ⊎ (claims.issuer ≡ v.issuer)
  unfolding check_issuer
  check_issuer-ok h = ground (arith, text_eq_iff v.issuer [], text_eq_iff claims.issuer v.issuer)

  check_expiry-ok :
      check_expiry claims now ≡ ok tt → (e : ℕ) × (claims.expires_at ≡ some e) × (now ≤ e)
  unfolding check_expiry
  check_expiry-ok h = elim (Option-cases claims.expires_at) [
    | inl absent ↦ absurd (ground arith)
    | inr (e, found) ↦ (e, found, ground arith)
  ]

  check_not_before-ok : check_not_before claims now ≡ ok tt → Started claims.not_before now
  unfolding check_not_before
  check_not_before-ok h = elim (Option-cases claims.not_before) [
    | inl absent ↦ rw absent tt
    | inr (n, found) ↦ rw found (ground (arith, h, found))
  ]

  check_claims-Vouched :
      (user : Text)
      → check_claims v claims now ≡ ok user
      → Vouched v claims now × (claims.sub ≡ user)
  unfolding check_claims
  check_claims-Vouched user h =
      let (aud, h1) = >>-eq-ok (check_audience v claims) _ h in
      let (iss, h2) = >>-eq-ok (check_issuer v claims) _ h1 in
      let (expires, h3) = >>-eq-ok (check_expiry claims now) _ h2 in
      let (nbf, h4) = >>-eq-ok (check_not_before claims now) _ h3 in
      let (e, found, alive) = check_expiry-ok expires in
      (
        record {
          for_us = check_audience-ok aud;
          from_issuer = check_issuer-ok iss;
          expiry = e;
          has_expiry = found;
          not_expired = alive;
          started = check_not_before-ok nbf;
          named = ground (arith, text_eq_iff (trim_space claims.sub) []);
        },
        ground (arith, text_eq_iff (trim_space claims.sub) []),
      )

-- Back from what the claims show to each check.
nonempty_audience :
    (v : Verifier) (xs : List Text)
    → any (λ a. text_eq a v.aud) xs ≡ true
    → (length xs == 0) ≡ false
nonempty_audience v [] h = cc
nonempty_audience v (x ∷ xs) h = ground arith

Vouched-check_claims :
    (v : Verifier) (claims : Claims) (now : ℕ)
    → Vouched v claims now
    → check_claims v claims now ≡ ok claims.sub
unfolding check_claims
Vouched-check_claims v claims now shown = rw (audience, issuer, expiry, not_before, subject)
  where
    audience : check_audience v claims ≡ ok tt
    audience = elim shown.for_us [
      | inl e ↦ unfold check_audience in ground (arith, text_eq_iff v.aud [])
      | inr hit ↦ unfold check_audience in ground (arith, nonempty_audience v claims.audience hit)
    ]

    issuer : check_issuer v claims ≡ ok tt
    issuer =
        unfold check_issuer in
        ground
          (arith, shown.from_issuer, text_eq_iff v.issuer [], text_eq_iff claims.issuer v.issuer)

    expiry : check_expiry claims now ≡ ok tt
    expiry = unfold check_expiry in ground (arith, shown.has_expiry, shown.not_expired)

    not_before : check_not_before claims now ≡ ok tt
    not_before = elim (Option-cases claims.not_before) [
      | inl e ↦ unfold check_not_before in ground arith
      | inr (n, e) ↦ unfold check_not_before in ground (arith, rw e at shown.started)
    ]

    subject : refuse_if (text_eq (trim_space claims.sub) []) no_subject ≡ ok tt
    subject = ground (arith, text_eq_iff (trim_space claims.sub) [], shown.named)

-- What stands behind a user that `verify` returns: a header with a key id and one of the two signing
-- algorithms, a key of that id from the key set, claims that the library has validated under that
-- key, and all that the claims must show.
pub record Accepted {ℓ} {Key : Type ℓ} (jwt : Jwt Key) (get_key : Text → Option Key) (v : Verifier)
    (raw : Text) (now : ℕ) (user : Text) : Type ℓ where
  pub kid : Text
  pub alg : Text
  pub key : Key
  pub claims : Claims
  pub header : jwt.header raw ≡ some (record { kid = some kid; alg = some alg })
  pub signing : (alg ≡ codes "RS256") ⊎ (alg ≡ codes "ES256")
  pub known : get_key kid ≡ some key
  pub valid : jwt.claims raw key ≡ some (claims, true)
  pub vouched : Vouched v claims now
  pub subject : claims.sub ≡ user

-- A token is accepted for a user only if its header has a key id and one of the two signing
-- algorithms, the key set has a key of that id, the library has validated the claims under that
-- key, and the claims show the audience and the issuer, where the verifier is configured with one,
-- an expiry that has not passed, a `not before`, if there is one, that has come or is at most 30
-- seconds away, and that user, who has a name.
pub verify-Accepted {ℓ} :
    {Key : Type ℓ} (jwt : Jwt Key) (get_key : Text → Option Key) (v : Verifier) (raw : Text)
    (now : ℕ) (user : Text)
    → verify jwt get_key v raw now ≡ ok user
    → Accepted jwt get_key v raw now user
unfolding verify
verify-Accepted jwt get_key v raw now user h =
    let (hd, header, h1) = or_refuse-eq-ok (jwt.header raw) bad_token _ h in
    let (key, h2, keyed) = >>=-steps _ (key_for get_key hd) h1 in
    let (parsed, claimed, h3) = or_refuse-eq-ok (jwt.claims raw key) bad_token _ h2 in
    let (valid, h4) = >>-eq-ok (refuse_if (not parsed.1) bad_claims) _ h3 in
    let (kid, alg, shape, signing, known) = key_for-ok get_key hd key keyed in
    let (vouched, subject) = check_claims-Vouched v parsed.0 now user h4 in
    record {
      kid = kid;
      alg = alg;
      key = key;
      claims = parsed.0;
      header = ground (arith, header, shape);
      signing = signing;
      known = known;
      valid = ground (arith, claimed, valid);
      vouched = vouched;
      subject = subject;
    }

-- A token that shows all that an accepted one must show is not refused.
pub Accepted-verify {ℓ} :
    {Key : Type ℓ} (jwt : Jwt Key) (get_key : Text → Option Key) (v : Verifier) (raw : Text)
    (now : ℕ) (user : Text)
    → Accepted jwt get_key v raw now user
    → verify jwt get_key v raw now ≡ ok user
unfolding verify key_for
Accepted-verify jwt get_key v raw now user a =
    let alg_ok : is_signing_alg a.alg ≡ true =
      ground
        (arith, a.signing, text_eq_iff a.alg (codes "RS256"), text_eq_iff a.alg (codes "ES256")) in
    rw a.header (
      rw alg_ok (
        rw a.known
          (rw a.valid (rw (Vouched-check_claims v a.claims now a.vouched) (ap ok a.subject)))))

-- ===== src/Auth/Verifier.antt =====
-- internal/auth/verifier.go. The JWT library's `ParseWithClaims` is a parameter: what it hands to the
-- key function, and what it makes of the token and the key. Times are in nanoseconds.
pub mod Accept
use aniraku_backend.Base.{
  ltb, ◌==◌, if◌then◌else◌, length, any, Text, codes, text_eq, trim_space, ℕ, ◌+◌, Bool, true,
  false, not, ◌&&◌, ◌||◌, Option, none, some, List, [],
}

-- The claims of a token that the library has parsed; absent claims are `none`.
pub record Claims : Type 0 where
  pub sub : Text
  pub audience : List Text
  pub issuer : Text
  pub expires_at : Option ℕ
  pub not_before : Option ℕ

pub record Header : Type 0 where
  pub kid : Option Text
  pub alg : Option Text

pub data Refusal : Type 0 where
  missing_kid missing_alg bad_alg no_key bad_token bad_claims no_audience wrong_audience
        wrong_issuer no_expiry expired not_yet_valid no_subject :
      Refusal

pub data Outcome {ℓ} (A : Type ℓ) : Type ℓ where
  ok : A → Outcome A
  err : Refusal → Outcome A

-- The first refusal ends a chain of checks, as each `return "", err` does.
infixl 5 ◌>>=◌
abbrev pub ◌>>=◌ {ℓ κ} :
    {Given : Type ℓ} {Last : Type κ} → Outcome Given → (Given → Outcome Last) → Outcome Last
err refusal >>= next = err refusal
ok given >>= next = next given

infixl 5 ◌>>◌
abbrev pub ◌>>◌ {ℓ} : {Last : Type ℓ} → Outcome (Unit {0}) → Outcome Last → Outcome Last
first >> rest = first >>= λ _. rest

abbrev pub or_refuse {ℓ} : {A : Type ℓ} → Option A → Refusal → Outcome A
or_refuse none e = err e
or_refuse (some a) e = ok a

abbrev pub refuse_if : Bool → Refusal → Outcome (Unit {0})
refuse_if true e = err e
refuse_if false e = ok tt

abbrev pub leeway : ℕ
leeway = 30_000_000_000

pub record Verifier : Type 0 where
  pub aud : Text
  pub issuer : Text

abbrev is_signing_alg : Text → Bool
is_signing_alg alg = text_eq alg (codes "RS256") || text_eq alg (codes "ES256")

-- The key function that is handed to the library: the key of the header's `kid`, for two algorithms.
unfoldable pub key_for {ℓ} : {Key : Type ℓ} → (Text → Option Key) → Header → Outcome Key
key_for get_key header = do
  kid ← or_refuse header.kid missing_kid
  alg ← or_refuse header.alg missing_alg
  refuse_if (not (is_signing_alg alg)) bad_alg
  or_refuse (get_key kid) no_key

-- The checks of the claims, in their order.
pub check_audience : Verifier → Claims → Outcome (Unit {0})
check_audience v claims =
    if not (text_eq v.aud [])
    then (if length claims.audience == 0
        then err no_audience
        else refuse_if (not (any (λ a. text_eq a v.aud) claims.audience)) wrong_audience)
    else ok tt

pub check_issuer : Verifier → Claims → Outcome (Unit {0})
check_issuer v claims =
    refuse_if (not (text_eq v.issuer []) && not (text_eq claims.issuer v.issuer)) wrong_issuer

pub check_expiry : Claims → ℕ → Outcome (Unit {0})
check_expiry claims now = do
  e ← or_refuse claims.expires_at no_expiry
  refuse_if (ltb e now) expired

pub check_not_before : Claims → ℕ → Outcome (Unit {0})
check_not_before claims now = elim claims.not_before [
  | none ↦ ok tt
  | some n ↦ refuse_if (ltb (now + leeway) n) not_yet_valid
]

pub check_claims : Verifier → Claims → ℕ → Outcome Text
unfolding check_audience check_issuer check_expiry check_not_before
check_claims v claims now = do
  check_audience v claims
  check_issuer v claims
  check_expiry claims now
  check_not_before claims now
  refuse_if (text_eq (trim_space claims.sub) []) no_subject
  ok claims.sub

-- What the library does with a raw token: it reads the header, asks for the key, and checks the
-- signature (and the standard claims), which gives the claims and the token's `Valid`.
pub record Jwt {ℓ} (Key : Type ℓ) : Type ℓ where
  pub header : Text → Option Header
  pub claims : Text → Key → Option (Claims × Bool)

unfoldable pub verify {ℓ} :
    {Key : Type ℓ} → Jwt Key → (Text → Option Key) → Verifier → Text → ℕ → Outcome Text
unfolding key_for check_claims
verify jwt get_key v raw now = do
  header ← or_refuse (jwt.header raw) bad_token
  key ← key_for get_key header
  parsed ← or_refuse (jwt.claims raw key) bad_token
  refuse_if (not parsed.1) bad_claims
  check_claims v parsed.0 now

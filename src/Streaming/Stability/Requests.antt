-- ===== src/Streaming/Stability/Requests.antt =====
-- Equality of the keys under which servers are kept.
use aniraku_backend.Base.{text_eq_iff, ◌≡◌, refl, ◌↔◌, true, arith}
use aniraku_backend.Streaming.Stability.{
  SignedInt, ServerRequestKey, ProviderRequestKey, same_signed, same_request, same_provider_request,
}

same_signed_iff : (a b : SignedInt) → (same_signed a b ≡ true) ↔ (a ≡ b)
unfolding same_signed
same_signed_iff a b = ground arith

pub same_request_iff : (a b : ServerRequestKey) → (same_request a b ≡ true) ↔ (a ≡ b)
unfolding same_request
same_request_iff a b = ground (
  arith,
  same_signed_iff a.anime_id b.anime_id,
  same_signed_iff a.episode b.episode,
  text_eq_iff a.lang b.lang,
)

pub same_provider_request_iff :
    (a b : ProviderRequestKey) → (same_provider_request a b ≡ true) ↔ (a ≡ b)
unfolding same_provider_request
same_provider_request_iff a b =
    ground (arith, same_request_iff a.request b.request, text_eq_iff a.provider b.provider)

pub same_provider_request_refl : (k : ProviderRequestKey) → same_provider_request k k ≡ true
same_provider_request_refl k = (same_provider_request_iff k k).1 refl

pub same_request_refl : (k : ServerRequestKey) → same_request k k ≡ true
same_request_refl k = (same_request_iff k k).1 refl

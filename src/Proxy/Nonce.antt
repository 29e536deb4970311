-- ===== src/Proxy/Nonce.antt =====
-- `stripProxyNonce` and `mustQueryUnescape` of internal/api/v1/proxy.go. `url.QueryUnescape` and the case
-- folding of `strings.EqualFold` are parameters.
use aniraku_backend.Base.{
  ◌==◌, if◌then◌else◌, length, any, Text, codes, text_eq, cut, split, ◌≡◌, refl, Bool, not, ◌&&◌,
  ◌||◌, Option, none, some, List, [], ◌∷◌, ◌++◌, arith,
}

unfoldable pub param_name : Text → Text
unfolding cut
param_name part = elim (cut b'=' part) [ none ↦ part | some (front, back) ↦ front ]

unfoldable pub join_params : List Text → Text
join_params [] = []
join_params (p ∷ []) = p
join_params (p ∷ ps) = p ++ b'&' ∷ join_params ps

-- `strings.Split(raw, "&")` without the empty parts and the parts named `rn`; the flag is `hasRN`.
module _ (query_unescape : Text → Option Text) (fold : Text → Text) where
  -- `strings.EqualFold` is the comparison of what `fold` gives.
  unfoldable pub is_nonce : Text → Bool
  unfolding param_name text_eq
  is_nonce part =
      let name = param_name part in
      text_eq name (codes "rn")
      || text_eq (fold (elim (query_unescape name) [ none ↦ name | some d ↦ d ]))
          (fold (codes "rn"))

  unfoldable pub kept_params : List Text → List Text
  unfolding is_nonce
  kept_params [] = []
  kept_params (part ∷ parts) =
      let rest = kept_params parts in if text_eq part [] || is_nonce part then rest else part ∷ rest

  unfoldable pub has_nonce : List Text → Bool
  unfolding is_nonce
  has_nonce parts = any (λ part. not (text_eq part []) && is_nonce part) parts

  unfoldable pub strip_proxy_nonce : Text → Text
  unfolding cut kept_params has_nonce join_params split
  strip_proxy_nonce u = elim (cut b'?' u) [
    | none ↦ u
    | some (front, raw) ↦
        let parts = split b'&' raw in
        let kept = kept_params parts in
        if not (has_nonce parts)
        then u
        else if length kept == 0
        then front
        else front ++ b'?' ∷ join_params kept
  ]

-- The parameters of a URL, as they stand in it.
unfoldable pub query_params : Text → List Text
unfolding cut split
query_params u = elim (cut b'?' u) [ none ↦ [] | some (front, raw) ↦ split b'&' raw ]

-- What stands before the parameters.
unfoldable pub before_query : Text → Text
unfolding cut
before_query u = elim (cut b'?' u) [ none ↦ u | some (front, raw) ↦ front ]

module _ (query_unescape : Text → Option Text) (fold : Text → Text) where
  kept_params_twice :
      (ps : List Text)
      → kept_params query_unescape fold (kept_params query_unescape fold ps)
        ≡ kept_params query_unescape fold ps
  unfolding kept_params
  kept_params_twice [] = refl
  kept_params_twice (p ∷ ps) = ground (arith, kept_params_twice ps)

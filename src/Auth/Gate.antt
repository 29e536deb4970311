-- ===== src/Auth/Gate.antt =====
-- internal/auth/middleware.go: the bearer gate and the admin gate. The token check is `verify` of the
-- verifier; Supabase's answer to the is_admin() call is a parameter.
use aniraku_backend.Base.{
  leb, ◌==◌, if◌then◌else◌, Bool-cases, Option-cases, Text, codes, text_eq, text_eq_iff, ℕ, ◌+◌,
  ◌≡◌, refl, ◌∙◌, ◌≢◌, inl, inr, Bool, true, not, ◌&&◌, Option, none, some, [], ◌∷◌, ◌++◌, map,
  arith,
}
use aniraku_backend.Auth.Verifier.{Outcome, ok, err}

-- The values that the bearer gate puts in the request's context.
pub record Context : Type 0 where
  pub user_id : Option Text
  pub raw_token : Option Text

pub data Gate : Type 0 where
  unauthorized internal_error forbidden : Gate
  next : Context → Gate

-- `strings.SplitN(s, " ", 2)`: the parts around the first space.
split_space : Text → Option (Text × Text)
split_space [] = none
split_space (c ∷ s) =
    let rest : Option (Text × Text) = elim (split_space s) [
      | none ↦ none
      | some (before, after) ↦ some (c ∷ before, after)
    ] in
    if c == 32 then some ([], s) else rest

unfoldable pub ascii_lower : ℕ → ℕ
ascii_lower c = if leb 65 c && leb c 90 then c + 32 else c

-- `strings.EqualFold(s, "Bearer")`; none of the word's letters folds with one outside ASCII.
is_bearer : Text → Bool
unfolding ascii_lower
is_bearer s = text_eq (map ascii_lower s) (codes "bearer")

module _ (verify_token : Text → Outcome Text) where
  -- `Middleware`: the context of a request that is let through.
  unfoldable pub authenticate : Text → Gate
  unfolding split_space is_bearer
  authenticate header = if text_eq header [] then unauthorized else elim (split_space header) [
    | none ↦ unauthorized
    | some (scheme, token) ↦
        if not (is_bearer scheme) then unauthorized else elim (verify_token token) [
          | err e ↦ unauthorized
          | ok user ↦ next (record { user_id = some user; raw_token = some token })
        ]
  ]

-- What the call of is_admin() gives: the request cannot be built or sent, another status than 200, or a
-- body that decodes to a truth value or not at all.
pub data Rpc : Type 0 where
  failed : Rpc
  status_not_ok : Rpc
  body : Option Bool → Rpc

abbrev or_empty : Option Text → Text
or_empty none = []
or_empty (some t) = t

module _ (is_admin : Text → Text → Rpc) where
  -- `RequireAdmin`, behind the bearer gate; the call carries the anon key and the user's token.
  unfoldable pub require_admin : Text → Context → Gate
  require_admin anon_key ctx =
      if text_eq (or_empty ctx.user_id) []
      then unauthorized
      else if text_eq anon_key []
      then internal_error
      else elim (is_admin anon_key (or_empty ctx.raw_token)) [
        | failed ↦ internal_error
        | status_not_ok ↦ forbidden
        | body none ↦ forbidden
        | body (some admin) ↦ if not admin then forbidden else next ctx
      ]

-- The admin routes: both gates, in the router's order.
unfoldable pub admin_route : (Text → Outcome Text) → (Text → Text → Rpc) → Text → Text → Gate
unfolding authenticate require_admin
admin_route verify_token is_admin anon_key header = elim (authenticate verify_token header) [
  | next ctx ↦ require_admin is_admin anon_key ctx
  | unauthorized ↦ unauthorized
  | internal_error ↦ internal_error
  | forbidden ↦ forbidden
]

split_space_lem :
    (s before after : Text) → split_space s ≡ some (before, after) → s ≡ before ++ 32 ∷ after
unfolding split_space
split_space_lem [] before after h = absurd (ground arith)
split_space_lem (c ∷ s) before after h = elim (Bool-cases (c == 32)) [
  | inl space ↦
      let same : (before ≡ []) × (after ≡ s) =
        (ground (arith, h, space), ground (arith, h, space)) in
      ground (arith, same, space)
  | inr inside ↦ elim (Option-cases (split_space s)) [
    | inl missing ↦ absurd (ground (arith, h, inside, missing))
    | inr ((b, a), found) ↦
        let same : (before ≡ c ∷ b) × (after ≡ a) =
          (ground (arith, h, inside, found), ground (arith, h, inside, found)) in
        ground (arith, same, split_space_lem s b a found)
  ]
]

-- The header is the scheme and the token of that user, and the context has both.
abbrev pub Bearer : (Text → Outcome Text) → Text → Context → Text → Text → Text → Type 0
Bearer verify_token header ctx scheme user token =
    (header ≡ scheme ++ 32 ∷ token)
    × (map ascii_lower scheme ≡ codes "bearer")
    × (ctx ≡ record { user_id = some user; raw_token = some token })
    × (verify_token token ≡ ok user)

authenticate-next :
    (verify_token : Text → Outcome Text) (header : Text) (ctx : Context)
    → authenticate verify_token header ≡ next ctx
    → (scheme : Text) × (user : Text) × (token : Text) × Bearer verify_token header ctx scheme user
        token
unfolding authenticate is_bearer
authenticate-next verify_token header ctx h = elim (Option-cases (split_space header)) [
  | inl e ↦ absurd (ground arith)
  | inr ((scheme, token), e) ↦ with_token scheme token e (verify_token token) refl
]
  where
    with_token :
        (scheme token : Text)
        → split_space header ≡ some (scheme, token)
        → (o : Outcome Text) → verify_token token ≡ o
        → (scheme : Text) × (user : Text) × (token : Text) × Bearer verify_token header ctx scheme
            user token
    with_token scheme token e (err r) e' = absurd (ground arith)
    with_token scheme token e (ok user) e' = (
      scheme,
      user,
      token,
      (
        split_space_lem header scheme token e,
        ground (arith, text_eq_iff (map ascii_lower scheme) (codes "bearer")),
        ground arith,
        e',
      ),
    )

require_admin-next :
    (is_admin : Text → Text → Rpc) (anon_key : Text) (ctx after : Context)
    → require_admin is_admin anon_key ctx ≡ next after
    → (after ≡ ctx)
      × (or_empty ctx.user_id ≢ [])
      × (is_admin anon_key (or_empty ctx.raw_token) ≡ body (some true))
unfolding require_admin
require_admin-next is_admin anon_key ctx after h =
    ground (arith, text_eq_iff (or_empty ctx.user_id) [])

module _ (verify_token : Text → Outcome Text) (is_admin : Text → Text → Rpc) where
  -- An admin handler runs only for a request whose header is the word "bearer" in any case, a space
  -- and a token that the verifier accepts for a user with a name, and for which Supabase, asked
  -- with that very token, answered `true`; the handler sees that user and token.
  pub admin_route-next :
      (anon_key header : Text) (ctx : Context)
      → admin_route verify_token is_admin anon_key header ≡ next ctx
      → (scheme : Text) × (user : Text) × (token : Text) × Bearer verify_token header ctx scheme
          user token
        × (user ≢ [])
        × (is_admin anon_key token ≡ body (some true))
  unfolding admin_route
  admin_route-next anon_key header ctx h = by_gate (authenticate verify_token header) refl
    where
      by_gate :
          (g : Gate)
          → authenticate verify_token header ≡ g
          → (scheme : Text) × (user : Text) × (token : Text) × Bearer verify_token header ctx scheme
              user token
            × (user ≢ [])
            × (is_admin anon_key token ≡ body (some true))
      by_gate (next before) e =
          let (scheme, user, token, (glued, bearer, shape, verified)) =
            authenticate-next verify_token header before e in
          let passed : require_admin is_admin anon_key before ≡ next ctx =
            rw (e, admin_route) at h in
          let (same, named, admin) = require_admin-next is_admin anon_key before ctx passed in
          (
            scheme,
            user,
            token,
            (glued, bearer, same ∙ shape, verified),
            rw shape at named,
            rw shape at admin,
          )
      by_gate unauthorized e = absurd (ground arith)
      by_gate internal_error e = absurd (ground arith)
      by_gate forbidden e = absurd (ground arith)

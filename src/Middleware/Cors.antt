-- ===== src/Middleware/Cors.antt =====
-- internal/api/middleware/cors.go. The set of origins is the list of its members, and the environment's
-- value is an argument.
use aniraku_backend.Base.{
  if◌then◌else◌, Bool-cases, any, any-append, Text, codes, text_eq, text_eq_iff, text_eq_refl,
  trim_space, split, ◌≡◌, sym, ◌≢◌, ◌⊎◌, inl, inr, Bool, true, not, ◌&&◌, Option, none, some, List,
  [], ◌∷◌, ◌++◌, map, arith,
}
use Prim.Native.String.{String}

abbrev pub built_in_origins : List String
built_in_origins =
    "http://127.0.0.1:3000" ∷ "http://localhost:3000" ∷ "http://127.0.0.1:43211"
    ∷ "http://localhost:3001" ∷ "http://localhost:43211" ∷ "http://localhost:5173"
    ∷ "http://127.0.0.1:5173" ∷ "https://aniraku.tech" ∷ "https://www.aniraku.tech"
    ∷ "https://test.aniraku.tech" ∷ "https://aniraku.pages.dev" ∷ "https://test-aniraku.pages.dev"
    ∷ "https://aniraku.runs-on.dev" ∷ "https://aniraku.run-on.dev" ∷ []

-- The entries of ANIRAKU_CORS_ORIGINS that are not blank.
unfoldable pub extra_origins : List Text → List Text
extra_origins [] = []
extra_origins (o ∷ os) =
    let rest = extra_origins os in
    let entry = trim_space o in if text_eq entry [] then rest else entry ∷ rest

unfoldable pub allowed_origins : Text → List Text
unfolding extra_origins
allowed_origins env =
    map (λ o. codes o) built_in_origins
    ++ (if text_eq env [] then [] else extra_origins (split b',' env))

unfoldable pub is_allowed_origin : Text → Text → Bool
unfolding allowed_origins
is_allowed_origin env origin = any (text_eq origin) (allowed_origins env)

-- The headers of an answer that depend on the request, and whether `CORS` answers by itself, with 204.
pub record CorsAnswer : Type 0 where
  pub allow_origin : Option Text
  pub allow_credentials : Bool
  pub preflight : Bool

unfoldable pub cors : Text → Text → Text → CorsAnswer
unfolding is_allowed_origin
cors env method origin =
    let trusted = not (text_eq origin []) && is_allowed_origin env origin in
    record {
      allow_origin = if trusted then some origin else none;
      allow_credentials = trusted;
      preflight = text_eq method (codes "OPTIONS");
    }

-- Where an origin comes from that is trusted: the built-in list, or an entry of the environment's value.
pub data Configured (env origin : Text) : Type 0 where
  built_in :
      any (text_eq origin) (map (λ o. codes o) built_in_origins) ≡ true → Configured env origin
  listed_entry :
      (entry : Text)
      → any (text_eq entry) (split b',' env) ≡ true
      → trim_space entry ≡ origin
      → Configured env origin

extra_origins-entry :
    (os : List Text) (origin : Text)
    → any (text_eq origin) (extra_origins os) ≡ true
    → (entry : Text) × (any (text_eq entry) os ≡ true) × (trim_space entry ≡ origin)
unfolding extra_origins
extra_origins-entry [] origin h = absurd (ground (arith, h))
extra_origins-entry (o ∷ os) origin h = elim (Bool-cases (text_eq (trim_space o) [])) [
  | inl blank ↦
      let (entry, found, shape) = extra_origins-entry os origin (ground (arith, h, blank)) in
      (entry, ground (arith, found), shape)
  | inr full ↦ elim (Bool-cases (text_eq origin (trim_space o))) [
    | inl here ↦
        (o, ground (arith, text_eq_refl o), sym ((text_eq_iff origin (trim_space o)).0 here))
    | inr other ↦
        let (entry, found, shape) =
          extra_origins-entry os origin (ground (arith, h, full, other)) in
        (entry, ground (arith, found), shape)
  ]
]

in_either :
    (s : Text) (xs ys : List Text)
    → any (text_eq s) (xs ++ ys) ≡ true
    → (any (text_eq s) xs ≡ true) ⊎ (any (text_eq s) ys ≡ true)
in_either s xs ys h = ground (arith, any-append (text_eq s) xs ys, h)

extra-Configured :
    (env origin : Text)
    → any (text_eq origin) (if text_eq env [] then [] else extra_origins (split b',' env)) ≡ true
    → Configured env origin
extra-Configured env origin h =
    let (entry, found, shape) = extra_origins-entry (split b',' env) origin (ground (arith, h)) in
    listed_entry entry found shape

is_allowed_origin-Configured :
    (env origin : Text) → is_allowed_origin env origin ≡ true → Configured env origin
unfolding is_allowed_origin
is_allowed_origin-Configured env origin h =
    elim (in_either origin (map (λ o. codes o) built_in_origins) _ h) [
      | inl known ↦ built_in known
      | inr extra ↦ extra-Configured env origin extra
    ]

cors_origin :
    (env method origin o : Text)
    → (cors env method origin).allow_origin ≡ some o
    → (o ≡ origin)
      × (origin ≢ [])
      × ((cors env method origin).allow_credentials ≡ true)
      × (is_allowed_origin env origin ≡ true)
unfolding cors
cors_origin env method origin o h = ground (arith, h, text_eq_iff origin [])

-- An origin that an answer names is the request's own, is not empty, comes with the leave to send
-- credentials, and is on the built-in list or is an entry of the environment's value with its
-- blanks removed.
pub cors-Configured :
    (env method origin o : Text)
    → (cors env method origin).allow_origin ≡ some o
    → (o ≡ origin)
      × (origin ≢ [])
      × ((cors env method origin).allow_credentials ≡ true)
      × Configured env origin
cors-Configured env method origin o h =
    let (same_origin, named, credentials, allowed) = cors_origin env method origin o h in
    (same_origin, named, credentials, is_allowed_origin-Configured env origin allowed)

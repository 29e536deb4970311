-- ===== src/Proxy/Transport.antt =====
-- `doRequest` of internal/api/v1/proxy.go: the four TLS transports that a fetch falls through, and the
-- memo of the one that last won for a host. The network is a function from the number of the attempt and
-- the transport to what comes back.
pub mod Again
use aniraku_backend.Base.{
  ltb, ◌==◌, if◌then◌else◌, Bool-cases, Option-cases, Text, text_eq_refl, Dict, lookup, insert,
  delete, lookup-insert, ℕ, ◌+◌, ◌-◌, ◌≡◌, refl, ap, ◌⊎◌, inl, inr, Bool, true, false, not, ◌&&◌,
  none, some, List, [], ◌∷◌, ◌++◌, arith,
}

-- The client for plain `http`, and the chain in its order.
pub data Transport : Type 0 where
  plain h2 h1 go_tls go_tls4 : Transport

-- A response: its status, the headers that the proxy reads (absent ones are empty), the bytes that
-- arrive, and whether the body ends by its end and not by a read error.
pub record Upstream : Type 0 where
  pub status : ℕ
  pub content_type : Text
  pub content_range : Text
  pub accept_ranges : Text
  pub content_length : Text
  pub body : Text
  pub complete : Bool

pub data Outcome : Type 0 where
  failed : Text → Outcome
  responded : Upstream → Outcome

pub record TransportEntry : Type 0 where
  pub client : Transport
  pub at : ℕ

abbrev pub proxy_memo_ttl : ℕ
proxy_memo_ttl = 600_000_000_000

-- What comes back from an attempt, by its number, and the clock after that many attempts.
pub record Wire : Type 0 where
  pub reply : ℕ → Transport → Outcome
  pub clock : ℕ → ℕ

-- No transport error, and neither a 403 nor a 429.
unfoldable pub is_clean : Outcome → Bool
is_clean (failed e) = false
is_clean (responded u) = not (u.status == 403) && not (u.status == 429)

-- The memo afterwards, the transports tried in their order, and what is returned.
pub record Fetched : Type 0 where
  pub memo : Dict TransportEntry
  pub tried : List Transport
  pub outcome : Outcome

unfoldable pub after_refusal : Transport → Fetched → Fetched
after_refusal c f = record f { tried = c ∷ f.tried }

abbrev pub chain : List Transport
chain = h2 ∷ h1 ∷ go_tls ∷ []

module _ (wire : Wire) (host : Text) where
  -- The loop over the chain, from attempt `n`; the last transport's outcome is returned as it is.
  unfoldable pub walk : List Transport → ℕ → Dict TransportEntry → Fetched
  unfolding is_clean after_refusal
  walk [] n memo = record { memo = memo; tried = go_tls4 ∷ []; outcome = wire.reply n go_tls4 }
  walk (c ∷ cs) n memo =
      let rest = walk cs (n + 1) memo in
      if is_clean (wire.reply n c)
      then record {
        memo = insert host (record { client = c; at = wire.clock (n + 1) }) memo;
        tried = c ∷ [];
        outcome = wire.reply n c;
      }
      else after_refusal c rest

  -- A remembered transport that has stopped working is forgotten before the walk.
  unfoldable pub try_remembered : TransportEntry → ℕ → Dict TransportEntry → Fetched
  unfolding walk is_clean
  try_remembered e n memo =
      let walked = walk chain (n + 1) (delete host memo) in
      if is_clean (wire.reply n e.client)
      then record { memo = memo; tried = e.client ∷ []; outcome = wire.reply n e.client }
      else after_refusal e.client walked

  unfoldable pub do_request : Bool → ℕ → Dict TransportEntry → Fetched
  unfolding try_remembered walk
  do_request https n memo =
      if not https
      then record { memo = memo; tried = plain ∷ []; outcome = wire.reply n plain }
      else elim (lookup host memo) [
        | none ↦ walk chain n memo
        | some e ↦
            if ltb (wire.clock n - e.at) proxy_memo_ttl
            then try_remembered e n memo
            else walk chain n memo
      ]

  -- Attempt `k` won: its outcome is clean and returned, its transport is remembered, and while the entry
  -- lives a later fetch on any network tries that transport first and, if it is clean, no other.
  pub record Won (f : Fetched) (k : ℕ) (e : TransportEntry) : Type 0 where
    pub clean : is_clean f.outcome ≡ true
    pub returned : f.outcome ≡ wire.reply k e.client
    pub remembered : lookup host f.memo ≡ some e

  -- Every transport was tried, the IPv4-only one last, and its outcome is returned.
  pub record Exhausted (f : Fetched) (k : ℕ) (front : List Transport) : Type 0 where
    pub all_tried : f.tried ≡ front ++ go_tls4 ∷ []
    pub returned : f.outcome ≡ wire.reply k go_tls4

  after_refusal-Won :
      (c : Transport) (f : Fetched) (k : ℕ) (e : TransportEntry)
      → Won f k e
      → Won (after_refusal c f) k e
  unfolding after_refusal
  after_refusal-Won c f k e w = record {
    clean = w.clean;
    returned = w.returned;
    remembered = w.remembered;
  }

  after_refusal-Exhausted :
      (c : Transport) (f : Fetched) (k : ℕ) (front : List Transport)
      → Exhausted f k front
      → Exhausted (after_refusal c f) k (c ∷ front)
  unfolding after_refusal
  after_refusal-Exhausted c f k front x = record {
    all_tried = ap (◌∷◌ c) x.all_tried;
    returned = x.returned;
  }

  abbrev Ends : Fetched → List Transport → Type 0
  Ends f front = ((k : ℕ) × (e : TransportEntry) × Won f k e) ⊎ ((k : ℕ) × Exhausted f k front)

  after_refusal-Ends :
      (c : Transport) (f : Fetched) (front : List Transport)
      → Ends f front
      → Ends (after_refusal c f) (c ∷ front)
  after_refusal-Ends c f front (inl (k, e, w)) = inl (k, e, after_refusal-Won c f k e w)
  after_refusal-Ends c f front (inr (k, x)) = inr (k, after_refusal-Exhausted c f k front x)

  walk-Ends : (cs : List Transport) (n : ℕ) (memo : Dict TransportEntry) → Ends (walk cs n memo) cs
  unfolding walk
  walk-Ends [] n memo = inr (n, record { all_tried = refl; returned = refl })
  walk-Ends (c ∷ cs) n memo = elim (Bool-cases (is_clean (wire.reply n c))) [
    | inl won ↦ rw won (
        inl (
          n,
          record { client = c; at = wire.clock (n + 1) },
          record {
            clean = won;
            returned = refl;
            remembered = ground (
              arith,
              lookup-insert host host (record { client = c; at = wire.clock (n + 1) }) memo,
              text_eq_refl host,
            );
          },
        ))
    | inr refused ↦
        rw refused (after_refusal-Ends c (walk cs (n + 1) memo) cs (walk-Ends cs (n + 1) memo))
  ]

  try_remembered-Ends :
      (e : TransportEntry) (n : ℕ) (memo : Dict TransportEntry)
      → lookup host memo ≡ some e
      → Ends (try_remembered e n memo) chain ⊎ Ends (try_remembered e n memo) (e.client ∷ chain)
  unfolding try_remembered
  try_remembered-Ends e n memo found = elim (Bool-cases (is_clean (wire.reply n e.client))) [
    | inl won ↦
        rw won (inl (inl (n, e, record { clean = won; returned = refl; remembered = found })))
    | inr refused ↦ rw refused (
        inr (
          after_refusal-Ends e.client (walk chain (n + 1) (delete host memo)) chain
            (walk-Ends chain (n + 1) (delete host memo))))
  ]

  -- A fetch over TLS returns a clean response and remembers the transport that got it, or it has tried
  -- the four transports, after a remembered one that had stopped working, and returns what the last got.
  pub do_request-Ends :
      (n : ℕ) (memo : Dict TransportEntry)
      → Ends (do_request true n memo) chain
        ⊎ ((e : TransportEntry) × (lookup host memo ≡ some e)
            × Ends (do_request true n memo) (e.client ∷ chain))
  unfolding do_request
  do_request-Ends n memo = elim (Option-cases (lookup host memo)) [
    | inl none_known ↦ rw (none_known, do_request) (inl (walk-Ends chain n memo))
    | inr (e, found) ↦ elim (Bool-cases (ltb (wire.clock n - e.at) proxy_memo_ttl)) [
      | inl fresh ↦
          rw (found, fresh)
            (elim (try_remembered-Ends e n memo found) [
              | inl plain_end ↦ inl plain_end
              | inr longer ↦ inr (e, refl, longer)
            ])
      | inr stale ↦ rw (found, stale) (inl (walk-Ends chain n memo))
    ]
  ]

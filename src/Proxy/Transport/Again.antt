-- ===== src/Proxy/Transport/Again.antt =====
-- Two fetches by `doRequest` of internal/api/v1/proxy.go for one host.
use aniraku_backend.Base.{
  ltb, Bool-cases, length, Text, text_eq_refl, Dict, lookup, delete, lookup-insert, ℕ, ◌+◌, ◌-◌,
  ◌<◌, ◌≡◌, refl, ap, ◌∙◌, ◌≢◌, ◌⊎◌, inl, inr, true, false, none, some, List, [], ◌∷◌, ◌++◌, arith,
}
use aniraku_backend.Proxy.Transport.{
  Transport, TransportEntry, proxy_memo_ttl, Wire, is_clean, Fetched, after_refusal, chain, walk,
  try_remembered, do_request, go_tls4,
}

-- No transport is remembered for the host, or one for longer than ten minutes, or one that fails now.
abbrev pub Unhelped : Wire → Text → ℕ → Dict TransportEntry → Type 0
Unhelped wire host m memo =
    (lookup host memo ≡ none)
    ⊎ ((e : TransportEntry) × (lookup host memo ≡ some e)
        × ((ltb (wire.clock m - e.at) proxy_memo_ttl ≡ false)
            ⊎ (is_clean (wire.reply m e.client) ≡ false)))

module _ (wire : Wire) (host : Text) where
  -- The memo holds the transport that was tried last, with the time after the attempts.
  abbrev Kept : ℕ → Fetched → Transport → Type 0
  Kept n f c =
      lookup host f.memo ≡ some (record { client = c; at = wire.clock (n + length f.tried) })

  append_some : (front : List Transport) (c : Transport) → front ++ c ∷ [] ≢ []
  append_some [] c = ground arith
  append_some (x ∷ front) c = ground arith

  walk_some :
      (cs : List Transport) (n : ℕ) (memo : Dict TransportEntry)
      → (walk wire host cs n memo).tried ≢ []
  unfolding walk after_refusal
  walk_some [] n memo = ground arith
  walk_some (c ∷ cs) n memo = ground arith

  walk-Kept :
      (cs : List Transport) (n : ℕ) (memo : Dict TransportEntry) (front : List Transport)
      (c : Transport)
      → (walk wire host cs n memo).tried ≡ front ++ c ∷ []
      → c ≢ go_tls4
      → Kept n (walk wire host cs n memo) c
  unfolding walk after_refusal
  walk-Kept [] n memo [] c h before_last = absurd (ground arith)
  walk-Kept [] n memo (x ∷ front) c h before_last = absurd (ground (arith, h, append_some front c))
  walk-Kept (d ∷ cs) n memo [] c h before_last = elim (Bool-cases (is_clean (wire.reply n d))) [
    | inl won ↦ ground (
      arith,
      h,
      won,
      lookup-insert host host (record { client = d; at = wire.clock (n + 1) }) memo,
      text_eq_refl host,
    )
    | inr refused ↦ absurd (ground (arith, h, refused, walk_some cs (n + 1) memo))
  ]
  walk-Kept (d ∷ cs) n memo (x ∷ front) c h before_last =
      elim (Bool-cases (is_clean (wire.reply n d))) [
        | inl won ↦ absurd (ground (arith, h, won, append_some front c))
        | inr refused ↦
            let rest = walk-Kept cs (n + 1) memo front c (ground (arith, h, refused)) before_last in
            rw refused
              (rest ∙ ap (λ (k : ℕ). some (record { client = c; at = wire.clock k })) (omega arith))
      ]

  refused-Kept :
      (e : TransportEntry) (m : ℕ) (memo : Dict TransportEntry) (front : List Transport)
      (c : Transport)
      → is_clean (wire.reply m e.client) ≡ false
      → (try_remembered wire host e m memo).tried ≡ front ++ c ∷ []
      → c ≢ go_tls4
      → Kept m (try_remembered wire host e m memo) c
  unfolding try_remembered after_refusal
  refused-Kept e m memo [] c refused h before_last =
      absurd (ground (arith, h, refused, walk_some chain (m + 1) (delete host memo)))
  refused-Kept e m memo (x ∷ front) c refused h before_last = rw refused (
      walk-Kept chain (m + 1) (delete host memo) front c (ground (arith, h, refused)) before_last
      ∙ ap (λ (k : ℕ). some (record { client = c; at = wire.clock k })) (omega arith))

  do_request-Kept :
      (m : ℕ) (memo : Dict TransportEntry) (front : List Transport) (c : Transport)
      → Unhelped wire host m memo
      → (do_request wire host true m memo).tried ≡ front ++ c ∷ []
      → c ≢ go_tls4
      → Kept m (do_request wire host true m memo) c
  unfolding do_request
  do_request-Kept m memo front c (inl missing) h before_last =
      rw (missing, do_request)
        (walk-Kept chain m memo front c (rw (missing, do_request) at h) before_last)
  do_request-Kept m memo front c (inr (e, found, why)) h before_last =
      elim (Bool-cases (ltb (wire.clock m - e.at) proxy_memo_ttl)) [
        | inr old ↦
            rw (found, old, do_request)
              (walk-Kept chain m memo front c (rw (found, old, do_request) at h) before_last)
        | inl fresh ↦ elim why [
          | inl old ↦ absurd (ground (arith, fresh, old))
          | inr refused ↦
              rw (found, fresh, do_request)
                (refused-Kept e m memo front c refused (rw (found, fresh, do_request) at h)
                  before_last)
        ]
      ]

-- After a fetch over TLS for a host of which no transport was remembered, or one for ten minutes or
-- longer, or one that failed now, if the transport tried last is not the last of the chain, a later
-- fetch for the host that starts within ten minutes of the end of the first, on any network on
-- which that transport is clean, tries it and no other, returns what it got, and leaves the memo as
-- it is.
pub do_request_again :
    (wire later : Wire) (host : Text) (m n : ℕ) (memo : Dict TransportEntry)
    (front : List Transport) (c : Transport)
    → Unhelped wire host m memo
    → (do_request wire host true m memo).tried ≡ front ++ c ∷ []
    → c ≢ go_tls4
    → later.clock n
      < wire.clock (m + length (do_request wire host true m memo).tried) + proxy_memo_ttl
    → is_clean (later.reply n c) ≡ true
    → do_request later host true n (do_request wire host true m memo).memo ≡ record {
      memo = (do_request wire host true m memo).memo;
      tried = c ∷ [];
      outcome = later.reply n c;
    }
unfolding do_request try_remembered
do_request_again wire later host m n memo front c unhelped h before_last soon clean =
    let fresh : ltb
          (later.clock n - wire.clock (m + length (do_request wire host true m memo).tried))
          proxy_memo_ttl
        ≡ true =
      ground (arith, soon) in
    rw (do_request-Kept wire host m memo front c unhelped h before_last, fresh, clean) refl

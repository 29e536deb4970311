-- ===== src/Anilist/Client/Retry.antt =====
-- A rule for the retry loop of the client, and for a whole call.
use aniraku_backend.Base.{
  ltb, ◌==◌, if◌then◌else◌, Bool-cases, Option-cases, Text, text_eq, lookup, ℕ, zero, suc, ◌+◌, ◌-◌,
  ◌*◌, ◌≡◌, refl, sym, subst, inl, inr, Bool, true, false, none, some, [], arith,
}
use aniraku_backend.Anilist.Breaker.{allow}
use aniraku_backend.Anilist.Client.{
  CacheEntry, Client, Reply, unreachable, answered, idle, Env, Failure, circuit_open, Result, ok,
  err, second, cache_ttl, max_retries, parse_retry_after, fail_with, succeed, retry_wait, sent,
  attempts, fetch, cached_or_fetch, refused, do_request, context_ended, build_failed,
  host_unreachable, rate_limited, bad_status,
}

module _ (local_mirror : Bool) (env : Env) (key : Text) where
  abbrev waited : ℕ → ℕ → Client → Client
  waited a d c = let after = sent local_mirror env key a c in record after { now = after.now + d }

  -- What each way out of the loop, and each pause, has to respect.
  pub record Rule (I : ℕ → ℕ → Client → Type 0) (P : Client × Result → Type 0) : Type 0 where
    pub unbuilt : (left a : ℕ) (c : Client) → I left a c → P (c, err build_failed)
    pub ended :
        (left a : ℕ) (c : Client)
        → I left a c
        → P (sent local_mirror env key a c, err context_ended)
    pub failed :
        (left a : ℕ) (c : Client) (f : Failure)
        → I left a c
        → P (fail_with key f (sent local_mirror env key a c))
    pub succeeded :
        (left a : ℕ) (c : Client) (body retry_after : Text)
        → I left a c
        → env.reply a ≡ answered 200 body retry_after
        → P (succeed key body (sent local_mirror env key a c))
    pub pauses : (left a d : ℕ) (c : Client) → I (suc left) a c → I left (a + 1) (waited a d c)

  module _ {I : ℕ → ℕ → Client → Type 0} {P : Client × Result → Type 0} (rule : Rule I P) where
    last_round :
        (a : ℕ) (c : Client) (r : Reply)
        → I 0 a c
        → env.reply a ≡ r
        → env.builds ≡ true
        → P (attempts local_mirror env key 0 a c)
    unfolding attempts
    last_round a c unreachable i e b = rw (b, e) (rule.failed 0 a c host_unreachable i)
    last_round a c (answered status body retry_after) i e b =
        rw (b, e)
          (elim (Bool-cases (status == 429)) [
            | inl limited ↦ rw limited (rule.failed 0 a c rate_limited i)
            | inr other ↦ elim (Bool-cases (status == 200)) [
              | inl good ↦
                  let is_200 : status ≡ 200 = ground arith in
                  rw (other, good) (rule.succeeded 0 a c body retry_after i (rw is_200 at e))
              | inr bad ↦ rw (other, bad) (rule.failed 0 a c bad_status i)
            ]
          ])

    retry_round :
        (left a : ℕ) (c : Client) (r : Reply)
        → I (suc left) a c
        → env.reply a ≡ r
        → env.builds ≡ true
        → ((d : ℕ) → P (attempts local_mirror env key left (a + 1) (waited a d c)))
        → P (attempts local_mirror env key (suc left) a c)
    unfolding attempts
    retry_round left a c unreachable i e b more =
        rw (b, e)
          (elim (Bool-cases (env.cancelled a)) [
            | inl over ↦ rw over (rule.ended (suc left) a c i)
            | inr on ↦ rw on (more (second * (a + 1)))
          ])
    retry_round left a c (answered status body retry_after) i e b more =
        rw (b, e)
          (elim (Bool-cases (status == 429)) [
            | inl limited ↦ elim (Bool-cases (env.cancelled a)) [
              | inl over ↦ rw (limited, over) (rule.ended (suc left) a c i)
              | inr on ↦
                  rw (limited, on) (more (retry_wait local_mirror (parse_retry_after retry_after)))
            ]
            | inr other ↦ elim (Bool-cases (status == 200)) [
              | inl good ↦
                  let is_200 : status ≡ 200 = ground arith in
                  rw (other, good)
                    (rule.succeeded (suc left) a c body retry_after i (rw is_200 at e))
              | inr bad ↦ rw (other, bad) (rule.failed (suc left) a c bad_status i)
            ]
          ])

    unbuilt_round :
        (left a : ℕ) (c : Client)
        → I left a c
        → env.builds ≡ false
        → P (attempts local_mirror env key left a c)
    unfolding attempts
    unbuilt_round zero a c i b = rw b (rule.unbuilt 0 a c i)
    unbuilt_round (suc left) a c i b = rw b (rule.unbuilt (suc left) a c i)

    pub attempts-rule :
        (left a : ℕ) (c : Client) → I left a c → P (attempts local_mirror env key left a c)
    attempts-rule zero a c i = elim (Bool-cases env.builds) [
      | inl b ↦ last_round a c (env.reply a) i refl b
      | inr b ↦ unbuilt_round 0 a c i b
    ]
    attempts-rule (suc left) a c i =
        let more =
          λ (d : ℕ). attempts-rule left (a + 1) (waited a d c) (rule.pauses left a d c i) in
        elim (Bool-cases env.builds) [
          | inl b ↦ retry_round left a c (env.reply a) i refl b more
          | inr b ↦ unbuilt_round (suc left) a c i b
        ]

  -- The state behind the breaker's answer.
  abbrev pub admitted : Client → Client
  admitted c = record c { circuit = (allow c.circuit c.now).0 }

  module _ (P : Client × Result → Type 0) (c : Client) where
    fetch-rule :
        P (c, err context_ended)
        → P (attempts local_mirror env key max_retries 0 c)
        → ((d : ℕ) → P (attempts local_mirror env key max_retries 0 (record c { now = c.now + d })))
        → P (fetch local_mirror env key c)
    unfolding fetch
    fetch-rule ended unpaced paced = elim (Bool-cases local_mirror) [
      | inl mirror ↦ subst (λ (b : Bool). P (pacing b)) (sym mirror) unpaced
      | inr official ↦ subst (λ (b : Bool). P (pacing b)) (sym official) waits
    ]
      where
        pacing : Bool → Client × Result
        pacing b = if b then attempts local_mirror env key max_retries 0 c else elim env.paced [
          | none ↦ (c, err context_ended)
          | some d ↦ attempts local_mirror env key max_retries 0 (record c { now = c.now + d })
        ]

        waits : P (pacing false)
        waits = elim (Option-cases env.paced) [ inl e ↦ rw e ended | inr (d, e) ↦ rw e (paced d) ]

    cached_or_fetch-rule :
        ((e : CacheEntry)
          → lookup key c.cache ≡ some e
          → ltb (c.now - e.fetched_at) cache_ttl ≡ true
          → P (record c { hits = c.hits + 1 }, ok e.payload))
        → P (fetch local_mirror env key c)
        → P (cached_or_fetch local_mirror env key c)
    unfolding cached_or_fetch
    cached_or_fetch-rule hit miss = elim (Option-cases (lookup key c.cache)) [
      | inl e ↦ rw (e, cached_or_fetch) miss
      | inr (entry, e) ↦ elim (Bool-cases (ltb (c.now - entry.fetched_at) cache_ttl)) [
        | inl fresh ↦ rw (e, cached_or_fetch) (rw fresh (hit entry e fresh))
        | inr old ↦ rw (e, cached_or_fetch) (rw old miss)
      ]
    ]

    refused-rule :
        P (c, err circuit_open)
        → ((e : CacheEntry)
            → lookup key c.cache ≡ some e
            → P (record c { stales = c.stales + 1 }, ok e.payload))
        → P (refused local_mirror env key c)
    unfolding refused
    refused-rule no_entry entry = elim (Option-cases (lookup key c.cache)) [
      | inl e ↦ rw (e, refused) no_entry
      | inr (found, e) ↦ elim (Bool-cases (text_eq found.payload [])) [
        | inl empty ↦ rw (e, refused) (rw empty no_entry)
        | inr full ↦ rw (e, refused) (rw full (entry found e))
      ]
    ]

  -- The rule for a whole call with no other caller's request under way.
  pub do_request-rule :
      (P : Client × Result → Type 0) (c : Client)
      → env.in_flight ≡ idle
      → P (admitted c, err circuit_open)
      → ((e : CacheEntry)
          → lookup key c.cache ≡ some e
          → P (record (admitted c) { stales = c.stales + 1 }, ok e.payload))
      → ((e : CacheEntry)
          → lookup key c.cache ≡ some e
          → P (record (admitted c) { hits = c.hits + 1 }, ok e.payload))
      → P (admitted c, err context_ended)
      → ((allow c.circuit c.now).1 ≡ true
          → (d : ℕ)
          → P (
              attempts local_mirror env key max_retries 0
                (record (admitted c) { now = c.now + d })))
      → ((allow c.circuit c.now).1 ≡ true
          → P (attempts local_mirror env key max_retries 0 (admitted c)))
      → P (do_request local_mirror env key c)
  unfolding do_request
  do_request-rule P c alone no_entry stale hit ended paced unpaced =
      elim (Bool-cases (allow c.circuit c.now).1) [
        | inl allowed ↦
            rw (allowed, alone)
              (cached_or_fetch-rule P (admitted c) (λ e found fresh. hit e found)
                (fetch-rule P (admitted c) ended (unpaced allowed) (paced allowed)))
        | inr denied ↦ rw denied (refused-rule P (admitted c) no_entry stale)
      ]

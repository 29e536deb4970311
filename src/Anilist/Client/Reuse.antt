-- ===== src/Anilist/Client/Reuse.antt =====
-- How often the client asks, and where an answer comes from.
use aniraku_backend.Base.{
  Option-cases, Text, Dict, lookup, ℕ, ◌+◌, ◌≤◌, ◌≡◌, refl, inl, inr, Bool, some, arith,
}
use aniraku_backend.Anilist.Client.{
  CacheEntry, Client, answered, idle, Env, Failure, Result, ok, max_retries, fail_with, succeed,
  sent, attempts, do_request,
}
use aniraku_backend.Anilist.Client.Retry.{Rule, attempts-rule, admitted, do_request-rule}

fail_with-requests :
    (key : Text) (f : Failure) (c : Client) → (fail_with key f c).0.requests ≡ c.requests
unfolding fail_with
fail_with-requests key f c = ground arith

module _ (local_mirror : Bool) (env : Env) (key : Text) where
  requests_rule :
      (n : ℕ)
      → Rule local_mirror env key (λ left a c. c.requests + left + 1 ≤ n) (λ r. r.0.requests ≤ n)
  unfolding sent succeed
  requests_rule n = record {
    unbuilt = λ left a c i. omega arith;
    ended = λ left a c i. omega arith;
    failed =
        λ left a c f i. omega (arith, fail_with-requests key f (sent local_mirror env key a c));
    succeeded = λ left a c body retry_after i e. omega arith;
    pauses = λ left a d c i. omega arith;
  }

  -- Where no other caller's request is under way, a call sends at most four requests to the
  -- endpoint, whatever the replies are.
  pub do_request-requests :
      (c : Client)
      → env.in_flight ≡ idle
      → (do_request local_mirror env key c).0.requests ≤ c.requests + max_retries + 1
  do_request-requests c alone =
      do_request-rule local_mirror env key (λ r. r.0.requests ≤ c.requests + max_retries + 1) c
        alone (omega arith) (λ e found. omega arith) (λ e found. omega arith) (omega arith)
        (λ a d. loop (record (admitted local_mirror env key c) { now = c.now + d }) refl)
        (λ a. loop (admitted local_mirror env key c) refl)
    where
      loop :
          (c' : Client)
          → c'.requests ≡ c.requests
          → (attempts local_mirror env key max_retries 0 c').0.requests
            ≤ c.requests + max_retries + 1
      loop c' same =
          attempts-rule local_mirror env key (requests_rule (c.requests + max_retries + 1))
            max_retries 0 c' (omega arith)

  -- Where a body comes from: an entry that the cache held for the key, or a reply of status 200 to one
  -- of the four requests.
  pub data Origin (cache : Dict CacheEntry) (body : Text) : Type 0 where
    from_cache : (e : CacheEntry) → lookup key cache ≡ some e → e.payload ≡ body → Origin cache body
    from_reply :
        (a : ℕ) (retry_after : Text)
        → a ≤ max_retries
        → env.reply a ≡ answered 200 body retry_after
        → Origin cache body

  abbrev HasOrigin : Dict CacheEntry → Client × Result → Type 0
  HasOrigin cache r = (body : Text) → r.1 ≡ ok body → Origin cache body

  ok_injective : (s t : Text) → ok s ≡ ok t → s ≡ t
  ok_injective s t e = cc

  fail_with-HasOrigin :
      (cache : Dict CacheEntry) (f : Failure) (c : Client)
      → c.cache ≡ cache
      → HasOrigin cache (fail_with key f c)
  unfolding fail_with
  fail_with-HasOrigin cache f c same body e = elim (Option-cases (lookup key c.cache)) [
    | inl absent ↦ absurd (ground arith)
    | inr (entry, found) ↦ from_cache entry (rw same at found) (ground arith)
  ]

  origin_rule :
      (cache : Dict CacheEntry)
      → Rule local_mirror env key
          (λ left a c. (c.cache ≡ cache) × (a + left ≤ max_retries))
          (HasOrigin cache)
  unfolding sent succeed
  origin_rule cache = record {
    unbuilt = λ left a c i body e. absurd (cc e);
    ended = λ left a c i body e. absurd (cc e);
    failed = λ left a c f i. fail_with-HasOrigin cache f (sent local_mirror env key a c) i.0;
    succeeded = λ left a c body retry_after i e body' e'.
        from_reply a retry_after (omega (arith, i.1)) (rw (← ok_injective body body' e') e);
    pauses = λ left a d c i. (i.0, omega (arith, i.1));
  }

  -- Where no other caller's request is under way, a body that a call returns is one that the
  -- endpoint answered with status 200 in this call, or the cached body of its key: neither an error
  -- page nor the body of another key.
  pub do_request-Origin :
      (c : Client) (body : Text)
      → env.in_flight ≡ idle
      → (do_request local_mirror env key c).1 ≡ ok body
      → Origin c.cache body
  do_request-Origin c body alone =
      do_request-rule local_mirror env key (HasOrigin c.cache) c alone (λ body e. absurd (cc e))
        (λ entry found body e. from_cache entry found (ok_injective entry.payload body e))
        (λ entry found body e. from_cache entry found (ok_injective entry.payload body e))
        (λ body e. absurd (cc e))
        (λ a d. loop (record (admitted local_mirror env key c) { now = c.now + d }) refl)
        (λ a. loop (admitted local_mirror env key c) refl) body
    where
      loop :
          (c' : Client)
          → c'.cache ≡ c.cache
          → HasOrigin c.cache (attempts local_mirror env key max_retries 0 c')
      loop c' same =
          attempts-rule local_mirror env key (origin_rule c.cache) max_retries 0 c'
            (same, omega arith)

-- ===== src/Anilist/Client/Again.antt =====
-- The second call of the client for a key.
use aniraku_backend.Base.{
  ltb, Text, text_eq_refl, lookup, lookup-insert, ℕ, ◌+◌, ◌-◌, ◌<◌, ◌≡◌, refl, ◌≢◌, Bool, true,
  some, arith,
}
use aniraku_backend.Anilist.Breaker.{
  Circuit, closed, opened, half_open, CircuitBreaker, allow_in, allow, record_success,
}
use aniraku_backend.Anilist.Client.{
  CacheEntry, Client, idle, Env, Failure, Result, ok, cache_ttl, max_retries, fail_with, succeed,
  sent, cached_or_fetch, do_request,
}
use aniraku_backend.Anilist.Client.Retry.{Rule, attempts-rule, admitted, do_request-rule}

allow_in-not_opened :
    (s : Circuit) (cb : CircuitBreaker) (now : ℕ)
    → cb.state ≡ s
    → (allow_in s cb now).1 ≡ true
    → (allow_in s cb now).0.state ≢ opened
unfolding allow_in
allow_in-not_opened closed cb now e a = rw e (λ e'. cc e')
allow_in-not_opened half_open cb now e a = rw e (λ e'. cc e')
allow_in-not_opened opened cb now e a = λ e'. ground arith

allow-not_opened :
    (cb : CircuitBreaker) (now : ℕ) → (allow cb now).1 ≡ true → (allow cb now).0.state ≢ opened
unfolding allow
allow-not_opened cb now a = allow_in-not_opened cb.state cb now refl a

not_opened-allow_in :
    (s : Circuit) (cb : CircuitBreaker) (now : ℕ) → s ≢ opened → allow_in s cb now ≡ (cb, true)
unfolding allow_in
not_opened-allow_in closed cb now n = refl
not_opened-allow_in half_open cb now n = refl
not_opened-allow_in opened cb now n = absurd (n refl)

not_opened-allow : (cb : CircuitBreaker) (now : ℕ) → cb.state ≢ opened → allow cb now ≡ (cb, true)
unfolding allow
not_opened-allow cb now n = not_opened-allow_in cb.state cb now n

record_success-not_opened :
    (cb : CircuitBreaker) → cb.state ≢ opened → (record_success cb).state ≢ opened
unfolding record_success
record_success-not_opened cb n e = n (ground arith)

module _ (local_mirror : Bool) (env : Env) (key : Text) where
  -- A result with one more success than before has stored its body, at the present time, behind a
  -- breaker that is not open.
  abbrev Stored : ℕ → Client × Result → Type 0
  Stored n r =
      r.0.upstream_ok ≡ n + 1
      → (body : Text) × (r.1 ≡ ok body)
        × (lookup key r.0.cache ≡ some (record { payload = body; fetched_at = r.0.now }))
        × (r.0.circuit.state ≢ opened)

  fail_with-upstream_ok :
      (f : Failure) (c : Client) → (fail_with key f c).0.upstream_ok ≡ c.upstream_ok
  unfolding fail_with
  fail_with-upstream_ok f c = ground arith

  Stored-rule :
      (n : ℕ)
      → Rule local_mirror env key
          (λ left a c. (c.upstream_ok ≡ n) × (c.circuit.state ≢ opened))
          (Stored n)
  unfolding sent succeed
  Stored-rule n = record {
    unbuilt = λ left a c i more. absurd (omega (arith, i.0));
    ended = λ left a c i more. absurd (omega (arith, i.0));
    failed = λ left a c f i more.
        absurd (omega (arith, i.0, more, fail_with-upstream_ok f (sent local_mirror env key a c)));
    succeeded = λ left a c body retry_after i e more. (
      body,
      refl,
      rw lookup-insert (rw (text_eq_refl key)),
      record_success-not_opened c.circuit i.1,
    );
    pauses = λ left a d c i. i;
  }

  do_request-Stored :
      (c : Client) → env.in_flight ≡ idle → Stored c.upstream_ok (do_request local_mirror env key c)
  do_request-Stored c alone =
      do_request-rule local_mirror env key (Stored c.upstream_ok) c alone
        (λ more. absurd (omega arith)) (λ e found more. absurd (omega arith))
        (λ e found more. absurd (omega arith)) (λ more. absurd (omega arith))
        (λ a d.
          attempts-rule local_mirror env key (Stored-rule c.upstream_ok) max_retries 0
            (record (admitted local_mirror env key c) { now = c.now + d })
            (refl, allow-not_opened c.circuit c.now a))
        (λ a.
          attempts-rule local_mirror env key (Stored-rule c.upstream_ok) max_retries 0
            (admitted local_mirror env key c) (refl, allow-not_opened c.circuit c.now a))

  fresh_hit :
      (c : Client) (e : CacheEntry)
      → env.in_flight ≡ idle
      → c.circuit.state ≢ opened
      → lookup key c.cache ≡ some e
      → c.now - e.fetched_at < cache_ttl
      → do_request local_mirror env key c ≡ (record c { hits = c.hits + 1 }, ok e.payload)
  unfolding do_request
  fresh_hit c e alone shut found young =
      let open_way : allow c.circuit c.now ≡ (c.circuit, true) =
        not_opened-allow c.circuit c.now shut in
      let fresh : ltb (c.now - e.fetched_at) cache_ttl ≡ true = ground arith in
      rw open_way (rw alone (rw (found, cached_or_fetch) (rw fresh)))

-- Where no other caller's request is under way and the endpoint has answered a first call, a second
-- call for its key within five minutes returns the same body and sends no request, whatever the
-- endpoint would say.
pub do_request_twice :
    (local_mirror local_mirror' : Bool) (env env' : Env) (key body : Text) (c : Client) (d : ℕ)
    → env.in_flight ≡ idle
    → env'.in_flight ≡ idle
    → (do_request local_mirror env key c).1 ≡ ok body
    → (do_request local_mirror env key c).0.upstream_ok ≡ c.upstream_ok + 1
    → d < cache_ttl
    → let after = (do_request local_mirror env key c).0 in
      let again = do_request local_mirror' env' key (record after { now = after.now + d }) in
      (again.1 ≡ ok body) × (again.0.requests ≡ after.requests)
do_request_twice local_mirror local_mirror' env env' key body c d alone alone' answer success
      young =
    let after = (do_request local_mirror env key c).0 in
    let (stored, same, found, shut) = do_request-Stored local_mirror env key c alone success in
    let hit =
      fresh_hit local_mirror' env' key (record after { now = after.now + d })
        (record { payload = stored; fetched_at = after.now }) alone' shut found
        (omega (arith, young)) in
    ground (arith, hit, same, answer)

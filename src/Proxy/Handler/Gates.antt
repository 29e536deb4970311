-- ===== src/Proxy/Handler/Gates.antt =====
-- What the gates of `Proxy` let through.
use aniraku_backend.Base.{
  Bool-cases, Option-cases, Text, codes, text_eq, ◌≡◌, refl, subst, ◌⊎◌, inl, inr, Bool, true,
  false, not, none, some, [], arith,
}
use aniraku_backend.Middleware.Cors.{is_allowed_origin}
use aniraku_backend.Proxy.Allowlist.{Learned, is_nuisance_proxy_host, host_gate}
use aniraku_backend.Proxy.Answer.{message, Answer, fresh_answer, respond_error}
use aniraku_backend.Proxy.Serve.{Shared, Url, Request, Course, is_blocked_port}
use aniraku_backend.Proxy.Handler.{
  Library, is_web, gate_verdict, lower_text, target_url, through_playlists, gate_learned, gated,
  proxy,
}

module _ (lib : Library) (c : Course) (r : Request) where
  -- An error that touches no cache and no transport.
  pub record Refused (s : Shared) (out : Shared × Answer) : Type 0 where
    pub said : (text : Text) × (out.1.body ≡ message text)
    pub untouched : (out.0.memo ≡ s.memo) × (out.0.playlists ≡ s.playlists) × (out.0.keys ≡ s.keys)
    pub kept_private : out.1.cache_control ≡ codes "no-store, private"

  -- The URL passes every gate.
  pub record Passes (s : Shared) (u : Url) : Type 0 where
    pub parsed : lib.parse_url (target_url lib r) ≡ some u
    pub web : is_web u ≡ true
    pub open_port : is_blocked_port u.port ≡ false
    pub decent : is_nuisance_proxy_host lib.lower_other (lower_text lib u.hostname) ≡ false
    pub listed :
        (host_gate lib.lower_other lib.parse_ip lib.cdn_env u.hostname c.now s.learned).1 ≡ true

  abbrev start : Answer
  start = fresh_answer (is_allowed_origin lib.cors_env r.origin) r.origin

  passing :
      (blocked decent ok : Bool)
      → gate_verdict blocked decent ok ≡ none
      → (blocked ≡ false) × (decent ≡ true) × (ok ≡ true)
  unfolding gate_verdict
  passing blocked decent ok h = ground (arith, h)

  gate_learned_open :
      (u : Url) (s : Shared)
      → is_blocked_port u.port ≡ false
      → gate_learned lib c r u s
        ≡ host_gate lib.lower_other lib.parse_ip lib.cdn_env u.hostname c.now s.learned
  unfolding gate_learned
  gate_learned_open u s free = rw free

  gated-cases :
      (url : Text) (u : Url) (a : Answer) (s : Shared)
      → a.cache_control ≡ codes "no-store, private"
      → lib.parse_url (target_url lib r) ≡ some u
      → is_web u ≡ true
      → Refused s (gated lib c r url u a s)
        ⊎ (Passes s u
            × (gated lib c r url u a s
                ≡ through_playlists lib c r url u (lower_text lib u.path) a (record s {
                  learned =
                      (host_gate lib.lower_other lib.parse_ip lib.cdn_env u.hostname c.now
                        s.learned).0;
                })))
  unfolding gated respond_error
  gated-cases url u a s private read web =
      elim (Option-cases (
        gate_verdict (is_blocked_port u.port)
          (not (is_nuisance_proxy_host lib.lower_other (lower_text lib u.hostname)))
          (gate_learned lib c r u s).1)) [
            | inr (text, bad) ↦
                rw (bad, gated)
                  (inl (record {
                    said = (text, refl);
                    untouched = (refl, refl, refl);
                    kept_private = private;
                  }))
            | inl good ↦
                let (free, decent, ok) = passing _ _ _ good in
                let same = gate_learned_open u s free in
                inr (
                  record {
                    parsed = read;
                    web = web;
                    open_port = free;
                    decent = ground (arith, decent);
                    listed = subst (λ (x : Learned × Bool). x.1 ≡ true) same ok;
                  },
                  rw (good, gated) (rw same),
                )
          ]

  -- A request of the media proxy either ends in an error that is not to be stored and that touches
  -- neither the memo of transports nor a cache, or its address, without the nonce, parses as a web
  -- URL on a port that is not blocked, and its host is on no nuisance list and passes the host
  -- gate; the rest of the handler then runs on that URL.
  pub proxy-Passes :
      (s : Shared)
      → Refused s (proxy lib c r s)
        ⊎ ((u : Url) × Passes s u
            × (proxy lib c r s
                ≡ through_playlists lib c r
                    (target_url lib r)
                    u
                    (lower_text lib u.path)
                    start
                    (record s {
                      learned =
                          (host_gate lib.lower_other lib.parse_ip lib.cdn_env u.hostname c.now
                            s.learned).0;
                    })))
  unfolding proxy respond_error fresh_answer
  proxy-Passes s = elim (Bool-cases (text_eq r.target [])) [
    | inl empty ↦
        rw empty
          (inl (record { said = (_, refl); untouched = (refl, refl, refl); kept_private = refl }))
    | inr target ↦ elim (Option-cases (lib.parse_url (target_url lib r))) [
      | inl broken ↦
          rw (target, broken)
            (inl (record { said = (_, refl); untouched = (refl, refl, refl); kept_private = refl }))
      | inr (u, read) ↦ elim (Bool-cases (is_web u)) [
        | inr other ↦
            rw (target, read, other)
              (inl
                (record { said = (_, refl); untouched = (refl, refl, refl); kept_private = refl }))
        | inl web ↦
            rw (target, read, web)
              (elim (gated-cases (target_url lib r) u start s refl read web) [
                | inl refused ↦ inl refused
                | inr (ok, same) ↦ inr (u, ok, same)
              ])
      ]
    ]
  ]

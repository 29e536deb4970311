-- ===== src/Proxy/Upstreams.antt =====
-- What reaches the client of an upstream response, and which responses do.
use aniraku_backend.Base.{
  ◌==◌, ==→eq, Bool-cases, branch, take, drop, take-drop, Text, codes, contains, Dict, ℕ, ◌≤◌, ◌<◌,
  ◌≡◌, refl, ap, subst, ◌∙◌, ◌≢◌, ◌⊎◌, inl, inr, Bool, true, false, ◌||◌, Option, none, some, ◌++◌,
  arith,
}
use aniraku_backend.Proxy.Transport.{
  Transport, plain, go_tls4, Upstream, Outcome, failed, responded, TransportEntry, Wire, do_request,
  do_request-Ends,
}
use aniraku_backend.Proxy.Answer.{
  message, Answer, respond_error, proxy_redirect_blocked, PlaylistAction, serve, media, reject,
  classify_playlist_response,
}
use aniraku_backend.Proxy.Serve.{unreachable, refuses}
use mathlib.Core.List.{append_assoc}

abbrev pub Prefix : Text → Text → Type 0
Prefix front s = (back : Text) × (front ++ back ≡ s)

pub take-Prefix : (n : ℕ) (s : Text) → Prefix (take n s) s
take-Prefix n s = (drop n s, take-drop n s)

pub two_reads-Prefix : (n m : ℕ) (s : Text) → Prefix (take n s ++ take m (drop n s)) s
two_reads-Prefix n m s = (
  drop m (drop n s),
  append_assoc (take n s) (take m (drop n s)) (drop m (drop n s))
      ∙ ap (◌++◌ (take n s)) (take-drop m (drop n s))
      ∙ take-drop n s,
)

-- A status that may reach the client: no redirect, no refusal, no rate limit, no broken gateway.
pub record Admissible (status : ℕ) : Type 0 where
  pub direct : (status < 300) ⊎ (400 ≤ status)
  pub granted : status ≢ 403
  pub unlimited : status ≢ 429
  pub sound_gateway : status ≢ 502
  pub available : status ≢ 503

pub refuses-Admissible : (status : ℕ) (a : Answer) → refuses status a ≡ none → Admissible status
unfolding refuses proxy_redirect_blocked
refuses-Admissible status a h = record {
  direct = ground (arith, h);
  granted = ground (arith, h);
  unlimited = ground (arith, h);
  sound_gateway = ground (arith, h);
  available = ground (arith, h);
}

pub do_request-reply :
    (wire : Wire) (host : Text) (https : Bool) (n : ℕ) (memo : Dict TransportEntry)
    → (k : ℕ) × (t : Transport) × ((do_request wire host https n memo).outcome ≡ wire.reply k t)
unfolding do_request
do_request-reply wire host false n memo = (n, plain, refl)
do_request-reply wire host true n memo = elim (do_request-Ends wire host n memo) [
  | inl (inl (k, e, w)) ↦ (k, e.client, w.returned)
  | inl (inr (k, x)) ↦ (k, go_tls4, x.returned)
  | inr (e, found, inl (k, e', w)) ↦ (k, e'.client, w.returned)
  | inr (e, found, inr (k, x)) ↦ (k, go_tls4, x.returned)
]

pub outcome_cases :
    (o : Outcome) → ((e : Text) × (o ≡ failed e)) ⊎ ((up : Upstream) × (o ≡ responded up))
outcome_cases (failed e) = inl (e, refl)
outcome_cases (responded up) = inr (up, refl)

pub classify-serve :
    (status : ℕ) (range body : Text)
    → classify_playlist_response status range body ≡ serve
    → (status ≡ 200) ⊎ (status ≡ 206)
unfolding classify_playlist_response
classify-serve status range body h = elim (Bool-cases (status == 206)) [
  | inl part ↦ inr (==→eq status 206 part)
  | inr whole ↦ elim (Bool-cases (status == 200)) [
    | inl full ↦ inl (==→eq status 200 full)
    | inr other ↦ ground (arith, h, whole, other)
  ]
]

pub action_cases : (p : PlaylistAction) → (p ≡ serve) ⊎ (p ≡ media) ⊎ (p ≡ reject)
action_cases serve = inl refl
action_cases media = inr (inl refl)
action_cases reject = inr (inr refl)

abbrev pub Told : Answer → Type 0
Told a = (text : Text) × (a.body ≡ message text)

pub unreachable-Told : (e : Text) (a : Answer) → Told (unreachable e a)
unfolding unreachable respond_error
unreachable-Told e a =
    elim (Bool-cases (
      contains e (codes "connection refused")
      || contains e (codes "no route to host")
      || contains e (codes "i/o timeout"))) [
        | inl blocked ↦ rw blocked (_, refl)
        | inr other ↦ rw other (_, refl)
      ]

abbrev Tells : Option Answer → Type 0
Tells none = Unit {0}
Tells (some b) = Told b

refuses-Tells : (status : ℕ) (a : Answer) → Tells (refuses status a)
unfolding refuses respond_error
refuses-Tells status a =
    branch Tells (proxy_redirect_blocked status) _ _ (_, refl)
      (branch Tells (status == 429) _ _ (_, refl)
        (branch Tells (status == 502 || status == 403) _ _ (_, refl)
          (branch Tells (status == 503) _ _ (_, refl) tt)))

pub refuses-Told : (status : ℕ) (a b : Answer) → refuses status a ≡ some b → Told b
refuses-Told status a b h = subst Tells h (refuses-Tells status a)

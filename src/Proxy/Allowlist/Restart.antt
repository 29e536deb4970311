-- ===== src/Proxy/Allowlist/Restart.antt =====
-- What a sweep and a restart do to the hosts that the proxy has learned.
use aniraku_backend.Base.{
  leb, if◌then◌else◌, Bool-cases, length, All, Text, text_eq, text_eq_iff, Dict, lookup, insert,
  IsDict, lookup-insert, length-insert-le, retain, lookup_absent, lookup-retain, ℕ, suc, ◌+◌, ◌-◌,
  ◌≤◌, ◌≡◌, refl, subst, ◌∙◌, ◌≢◌, inl, inr, true, false, ◌||◌, Option, none, [], ◌∷◌, arith,
}
use aniraku_backend.Net.Ip.{Ip}
use aniraku_backend.Proxy.Allowlist.Bounded.{IsSound}
use aniraku_backend.Proxy.Allowlist.{
  Learned, max_dynamic_entries, dynamic_entry_ttl, entry_live, add_saved, restore,
  ensure_dynamic_cdn_loaded, persist_dynamic_cdn_entries, restart, cleanup_dynamic_cdn_entries,
  clean, allowed,
}

entry_live-retain :
    (host : Text) (now later : ℕ) (m : Dict ℕ)
    → IsDict m
    → now ≤ later
    → entry_live host later (retain (λ at. leb (now - at) dynamic_entry_ttl) m)
      ≡ entry_live host later m
unfolding entry_live
entry_live-retain host now later m d h =
    rw (lookup-retain (λ (at : ℕ). leb (now - at) dynamic_entry_ttl) host m d, entry_live)
      (ground arith)

add_saved_fits :
    (k : Text) (at now : ℕ) (m : Dict ℕ)
    → k ≢ []
    → lookup k m ≡ none
    → leb (now - at) dynamic_entry_ttl ≡ true
    → add_saved now k at m ≡ insert k at m
unfolding add_saved
add_saved_fits k at now m named fresh fits = ground (arith, text_eq_iff k [], named, fresh, fits)

add_saved_expired :
    (k : Text) (at now : ℕ) (m : Dict ℕ)
    → leb (now - at) dynamic_entry_ttl ≡ false
    → add_saved now k at m ≡ m
unfolding add_saved
add_saved_expired k at now m old = ground (arith, old)

pub entry_live-insert :
    (host k : Text) (at later : ℕ) (m : Dict ℕ)
    → entry_live host later (insert k at m)
      ≡ (if text_eq k host then leb (later - at) dynamic_entry_ttl else entry_live host later m)
unfolding entry_live
entry_live-insert host k at later m = rw (entry_live, lookup-insert) (ground arith)

entry_live_absent :
    (host : Text) (later : ℕ) (m : Dict ℕ) → lookup host m ≡ none → entry_live host later m ≡ false
unfolding entry_live
entry_live_absent host later m e = rw (entry_live, e) refl

entry_live-cons :
    (host k : Text) (at later : ℕ) (m : Dict ℕ)
    → entry_live host later ((k, at) ∷ m)
      ≡ (if text_eq k host then leb (later - at) dynamic_entry_ttl else entry_live host later m)
unfolding entry_live lookup
entry_live-cons host k at later m = ground arith

entry_live-add_saved :
    (host k : Text) (at now later : ℕ) (m : Dict ℕ)
    → now ≤ later
    → k ≢ []
    → lookup k m ≡ none
    → entry_live host later (add_saved now k at m)
      ≡ (if text_eq k host then leb (later - at) dynamic_entry_ttl else entry_live host later m)
entry_live-add_saved host k at now later m h named fresh =
    elim (Bool-cases (leb (now - at) dynamic_entry_ttl)) [
      | inl fits ↦
          rw (add_saved_fits k at now m named fresh fits) (entry_live-insert host k at later m)
      | inr old ↦
          rw (add_saved_expired k at now m old) (ground (arith, old, text_eq_iff k host, missing))
    ]
  where
    missing : k ≡ host → entry_live host later m ≡ false
    missing e = entry_live_absent host later m (subst (λ (x : Text). lookup x m ≡ none) e fresh)

Fresh : Dict ℕ → Text × ℕ → Type 0
Fresh m e = lookup e.0 m ≡ none

-- A host that is added is not among those that are still to come.
All-Fresh-add_saved :
    (k : Text) (at now : ℕ) (m rest : Dict ℕ)
    → All (Fresh m) rest
    → All (λ (e : Text × ℕ). e.0 ≢ k) rest
    → All (Fresh (add_saved now k at m)) rest
unfolding Fresh add_saved
All-Fresh-add_saved k at now m [] h ne = _
All-Fresh-add_saved k at now m (e ∷ rest) h ne = (
  ground (arith, h.0, lookup-insert k e.0 at m, text_eq_iff k e.0, ne.0),
  All-Fresh-add_saved k at now m rest h.1 ne.1,
)

length-add_saved-le :
    (k : Text) (at now : ℕ) (m : Dict ℕ) → length (add_saved now k at m) ≤ suc (length m)
unfolding add_saved
length-add_saved-le k at now m = ground (arith, length-insert-le k at m)

entry_live-restore :
    (host : Text) (now later : ℕ) (m saved : Dict ℕ)
    → now ≤ later
    → IsDict saved
    → All (λ (e : Text × ℕ). e.0 ≢ []) saved
    → All (Fresh m) saved
    → length m + length saved ≤ max_dynamic_entries
    → entry_live host later (restore now m saved)
      ≡ (entry_live host later m || entry_live host later saved)
unfolding restore lookup Fresh
entry_live-restore host now later m [] h d named fresh room =
    ground (arith, entry_live_absent host later [] refl)
entry_live-restore host now later m ((k, at) ∷ saved) h d named fresh room =
    let next = add_saved now k at m in
    let roomy : leb max_dynamic_entries (length m) ≡ false = ground (arith, room) in
    rw roomy (
      rw
        (
          entry_live-restore host now later next saved h d.1 named.1
              (All-Fresh-add_saved k at now m saved fresh.1 d.0)
              (omega (arith, room, length-add_saved-le k at now m)),
          entry_live-add_saved host k at now later m h named.0 fresh.0,
          entry_live-cons,
        )
        (ground (arith, text_eq_iff k host, gone, absent_later)))
  where
    gone : k ≡ host → entry_live host later m ≡ false
    gone e = entry_live_absent host later m (subst (λ (x : Text). lookup x m ≡ none) e fresh.0)

    absent_later : k ≡ host → entry_live host later saved ≡ false
    absent_later e =
        entry_live_absent host later saved
          (subst (λ (x : Text). lookup x saved ≡ none) e (lookup_absent k saved d.0))

All-Fresh-empty : (saved : Dict ℕ) → All (Fresh []) saved
unfolding Fresh lookup
All-Fresh-empty [] = _
All-Fresh-empty (e ∷ saved) = (refl, All-Fresh-empty saved)

module _ (lower_other : ℕ → ℕ) (parse_ip : Text → Option Ip) (env : Text) where
  allowed-live :
      (host : Text) (now : ℕ) (m n : Dict ℕ)
      → ((k : Text) → entry_live k now m ≡ entry_live k now n)
      → allowed lower_other parse_ip env host now m ≡ allowed lower_other parse_ip env host now n
  unfolding allowed
  allowed-live host now m n h = ground (arith, h (clean lower_other host))

  -- A sweep of sound hosts changes no answer: for every host, at every time from the sweep on, it
  -- is the one without the sweep, since expiry is read off each entry.
  pub allowed-cleanup :
      (host : Text) (now later : ℕ) (s : Learned)
      → IsSound lower_other s
      → now ≤ later
      → allowed lower_other parse_ip env host later (cleanup_dynamic_cdn_entries now s).dynamic
        ≡ allowed lower_other parse_ip env host later s.dynamic
  unfolding cleanup_dynamic_cdn_entries
  allowed-cleanup host now later s v h =
      allowed-live host later _ s.dynamic
        (λ k. entry_live-retain k now later s.dynamic v.live.distinct h)

  -- A restart forgets nothing: where the learned hosts are sound and were last written to the file,
  -- the process that starts from it answers as the old one would, for every host and from then on.
  pub allowed-restart :
      (host : Text) (now later : ℕ) (s : Learned)
      → IsSound lower_other s
      → now ≤ later
      → allowed lower_other parse_ip env host later
          (ensure_dynamic_cdn_loaded now (restart (persist_dynamic_cdn_entries true s))).dynamic
        ≡ allowed lower_other parse_ip env host later s.dynamic
  unfolding ensure_dynamic_cdn_loaded restart persist_dynamic_cdn_entries lookup
  allowed-restart host now later s v h = allowed-live host later _ s.dynamic (λ k.
      entry_live-restore k now later [] s.dynamic h v.live.distinct v.live.named
        (All-Fresh-empty s.dynamic) (omega (arith, v.live.bounded))
      ∙ ground (arith, entry_live_absent k later [] refl))

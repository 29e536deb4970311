-- ===== src/Auth/Jwks/Laws.antt =====
-- What the key cache keeps through refreshes, and how often it asks.
use aniraku_backend.Base.{
  ltb, ◌==◌, if◌then◌else◌, Bool-cases, Option-cases, length, All, Text, Dict, lookup, ℕ, ◌+◌, ◌≤◌,
  ◌≡◌, refl, ◌⊎◌, inl, inr, Bool, true, false, not, ◌&&◌, Option, none, some, List, [], arith,
}
use aniraku_backend.Auth.Jwks.{
  Jwks, jwks_refresh_min_interval, Entry, Turn, served, unknown_kid, wait, do_refresh_locked,
  unexpired, get_key_turn, get_key, Call, served_stale, refresh_failed, spawn_and_wait,
}

module _ {Key : Type 0} where
  -- A refresh that fails, or that finds no usable key, leaves keys and expiry as they were; one that
  -- succeeds has at least one key and is good for the time to live.
  pub do_refresh_locked_lem :
      (j : Jwks Key) (answer : Option (List (Entry Key))) (now : ℕ)
      → (((do_refresh_locked j answer now).1 ≡ false) × ((do_refresh_locked j answer now).0 ≡ j))
        ⊎ (((do_refresh_locked j answer now).1 ≡ true)
            × (1 ≤ length (do_refresh_locked j answer now).0.keys)
            × ((do_refresh_locked j answer now).0.expires ≡ now + j.ttl))
  unfolding do_refresh_locked
  do_refresh_locked_lem j none now = inl (refl, refl)
  do_refresh_locked_lem j (some entries) now = ground arith

  -- An answer with no key that can be used, or none.
  abbrev pub Unusable : Option (List (Entry Key)) → Type 0
  Unusable none = Unit {0}
  Unusable (some entries) = All (λ (e : Entry Key). (e.kid ≡ []) ⊎ (e.parsed ≡ none)) entries

  -- What a caller is given while no refresh finds a key.
  abbrev pub given_in_outage : Dict Key → ℕ → Call Key → Turn Key
  given_in_outage keys expires c = elim (lookup c.kid keys) [
    | some key ↦ if ltb c.start expires then served key else served_stale key
    | none ↦ if ltb c.start expires && not (length keys == 0) then unknown_kid else refresh_failed
  ]

  abbrev Settled : Jwks Key → Call Key → Type 0
  Settled j c =
      let (j', given) = get_key j c.kid c.answer c.start c.later in
      (given ≡ given_in_outage j.keys j.expires c)
      × (j'.keys ≡ j.keys)
      × (j'.expires ≡ j.expires)
      × (j'.refreshing ≡ false)

  -- A caller's round starts a background refresh only when none is under way, when this caller has
  -- not asked before, and a minute or more after the last attempt, whose time it then sets to its
  -- own.
  pub spawn_spaced :
      (j : Jwks Key) (kid : Text) (attempted : Bool) (now : ℕ)
      → (get_key_turn j kid attempted now).1 ≡ spawn_and_wait
      → (j.refreshing ≡ false)
        × (attempted ≡ false)
        × (j.last_attempt + jwks_refresh_min_interval ≤ now)
        × ((get_key_turn j kid attempted now).0.last_attempt ≡ now)
  unfolding get_key_turn
  spawn_spaced j kid attempted now h = ground arith

  -- A caller that has asked once, or waited for its own question, never asks again and never spins: it
  -- is served, told that the id is unknown, or waits for a refresh that is under way.
  pub attempted_settles :
      (j : Jwks Key) (kid : Text) (now : ℕ)
      → ((key : Key) × ((get_key_turn j kid true now).1 ≡ served key))
        ⊎ ((get_key_turn j kid true now).1 ≡ unknown_kid)
        ⊎ (((get_key_turn j kid true now).1 ≡ wait) × (j.refreshing ≡ true))
  unfolding get_key_turn
  attempted_settles j kid now = elim (Option-cases (lookup kid j.keys)) [
    | inl e ↦ rw (e, get_key_turn) (inr (ground arith))
    | inr (key, e) ↦ elim (Bool-cases (unexpired j now)) [
      | inl fresh ↦ rw (e, get_key_turn) (inl (key, rw fresh))
      | inr old ↦ rw (e, get_key_turn) (inr (ground arith))
    ]
  ]

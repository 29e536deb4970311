-- ===== src/Auth/Jwks.antt =====
-- internal/auth/jwks.go: the key cache. A caller holds the lock from one wait to the next, so each
-- function up to `finish_here` is one critical section, with the clock's reading as an argument; those after
-- it put the sections of one caller together. The network's answer to a refresh is a parameter: an error, or
-- the entries, each with the key that it parses to, if it does. `doRefresh` runs under the lock.
pub mod Laws
use aniraku_backend.Base.{
  ltb, leb, ◌==◌, if◌then◌else◌, length, Text, text_eq, Dict, lookup, insert, ℕ, ◌+◌, ◌-◌, Bool,
  true, false, not, ◌&&◌, ◌||◌, Option, none, some, List, [], ◌∷◌,
}

pub record Jwks (Key : Type 0) : Type 0 where
  pub keys : Dict Key
  pub expires : ℕ
  pub ttl : ℕ
  pub refreshing : Bool
  pub last_attempt : ℕ

abbrev pub jwks_refresh_min_interval : ℕ
jwks_refresh_min_interval = 60_000_000_000

abbrev pub one_hour : ℕ
one_hour = 3_600_000_000_000

-- The answer of the network: `none` for every error on the way.
pub record Entry (Key : Type 0) : Type 0 where
  pub kid : Text
  pub parsed : Option Key

pub data Turn (Key : Type 0) : Type 0 where
  -- The key, from the fresh set or from the previous one.
  served served_stale : Key → Turn Key
  unknown_kid refresh_failed : Turn Key
  -- Wait for the refresh under way; a goroutine for it has been started.
  wait spawn_and_wait : Turn Key
  -- Refresh on this goroutine.
  refresh_here : Turn Key
  -- Read the map again.
  again : Turn Key

module _ {Key : Type 0} where
  pub new_jwks : Jwks Key
  new_jwks = record { keys = []; expires = 0; ttl = one_hour; refreshing = false; last_attempt = 0 }

  -- The loop over the entries of the answer.
  pub usable_keys : Dict Key → List (Entry Key) → Dict Key
  usable_keys found [] = found
  usable_keys found (e ∷ es) =
      usable_keys
        (if text_eq e.kid []
          then found
          else elim e.parsed [ none ↦ found | some key ↦ insert e.kid key found ])
        es

  -- `doRefreshLocked`: the state and whether it succeeded.
  unfoldable pub do_refresh_locked : Jwks Key → Option (List (Entry Key)) → ℕ → Jwks Key × Bool
  do_refresh_locked j none now = (j, false)
  do_refresh_locked j (some entries) now =
      let found = usable_keys [] entries in
      if length found == 0
      then (j, false)
      else (record j { keys = found; expires = now + j.ttl }, true)

  -- `time.Now().Before(j.expires)`
  abbrev pub unexpired : Jwks Key → ℕ → Bool
  unexpired j now = ltb now j.expires

  -- The case of fresh keys or of a refresh under way.
  unfoldable pub fresh_turn : Jwks Key → Bool → Bool → ℕ → Jwks Key × Turn Key
  fresh_turn j fresh attempted now =
      let allow = leb jwks_refresh_min_interval (now - j.last_attempt) in
      if fresh && not j.refreshing && not attempted && allow
      then (record j { last_attempt = now; refreshing = true }, spawn_and_wait)
      else if j.refreshing
      then (j, wait)
      else if attempted
      then (j, unknown_kid)
      else if not allow
      then (j, unknown_kid)
      else (j, again)

  -- One round of the loop of `GetKey`, up to the wait or the call of the network; `attempted` is the
  -- caller's own flag.
  unfoldable pub get_key_turn : Jwks Key → Text → Bool → ℕ → Jwks Key × Turn Key
  unfolding fresh_turn
  get_key_turn j kid attempted now =
      let fresh = unexpired j now && not (length j.keys == 0) in
      let otherwise =
        if fresh || j.refreshing
        then fresh_turn j fresh attempted now
        else if attempted
        then (j, unknown_kid)
        else (record j { last_attempt = now; refreshing = true }, refresh_here) in
      elim (lookup kid j.keys) [
        | none ↦ otherwise
        | some key ↦ if unexpired j now then (j, served key) else otherwise
      ]

  -- The end of a refresh on a goroutine of its own.
  unfoldable pub finish_background : Jwks Key → Option (List (Entry Key)) → ℕ → Jwks Key
  unfolding do_refresh_locked
  finish_background j answer now = record (do_refresh_locked j answer now).0 { refreshing = false }

  -- The end of a refresh on the caller's goroutine: after an error the previous key serves, if there is
  -- one, and otherwise the round is over.
  unfoldable pub finish_here : Jwks Key → Text → Option (List (Entry Key)) → ℕ → Jwks Key × Turn Key
  unfolding do_refresh_locked
  finish_here j kid answer now =
      let (j', success) = do_refresh_locked j answer now in
      let j'' = record j' { refreshing = false } in
      if success then (j'', again) else elim (lookup kid j''.keys) [
        | none ↦ (j'', refresh_failed)
        | some key ↦ (j'', served_stale key)
      ]

  -- The end of a caller's refresh, and the round after it where it found keys.
  unfoldable pub retry : Text → ℕ → Jwks Key × Turn Key → Jwks Key × Turn Key
  unfolding get_key_turn
  retry kid now (j, again) = get_key_turn j kid true now
  retry kid now (j, served key) = (j, served key)
  retry kid now (j, served_stale key) = (j, served_stale key)
  retry kid now (j, unknown_kid) = (j, unknown_kid)
  retry kid now (j, refresh_failed) = (j, refresh_failed)
  retry kid now (j, wait) = (j, wait)
  retry kid now (j, spawn_and_wait) = (j, spawn_and_wait)
  retry kid now (j, refresh_here) = (j, refresh_here)

  -- What follows a caller's first round: the refresh that it makes or starts, with its answer and the time
  -- when it ends.
  unfoldable pub settle :
      Text → Option (List (Entry Key)) → ℕ → Jwks Key × Turn Key → Jwks Key × Turn Key
  unfolding get_key_turn finish_background finish_here retry
  settle kid answer later (j, refresh_here) = retry kid later (finish_here j kid answer later)
  settle kid answer later (j, spawn_and_wait) =
      get_key_turn (finish_background j answer later) kid true later
  settle kid answer later (j, served key) = (j, served key)
  settle kid answer later (j, served_stale key) = (j, served_stale key)
  settle kid answer later (j, unknown_kid) = (j, unknown_kid)
  settle kid answer later (j, refresh_failed) = (j, refresh_failed)
  settle kid answer later (j, wait) = (j, wait)
  settle kid answer later (j, again) = (j, again)

  -- `GetKey` for a caller whose rounds no other caller comes between.
  unfoldable pub get_key : Jwks Key → Text → Option (List (Entry Key)) → ℕ → ℕ → Jwks Key × Turn Key
  unfolding get_key_turn settle
  get_key j kid answer start later = settle kid answer later (get_key_turn j kid false start)

-- A call of `GetKey`: the id, what the network answers if it is asked, and the clock before and after.
pub record Call (Key : Type 0) : Type 0 where
  pub kid : Text
  pub answer : Option (List (Entry Key))
  pub start : ℕ
  pub later : ℕ

module _ {Key : Type 0} where
  -- Calls one after another: the cache afterwards, and what each caller is given.
  unfoldable pub get_keys : Jwks Key → List (Call Key) → Jwks Key × List (Turn Key)
  unfolding get_key
  get_keys j [] = (j, [])
  get_keys j (c ∷ calls) =
      let (j', given) = get_key j c.kid c.answer c.start c.later in
      let (j'', rest) = get_keys j' calls in (j'', given ∷ rest)

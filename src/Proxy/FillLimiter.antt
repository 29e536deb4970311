-- ===== src/Proxy/FillLimiter.antt =====
-- internal/api/v1/proxy_fill_limiter.go: the cap on upstream fills. The channel of slots is the number of
-- tokens in it; a cap of 0 is the nil channel.
use aniraku_backend.Base.{
  if◌then◌else◌, Text, text_eq, trim_space, atoi, ℕ, ◌+◌, ◌-◌, ◌≤◌, ◌<◌, ◌≡◌, refl, ◌∙◌, ◌⊎◌, inl,
  inr, none, some, [], arith,
}

abbrev pub limiter_default_cap : ℕ
limiter_default_cap = 512

unfoldable pub parse_fill_cap : Text → ℕ
unfolding atoi
parse_fill_cap raw =
    let raw = trim_space raw in
    if text_eq raw [] then limiter_default_cap else elim (atoi raw) [
      | none ↦ limiter_default_cap
      | some (negative, n) ↦ if negative then 0 else n
    ]

-- The tokens in the channel, the requests that run a fill, and those that wait in the second `select`.
pub record FillLimiter : Type 0 where
  pub cap : ℕ
  pub slots : ℕ
  pub running : ℕ
  pub waiting : ℕ

unfoldable pub new_fill_limiter : Text → FillLimiter
unfolding parse_fill_cap
new_fill_limiter env = record { cap = parse_fill_cap env; slots = 0; running = 0; waiting = 0 }

-- One event at the limiter.
pub data Step (f : FillLimiter) : FillLimiter → Type 0 where
  -- `acquire` on the nil channel, and the end of such a fill.
  unlimited : f.cap ≡ 0 → Step f (record f { running = f.running + 1 })
  unlimited_ends : f.cap ≡ 0 → 0 < f.running → Step f (record f { running = f.running - 1 })
  -- The first `select`: a slot is free, or the request goes on to the second.
  enters :
      0 < f.cap
      → f.slots < f.cap
      → Step f (record f { slots = f.slots + 1; running = f.running + 1 })
  queues : 0 < f.cap → f.slots ≡ f.cap → Step f (record f { waiting = f.waiting + 1 })
  -- The second `select`: a slot is free, or the hold or the client's context ends.
  takes :
      0 < f.cap
      → 0 < f.waiting
      → f.slots < f.cap
      → Step f (record f { slots = f.slots + 1; running = f.running + 1; waiting = f.waiting - 1 })
  sheds : 0 < f.cap → 0 < f.waiting → Step f (record f { waiting = f.waiting - 1 })
  -- The deferred `released()`.
  releases :
      0 < f.cap
      → 0 < f.running
      → 0 < f.slots
      → Step f (record f { slots = f.slots - 1; running = f.running - 1 })

pub data Reachable (f : FillLimiter) : FillLimiter → Type 0 where
  start : Reachable f f
  next : (g h : FillLimiter) → Reachable f g → Step g h → Reachable f h

-- Between events: each running fill holds a slot, and no more than the cap.
pub record IsValid (f : FillLimiter) : Type 0 where
  pub held : (f.cap ≡ 0) ⊎ (f.running ≡ f.slots)
  pub bounded : f.slots ≤ f.cap

Step-IsValid : (f g : FillLimiter) → Step f g → IsValid f → (g.cap ≡ f.cap) × IsValid g
Step-IsValid f _ (unlimited off) v = (refl, record { held = inl off; bounded = v.bounded })
Step-IsValid f _ (unlimited_ends off some_run) v =
    (refl, record { held = inl off; bounded = v.bounded })
Step-IsValid f _ (enters on free) v =
    (refl, record { held = ground (arith, v.held); bounded = omega arith })
Step-IsValid f _ (queues on full) v = (refl, record { held = v.held; bounded = v.bounded })
Step-IsValid f _ (takes on some_wait free) v =
    (refl, record { held = ground (arith, v.held); bounded = omega arith })
Step-IsValid f _ (sheds on some_wait) v = (refl, record { held = v.held; bounded = v.bounded })
Step-IsValid f _ (releases on some_run taken) v =
    (refl, record { held = ground (arith, v.held); bounded = omega (arith, v.bounded) })

Reachable-IsValid : (f g : FillLimiter) → Reachable f g → IsValid f → (g.cap ≡ f.cap) × IsValid g
Reachable-IsValid f _ start v = (refl, v)
Reachable-IsValid f h (next g _ r s) v =
    let (same_cap, sound) = Reachable-IsValid f g r v in
    let (kept, sound') = Step-IsValid g h s sound in (kept ∙ same_cap, sound')

fresh-IsValid : (env : Text) → IsValid (new_fill_limiter env)
unfolding new_fill_limiter
fresh-IsValid env = record { held = inr refl; bounded = omega arith }

-- However requests come, wait, give up and end, a limiter that is on never runs more upstream fills
-- than its cap.
pub running-le :
    (env : Text) (f : FillLimiter)
    → Reachable (new_fill_limiter env) f
    → 0 < parse_fill_cap env
    → f.running ≤ parse_fill_cap env
unfolding new_fill_limiter
running-le env f r on =
    let (same_cap, sound) = Reachable-IsValid (new_fill_limiter env) f r (fresh-IsValid env) in
    ground (arith, same_cap, sound.held, sound.bounded, on)

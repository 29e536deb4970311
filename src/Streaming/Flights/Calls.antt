-- ===== src/Streaming/Flights/Calls.antt =====
-- The calls under the keys of flights.
use aniraku_backend.Streaming.Stability.Requests.{same_request_iff}
use mathlib.Core.List.{Memᴰ}
use aniraku_backend.Base.{
  Bool-cases, All, ℕ, ◌≡◌, refl, sym, ◌≢◌, ◌↔◌, ◌⊎◌, inl, inr, true, none, some, List, [], ◌∷◌,
  ◌++◌, arith,
}
use aniraku_backend.Base.Tables.{find, put, remove}
use aniraku_backend.Streaming.Flights.{ServerFlightKey, same_flight}

abbrev pub Calls : Type 0
Calls = List (ServerFlightKey × ℕ)

pub same_flight_iff : (a b : ServerFlightKey) → (same_flight a b ≡ true) ↔ (a ≡ b)
unfolding same_flight
same_flight_iff a b = ground (arith, same_request_iff a.request b.request)

-- No call is under the key.
abbrev pub Absent : ServerFlightKey → Calls → Type 0
Absent key calls = All (λ (c : ServerFlightKey × ℕ). c.0 ≢ key) calls

-- No key twice.
abbrev pub Once : Calls → Type 0
Once [] = Unit {0}
Once (c ∷ calls) = Absent c.0 calls × Once calls

pub find-Absent :
    (key : ServerFlightKey) (calls : Calls) → find same_flight key calls ≡ none → Absent key calls
unfolding find
find-Absent key [] h = tt
find-Absent key ((j, n) ∷ calls) h = elim (Bool-cases (same_flight j key)) [
  | inl same ↦ absurd (ground (arith, h, same))
  | inr other ↦ (
    λ e. cc (other, (same_flight_iff j key).1 e),
    find-Absent key calls (ground (arith, h, other)),
  )
]

pub find-Mem :
    (key : ServerFlightKey) (call : ℕ) (calls : Calls)
    → find same_flight key calls ≡ some call
    → Memᴰ (key, call) calls
unfolding find
find-Mem key call [] h = cc
find-Mem key call ((j, n) ∷ calls) h = elim (Bool-cases (same_flight j key)) [
  | inl same ↦
      let at : j ≡ key = (same_flight_iff j key).0 same in
      let of_call : n ≡ call = ground (arith, h, same) in Memᴰ.head (sym (λ i. (at i, of_call i)))
  | inr other ↦ Memᴰ.tail (find-Mem key call calls (ground (arith, h, other)))
]

pub put-Absent :
    (key : ServerFlightKey) (call : ℕ) (calls : Calls)
    → Absent key calls
    → put same_flight key call calls ≡ calls ++ (key, call) ∷ []
unfolding put
put-Absent key call [] h = refl
put-Absent key call ((j, n) ∷ calls) h =
    ground (arith, same_flight_iff j key, h.0, put-Absent key call calls h.1)

remove-Absent :
    (key : ServerFlightKey) (calls : Calls)
    → Absent key calls
    → remove same_flight key calls ≡ calls
unfolding remove
remove-Absent key [] h = refl
remove-Absent key ((j, n) ∷ calls) h =
    ground (arith, same_flight_iff j key, h.0, remove-Absent key calls h.1)

pub Once-append :
    (calls : Calls) (c : ServerFlightKey × ℕ)
    → Once calls
    → Absent c.0 calls
    → Once (calls ++ c ∷ [])
Once-append [] c h new = (tt, tt)
Once-append (d ∷ calls) c h new = (extended calls h.0, Once-append calls c h.1 new.1)
  where
    extended : (cs : Calls) → Absent d.0 cs → Absent d.0 (cs ++ c ∷ [])
    extended [] k = ((λ e. new.0 (sym e)), tt)
    extended (b ∷ cs) k = (k.0, extended cs k.1)

Absent-middle :
    (key : ServerFlightKey) (front : Calls) (c : ServerFlightKey × ℕ) (back : Calls)
    → Absent key (front ++ c ∷ back)
    → (c.0 ≢ key) × Absent key (front ++ back)
Absent-middle key [] c back h = h
Absent-middle key (d ∷ front) c back h =
    let rest = Absent-middle key front c back h.1 in (rest.0, (h.0, rest.1))

-- A finished call leaves the other calls, and the map is what is left of the leaders.
pub without_middle :
    (front : Calls) (c : ServerFlightKey × ℕ) (back : Calls)
    → Once (front ++ c ∷ back)
    → Once (front ++ back) × (remove same_flight c.0 (front ++ c ∷ back) ≡ front ++ back)
unfolding remove
without_middle [] c back h =
    (h.1, ground (arith, same_flight_iff c.0 c.0, remove-Absent c.0 back h.0))
without_middle (d ∷ front) c back h =
    let (other, absent) = Absent-middle d.0 front c back h.0 in
    let (once, same) = without_middle front c back h.1 in
    ((absent, once), ground (arith, same_flight_iff d.0 c.0, other, same))

pub Mem-middle :
    (w c : ServerFlightKey × ℕ) (front back : Calls)
    → Memᴰ w (front ++ c ∷ back)
    → (w ≡ c) ⊎ Memᴰ w (front ++ back)
Mem-middle w c [] back (Memᴰ.head e) = inl e
Mem-middle w c [] back (Memᴰ.tail m) = inr m
Mem-middle w c (d ∷ front) back (Memᴰ.head e) = inr (Memᴰ.head e)
Mem-middle w c (d ∷ front) back (Memᴰ.tail m) = elim (Mem-middle w c front back m) [
  | inl e ↦ inl e
  | inr there ↦ inr (Memᴰ.tail there)
]

pub Mem-snoc : (w c : ServerFlightKey × ℕ) (calls : Calls) → Memᴰ w calls → Memᴰ w (calls ++ c ∷ [])
Mem-snoc w c _ (Memᴰ.head e) = Memᴰ.head e
Mem-snoc w c (_ ∷ calls) (Memᴰ.tail m) = Memᴰ.tail (Mem-snoc w c calls m)

module _ {κ} (P Q : ServerFlightKey × ℕ → Type κ)
    (turn : (w : ServerFlightKey × ℕ) → P w → Q w) where
  pub All-turn : (ws : Calls) → All P ws → All Q ws
  All-turn [] h = tt
  All-turn (w ∷ ws) h = (turn w h.0, All-turn ws h.1)

module _ {κ} (P : ServerFlightKey × ℕ → Type κ) where
  pub All-middle :
      (front : Calls) (w : ServerFlightKey × ℕ) (back : Calls)
      → All P (front ++ w ∷ back)
      → All P (front ++ back)
  All-middle [] w back h = h.1
  All-middle (v ∷ front) w back h = (h.0, All-middle front w back h.1)

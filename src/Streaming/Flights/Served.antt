-- ===== src/Streaming/Flights/Served.antt =====
-- One leader for each flight, and no waiter without a call that is done or led.
use aniraku_backend.Streaming.Stability.{Server}
use mathlib.Core.List.{Memᴰ}
use aniraku_backend.Base.{
  ◌==◌, Bool-cases, Option-cases, All, ℕ, ◌≡◌, refl, sym, ap, subst, ◌∙◌, ◌⊎◌, inl, inr, true,
  false, some, List, [], ◌∷◌, ◌++◌, arith,
}
use aniraku_backend.Base.Tables.{find, remove}
use aniraku_backend.Streaming.Flights.{
  ServerFlightKey, same_flight, Room, begin_flight, finish_flight, lead, join, finish, Step, leads,
  joins, finishes, answered, leaves, Reachable, start, next, quiet,
}
use aniraku_backend.Streaming.Flights.Calls.{
  Calls, Absent, Once, find-Absent, find-Mem, put-Absent, Once-append, without_middle, Mem-middle,
  Mem-snoc, All-turn, All-middle,
}

module _ {A : Type 0} where
  -- The waiter's call is done, or a request leads it.
  abbrev pub Served : Room A → ServerFlightKey × ℕ → Type 0
  Served s w =
      ((servers : List (Server A)) × (s.state.servers w.1 ≡ some servers)) ⊎ Memᴰ w s.leaders

  pub record IsValid (s : Room A) : Type 0 where
    pub led : s.leaders ≡ s.state.flights
    pub once : Once s.leaders
    pub served : All (Served s) s.waiters

  leads-IsValid :
      (s : Room A) (key : ServerFlightKey)
      → (begin_flight key s.state).2 ≡ true
      → IsValid s
      → IsValid (lead key s)
  unfolding begin_flight lead
  leads-IsValid s key h v = elim (Option-cases (find same_flight key s.state.flights)) [
    | inr (call, found) ↦ absurd (ground (arith, h, found))
    | inl missing ↦
        let absent = find-Absent key s.state.flights missing in
        rw (missing, begin_flight)
          (record {
            led =
                ap (λ (c : Calls). c ++ (key, s.state.calls) ∷ []) v.led
                ∙ sym (put-Absent key s.state.calls s.state.flights absent);
            once =
                Once-append s.leaders (key, s.state.calls) v.once
                  (subst (Absent key) (sym v.led) absent);
            served =
                All-turn (Served s) _
                  (λ w known. elim known [
                    | inl done ↦ inl done
                    | inr there ↦ inr (Mem-snoc w (key, s.state.calls) s.leaders there)
                  ])
                  s.waiters v.served;
          })
  ]

  joins-IsValid :
      (s : Room A) (key : ServerFlightKey)
      → (begin_flight key s.state).2 ≡ false
      → IsValid s
      → IsValid (join key s)
  unfolding begin_flight join
  joins-IsValid s key h v = elim (Option-cases (find same_flight key s.state.flights)) [
    | inl missing ↦ absurd (ground (arith, h, missing))
    | inr (call, found) ↦
        rw (found, begin_flight)
          (record {
            led = v.led;
            once = v.once;
            served = (
              inr (subst (Memᴰ (key, call)) (sym v.led) (find-Mem key call s.state.flights found)),
              v.served,
            );
          })
  ]

  finishes-IsValid :
      (s : Room A) (key : ServerFlightKey) (call : ℕ) (servers : List (Server A))
      (front back : Calls)
      → s.leaders ≡ front ++ (key, call) ∷ back
      → IsValid s
      → IsValid (finish key call servers (front ++ back) s)
  unfolding finish_flight finish
  finishes-IsValid s key call servers front back e v =
      let (once, same) = without_middle front (key, call) back (subst Once e v.once) in
      record {
        led = sym (ap (remove same_flight key) (sym v.led ∙ e) ∙ same);
        once = once;
        served =
            All-turn (Served s) _
              (λ w known. elim known [
                | inl (old, done) ↦ inl (elim (Bool-cases (w.1 == call)) [
                  | inl this ↦ (servers, ground (arith, this))
                  | inr other ↦ (old, ground (arith, other, done))
                ])
                | inr there ↦ elim (Mem-middle w (key, call) front back (subst (Memᴰ w) e there)) [
                  | inl this ↦
                      inl (servers, ground (arith, ap (λ (c : ServerFlightKey × ℕ). c.1) this))
                  | inr still ↦ inr still
                ]
              ])
              s.waiters v.served;
      }

  Step-IsValid : (s t : Room A) → Step s t → IsValid s → IsValid t
  Step-IsValid s _ (leads key h) v = leads-IsValid s key h v
  Step-IsValid s _ (joins key h) v = joins-IsValid s key h v
  Step-IsValid s _ (finishes key call servers front back e) v =
      finishes-IsValid s key call servers front back e v
  Step-IsValid s _ (answered w servers front back e done) v = record {
    led = v.led;
    once = v.once;
    served = All-middle (Served s) front w back (subst (All (Served s)) e v.served);
  }
  Step-IsValid s _ (leaves w front back e) v = record {
    led = v.led;
    once = v.once;
    served = All-middle (Served s) front w back (subst (All (Served s)) e v.served);
  }

  Reachable-IsValid : (s t : Room A) → Reachable s t → IsValid s → IsValid t
  Reachable-IsValid s _ start v = v
  Reachable-IsValid s u (next t _ r step) v = Step-IsValid t u step (Reachable-IsValid s t r v)

  -- However requests come, wait, finish and give up, no two of them lead a flight of the same key,
  -- the map holds exactly the calls that are led, and each request that waits does so for a call
  -- that has its servers or that another request leads.
  pub flights-Served :
      (s : Room A)
      → Reachable quiet s
      → Once s.leaders × (s.leaders ≡ s.state.flights) × All (Served s) s.waiters
  flights-Served s r =
      let v = Reachable-IsValid quiet s r (record { led = refl; once = tt; served = tt }) in
      (v.once, v.led, v.served)

-- ===== src/Streaming/Flights.antt =====
-- `beginFlight` and `finishFlight` of internal/streaming/servers_stability.go, and how `FindAllServers` of
-- manager.go calls them. A call is named by its number; it is done when it has a result.
pub mod Calls
pub mod Served
mod Tests
use aniraku_backend.Base.{
  ◌==◌, bool_eq, if◌then◌else◌, ℕ, ◌+◌, ◌≡◌, Bool, true, false, ◌&&◌, Option, none, some, List, [],
  ◌∷◌, ◌++◌,
}
use aniraku_backend.Base.Tables.{find, put, remove}
use aniraku_backend.Streaming.Stability.{Server, ServerRequestKey, same_request}

pub record ServerFlightKey : Type 0 where
  pub request : ServerRequestKey
  pub refresh : Bool

unfoldable pub same_flight : ServerFlightKey → ServerFlightKey → Bool
unfolding same_request
same_flight a b = same_request a.request b.request && bool_eq a.refresh b.refresh

-- The map of flights by their calls, the calls made so far, and the servers of those that are done.
pub record Flights (A : Type 0) : Type 0 where
  pub flights : List (ServerFlightKey × ℕ)
  pub calls : ℕ
  pub servers : ℕ → Option (List (Server A))

-- The requests in `FindAllServers`: those that lead a call, and those that wait for one.
pub record Room (A : Type 0) : Type 0 where
  pub state : Flights A
  pub leaders : List (ServerFlightKey × ℕ)
  pub waiters : List (ServerFlightKey × ℕ)

module _ {A : Type 0} where
  -- The flights afterwards, the call, and whether the request leads it.
  unfoldable pub begin_flight : ServerFlightKey → Flights A → Flights A × ℕ × Bool
  unfolding find put same_flight
  begin_flight key s = elim (find same_flight key s.flights) [
    | some call ↦ (s, call, false)
    | none ↦ (
      record s { flights = put same_flight key s.calls s.flights; calls = s.calls + 1 },
      s.calls,
      true,
    )
  ]

  unfoldable pub finish_flight : ServerFlightKey → ℕ → List (Server A) → Flights A → Flights A
  unfolding remove same_flight
  finish_flight key call servers s = record s {
    flights = remove same_flight key s.flights;
    servers = λ n. if n == call then some servers else s.servers n;
  }

  -- A request that leads the call that it began, or waits for it.
  unfoldable pub lead : ServerFlightKey → Room A → Room A
  unfolding begin_flight
  lead key s = record s {
    state = (begin_flight key s.state).0;
    leaders = s.leaders ++ (key, (begin_flight key s.state).1) ∷ [];
  }

  unfoldable pub join : ServerFlightKey → Room A → Room A
  unfolding begin_flight
  join key s = record s {
    state = (begin_flight key s.state).0;
    waiters = (key, (begin_flight key s.state).1) ∷ s.waiters;
  }

  -- The deferred `finishFlight` of a leader, whose other leaders are `rest`.
  unfoldable pub finish :
      ServerFlightKey → ℕ → List (Server A) → List (ServerFlightKey × ℕ) → Room A → Room A
  unfolding finish_flight
  finish key call servers rest s = record s {
    state = finish_flight key call servers s.state;
    leaders = rest;
  }

  -- One event. A waiter goes when its call is done, or when its client does.
  pub data Step (s : Room A) : Room A → Type 0 where
    leads : (key : ServerFlightKey) → (begin_flight key s.state).2 ≡ true → Step s (lead key s)
    joins : (key : ServerFlightKey) → (begin_flight key s.state).2 ≡ false → Step s (join key s)
    finishes :
        (key : ServerFlightKey) (call : ℕ) (servers : List (Server A))
        (front back : List (ServerFlightKey × ℕ))
        → s.leaders ≡ front ++ (key, call) ∷ back
        → Step s (finish key call servers (front ++ back) s)
    answered :
        (w : ServerFlightKey × ℕ) (servers : List (Server A))
        (front back : List (ServerFlightKey × ℕ))
        → s.waiters ≡ front ++ w ∷ back
        → s.state.servers w.1 ≡ some servers
        → Step s (record s { waiters = front ++ back })
    leaves :
        (w : ServerFlightKey × ℕ) (front back : List (ServerFlightKey × ℕ))
        → s.waiters ≡ front ++ w ∷ back
        → Step s (record s { waiters = front ++ back })

  pub data Reachable (s : Room A) : Room A → Type 0 where
    start : Reachable s s
    next : (t u : Room A) → Reachable s t → Step t u → Reachable s u

  abbrev pub quiet : Room A
  quiet = record {
    state = record { flights = []; calls = 0; servers = λ n. none };
    leaders = [];
    waiters = [];
  }

-- ===== src/Streaming/Flights/Tests.antt =====
-- Runs of requests that share a call.
use aniraku_backend.Base.Tables.{find, put}
use aniraku_backend.Streaming.Flights.Calls.{Once}
use aniraku_backend.Streaming.Flights.Served.{Served, flights-Served}
use aniraku_backend.Streaming.Flights.{
  ServerFlightKey, same_flight, Room, begin_flight, lead, join, leads, joins, Reachable, start,
  next, quiet,
}
use aniraku_backend.Base.{All, codes, text_eq, ℕ, ◌≡◌, refl, false}
use aniraku_backend.Streaming.Stability.{same_signed, same_request}

abbrev asked : ServerFlightKey
asked = record {
  request = record {
    anime_id = record { negative = false; size = 21 };
    episode = record { negative = false; size = 3 };
    lang = codes "sub";
    hentai = false;
  };
  refresh = false;
}

-- A leader, and a request for the same that waits for it.
abbrev shared : Room ℕ
shared = join asked (lead asked quiet)

shared-Reachable : Reachable quiet shared
unfolding begin_flight join lead find put same_flight same_request same_signed text_eq
shared-Reachable =
    next (lead asked quiet) shared (next quiet (lead asked quiet) start (leads asked refl))
      (joins asked refl)

flights-Served_example :
    Once shared.leaders
    × (shared.leaders ≡ shared.state.flights)
    × All (Served shared) shared.waiters
flights-Served_example = flights-Served shared shared-Reachable

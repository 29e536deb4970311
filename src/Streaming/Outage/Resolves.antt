-- ===== src/Streaming/Outage/Resolves.antt =====
-- Runs of `noteResolve` of internal/streaming/outage.go.
use aniraku_backend.Streaming.Outage.{OutageBreaker}

-- A breaker with its settings, no strike and no pause.
abbrev cleared : OutageBreaker → OutageBreaker
cleared b = record b { strikes = 0; paused_until = 0 }

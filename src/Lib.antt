-- ===== src/Lib.antt =====
-- Aniraku-Backend: the parts of the Go server that decide whether a request is let in, which
-- sockets it may open, what it answers from its caches, and what it writes to other services.
--
-- The server is a chi router (internal/api/router.go). Each request first gets its client address
-- (internal/api/middleware/realip.go) and a token of that address's bucket (ratelimit.go); routes
-- for users go on to the bearer gate and the admin gate (internal/auth/middleware.go), which ask
-- the token verifier (verifier.go), which asks the key cache (jwks.go). Handlers (internal/api/v1)
-- reach AniList through one client with a breaker, a token bucket and a cache (anilist_client.go),
-- media hosts through the proxy's gates (proxy_allowlist.go, ssrf.go), and the users' lists at the
-- providers through the import and the exports (importexport.go). The media proxy and the download
-- handler (proxy.go) fetch through a chain of transports and share caches of playlists and keys.
-- Providers of streams (internal/streaming) share an outage breaker, a playlist cache and the lists
-- of servers that were last good (servers_stability.go). Episode numbers are mapped to TMDB's by
-- texts of ranges (internal/tmdb/resolver.go). The HTTP clients of the scrapers, the proxy and the
-- gates open their sockets through the dial guard (internal/netguard); the metadata clients of MAL
-- and Kitsu do not.
--
-- Base: lists and texts (code points) over the native numbers, maps as association lists, decimal
-- numbers, and the two loops over a map by which the caches stay bounded (the search for the oldest
-- entry, the sweep). Net: what the code uses of Go's net package, addresses and host-port pairs.
-- Netguard: PublicIp is `IsPublicIP`, Dial is `Control`, `allowedBridge`, `parseBridges` and the
-- hook `control`. Middleware: RateLimit is `RateLimiter`, with `allow`, the two critical sections
-- of `cleanup`, `Stop` and `Middleware`; RealIp is `RealIP`; Cors is cors.go. Auth: Verifier is
-- `Verify`, Gate is `Middleware` and `RequireAdmin`, Jwks is `GetKey` in the critical sections
-- between its waits, then for a caller that no other comes between, and `doRefreshLocked`. Anilist:
-- Breaker is `circuitBreaker`, Bucket is `tokenBucket`, Client is `do`. Proxy: Hosts has the two
-- host lists, Allowlist the functions of proxy_allowlist.go, `validateProxyTarget`, and the host
-- tests of `Proxy` and `Download`; FillLimiter has the semaphore of proxy_fill_limiter.go as a step
-- relation; Transport is `doRequest` and its memo, Nonce `stripProxyNonce`, Answer the answers and
-- `classifyPlaylistResponse`, Serve the parts of `Proxy` that keep no state, Handler `Proxy` itself
-- with `serveRewrittenPlaylist`, one function for each stretch of it, and Download is `Download`;
-- Upstreams has what the proofs about Handler need of an upstream response. Export: Status, Watch
-- (`foldWatchRows`) and Decision (what `ExportMAL` and `ExportAniList` decide for a title).
-- Streaming: Outage, VodCache, Stability, which is `serverStabilityCache` with its snapshot file,
-- and Flights, which is its `beginFlight` and `finishFlight` as `FindAllServers` calls them, a step
-- relation. Import: Entries is the deduplication at the start of `runProviderImport`, Run the rest
-- of it, over the types in Services. Tmdb: Ranges has `parseRange`, `mapEpisodeNumber` and the
-- functions on maps of ranges, Mappings those on a title's mappings. The modules below a component
-- hold its proofs; those named Tests run the definitions.
--
-- A state is a record, and a method is a function from the state, its arguments and the clock's
-- reading to the new state and the result. A mutex makes each critical section one step; where the
-- code lets go of the lock in between, the sections are functions of their own. Times and durations
-- are natural numbers of nanoseconds, and a difference that Go would make negative is 0 where the
-- code only tests it against a positive bound. A map is a list of its entries, whose order stands
-- for Go's order of iteration; the two loops of the import over its map, whose orders differ, are
-- given each its own. Where a duration can leave its word, in the shift of the outage breaker and
-- the seconds of a Retry-After header, it is computed modulo 2^64. The bucket of the AniList client
-- counts in units of 10^-10 of a token, where its rate is a whole number; the seconds of watch
-- history are milliseconds. `do` retries at most three times, so its loop is a recursion on the
-- retries left. `IsPublicIP` calls itself at most once, so two rounds are the function. A fetch of
-- the proxy tries at most five transports, a remembered one and the four of the chain, and the
-- handler fetches at most twice.
--
-- Parameters, which stand for code outside the repository or for tables too large to write out: the
-- JWT library, `net.ParseIP`, `net.ParseCIDR`, `netip.ParseAddrPort` and `strconv.ParseBool`, the
-- case of letters outside ASCII, the environment, the disk, the readers of URLs and queries, the
-- rewriting of a playlist, and every answer of the network, Supabase and AniList. Two calls of the
-- clock in one critical section read the same time.
--
-- Not modelled: the scrapers of internal/streaming and the clients of internal/metadata, which are
-- network I/O and parsing of pages that others write; the rest of the stream manager, the TMDB
-- resolver's requests and caches, the rewriting of playlists and the headers of the proxy's own
-- requests, the readers of the providers' lists, and the handlers that pass requests on to
-- Supabase; configuration, logging, metrics and start-up.
pub mod Base
pub mod Net
pub mod Netguard
pub mod Middleware
pub mod Auth
pub mod Anilist
pub mod Proxy
pub mod Export
pub mod Import
pub mod Streaming
pub mod Tmdb

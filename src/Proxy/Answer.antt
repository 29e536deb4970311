-- ===== src/Proxy/Answer.antt =====
-- What `Proxy` and `Download` of internal/api/v1/proxy.go answer, and how an upstream response behind a
-- playlist's address is classified. A body is the list of its bytes.
use aniraku_backend.Base.{
  ltb, leb, ◌==◌, if◌then◌else◌, length, take, drop, Text, codes, starts_with, cut, atoi, ℕ, ◌+◌,
  ◌*◌, ◌^◌, Bool, true, false, not, ◌&&◌, ◌||◌, Option, none, some, [], ◌∷◌,
}
use aniraku_backend.Proxy.Transport.{Upstream}

pub data Body : Type 0 where
  nothing : Body
  -- The JSON object of `respondError`.
  message : Text → Body
  key_bytes : Text → Body
  playlist : Text → Body
  -- The bytes of an upstream response.
  relayed : Text → Body

-- `none` is a header that is not set. `origin_bound` is whether the answer keeps the `Vary` and
-- `Access-Control-Allow-Credentials` that the middleware set.
pub record Answer : Type 0 where
  pub status : ℕ
  pub cache_control : Text
  pub allow_origin : Text
  pub origin_bound : Bool
  pub content_type : Option Text
  pub content_length : Option Text
  pub content_range : Option Text
  pub accept_ranges : Option Text
  pub retry_after : Option Text
  pub body : Body

-- The headers at the start of `Proxy`, for an origin that is on the list or not.
unfoldable pub fresh_answer : Bool → Text → Answer
fresh_answer trusted origin = record {
  status = 200;
  cache_control = codes "no-store, private";
  allow_origin = if trusted then origin else codes "*";
  origin_bound = true;
  content_type = none;
  content_length = none;
  content_range = none;
  accept_ranges = none;
  retry_after = none;
  body = nothing;
}

unfoldable pub respond_error : ℕ → Text → Answer → Answer
respond_error status text a = record a {
  status = status;
  content_type = some (codes "application/json");
  body = message text;
}

unfoldable pub cacheable_media_headers : Text → Answer → Answer
cacheable_media_headers control a = record a {
  cache_control = control;
  allow_origin = codes "*";
  origin_bound = false;
}

unfoldable pub proxy_redirect_blocked : ℕ → Bool
proxy_redirect_blocked status = leb 300 status && ltb status 400

abbrev pub hls_max_read : ℕ
hls_max_read = 2 ^ 20

abbrev pub key_cache_max_read : ℕ
key_cache_max_read = 256 * 2 ^ 10

-- White space in UTF-8, of one, two and three bytes.
unfoldable pub space1 : ℕ → Bool
space1 a = (leb 9 a && leb a 13) || a == 32

unfoldable pub space2 : ℕ → ℕ → Bool
space2 a b = a == 0xC2 && (b == 0x85 || b == 0xA0)

unfoldable pub space3 : ℕ → ℕ → ℕ → Bool
space3 a b c =
    (a == 0xE1 && b == 0x9A && c == 0x80)
    || (a == 0xE2
        && b == 0x80
        && ((leb 0x80 c && leb c 0x8A) || c == 0xA8 || c == 0xA9 || c == 0xAF))
    || (a == 0xE2 && b == 0x81 && c == 0x9F)
    || (a == 0xE3 && b == 0x80 && c == 0x80)

-- The front of `bytes.TrimSpace`.
unfoldable pub trim_front : Text → Text
unfolding space1 space2 space3
trim_front [] = []
trim_front (a ∷ []) = if space1 a then [] else a ∷ []
trim_front (a ∷ b ∷ []) =
    let rest = trim_front (b ∷ []) in
    if space1 a then rest else if space2 a b then [] else a ∷ b ∷ []
trim_front (a ∷ b ∷ c ∷ s) =
    let after1 = trim_front (b ∷ c ∷ s) in
    let after2 = trim_front (c ∷ s) in
    let after3 = trim_front s in
    if space1 a
    then after1
    else if space2 a b
    then after2
    else if space3 a b c
    then after3
    else a ∷ b ∷ c ∷ s

-- The back of the trimmed body is not read: no byte of the signature is white space.
unfoldable pub is_playlist_body : Text → Bool
unfolding trim_front starts_with
is_playlist_body b = starts_with (trim_front b) (codes "#EXTM3U")

-- `err == nil && value == n` for what `strconv.Atoi` reads.
unfoldable pub reads_as : Text → ℕ → Bool
unfolding atoi
reads_as s n = elim (atoi s) [
  | none ↦ false
  | some (negative, m) ↦ m == n && (not negative || n == 0)
]

-- `endN == n-1`, where -1 is the end of no bytes.
unfoldable pub reads_as_last : Text → ℕ → Bool
unfolding reads_as atoi
reads_as_last s n = elim (atoi s) [
  | none ↦ false
  | some (negative, m) ↦ if negative then m == 1 && n == 0 || m == 0 && n == 1 else m + 1 == n
]

unfoldable pub covers : Text → ℕ → Bool
unfolding cut reads_as reads_as_last
covers spec n = elim (cut b'/' spec) [
  | none ↦ false
  | some (span, total) ↦ elim (cut b'-' span) [
    | none ↦ false
    | some (start, end) ↦ reads_as total n && reads_as start 0 && reads_as_last end n
  ]
]

-- `strings.CutPrefix(contentRange, "bytes ")` first.
unfoldable pub partial_covers_whole : Text → ℕ → Bool
unfolding covers starts_with
partial_covers_whole range n =
    if starts_with range (codes "bytes ") then covers (drop 6 range) n else false

pub data PlaylistAction : Type 0 where
  serve media reject : PlaylistAction

unfoldable pub classify_playlist_response : ℕ → Text → Text → PlaylistAction
unfolding is_playlist_body partial_covers_whole
classify_playlist_response status range body =
    if status == 206
    then (if not (is_playlist_body body)
        then media
        else if partial_covers_whole range (length body)
        then serve
        else reject)
    else if not (status == 200)
    then reject
    else if not (is_playlist_body body)
    then media
    else serve

-- `io.ReadAll` of `io.LimitReader(body, n)`: the bytes, and whether no read failed.
unfoldable pub read_limited : ℕ → Upstream → Text × Bool
read_limited n u = (take n u.body, leb n (length u.body) || u.complete)

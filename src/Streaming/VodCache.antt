-- ===== src/Streaming/VodCache.antt =====
-- internal/streaming/vod_cache.go: the bodies of playlists, by their exact address. A body is the list
-- of its bytes.
use aniraku_backend.Base.{
  ltb, leb, ◌==◌, if◌then◌else◌, Bool-cases, Option-cases, length, All, Text, codes, text_eq,
  text_eq_iff, text_eq_refl, contains, Dict, lookup, insert, delete, IsDict, lookup-insert,
  All-insert, All-delete, insert-IsDict, delete-IsDict, length-insert-le, length-delete-le,
  All-lookup, evict_oldest, evict_oldest-IsDict, All-evict_oldest, evict_oldest_lem, ℕ, ◌+◌, ◌-◌,
  ◌*◌, ◌≤◌, ◌<◌, ◌≡◌, refl, ◌≢◌, ◌⊎◌, inl, inr, Bool, true, false, not, ◌||◌, Option, none, some,
  List, [], ◌∷◌, arith,
}

pub record VodCacheEntry : Type 0 where
  pub body : Text
  pub at : ℕ

abbrev pub vod_cache_ttl : ℕ
vod_cache_ttl = 45_000_000_000

abbrev pub vod_cache_max_ent : ℕ
vod_cache_max_ent = 256

abbrev pub vod_cache_max_body : ℕ
vod_cache_max_body = 256 * 1024

abbrev pub stored_at : VodCacheEntry → ℕ
stored_at e = e.at

unfoldable pub is_cacheable_playlist : Text → Bool
is_cacheable_playlist body =
    if not (contains body (codes "#EXTM3U"))
    then false
    else if contains body (codes "#EXT-X-ENDLIST")
        || contains body (codes "#EXT-X-PLAYLIST-TYPE:VOD")
    then true
    else contains body (codes "#EXT-X-STREAM-INF") || contains body (codes "#EXT-X-MEDIA:")

-- The cache after `VODCacheGet`, and the body it returns.
unfoldable pub vod_cache_get : Text → ℕ → Dict VodCacheEntry → Dict VodCacheEntry × Option Text
vod_cache_get url now m = if text_eq url [] then (m, none) else elim (lookup url m) [
  | none ↦ (m, none)
  | some e ↦ if ltb vod_cache_ttl (now - e.at) then (delete url m, none) else (m, some e.body)
]

-- The early return of `VODCacheSet`.
unfoldable pub rejects : Text → Text → Bool
unfolding is_cacheable_playlist
rejects url body =
    text_eq url []
    || length body == 0
    || ltb vod_cache_max_body (length body)
    || not (is_cacheable_playlist body)

-- The search for room; the keys are not empty, so `oldestKey == ""` is the first turn of the loop.
unfoldable pub room_for_one : Dict VodCacheEntry → Dict VodCacheEntry
room_for_one m = if leb vod_cache_max_ent (length m) then evict_oldest stored_at m else m

unfoldable pub vod_cache_set : Text → Text → ℕ → Dict VodCacheEntry → Dict VodCacheEntry
unfolding rejects room_for_one
vod_cache_set url body now m =
    if rejects url body then m else insert url (record { body = body; at = now }) (room_for_one m)

-- What the cache may hold: distinct, non-empty addresses, at most 256 of them, each with a static
-- playlist of at most 256 KiB.
pub record IsValid (m : Dict VodCacheEntry) : Type 0 where
  pub distinct : IsDict m
  pub keyed : All (λ (e : Text × VodCacheEntry). e.0 ≢ []) m
  pub bounded : length m ≤ vod_cache_max_ent
  pub static : All (λ (e : Text × VodCacheEntry). rejects e.0 e.1.body ≡ false) m

nonempty : (m : Dict VodCacheEntry) → leb vod_cache_max_ent (length m) ≡ true → m ≢ []
nonempty m full e = ground arith

length-room_for_one-lt :
    (m : Dict VodCacheEntry) → IsValid m → length (room_for_one m) < vod_cache_max_ent
unfolding room_for_one
length-room_for_one-lt m v = elim (Bool-cases (leb vod_cache_max_ent (length m))) [
  | inl full ↦
      let (_, _, _, _, _, shorter) =
        evict_oldest_lem stored_at m v.distinct v.keyed (nonempty m full) in
      rw full (ground arith)
  | inr room ↦ rw room (ground arith)
]

room_for_one-IsDict : (m : Dict VodCacheEntry) → IsDict m → IsDict (room_for_one m)
unfolding room_for_one
room_for_one-IsDict m h = ground (arith, evict_oldest-IsDict stored_at m h)

All-room_for_one {κ} :
    (P : Text × VodCacheEntry → Type κ) (m : Dict VodCacheEntry) → All P m → All P (room_for_one m)
unfolding room_for_one
All-room_for_one P m h = ground (arith, All-evict_oldest P stored_at m h)

rejects-keyed : (url body : Text) → rejects url body ≡ false → url ≢ []
unfolding rejects
rejects-keyed url body h e = ground (arith, text_eq_refl url)

delete-IsValid : (url : Text) (m : Dict VodCacheEntry) → IsValid m → IsValid (delete url m)
delete-IsValid url m v = record {
  distinct = delete-IsDict url m v.distinct;
  keyed = All-delete (λ (e : Text × VodCacheEntry). e.0 ≢ []) url m v.keyed;
  bounded = omega (arith, length-delete-le url m, v.bounded);
  static = All-delete (λ (e : Text × VodCacheEntry). rejects e.0 e.1.body ≡ false) url m v.static;
}

-- The cache stays within its bounds, 256 distinct, non-empty addresses, each with a static playlist
-- of at most 256 KiB, whatever is stored, read or expires.
pub vod_cache-IsValid :
    (url body : Text) (now : ℕ) (m : Dict VodCacheEntry)
    → IsValid m
    → IsValid (vod_cache_set url body now m) × IsValid (vod_cache_get url now m).0
unfolding vod_cache_set vod_cache_get
vod_cache-IsValid url body now m v = (set, get)
  where
    set : IsValid (vod_cache_set url body now m)
    set = elim (Bool-cases (rejects url body)) [
      | inl refused ↦ rw refused v
      | inr fits ↦ rw fits (record {
        distinct = insert-IsDict url _ (room_for_one m) (room_for_one-IsDict m v.distinct);
        keyed =
            All-insert (λ (e : Text × VodCacheEntry). e.0 ≢ []) url _ (room_for_one m)
              (All-room_for_one (λ (e : Text × VodCacheEntry). e.0 ≢ []) m v.keyed)
              (rejects-keyed url body fits);
        bounded = ground (
          arith,
          length-insert-le url (record { body = body; at = now }) (room_for_one m),
          length-room_for_one-lt m v,
        );
        static =
            All-insert (λ (e : Text × VodCacheEntry). rejects e.0 e.1.body ≡ false) url _
              (room_for_one m)
              (All-room_for_one (λ (e : Text × VodCacheEntry). rejects e.0 e.1.body ≡ false) m
                v.static)
              fits;
      })
    ]

    get : IsValid (vod_cache_get url now m).0
    get = ground (arith, v, delete-IsValid url m v)

-- A playlist that passes the gate of the cache is what a later read of its address returns, for as
-- long as its entry lives, however full the cache was.
pub vod_cache_get-vod_cache_set :
    (url body : Text) (now later : ℕ) (m : Dict VodCacheEntry)
    → rejects url body ≡ false
    → (vod_cache_get url later (vod_cache_set url body now m)).1
      ≡ (if leb (later - now) vod_cache_ttl then some body else none)
unfolding vod_cache_get vod_cache_set
vod_cache_get-vod_cache_set url body now later m fits =
    rw (fits, lookup-insert)
      (ground (arith, text_eq_refl url, text_eq_iff url [], rejects-keyed url body fits))

pub data Op : Type 0 where
  store : Text → Text → ℕ → Op
  read : Text → ℕ → Op

-- The cache after these calls, the newest first.
unfoldable pub after : List Op → Dict VodCacheEntry
unfolding vod_cache_set vod_cache_get
after [] = []
after (store url body now ∷ ops) = vod_cache_set url body now (after ops)
after (read url now ∷ ops) = (vod_cache_get url now (after ops)).0

-- One of these calls stored this body under this address, at this time.
abbrev pub Stored : Text → VodCacheEntry → List Op → Type 0
Stored url e [] = ⊥
Stored url e (store other body now ∷ ops) =
    ((url ≡ other) × (e.body ≡ body) × (e.at ≡ now)) ⊎ Stored url e ops
Stored url e (read other now ∷ ops) = Stored url e ops

module _ {κ} (P : Text × VodCacheEntry → Type κ) where
  vod_cache_set-All :
      (url body : Text) (now : ℕ) (m : Dict VodCacheEntry)
      → All P m
      → P (url, record { body = body; at = now })
      → All P (vod_cache_set url body now m)
  unfolding vod_cache_set
  vod_cache_set-All url body now m h p = ground (
    arith,
    h,
    All-insert P url (record { body = body; at = now }) (room_for_one m) (All-room_for_one P m h) p,
  )

  vod_cache_get-All :
      (url : Text) (now : ℕ) (m : Dict VodCacheEntry) → All P m → All P (vod_cache_get url now m).0
  unfolding vod_cache_get
  vod_cache_get-All url now m h = ground (arith, h, All-delete P url m h)

abbrev Ever : List Op → Text × VodCacheEntry → Type 0
Ever ops e = Stored e.0 e.1 ops

later_stored :
    (op : Op) (ops : List Op) (m : Dict VodCacheEntry) → All (Ever ops) m → All (Ever (op ∷ ops)) m
later_stored op ops [] h = h
later_stored (store url body now) ops (e ∷ m) h =
    (inr h.0, later_stored (store url body now) ops m h.1)
later_stored (read url now) ops (e ∷ m) h = (h.0, later_stored (read url now) ops m h.1)

All-after : (ops : List Op) → All (Ever ops) (after ops)
unfolding after
All-after [] = _
All-after (store url body now ∷ ops) =
    vod_cache_set-All (Ever (store url body now ∷ ops)) url body now (after ops)
      (later_stored (store url body now) ops (after ops) (All-after ops)) (inl (refl, refl, refl))
All-after (read url now ∷ ops) =
    vod_cache_get-All (Ever (read url now ∷ ops)) url now (after ops)
      (later_stored (read url now) ops (after ops) (All-after ops))

absent :
    (m : Dict VodCacheEntry) (url body : Text) (now : ℕ)
    → lookup url m ≡ none
    → (vod_cache_get url now m).1 ≡ some body
    → ⊥
unfolding vod_cache_get
absent m url body now missing h = ground (arith, missing, h)

present :
    (m : Dict VodCacheEntry) (url body : Text) (now : ℕ) (e : VodCacheEntry)
    → lookup url m ≡ some e
    → (vod_cache_get url now m).1 ≡ some body
    → (e.body ≡ body) × (now ≤ e.at + vod_cache_ttl)
unfolding vod_cache_get
present m url body now e found h = ground (arith, found, h)

-- After any calls, what a read returns was stored under exactly its address, not longer ago than an
-- entry lives.
pub vod_cache_get-Stored :
    (ops : List Op) (url body : Text) (now : ℕ)
    → (vod_cache_get url now (after ops)).1 ≡ some body
    → (e : VodCacheEntry) × Stored url e ops × (e.body ≡ body) × (now ≤ e.at + vod_cache_ttl)
vod_cache_get-Stored ops url body now h = elim (Option-cases (lookup url (after ops))) [
  | inl missing ↦ absurd (absent (after ops) url body now missing h)
  | inr (e, found) ↦
      let (same, fresh) = present (after ops) url body now e found h in
      (e, All-lookup (Ever ops) url e (after ops) (All-after ops) found, same, fresh)
]

-- ===== src/Import/Entries/Best.antt =====
-- The entry of a title that the deduplication keeps.
use mathlib.Core.List.{Memᴰ}
use aniraku_backend.Base.{
  ◌==◌, if◌then◌else◌, Bool-cases, All, ℕ, ◌≡◌, refl, ◌∙◌, ◌≢◌, inl, inr, true, false, ◌&&◌, Option,
  none, some, List, [], ◌∷◌, arith,
}
use aniraku_backend.Import.Entries.{ProviderEntry, outranks, normalized}

-- The loop's invariant: what the map has of a title after these entries, the newest first.
abbrev pub Highest : ℕ → List ProviderEntry → Option ProviderEntry → Type 0
Highest id entries none = All (λ (e : ProviderEntry). e.anime_id ≢ id) entries
Highest id entries (some b) =
    (b.anime_id ≡ id)
    × All (λ (e : ProviderEntry). (e.anime_id == id && outranks (normalized e) b) ≡ false) entries
    × ((e : ProviderEntry) × Memᴰ e entries × (normalized e ≡ b))

outranks_trans :
    (x e cur : ProviderEntry) → outranks x e ≡ true → outranks e cur ≡ true → outranks x cur ≡ true
unfolding outranks
outranks_trans x e cur h k = ground (arith, h, k)

outranks_irrefl : (x : ProviderEntry) → outranks x x ≡ false
unfolding outranks
outranks_irrefl x = ground arith

normalized_id : (e : ProviderEntry) → (normalized e).anime_id ≡ e.anime_id
unfolding normalized
normalized_id e = ground arith

raised :
    (id : ℕ) (seen : List ProviderEntry) (b e : ProviderEntry)
    → All (λ (x : ProviderEntry). (x.anime_id == id && outranks (normalized x) b) ≡ false) seen
    → outranks e b ≡ true
    → All (λ (x : ProviderEntry). (x.anime_id == id && outranks (normalized x) e) ≡ false) seen
raised id [] b e h above = tt
raised id (x ∷ seen) b e h above = (
  elim (Bool-cases (outranks (normalized x) e)) [
    | inr low ↦ ground (arith, low)
    | inl high ↦ ground (arith, outranks_trans (normalized x) e b high above, h.0)
  ],
  raised id seen b e h.1 above,
)

-- What a turn makes of a title's entry.
turn : ℕ → ProviderEntry → Option ProviderEntry → Option ProviderEntry
turn id e known =
    if e.anime_id == id
    then (elim known [
      | none ↦ some (normalized e)
      | some cur ↦ if outranks (normalized e) cur then some (normalized e) else some cur
    ])
    else known

later :
    (e b : ProviderEntry) (seen : List ProviderEntry)
    → ((x : ProviderEntry) × Memᴰ x seen × (normalized x ≡ b))
    → (x : ProviderEntry) × Memᴰ x (e ∷ seen) × (normalized x ≡ b)
later e b seen (x, there, same) = (x, Memᴰ.tail there, same)

no_rivals :
    (id : ℕ) (seen : List ProviderEntry) (b : ProviderEntry)
    → All (λ (x : ProviderEntry). x.anime_id ≢ id) seen
    → All (λ (x : ProviderEntry). (x.anime_id == id && outranks (normalized x) b) ≡ false) seen
no_rivals id [] b h = tt
no_rivals id (x ∷ seen) b h = (ground (arith, h.0), no_rivals id seen b h.1)

taken :
    (id : ℕ) (seen : List ProviderEntry) (e : ProviderEntry) (known : Option ProviderEntry)
    → e.anime_id ≡ id
    → Highest id seen known
    → Highest id (e ∷ seen) (elim known [
      | none ↦ some (normalized e)
      | some cur ↦ if outranks (normalized e) cur then some (normalized e) else some cur
    ])
taken id seen e none same h = (
  normalized_id e ∙ same,
  (ground (arith, outranks_irrefl (normalized e)), no_rivals id seen (normalized e) h),
  (e, Memᴰ.head refl, refl),
)
taken id seen e (some b) same h = elim (Bool-cases (outranks (normalized e) b)) [
  | inl above ↦ rw above (
    normalized_id e ∙ same,
    (ground (arith, outranks_irrefl (normalized e)), raised id seen b (normalized e) h.1 above),
    (e, Memᴰ.head refl, refl),
  )
  | inr low ↦ rw low (h.0, (ground (arith, low), h.1), later e b seen h.2)
]

-- The entries read so far, the newest first.
abbrev pub onto : List ProviderEntry → List ProviderEntry → List ProviderEntry
onto [] seen = seen
onto (e ∷ entries) seen = onto entries (e ∷ seen)

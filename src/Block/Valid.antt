-- ===== src/Block/Valid.antt =====
-- A cache that agrees with one device: what keeps it so.
use tor_os.Prelude.{
  ℕ, zero, suc, ◌+◌, ◌-◌, ◌≤◌, ◌<◌, ◌≡◌, ◌∙◌, refl, sym, ap, true, false, List, [], ◌∷◌, none, some,
  ◌==◌, if◌then◌else◌, set, length, length-set, Bool-cases, Option-cases, inl, inr, arith,
}
use tor_os.Block.{
  Entry, cached, change_first, lru_from, block_cache_init, cache_sector, no_sector,
  block_cache_size,
}

-- In how many entries the sector stands.
abbrev pub entries_of : ℕ → List Entry → ℕ
entries_of s [] = 0
entries_of s (e ∷ rest) = (if e.sector == s then 1 else 0) + entries_of s rest

-- Every entry in use has the data that the device has.
abbrev pub Agrees : (ℕ → List ℕ) → List Entry → Type 0
Agrees content [] = Unit {0}
Agrees content (e ∷ rest) =
    ((e.sector == no_sector) ≡ false → e.sector_data ≡ content e.sector) × Agrees content rest

-- No sector stands twice, and all entries agree with the device.
pub record CacheIsValid (content : ℕ → List ℕ) (cache : List Entry) : Type 0 where
  pub size : length cache ≡ block_cache_size
  pub once : (s : ℕ) → s < no_sector → entries_of s cache ≤ 1
  pub agrees : Agrees content cache

-- Contents that differ in one sector alone agree alike with entries of the others.
Agrees-elsewhere :
    (s : ℕ) (old new : ℕ → List ℕ) (cache : List Entry)
    → ((t : ℕ) → (t == s) ≡ false → old t ≡ new t)
    → entries_of s cache ≡ 0
    → Agrees old cache
    → Agrees new cache
Agrees-elsewhere s old new [] there absent a = tt
Agrees-elsewhere s old new (e ∷ rest) there absent a =
    let other : (e.sector == s) ≡ false = ground arith in
    (
      λ used. a.0 used ∙ there e.sector other,
      Agrees-elsewhere s old new rest there (omega arith) a.1,
    )

module _ (s : ℕ) where
  pub cached-none : (cache : List Entry) → cached s cache ≡ none → entries_of s cache ≡ 0
  unfolding cached
  cached-none [] h = refl
  cached-none (e ∷ rest) h = elim (Bool-cases (e.sector == s)) [
    | inl t ↦ let found : cached s (e ∷ rest) ≡ some e.sector_data = rw (t, cached) refl in cc
    | inr f ↦
        let later : cached s (e ∷ rest) ≡ cached s rest = rw (f, cached) refl in
        let ih = cached-none rest (sym later ∙ h) in ground (arith, ih, f)
  ]

  pub cached-some :
      (content : ℕ → List ℕ) (cache : List Entry) (d : List ℕ)
      → s < no_sector
      → Agrees content cache
      → cached s cache ≡ some d
      → d ≡ content s
  unfolding cached
  cached-some content [] d lt a h = cc
  cached-some content (e ∷ rest) d lt a h = elim (Bool-cases (e.sector == s)) [
    | inl t ↦
        let found : cached s (e ∷ rest) ≡ some e.sector_data = rw (t, cached) refl in
        let same : e.sector ≡ s = ground arith in
        let used : (e.sector == no_sector) ≡ false = ground arith in
        let data_same : e.sector_data ≡ d = cc in sym data_same ∙ a.0 used ∙ ap content same
    | inr f ↦
        let later : cached s (e ∷ rest) ≡ cached s rest = rw (f, cached) refl in
        cached-some content rest d lt a.1 (sym later ∙ h)
  ]

  module _ (f : Entry → Entry) (keeps : (e : Entry) → (f e).sector ≡ e.sector) where
    length-change_first : (cache : List Entry) → length (change_first s f cache) ≡ length cache
    unfolding change_first
    length-change_first [] = refl
    length-change_first (e ∷ rest) = elim (Bool-cases (e.sector == s)) [
      | inl t ↦ rw (t, change_first) refl
      | inr t ↦ rw (t, change_first) (omega (arith, length-change_first rest))
    ]

    entries-change_first :
        (t : ℕ) (cache : List Entry) → entries_of t (change_first s f cache) ≡ entries_of t cache
    unfolding change_first
    entries-change_first t [] = refl
    entries-change_first t (e ∷ rest) = elim (Bool-cases (e.sector == s)) [
      | inl h ↦ rw (h, change_first) (rw (keeps e) refl)
      | inr h ↦ rw (h, change_first) (omega (arith, entries-change_first t rest))
    ]

    -- The changed entry agrees with the new content, which the others, of other sectors, do not see.
    Agrees-change_first :
        (old new : ℕ → List ℕ) (cache : List Entry)
        → ((e : Entry) → e.sector ≡ s → e.sector_data ≡ old s → (f e).sector_data ≡ new s)
        → ((t : ℕ) → (t == s) ≡ false → old t ≡ new t)
        → s < no_sector
        → entries_of s cache ≤ 1
        → Agrees old cache
        → Agrees new (change_first s f cache)
    unfolding change_first
    Agrees-change_first old new [] here there lt one a = tt
    Agrees-change_first old new (e ∷ rest) here there lt one a = elim (Bool-cases (e.sector == s)) [
      | inl h ↦
          let same : e.sector ≡ s = ground arith in
          let used : (e.sector == no_sector) ≡ false = ground arith in
          let changed : (f e).sector_data ≡ new (f e).sector =
            here e same (a.0 used ∙ ap old same) ∙ ap new (sym (keeps e ∙ same)) in
          rw (h, change_first)
            (λ u. changed, Agrees-elsewhere s old new rest there (ground (arith, one, h)) a.1)
      | inr h ↦
          rw (h, change_first)
            (
              λ used. a.0 used ∙ there e.sector h,
              Agrees-change_first old new rest here there lt (ground (arith, one, h)) a.1,
            )
    ]

    pub change_first-CacheIsValid :
        (old new : ℕ → List ℕ) (cache : List Entry)
        → ((e : Entry) → e.sector ≡ s → e.sector_data ≡ old s → (f e).sector_data ≡ new s)
        → ((t : ℕ) → (t == s) ≡ false → old t ≡ new t)
        → s < no_sector
        → CacheIsValid old cache
        → CacheIsValid new (change_first s f cache)
    change_first-CacheIsValid old new cache here there lt v = record {
      size = length-change_first cache ∙ v.size;
      once = λ t l. omega (arith, entries-change_first t cache, v.once t l);
      agrees = Agrees-change_first old new cache here there lt (v.once s lt) v.agrees;
    }

-- Another entry in the place of one.
module _ (n : Entry) where
  entries-set :
      (t i : ℕ) (cache : List Entry)
      → entries_of t (set cache i n) ≤ entries_of t cache + (if n.sector == t then 1 else 0)
  entries-set t i [] = omega arith
  entries-set t zero (e ∷ rest) = omega arith
  entries-set t (suc i) (e ∷ rest) = omega (arith, entries-set t i rest)

  Agrees-set :
      (content : ℕ → List ℕ) (i : ℕ) (cache : List Entry)
      → n.sector_data ≡ content n.sector
      → Agrees content cache
      → Agrees content (set cache i n)
  Agrees-set content i [] h a = a
  Agrees-set content zero (e ∷ rest) h a = (λ u. h, a.1)
  Agrees-set content (suc i) (e ∷ rest) h a = (a.0, Agrees-set content i rest h a.1)

-- `content` with the data of one sector changed.
abbrev pub stored : (ℕ → List ℕ) → ℕ → List ℕ → ℕ → List ℕ
stored content s v t = if t == s then v else content t

-- After a write to a sector that the device has too, the cache still agrees with the device.
pub cache_sector-CacheIsValid :
    (content : ℕ → List ℕ) (s : ℕ) (v : List ℕ) (now : ℕ) (cache : List Entry)
    → s < no_sector
    → CacheIsValid content cache
    → CacheIsValid (stored content s v) (cache_sector s v now cache)
unfolding cache_sector
cache_sector-CacheIsValid content s v now cache lt c = elim (Option-cases (cached s cache)) [
  | inl h ↦
      let i : ℕ = lru_from (block_cache_size - 1) 1 0 cache in
      let n : Entry = record { sector = s; sector_data = v; dirty = 1; last_used = now } in
      let absent = cached-none s cache h in
      rw (h, cache_sector)
        (record {
          size = length-set cache i n ∙ c.size;
          once = λ t l. ground (arith, entries-set n t i cache, c.once t l, absent);
          agrees =
              Agrees-set n (stored content s v) i cache here
                (Agrees-elsewhere s content (stored content s v) cache there absent c.agrees);
        })
  | inr (d, h) ↦
      rw (h, cache_sector)
        (change_first-CacheIsValid s _ (λ e. refl) content (stored content s v) cache
          (λ e same old. here) there lt c)
]
  where
    here : v ≡ stored content s v s
    here =
        let same : (s == s) ≡ true = ground arith in sym (ap (λ b. if b then v else content s) same)

    there : (t : ℕ) → (t == s) ≡ false → content t ≡ stored content s v t
    there t other = sym (ap (λ b. if b then v else content t) other)

-- An empty cache agrees with every device.
pub block_cache_init-CacheIsValid :
    (content : ℕ → List ℕ) (cache : List Entry)
    → length cache ≡ block_cache_size
    → CacheIsValid content (block_cache_init cache)
unfolding block_cache_init
block_cache_init-CacheIsValid content cache size = record {
  size = same_length cache ∙ size;
  once = λ s lt. omega (arith, empty s lt cache);
  agrees = unused cache;
}
  where
    same_length : (cache : List Entry) → length (block_cache_init cache) ≡ length cache
    same_length [] = refl
    same_length (e ∷ rest) = omega (arith, same_length rest)

    empty :
        (s : ℕ) → s < no_sector → (cache : List Entry) → entries_of s (block_cache_init cache) ≡ 0
    empty s lt [] = refl
    empty s lt (e ∷ rest) = ground (arith, empty s lt rest)

    unused : (cache : List Entry) → Agrees content (block_cache_init cache)
    unused [] = tt
    unused (e ∷ rest) = (λ u. cc, unused rest)

-- ===== src/Block/Found.antt =====
-- What the search of the cache finds after a sector is put in.
use tor_os.Prelude.{
  ℕ, zero, suc, ◌+◌, ◌-◌, ◌≤◌, ◌<◌, ◌≡◌, ◌∙◌, refl, sym, ap, true, false, List, [], ◌∷◌, some, ◌==◌,
  set, length, Bool-cases, Option-cases, inl, inr, arith,
}
use tor_os.Block.{Entry, cached, change_first, lru_from, cache_sector, block_cache_size}
use tor_os.Block.Valid.{entries_of, cached-none}

-- The loops look at entries that there are.
lru_from-lt :
    (n c lru : ℕ) (cache : List Entry)
    → c + n ≤ block_cache_size
    → lru < block_cache_size
    → lru_from n c lru cache < block_cache_size
unfolding lru_from
lru_from-lt zero c lru cache h l = l
lru_from-lt (suc n) c lru cache h l = lru_from-lt n (c + 1) _ cache (omega arith) (ground arith)

module _ (s : ℕ) where
  cached-change_first :
      (f : Entry → Entry) (cache : List Entry) (d : List ℕ)
      → ((e : Entry) → (f e).sector ≡ e.sector)
      → cached s cache ≡ some d
      → (v : List ℕ) → ((e : Entry) → (f e).sector_data ≡ v)
      → cached s (change_first s f cache) ≡ some v
  unfolding cached change_first
  cached-change_first f [] d keeps h v data_is = cc
  cached-change_first f (e ∷ rest) d keeps h v data_is = elim (Bool-cases (e.sector == s)) [
    | inl t ↦ rw (t, change_first) (rw (keeps e, t, cached) (ap some (data_is e)))
    | inr t ↦
        let later : cached s (e ∷ rest) ≡ cached s rest = rw (t, cached) refl in
        rw (t, change_first)
          (rw (t, cached) (cached-change_first f rest d keeps (sym later ∙ h) v data_is))
  ]

  cached-set :
      (n : Entry) (i : ℕ) (cache : List Entry)
      → n.sector ≡ s
      → entries_of s cache ≡ 0
      → i < length cache
      → cached s (set cache i n) ≡ some n.sector_data
  unfolding cached
  cached-set n i [] same absent l = absurd (omega arith)
  cached-set n zero (e ∷ rest) same absent l =
      let here : (n.sector == s) ≡ true = ground arith in rw (here, cached) refl
  cached-set n (suc i) (e ∷ rest) same absent l =
      let other : (e.sector == s) ≡ false = ground arith in
      rw (other, cached) (cached-set n i rest same (ground arith) (omega arith))

  -- What was put in the cache is found there.
  pub cached-cache_sector :
      (v : List ℕ) (now : ℕ) (cache : List Entry)
      → length cache ≡ block_cache_size
      → cached s (cache_sector s v now cache) ≡ some v
  unfolding cache_sector
  cached-cache_sector v now cache size = elim (Option-cases (cached s cache)) [
    | inl h ↦
        let lt = lru_from-lt (block_cache_size - 1) 1 0 cache (omega arith) (omega arith) in
        rw (h, cache_sector)
          (cached-set (record { sector = s; sector_data = v; dirty = 1; last_used = now }) _ cache
            refl (cached-none s cache h) (omega (arith, lt, size)))
    | inr (d, h) ↦
        rw (h, cache_sector)
          (cached-change_first (λ e. record e { sector_data = v; dirty = 1; last_used = now }) cache
            d (λ e. refl) h v (λ e. refl))
  ]

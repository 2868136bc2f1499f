-- ===== src/Block/Io.antt =====
-- Reading through the cache, where the drivers behave.
use tor_os.Prelude.{
  ℕ, zero, suc, ◌+◌, ◌≤◌, ◌<◌, ◌≡◌, ◌≢◌, ◌∙◌, refl, sym, ap, subst, Bool, true, List, [], ◌∷◌,
  Option, none, some, Option-cases, inl, inr, arith,
}
use tor_os.Mm.{u64}
use tor_os.Block.{Blocks, Entry, cached, change_first, no_sector, read_each, block_read, in_front}
use tor_os.Block.Valid.{CacheIsValid, cached-some, change_first-CacheIsValid, stored}

-- `count` sectors from `lba` on.
abbrev pub sectors : (ℕ → List ℕ) → ℕ → ℕ → List (List ℕ)
sectors content lba zero = []
sectors content lba (suc n) = content lba ∷ sectors content (lba + 1) n

-- The content after a run of sectors is written from `lba` on.
abbrev pub written : (ℕ → List ℕ) → ℕ → List (List ℕ) → ℕ → List ℕ
written content lba [] = content
written content lba (v ∷ vs) = written (stored content lba v) (lba + 1) vs

-- A driver that works: a read of a sector of the device gives what the device holds and changes no
-- device, and a write of a run of its sectors that succeeds stores them and changes no other device.
pub record DriverWorks {W : Type 0} (read_sector : ℕ → ℕ → W → Option (List ℕ) × W)
    (write_sectors : ℕ → ℕ → List (List ℕ) → W → Bool × W) (content : W → ℕ → ℕ → List ℕ)
    (extent : ℕ → ℕ) : Type 0 where
  pub reads :
      (dev s : ℕ) (w : W) → s < extent dev → (read_sector dev s w).0 ≡ some (content w dev s)
  pub keeps : (dev s : ℕ) (w : W) → content (read_sector dev s w).1 ≡ content w
  pub writes :
      (dev lba : ℕ) (vs : List (List ℕ)) (w : W)
      → (write_sectors dev lba vs w).0 ≡ true
      → content (write_sectors dev lba vs w).1 dev ≡ written (content w dev) lba vs
  pub elsewhere :
      (dev lba : ℕ) (vs : List (List ℕ)) (w : W) (other : ℕ)
      → other ≢ dev
      → content (write_sectors dev lba vs w).1 other ≡ content w other

module _ {W : Type 0} (read_sector : ℕ → ℕ → W → Option (List ℕ) × W) (jiffies : W → ℕ) where
  module _ (dev n s : ℕ) (cache : List Entry) (w : W) where
    abbrev touched : List Entry
    touched = change_first s (λ e. record e { last_used = jiffies w }) cache

    pub read_each-hit :
        (d : List ℕ)
        → cached s cache ≡ some d
        → let r = read_each read_sector jiffies dev n (u64 (s + 1)) touched w in
          read_each read_sector jiffies dev (suc n) s cache w ≡ (in_front d r.0, r.1, r.2)
    unfolding read_each
    read_each-hit d h = rw (h, read_each) refl

    read_each-miss :
        (d : List ℕ)
        → cached s cache ≡ none
        → (read_sector dev s w).0 ≡ some d
        → let r = read_each read_sector jiffies dev n (u64 (s + 1)) cache (read_sector dev s w).1 in
          read_each read_sector jiffies dev (suc n) s cache w ≡ (in_front d r.0, r.1, r.2)
    unfolding read_each
    read_each-miss d h g = rw (h, g, read_each) refl

module _ {W : Type 0} (read_sector : ℕ → ℕ → W → Option (List ℕ) × W)
    (write_sectors : ℕ → ℕ → List (List ℕ) → W → Bool × W) (content : W → ℕ → ℕ → List ℕ)
    (extent : ℕ → ℕ) (jiffies : W → ℕ)
    (works : DriverWorks read_sector write_sectors content extent) where
  -- The sectors that the device holds are read, and nothing but the times in the cache changes.
  Read : ℕ → ℕ → ℕ → W → Option (List (List ℕ)) × List Entry × W → Type 0
  Read dev n s w r =
      (r.0 ≡ some (sectors (content w dev) s n))
      × CacheIsValid (content w dev) r.1
      × (content r.2 ≡ content w)

  read_each_lem :
      (dev n s : ℕ) (cache : List Entry) (w : W)
      → CacheIsValid (content w dev) cache
      → s + n ≤ extent dev
      → extent dev ≤ no_sector
      → Read dev n s w (read_each read_sector jiffies dev n s cache w)
  unfolding read_each Read
  read_each_lem dev zero s cache w v h k = (refl, v, refl)
  read_each_lem dev (suc n) s cache w v h k =
      let next : u64 (s + 1) ≡ s + 1 = omega arith in
      elim (Option-cases (cached s cache)) [
        | inr (d, e) ↦
            let t = touched read_sector jiffies dev n s cache w in
            let vt =
              change_first-CacheIsValid s (λ e. record e { last_used = jiffies w }) (λ e. refl)
                (content w dev) (content w dev) cache (λ e same old. old) (λ t o. refl)
                (omega arith) v in
            let ih = read_each_lem dev n (s + 1) t w vt (omega arith) k in
            let same = cached-some s (content w dev) cache d (omega arith) v.agrees e in
            rw (read_each-hit read_sector jiffies dev n s cache w d e, next)
              (
                ap (in_front d) ih.0 ∙ ap (λ x. some (x ∷ sectors (content w dev) (s + 1) n)) same,
                ih.1,
                ih.2,
              )
        | inl e ↦
            let got = works.reads dev s w (omega arith) in
            let same = works.keeps dev s w in
            let w1 = (read_sector dev s w).1 in
            let v1 = subst (λ c. CacheIsValid (c dev) cache) (sym same) v in
            let ih = read_each_lem dev n (s + 1) cache w1 v1 (omega arith) k in
            rw (read_each-miss read_sector jiffies dev n s cache w (content w dev s) e got, next)
              (
                ap (in_front (content w dev s))
                    (ih.0 ∙ ap (λ c. some (sectors (c dev) (s + 1) n)) same),
                subst
                    (λ c.
                      CacheIsValid (c dev) (read_each read_sector jiffies dev n (s + 1) cache w1).1)
                    same ih.1,
                ih.2 ∙ same,
              )
      ]

  -- A read within the device, which is smaller than 2 ^ 64 - 1 sectors, returns what the device
  -- holds, whatever of it is in a cache that agrees with the device; the cache still agrees and no
  -- device changes.
  pub block_read_lem :
      (dev lba count : ℕ) (b : Blocks) (w : W)
      → (b.devices dev).can_read ≡ true
      → CacheIsValid (content w dev) b.block_cache
      → lba + count ≤ extent dev
      → extent dev ≤ no_sector
      → let r = block_read read_sector jiffies (some dev) lba count b w in
        (r.0 ≡ some (sectors (content w dev) lba count))
        × CacheIsValid (content w dev) r.1.block_cache
        × (content r.2 ≡ content w)
  unfolding block_read Read
  block_read_lem dev lba count b w can v h k =
      rw (can, block_read) (read_each_lem dev count lba b.block_cache w v h k)

-- ===== src/Block/Write.antt =====
-- Writing through the cache, where the drivers behave, and what a read then returns.
use tor_os.Prelude.{
  ℕ, ◌+◌, ◌≤◌, ◌<◌, ◌≡◌, ◌≢◌, ◌∙◌, refl, sym, ap, ap₂, subst, Bool, true, false, List, [], ◌∷◌,
  Option, some, ◌==◌, if◌then◌else◌, length, arith,
}
use tor_os.Mm.{u64}
use tor_os.Block.{
  Blocks, Entry, cache_sector, cache_each, no_sector, block_cache_size, read_each, block_read,
  block_write,
}
use tor_os.Block.Valid.{CacheIsValid, cache_sector-CacheIsValid, stored}
use tor_os.Block.Found.{cached-cache_sector}
use tor_os.Block.Io.{DriverWorks, sectors, written, read_each-hit, block_read_lem}

cache_each-CacheIsValid :
    (content : ℕ → List ℕ) (s : ℕ) (vs : List (List ℕ)) (now : ℕ) (cache : List Entry)
    → s + length vs ≤ no_sector
    → CacheIsValid content cache
    → CacheIsValid (written content s vs) (cache_each s vs now cache)
unfolding cache_each
cache_each-CacheIsValid content s [] now cache h v = v
cache_each-CacheIsValid content s (x ∷ vs) now cache h v =
    let next : u64 (s + 1) ≡ s + 1 = omega arith in
    let one = cache_sector-CacheIsValid content s x now cache (omega arith) v in
    rw (next, cache_each)
      (cache_each-CacheIsValid (stored content s x) (s + 1) vs now (cache_sector s x now cache)
        (omega arith) one)

written_before :
    (content : ℕ → List ℕ) (lba : ℕ) (vs : List (List ℕ)) (t : ℕ)
    → t < lba
    → written content lba vs t ≡ content t
written_before content lba [] t h = refl
written_before content lba (v ∷ vs) t h =
    let other : (t == lba) ≡ false = ground arith in
    written_before (stored content lba v) (lba + 1) vs t (omega arith)
    ∙ ap (λ b. if b then v else content t) other

sectors-written :
    (content : ℕ → List ℕ) (lba : ℕ) (vs : List (List ℕ))
    → sectors (written content lba vs) lba (length vs) ≡ vs
sectors-written content lba [] = refl
sectors-written content lba (v ∷ vs) =
    let same : (lba == lba) ≡ true = ground arith in
    let first =
      written_before (stored content lba v) (lba + 1) vs lba (omega arith)
      ∙ ap (λ b. if b then v else content lba) same in
    ap₂ (λ x xs. x ∷ xs) first (sectors-written (stored content lba v) (lba + 1) vs)

module _ {W : Type 0} (read_sector : ℕ → ℕ → W → Option (List ℕ) × W)
    (write_sectors : ℕ → ℕ → List (List ℕ) → W → Bool × W) (content : W → ℕ → ℕ → List ℕ)
    (extent : ℕ → ℕ) (jiffies : W → ℕ)
    (works : DriverWorks read_sector write_sectors content extent) where
  -- A write that the driver carries out stores the buffer on the device, and the cache agrees with
  -- the device again.
  pub block_write_lem :
      (dev lba : ℕ) (buffer : List (List ℕ)) (b : Blocks) (w : W)
      → (b.devices dev).can_write ≡ true
      → CacheIsValid (content w dev) b.block_cache
      → lba + length buffer ≤ no_sector
      → (write_sectors dev lba buffer w).0 ≡ true
      → let r = block_write write_sectors jiffies (some dev) lba buffer b w in
        (r.0 ≡ true)
        × CacheIsValid (content r.2 dev) r.1.block_cache
        × (content r.2 dev ≡ written (content w dev) lba buffer)
        × (r.1.devices ≡ b.devices)
  unfolding block_write
  block_write_lem dev lba buffer b w can v h ok =
      let same = works.writes dev lba buffer w ok in
      let c = cache_each-CacheIsValid (content w dev) lba buffer (jiffies w) b.block_cache h v in
      rw (can, block_write)
        (
          ok,
          subst (λ f. CacheIsValid f (cache_each lba buffer (jiffies w) b.block_cache)) (sym same)
              c,
          same,
          refl,
        )

  -- What a driver that works has written through the cache to a device is what a read of the same
  -- sectors then returns, where the cache agreed with that device before the write.
  pub block_read-block_write :
      (dev lba : ℕ) (buffer : List (List ℕ)) (b : Blocks) (w : W)
      → (b.devices dev).can_read ≡ true
      → (b.devices dev).can_write ≡ true
      → CacheIsValid (content w dev) b.block_cache
      → lba + length buffer ≤ extent dev
      → extent dev ≤ no_sector
      → (write_sectors dev lba buffer w).0 ≡ true
      → let r = block_write write_sectors jiffies (some dev) lba buffer b w in
        (block_read read_sector jiffies (some dev) lba (length buffer) r.1 r.2).0 ≡ some buffer
  block_read-block_write dev lba buffer b w can_read can_write v h k ok =
      let r = block_write write_sectors jiffies (some dev) lba buffer b w in
      let done = block_write_lem dev lba buffer b w can_write v (omega arith) ok in
      let still = ap (λ d. (d dev).can_read) done.3 ∙ can_read in
      let got =
        block_read_lem read_sector write_sectors content extent jiffies works dev lba
          (length buffer) r.1 r.2 still done.1 h k in
      got.0
      ∙ ap (λ f. some (sectors f lba (length buffer))) done.2
      ∙ ap some (sectors-written (content w dev) lba buffer)

  -- The cache does not tell devices apart: after a write to a sector of one device, a read of the
  -- sector of the same number of another device returns what was written to the first, though the
  -- other device still holds what it held.
  pub block_read_mixes_devices :
      (dev other s : ℕ) (v : List ℕ) (b : Blocks) (w : W)
      → other ≢ dev
      → (b.devices dev).can_write ≡ true
      → (b.devices other).can_read ≡ true
      → length b.block_cache ≡ block_cache_size
      → let r = block_write write_sectors jiffies (some dev) s (v ∷ []) b w in
        ((block_read read_sector jiffies (some other) s 1 r.1 r.2).0 ≡ some (v ∷ []))
        × (content r.2 other ≡ content w other)
  unfolding block_write cache_each block_read read_each
  block_read_mixes_devices dev other s v b w apart can_write can_read size =
      let found = cached-cache_sector s v (jiffies w) b.block_cache size in
      let w1 = (write_sectors dev s (v ∷ []) w).1 in
      let cache = cache_sector s v (jiffies w) b.block_cache in
      let hit = read_each-hit read_sector jiffies other 0 s cache w1 v found in
      rw (can_write, block_write)
        (
          rw (can_read, block_read) (ap (λ t. t.0) hit),
          works.elsewhere dev s (v ∷ []) w other apart,
        )

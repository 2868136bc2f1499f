-- ===== src/Tests/Blocks.antt =====
-- The cache of kernel/fs_advanced.c over two devices of 1000 sectors in memory.
use tor_os.Prelude.{
  ℕ, ◌≡◌, ◌≢◌, refl, ap, Bool, true, false, List, [], ◌∷◌, Option, some, ◌==◌, if◌then◌else◌,
  replicate, arith,
}
use tor_os.Block.{Blocks, blank_entry, block_cache_init, block_read, block_write}
use tor_os.Block.Valid.{CacheIsValid, block_cache_init-CacheIsValid}
use tor_os.Block.Io.{DriverWorks, written}
use tor_os.Block.Write.{block_read-block_write, block_read_mixes_devices}

-- The world is what the devices hold.
abbrev Disks : Type 0
Disks = ℕ → ℕ → List ℕ

abbrev read_disk : ℕ → ℕ → Disks → Option (List ℕ) × Disks
read_disk dev s w = (some (w dev s), w)

abbrev write_disk : ℕ → ℕ → List (List ℕ) → Disks → Bool × Disks
write_disk dev lba vs w = (true, λ d. if d == dev then written (w dev) lba vs else w d)

abbrev contents : Disks → ℕ → ℕ → List ℕ
contents w = w

abbrev clock : Disks → ℕ
clock w = 7

disks-DriverWorks : DriverWorks read_disk write_disk contents (λ d. 1000)
disks-DriverWorks = record {
  reads = λ dev s w h. refl;
  keeps = λ dev s w. refl;
  writes = λ dev lba vs w ok. here dev lba vs w;
  elsewhere = λ dev lba vs w other apart. there dev lba vs w other apart;
}
  where
    here :
        (dev lba : ℕ) (vs : List (List ℕ)) (w : Disks)
        → (write_disk dev lba vs w).1 dev ≡ written (w dev) lba vs
    here dev lba vs w =
        let same : (dev == dev) ≡ true = ground arith in
        ap (λ b. if b then written (w dev) lba vs else w dev) same

    there :
        (dev lba : ℕ) (vs : List (List ℕ)) (w : Disks) (other : ℕ)
        → other ≢ dev
        → (write_disk dev lba vs w).1 other ≡ w other
    there dev lba vs w other apart =
        let differ : (other == dev) ≡ false = ground arith in
        ap (λ b. if b then written (w dev) lba vs else w other) differ

-- Any device reads and writes; the cache is empty.
abbrev blocks : Blocks
blocks = record {
  block_devices = [];
  num_block_devs = 0;
  devices = λ p. record {
    id = 0;
    name = [];
    total_sectors = 1000;
    sector_bytes = 512;
    can_read = true;
    can_write = true;
  };
  block_cache = block_cache_init (replicate 64 blank_entry);
  mem = record {
    page_bitmap = [];
    total_pages = 0;
    free_page_count = 0;
    bitmap_pages = 0;
    heap_start = 0;
    heap_end = 0;
    heap_ptr = 0;
  };
}

abbrev zeros : Disks
zeros dev s = 0 ∷ []

blocks-CacheIsValid : CacheIsValid (zeros 1) blocks.block_cache
blocks-CacheIsValid = block_cache_init-CacheIsValid (zeros 1) (replicate 64 blank_entry) refl

abbrev two_sectors : List (List ℕ)
two_sectors = (1 ∷ []) ∷ (2 ∷ []) ∷ []

block_read-block_write_example :
    (block_read read_disk clock
      (some 1)
      5
      2
      (block_write write_disk clock (some 1) 5 two_sectors blocks zeros).1
      (block_write write_disk clock (some 1) 5 two_sectors blocks zeros).2).0
    ≡ some two_sectors
block_read-block_write_example =
    block_read-block_write read_disk write_disk contents (λ d. 1000) clock disks-DriverWorks 1 5
      two_sectors blocks zeros refl refl blocks-CacheIsValid (omega arith) (omega arith) refl

block_read_mixes_devices_example :
    ((block_read read_disk clock
        (some 2)
        5
        1
        (block_write write_disk clock (some 1) 5 ((9 ∷ []) ∷ []) blocks zeros).1
        (block_write write_disk clock (some 1) 5 ((9 ∷ []) ∷ []) blocks zeros).2).0
      ≡ some ((9 ∷ []) ∷ []))
    × ((block_write write_disk clock (some 1) 5 ((9 ∷ []) ∷ []) blocks zeros).2 2 ≡ zeros 2)
unfolding block_cache_init
block_read_mixes_devices_example =
    block_read_mixes_devices read_disk write_disk contents (λ d. 1000) clock disks-DriverWorks 1 2 5
      (9 ∷ []) blocks zeros (omega arith) refl refl refl

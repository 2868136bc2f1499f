-- ===== src/Block.antt =====
-- kernel/fs_advanced.c: the block devices and the cache of sectors in front of them.
-- A driver's functions are parameters: `read_sector` reads one sector of the device at an address
-- (the code only asks for one), `write_sectors` writes a run of them and tells whether it succeeded,
-- and `jiffies` is the clock, which stands still within a loop; all three work on the world `W`. A buffer is the list of its sectors,
-- and its size in bytes fits a `uint32`;
-- what a failed read leaves in it is not modelled. Printing is left out.
pub mod Valid
pub mod Found
pub mod Io
pub mod Write
use tor_os.Prelude.{
  ℕ, zero, suc, ◌+◌, ◌-◌, ◌%◌, ◌^◌, Bool, true, false, not, ◌&&◌, ◌||◌, List, [], ◌∷◌, Option, none,
  some, ◌==◌, ltb, leb, if◌then◌else◌, get_or, set, replicate, length,
}
use tor_os.Prelude.Int.{ℤ, pos, negsuc}
use tor_os.Libc.{strcmp, strncpy}
use tor_os.Mm.{Mem, kmalloc, u64}

abbrev pub max_block_devs : ℕ
max_block_devs = 4

abbrev pub sector_size : ℕ
sector_size = 512

abbrev pub block_cache_size : ℕ
block_cache_size = 64

-- 0xFFFFFFFFFFFFFFFF, the sector of an entry that is not in use.
abbrev pub no_sector : ℕ
no_sector = 2 ^ 64 - 1

-- `block_cache_entry_t`
pub record Entry : Type 0 where
  pub sector : ℕ
  pub sector_data : List ℕ
  pub dirty : ℕ
  pub last_used : ℕ

abbrev pub blank_entry : Entry
blank_entry = record { sector = 0; sector_data = []; dirty = 0; last_used = 0 }

-- `block_device_t`, without its link and the fields that nothing uses. Of the two function pointers
-- it holds whether they are set.
pub record Device : Type 0 where
  pub id : ℕ
  pub name : List ℕ
  pub total_sectors : ℕ
  pub sector_bytes : ℕ
  pub can_read : Bool
  pub can_write : Bool

-- The static variables: `block_devices` as the addresses along the list, with what lies there.
pub record Blocks : Type 0 where
  pub block_devices : List ℕ
  pub num_block_devs : ℕ
  pub devices : ℕ → Device
  pub block_cache : List Entry
  pub mem : Mem

unfoldable pub block_cache_init : List Entry → List Entry
block_cache_init [] = []
block_cache_init (e ∷ rest) =
    record e { sector = no_sector; dirty = 0; last_used = 0 } ∷ block_cache_init rest

unfoldable pub block_init : Blocks → Blocks
unfolding block_cache_init
block_init b = record b {
  block_devices = [];
  num_block_devs = 0;
  block_cache = block_cache_init b.block_cache;
}

-- `sizeof(block_device_t)`
abbrev pub device_size : ℕ
device_size = 80

unfoldable pub block_register : List ℕ → ℕ → Bool → Bool → Blocks → Option ℕ × Blocks
block_register name sectors can_read can_write b =
    if leb max_block_devs b.num_block_devs
    then (none, b)
    else let a = kmalloc device_size b.mem in
      elim a.0 [
        | none ↦ (none, record b { mem = a.1 })
        | some p ↦
            let dev : Device = record {
              id = b.num_block_devs;
              name = strncpy (replicate 16 0) name 15;
              total_sectors = sectors;
              sector_bytes = sector_size;
              can_read = can_read;
              can_write = can_write;
            } in
            (
              some p,
              record b {
                num_block_devs = b.num_block_devs + 1;
                devices = λ q. if q == p then dev else b.devices q;
                block_devices = p ∷ b.block_devices;
                mem = a.1;
              },
            )
      ]

abbrev is_zero : ℤ → Bool
is_zero (pos n) = n == 0
is_zero (negsuc n) = false

unfoldable pub find_name : List ℕ → (ℕ → Device) → List ℕ → Option ℕ
find_name name devices [] = none
find_name name devices (p ∷ rest) =
    let later = find_name name devices rest in
    if is_zero (strcmp (devices p).name name) then some p else later

unfoldable pub block_find : List ℕ → Blocks → Option ℕ
unfolding find_name
block_find name b = find_name name b.devices b.block_devices

-- The loop over the cache: the data of the first entry of the sector.
unfoldable pub cached : ℕ → List Entry → Option (List ℕ)
cached s [] = none
cached s (e ∷ rest) =
    let later = cached s rest in if e.sector == s then some e.sector_data else later

-- What the loop does to the first entry of the sector.
unfoldable pub change_first : ℕ → (Entry → Entry) → List Entry → List Entry
change_first s f [] = []
change_first s f (e ∷ rest) =
    let later = change_first s f rest in if e.sector == s then f e ∷ rest else e ∷ later

-- "Find LRU entry": `n` rounds from entry `c`.
unfoldable pub lru_from : ℕ → ℕ → ℕ → List Entry → ℕ
lru_from zero c lru cache = lru
lru_from (suc n) c lru cache =
    let next : ℕ =
      if ltb (get_or cache c blank_entry).last_used (get_or cache lru blank_entry).last_used
      then c
      else lru in
    lru_from n (c + 1) next cache

-- One round of the loop of `block_write`.
unfoldable pub cache_sector : ℕ → List ℕ → ℕ → List Entry → List Entry
unfolding cached change_first lru_from
cache_sector s v now cache = elim (cached s cache) [
  | some d ↦ change_first s (λ e. record e { sector_data = v; dirty = 1; last_used = now }) cache
  | none ↦
      set cache (lru_from (block_cache_size - 1) 1 0 cache)
        (record { sector = s; sector_data = v; dirty = 1; last_used = now })
]

unfoldable pub cache_each : ℕ → List (List ℕ) → ℕ → List Entry → List Entry
unfolding cache_sector
cache_each s [] now cache = cache
cache_each s (v ∷ vs) now cache = cache_each (u64 (s + 1)) vs now (cache_sector s v now cache)

-- A sector in front of those read after it, if they were.
abbrev pub in_front : List ℕ → Option (List (List ℕ)) → Option (List (List ℕ))
in_front v none = none
in_front v (some vs) = some (v ∷ vs)

module _ {W : Type 0} (read_sector : ℕ → ℕ → W → Option (List ℕ) × W) (jiffies : W → ℕ) where
  -- The loop of `block_read`: `n` rounds from sector `s`.
  unfoldable pub read_each : ℕ → ℕ → ℕ → List Entry → W → Option (List (List ℕ)) × List Entry × W
  unfolding cached change_first
  read_each dev zero s cache w = (some [], cache, w)
  read_each dev (suc n) s cache w = elim (cached s cache) [
    | some d ↦
        let touched = change_first s (λ e. record e { last_used = jiffies w }) cache in
        let r = read_each dev n (u64 (s + 1)) touched w in (in_front d r.0, r.1, r.2)
    | none ↦
        let q = read_sector dev s w in
        elim q.0 [
          | none ↦ (none, cache, q.1)
          | some d ↦ let r = read_each dev n (u64 (s + 1)) cache q.1 in (in_front d r.0, r.1, r.2)
        ]
  ]

  -- `none` is a NULL device, and the result `none` is -1.
  unfoldable pub block_read : Option ℕ → ℕ → ℕ → Blocks → W → Option (List (List ℕ)) × Blocks × W
  unfolding read_each
  block_read none lba count b w = (none, b, w)
  block_read (some dev) lba count b w =
      if not (b.devices dev).can_read
      then (none, b, w)
      else let r = read_each dev count lba b.block_cache w in
        (r.0, record b { block_cache = r.1 }, r.2)

module _ {W : Type 0} (write_sectors : ℕ → ℕ → List (List ℕ) → W → Bool × W) (jiffies : W → ℕ) where
  -- The result is whether the driver's write succeeded; false is -1.
  unfoldable pub block_write : Option ℕ → ℕ → List (List ℕ) → Blocks → W → Bool × Blocks × W
  unfolding cache_each
  block_write none lba buffer b w = (false, b, w)
  block_write (some dev) lba buffer b w =
      if not (b.devices dev).can_write
      then (false, b, w)
      else let r = write_sectors dev lba buffer w in
        (r.0, record b { block_cache = cache_each lba buffer (jiffies w) b.block_cache }, r.1)

-- ===== src/Vfs.antt =====
-- kernel/fs_advanced.c: the descriptor table of the VFS and the reference count of its root.
-- A vnode is known by its address; the vnodes' contents are a function of it. A mount is its mount
-- point, all that `vfs_lookup` reads of it. `fd` is the C `int`. Printing is left out.
pub mod Refs
use tor_os.Prelude.{
  ℕ, zero, suc, ◌+◌, ◌-◌, ◌%◌, ◌^◌, Bool, true, false, not, ◌||◌, List, [], ◌∷◌, Option, none, some,
  ◌==◌, leb, if◌then◌else◌, get_or, set, replicate,
}
use tor_os.Prelude.Int.{ℤ, pos, negsuc}
use tor_os.Search.{first}
use tor_os.Mm.{Mem, kmalloc}
use tor_os.Libc.{strcmp, strncmp, strlen, is_zero}

abbrev pub vfs_max_open : ℕ
vfs_max_open = 64

-- `vnode_t`: what the operations read or write of it.
pub record Vnode : Type 0 where
  pub type : ℕ
  pub mode : ℕ
  pub size : ℕ
  pub ref_count : ℕ

-- `file_descriptor_t`
pub record Descriptor : Type 0 where
  pub used : ℕ
  pub vnode : Option ℕ
  pub position : ℕ
  pub flags : ℕ
  pub mode : ℤ

abbrev pub zero_descriptor : Descriptor
zero_descriptor = record { used = 0; vnode = none; position = 0; flags = 0; mode = pos 0 }

pub record Vfs : Type 0 where
  pub mounts : List (List ℕ)
  pub fd_table : List Descriptor
  pub root_vnode : Option ℕ
  pub nodes : ℕ → Vnode

-- `VNODE_DIR`
abbrev vnode_dir : ℕ
vnode_dir = 2

-- `sizeof(vnode_t)`
abbrev pub vnode_size : ℕ
vnode_size = 104

abbrev put_node : ℕ → Vnode → Vfs → Vfs
put_node p n s = record s { nodes = λ q. if q == p then n else s.nodes q }

-- What `vfs_init` writes to the root, when it has memory for it.
abbrev with_root : Option ℕ → Vfs → Vfs
with_root none s = s
with_root (some p) s =
    put_node p (record { type = vnode_dir; mode = 493; size = 0; ref_count = 1 }) s

unfoldable pub vfs_init : Vfs → Mem → Vfs × Mem
vfs_init s m =
    let r = kmalloc vnode_size m in
    (
      with_root r.0 (record s {
        fd_table = replicate vfs_max_open zero_descriptor;
        mounts = [];
        root_vnode = r.0;
      }),
      r.1,
    )

-- The loop over the mounts of `vfs_lookup`: both its ends return the root.
unfoldable pub lookup_mounts : List ℕ → List (List ℕ) → Option ℕ → Option ℕ
lookup_mounts path [] root = root
lookup_mounts path (m ∷ rest) root =
    let later = lookup_mounts path rest root in
    if is_zero (strncmp path m (strlen m)) then root else later

unfoldable pub vfs_lookup : Option (List ℕ) → Vfs → Option ℕ
unfolding lookup_mounts
vfs_lookup none s = none
vfs_lookup (some path) s = elim s.root_vnode [
  | none ↦ none
  | some r ↦
      if not (get_or path 0 0 == 47)
      then none
      else if is_zero (strcmp path (47 ∷ []))
      then some r
      else lookup_mounts path s.mounts (some r)
]

abbrev pub descriptor_at : Vfs → ℕ → Descriptor
descriptor_at s i = get_or s.fd_table i zero_descriptor

abbrev pub is_free : Vfs → ℕ → Bool
is_free s i = (descriptor_at s i).used == 0

-- The reference count, a `uint32`, is changed by `delta`.
abbrev count_by : ℕ → ℕ → Vfs → Vfs
count_by delta p s =
    put_node p (record (s.nodes p) { ref_count = ((s.nodes p).ref_count + delta) % 2 ^ 32 }) s

abbrev pub new_descriptor : ℕ → ℕ → ℤ → Descriptor
new_descriptor p flags mode = record {
  used = 1;
  vnode = some p;
  position = 0;
  flags = flags;
  mode = mode;
}

-- The descriptor `i` made one of the vnode `p`.
abbrev pub opened : ℕ → ℕ → ℕ → ℤ → Vfs → Vfs
opened i p flags mode s =
    count_by 1 p (record s { fd_table = set s.fd_table i (new_descriptor p flags mode) })

unfoldable pub vfs_open : Option (List ℕ) → ℕ → ℤ → Vfs → ℤ × Vfs
unfolding first vfs_lookup
vfs_open path flags mode s = elim (first (is_free s) vfs_max_open 0) [
  | none ↦ (negsuc 0, s)
  | some i ↦ elim (vfs_lookup path s) [
    | none ↦ (negsuc 0, s)
    | some p ↦ (pos i, opened i p flags mode s)
  ]
]

-- `if (vnode) vnode->ref_count--`
abbrev released : Option ℕ → Vfs → Vfs
released none s = s
released (some p) s = count_by (2 ^ 32 - 1) p s

-- The descriptor `fd` given up.
abbrev pub closed : ℕ → Vfs → Vfs
closed fd s = released (descriptor_at s fd).vnode (record s {
  fd_table = set s.fd_table fd (record (descriptor_at s fd) { used = 0; vnode = none });
})

unfoldable pub vfs_close : ℤ → Vfs → ℤ × Vfs
vfs_close (negsuc n) s = (negsuc 0, s)
vfs_close (pos fd) s =
    if leb vfs_max_open fd || is_free s fd then (negsuc 0, s) else (pos 0, closed fd s)

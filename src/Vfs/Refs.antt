-- ===== src/Vfs/Refs.antt =====
-- The root's reference count, against the descriptors in use.
use tor_os.Prelude.{
  ℕ, zero, suc, ◌+◌, ◌≤◌, ◌<◌, ◌≡◌, refl, ◌∙◌, true, false, ◌||◌, List, [], ◌∷◌, Option, none, some,
  ◌==◌, leb, if◌then◌else◌, get_or, set, length, length-set, get_or-set_if, arith, Bool-cases,
  Option-cases, inl, inr, get_or-replicate,
}
use tor_os.Prelude.Int.{ℤ, pos, negsuc}
use tor_os.Search.{first, first-IsFirst}
use tor_os.Mm.{Mem, kmalloc}
use tor_os.Vfs.{
  Vfs, Descriptor, zero_descriptor, vfs_max_open, vfs_init, vfs_lookup, lookup_mounts, vfs_open,
  vfs_close, is_free, vnode_size, descriptor_at, opened, closed, new_descriptor,
}

-- How many descriptors are in use.
abbrev pub in_use : List Descriptor → ℕ
in_use [] = 0
in_use (d ∷ rest) = (if d.used == 0 then 0 else 1) + in_use rest

in_use-set :
    (t : List Descriptor) (i : ℕ) (d : Descriptor)
    → i < length t
    → in_use (set t i d) + (if (get_or t i zero_descriptor).used == 0 then 0 else 1)
      ≡ in_use t + (if d.used == 0 then 0 else 1)
in_use-set [] i d h = absurd (omega arith)
in_use-set (e ∷ rest) zero d h = omega arith
in_use-set (e ∷ rest) (suc i) d h = omega (arith, in_use-set rest i d (omega arith))

in_use-le : (t : List Descriptor) → in_use t ≤ length t
in_use-le [] = omega arith
in_use-le (d ∷ rest) = ground (arith, in_use-le rest)

-- The root is at `r` and counts itself and each descriptor in use, all of which are of the root.
pub record RootIsCounted (r : ℕ) (s : Vfs) : Type 0 where
  pub size : length s.fd_table ≡ vfs_max_open
  pub root : s.root_vnode ≡ some r
  pub counted : (s.nodes r).ref_count ≡ suc (in_use s.fd_table)
  pub of_root : (i : ℕ) → is_free s i ≡ false → (descriptor_at s i).vnode ≡ some r

lookup_mounts_lem :
    (path : List ℕ) (ms : List (List ℕ)) (root : Option ℕ) → lookup_mounts path ms root ≡ root
unfolding lookup_mounts
lookup_mounts_lem path [] root = refl
lookup_mounts_lem path (m ∷ rest) root = ground (arith, lookup_mounts_lem path rest root)

vfs_lookup-root :
    (path : Option (List ℕ)) (s : Vfs) (r p : ℕ)
    → s.root_vnode ≡ some r
    → vfs_lookup path s ≡ some p
    → p ≡ r
unfolding vfs_lookup
vfs_lookup-root none s r p e h = cc
vfs_lookup-root (some path) s r p e h =
    ground (arith, e, h, lookup_mounts_lem path s.mounts (some r))

module _ (r : ℕ) (s : Vfs) (v : RootIsCounted r s) where
  -- Another descriptor in an entry: the count follows.
  replaced :
      (i : ℕ) (d : Descriptor)
      → i < vfs_max_open
      → in_use (set s.fd_table i d) + (if is_free s i then 0 else 1)
        ≡ in_use s.fd_table + (if d.used == 0 then 0 else 1)
  replaced i d h = in_use-set s.fd_table i d (omega (arith, v.size))

  open-RootIsCounted :
      (i flags : ℕ) (mode : ℤ)
      → i < vfs_max_open
      → is_free s i ≡ true
      → RootIsCounted r (opened i r flags mode s)
  open-RootIsCounted i flags mode h f =
      let d = new_descriptor r flags mode in
      record {
        size = length-set s.fd_table i d ∙ v.size;
        root = v.root;
        counted = ground (arith, replaced i d h, v.counted, in_use-le s.fd_table, v.size);
        of_root = λ j u. ground (
          arith,
          v.of_root j,
          get_or-set_if s.fd_table i j d zero_descriptor (omega (arith, v.size)),
        );
      }

  close-RootIsCounted :
      (i : ℕ) → i < vfs_max_open → is_free s i ≡ false → RootIsCounted r (closed i s)
  close-RootIsCounted i h f =
      let d : Descriptor = record (descriptor_at s i) { used = 0; vnode = none } in
      rw (v.of_root i f) (record {
        size = length-set s.fd_table i d ∙ v.size;
        root = v.root;
        counted = ground (arith, replaced i d h, v.counted, in_use-le s.fd_table, v.size);
        of_root = λ j u. ground (
          arith,
          v.of_root j,
          get_or-set_if s.fd_table i j d zero_descriptor (omega (arith, v.size)),
        );
      })

  vfs_open-RootIsCounted :
      (path : Option (List ℕ)) (flags : ℕ) (mode : ℤ)
      → RootIsCounted r (vfs_open path flags mode s).1
  unfolding vfs_open
  vfs_open-RootIsCounted path flags mode = elim (Option-cases (first (is_free s) vfs_max_open 0)) [
    | inl e ↦ rw (e, vfs_open) v
    | inr (i, e) ↦ elim (Option-cases (vfs_lookup path s)) [
      | inl l ↦ rw (e, l, vfs_open) v
      | inr (p, l) ↦
          let f = first-IsFirst (is_free s) vfs_max_open 0 i e in
          rw (e, l, vfs_lookup-root path s r p v.root l, vfs_open)
            (open-RootIsCounted i flags mode (omega (arith, f.below)) f.passes)
    ]
  ]

  vfs_close-RootIsCounted : (fd : ℤ) → RootIsCounted r (vfs_close fd s).1
  unfolding vfs_close
  vfs_close-RootIsCounted (negsuc n) = v
  vfs_close-RootIsCounted (pos fd) = elim (Bool-cases (leb vfs_max_open fd || is_free s fd)) [
    | inl e ↦ rw (e, vfs_close) v
    | inr e ↦ rw (e, vfs_close) (close-RootIsCounted fd (ground arith) (ground arith))
  ]

-- A call on the table.
pub data Call : Type 0 where
  open_call : Option (List ℕ) → ℕ → ℤ → Call
  close_call : ℤ → Call

abbrev pub run : Call → Vfs → Vfs
run (open_call path flags mode) s = (vfs_open path flags mode s).1
run (close_call fd) s = (vfs_close fd s).1

abbrev pub run_all : List Call → Vfs → Vfs
run_all [] s = s
run_all (c ∷ calls) s = run_all calls (run c s)

run-RootIsCounted : (r : ℕ) (c : Call) (s : Vfs) → RootIsCounted r s → RootIsCounted r (run c s)
run-RootIsCounted r (open_call path flags mode) s v = vfs_open-RootIsCounted r s v path flags mode
run-RootIsCounted r (close_call fd) s v = vfs_close-RootIsCounted r s v fd

run_all-RootIsCounted :
    (r : ℕ) (calls : List Call) (s : Vfs) → RootIsCounted r s → RootIsCounted r (run_all calls s)
run_all-RootIsCounted r [] s v = v
run_all-RootIsCounted r (c ∷ calls) s v =
    run_all-RootIsCounted r calls (run c s) (run-RootIsCounted r c s v)

vfs_init-RootIsCounted :
    (r : ℕ) (s : Vfs) (m : Mem)
    → (kmalloc vnode_size m).0 ≡ some r
    → RootIsCounted r (vfs_init s m).0
unfolding vfs_init
vfs_init-RootIsCounted r s m e =
    rw (e, vfs_init)
      (record {
        size = refl;
        root = refl;
        counted = ground arith;
        of_root = λ i u. ground (arith, get_or-replicate 64 i zero_descriptor);
      })

-- After `vfs_init` that had memory for the root, and any calls of `vfs_open` and `vfs_close`, with
-- whatever arguments, the root's reference count is one more than the number of descriptors in use,
-- each of which refers to the root: the count neither reaches 0 nor wraps.
pub run_all-vfs_init :
    (r : ℕ) (calls : List Call) (s : Vfs) (m : Mem)
    → (kmalloc vnode_size m).0 ≡ some r
    → RootIsCounted r (run_all calls (vfs_init s m).0)
run_all-vfs_init r calls s m e =
    run_all-RootIsCounted r calls (vfs_init s m).0 (vfs_init-RootIsCounted r s m e)

-- ===== src/Tests/Descriptors.antt =====
-- The descriptors of kernel/fs_advanced.c at concrete inputs.
use tor_os.Prelude.{refl, List, [], ◌∷◌, none, some}
use tor_os.Prelude.Int.{pos}
use tor_os.Mm.{Mem, kmalloc}
use tor_os.Vfs.{Vfs, vfs_init}
use tor_os.Vfs.Refs.{Call, open_call, close_call, run_all, RootIsCounted, run_all-vfs_init}

abbrev heap : Mem
heap = record {
  page_bitmap = [];
  total_pages = 0;
  free_page_count = 0;
  bitmap_pages = 0;
  heap_start = 4096;
  heap_end = 8192;
  heap_ptr = 4096;
}

-- Before `vfs_init`.
abbrev start : Vfs
start = record {
  mounts = [];
  fd_table = [];
  root_vnode = none;
  nodes = λ p. record { type = 0; mode = 0; size = 0; ref_count = 0 };
}

-- Two are opened, one of them closed twice, and a third path is not absolute.
abbrev calls : List Call
calls =
    open_call (some (47 ∷ [])) 0 (pos 0)
    ∷ open_call (some (47 ∷ 97 ∷ [])) 0 (pos 0)
    ∷ close_call (pos 0)
    ∷ close_call (pos 0)
    ∷ open_call (some (97 ∷ [])) 0 (pos 0)
    ∷ []

run_all-vfs_init_example : RootIsCounted 4096 (run_all calls (vfs_init start heap).0)
unfolding kmalloc
run_all-vfs_init_example = run_all-vfs_init 4096 calls start heap refl

-- ===== src/Tests/Buffers.antt =====
-- kernel/dmabuf.c at concrete inputs.
use tor_os.Prelude.{◌+◌, ◌≡◌, ◌⊎◌, refl, [], ◌∷◌, none, some, arith}
use tor_os.Mm.{page_address}
use tor_os.DmaBuf.{Bufs, dmabuf_get, dmabuf_unref}
use tor_os.DmaBuf.Refs.{ListIsValid}
use tor_os.DmaBuf.Unref.{page_given_back, dmabuf_unref_lem}
use tor_os.Tests.Memory.{end_of_kernel, small_mem}

-- One handle, at address 100, on page 2.
abbrev one_handle : Bufs
one_handle = record {
  dmabuf_list = 100 ∷ [];
  next_dmabuf_id = 2;
  initialized = 1;
  handles = λ p. record {
    id = 1;
    resource_id = 0;
    size = 64;
    vaddr = page_address end_of_kernel small_mem 2;
    paddr = page_address end_of_kernel small_mem 2;
    ref_count = 1;
  };
  ram = λ a. 9;
  mem = small_mem;
}

one_handle-ListIsValid : ListIsValid one_handle
one_handle-ListIsValid = record {
  once = λ p. ground arith;
  ids = λ p q hp hq e. ground arith;
  live = λ p h. (omega arith, omega arith);
}

dmabuf_unref_lem_example :
    let b = one_handle in
    let b' = dmabuf_unref end_of_kernel (some 100) b in
    ListIsValid b'
    × ((((b.handles 100).ref_count ≡ 1)
          × (dmabuf_get (b.handles 100).id b' ≡ none)
          × (b'.mem ≡ page_given_back end_of_kernel 100 b))
        ⊎ (((b'.handles 100).ref_count + 1 ≡ (b.handles 100).ref_count)
            × (dmabuf_get (b.handles 100).id b' ≡ some 100)
            × (b'.dmabuf_list ≡ b.dmabuf_list)
            × (b'.mem ≡ b.mem)))
dmabuf_unref_lem_example =
    dmabuf_unref_lem end_of_kernel 100 one_handle refl one_handle-ListIsValid (omega arith)

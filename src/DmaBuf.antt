-- ===== src/DmaBuf.antt =====
-- kernel/dmabuf.c: DMA buffers, reference-counted handles in a linked list.
-- A handle is kept by its address in `handles`, and the list by the addresses along it; `ram` is
-- the memory that the pages lie in. Each operation is one step under `dmabuf_lock`.
pub mod Refs
pub mod Unref
pub mod Pages
use tor_os.Prelude.{
  ℕ, zero, suc, ◌+◌, ◌-◌, ◌*◌, ◌/◌, ◌%◌, ◌^◌, Bool, true, false, not, ◌&&◌, ◌||◌, List, [], ◌∷◌,
  Option, none, some, ◌==◌, ltb, leb, if◌then◌else◌,
}
use tor_os.Prelude.Int.{ℤ, pos, negsuc}
use tor_os.Mm.{Mem, page_size, page_alloc, page_free, kmalloc, kfree}

abbrev pub u32 : ℕ → ℕ
u32 x = x % 2 ^ 32

-- `sizeof(dmabuf_handle_t)` and `sizeof(gpu_resource_t)`
abbrev pub handle_size : ℕ
handle_size = 48

abbrev pub resource_size : ℕ
resource_size = 56

-- `dmabuf_handle_t`, without its link; an address 0 is NULL.
pub record Handle : Type 0 where
  pub id : ℕ
  pub resource_id : ℕ
  pub size : ℕ
  pub vaddr : ℕ
  pub paddr : ℕ
  pub ref_count : ℕ

-- `gpu_resource_t`, without its link.
pub record Resource : Type 0 where
  pub id : ℕ
  pub format : ℕ
  pub width : ℕ
  pub height : ℕ
  pub stride : ℕ
  pub size : ℕ
  pub backing : ℕ
  pub paddr : ℕ
  pub attached : ℕ

pub record Bufs : Type 0 where
  pub dmabuf_list : List ℕ
  pub next_dmabuf_id : ℕ
  pub initialized : ℕ
  pub handles : ℕ → Handle
  pub ram : ℕ → ℕ
  pub mem : Mem

unfoldable pub dmabuf_init : Bufs → Bufs
dmabuf_init b = record b { dmabuf_list = []; next_dmabuf_id = 1; initialized = 1 }

-- `*p = v`
abbrev pub store {ℓ} : {A : Type ℓ} → (ℕ → A) → ℕ → A → ℕ → A
store f p v q = if p == q then v else f q

-- `memset(p, 0, n)`
abbrev pub zero_fill : (ℕ → ℕ) → ℕ → ℕ → ℕ → ℕ
zero_fill ram p n a = if leb p a && ltb a (p + n) then 0 else ram a

-- `memcpy(p, q, n)`
abbrev pub copy : (ℕ → ℕ) → ℕ → ℕ → ℕ → ℕ → ℕ
copy ram p q n a = if leb p a && ltb a (p + n) then ram (q + (a - p)) else ram a

-- The bytes that `dmabuf_create` clears: `num_pages * PAGE_SIZE`.
abbrev pub cleared : ℕ → ℕ
cleared size = u32 (u32 (size + (page_size - 1)) / page_size * page_size)

-- The handle is at `p`, its page at `q`.
abbrev pub fill_handle : ℕ → ℕ → ℕ → Bufs → Bufs
fill_handle size p q b = record b {
  ram = zero_fill b.ram q (cleared size);
  next_dmabuf_id = u32 (b.next_dmabuf_id + 1);
  handles = store b.handles p (record {
    id = b.next_dmabuf_id;
    resource_id = 0;
    size = size;
    vaddr = q;
    paddr = q;
    ref_count = 1;
  });
  dmabuf_list = p ∷ b.dmabuf_list;
}

unfoldable pub dmabuf_create : ℕ → ℕ → Bufs → Option ℕ × Bufs
dmabuf_create kernel_end size b =
    if b.initialized == 0 || size == 0
    then (none, b)
    else let r = kmalloc handle_size b.mem in
      elim r.0 [
        | none ↦ (none, record b { mem = r.1 })
        | some p ↦
            let s = page_alloc kernel_end r.1 in
            elim s.0 [
              | none ↦ (none, record b { mem = kfree (some p) s.1 })
              | some q ↦ (some p, fill_handle size p q (record b { mem = s.1 }))
            ]
      ]

-- The loop that unlinks the handle at `p`.
unfoldable pub unlink : ℕ → List ℕ → List ℕ
unlink p [] = []
unlink p (q ∷ ps) = let rest = unlink p ps in if q == p then ps else q ∷ rest

unfoldable pub dmabuf_free : ℕ → Option ℕ → Bufs → Bufs
unfolding unlink page_free
dmabuf_free kernel_end none b = b
dmabuf_free kernel_end (some p) b =
    if b.initialized == 0
    then b
    else let h = b.handles p in
      record b {
        dmabuf_list = unlink p b.dmabuf_list;
        mem = kfree (some p) (if h.vaddr == 0 then b.mem else page_free kernel_end h.vaddr b.mem);
      }

-- The loop of `dmabuf_get`.
unfoldable pub find_id : ℕ → (ℕ → Handle) → List ℕ → Option ℕ
find_id id hs [] = none
find_id id hs (p ∷ ps) = let rest = find_id id hs ps in if (hs p).id == id then some p else rest

unfoldable pub dmabuf_get : ℕ → Bufs → Option ℕ
unfolding find_id
dmabuf_get id b = if b.initialized == 0 then none else find_id id b.handles b.dmabuf_list

-- `dmabuf->ref_count = n`
abbrev pub set_refs : ℕ → ℕ → Bufs → Bufs
set_refs p n b = record b { handles = store b.handles p (record (b.handles p) { ref_count = n }) }

unfoldable pub dmabuf_ref : Option ℕ → Bufs → Bufs
dmabuf_ref none b = b
dmabuf_ref (some p) b =
    if b.initialized == 0 then b else set_refs p (u32 ((b.handles p).ref_count + 1)) b

unfoldable pub dmabuf_unref : ℕ → Option ℕ → Bufs → Bufs
unfolding dmabuf_free
dmabuf_unref kernel_end none b = b
dmabuf_unref kernel_end (some p) b =
    if b.initialized == 0
    then b
    else let n : ℕ = u32 ((b.handles p).ref_count + 2 ^ 32 - 1) in
      if n == 0 then dmabuf_free kernel_end (some p) (set_refs p n b) else set_refs p n b

-- "dmabuf->resource_id = res->id", and the copy of the resource's bytes if it has any.
abbrev pub fill_export : Resource → ℕ → Bufs → Bufs
fill_export res p b =
    let h = b.handles p in
    record b {
      handles = store b.handles p (record h { resource_id = res.id });
      ram = if res.backing == 0 then b.ram else copy b.ram h.vaddr res.backing res.size;
    }

-- The handle's address in place of `*out`.
unfoldable pub dmabuf_export : ℕ → Option Resource → Bufs → (ℤ × Option ℕ) × Bufs
unfolding dmabuf_create
dmabuf_export kernel_end none b = ((negsuc 0, none), b)
dmabuf_export kernel_end (some res) b =
    if b.initialized == 0
    then ((negsuc 0, none), b)
    else let r = dmabuf_create kernel_end res.size b in
      elim r.0 [
        | none ↦ ((negsuc 0, none), r.1)
        | some p ↦ ((pos 0, some p), fill_export res p r.1)
      ]

-- The resource in place of `*out`.
unfoldable pub dmabuf_import : ℕ → Bufs → (ℤ × Option Resource) × Bufs
unfolding dmabuf_get kmalloc
dmabuf_import id b = if b.initialized == 0 then ((negsuc 0, none), b) else elim (dmabuf_get id b) [
  | none ↦ ((negsuc 0, none), b)
  | some p ↦
      let h = b.handles p in
      let r = kmalloc resource_size b.mem in
      elim r.0 [
        | none ↦ ((negsuc 0, none), record b { mem = r.1 })
        | some q ↦ (
          (
            pos 0,
            some (record {
              id = h.resource_id;
              width = 1024;
              height = 768;
              format = 3;
              stride = 1024 * 4;
              size = u32 h.size;
              backing = h.vaddr;
              paddr = 0;
              attached = 1;
            }),
          ),
          record b { mem = r.1 },
        )
      ]
]

-- `none` is a NULL argument.
unfoldable pub dmabuf_attach_resource :
    Option ℕ → Option Resource → Bufs → ℤ × (Option Resource × Bufs)
dmabuf_attach_resource (some p) (some res) b =
    let h = b.handles p in
    (
      pos 0,
      (
        some (record res { backing = h.vaddr; paddr = h.paddr }),
        record b { handles = store b.handles p (record h { resource_id = res.id }) },
      ),
    )
dmabuf_attach_resource _ res b = (negsuc 0, (res, b))

unfoldable pub dmabuf_detach_resource : Option ℕ → Option Resource → Bufs → Option Resource × Bufs
dmabuf_detach_resource (some p) (some res) b = (
  some (record res { backing = 0; paddr = 0 }),
  record b { handles = store b.handles p (record (b.handles p) { resource_id = 0 }) },
)
dmabuf_detach_resource _ res b = (res, b)

-- ===== src/Tests/Paging.antt =====
-- kernel/vm.c at concrete inputs.
use tor_os.Prelude.{
  ℕ, ◌+◌, ◌%◌, ◌≡◌, ◌⊎◌, inl, inr, refl, ap, true, false, List, [], Option, none, some, ◌==◌,
  if◌then◌else◌, length, arith, Bool-cases,
}
use tor_os.Prelude.Int.{pos, negsuc}
use tor_os.Prelude.Bits.{frame}
use tor_os.Bitmap.{bit_get}
use tor_os.Vm.{Vm, vm_user_map, vm_user_unmap, vm_va2pa, map_region, vm_init}
use tor_os.Vm.Tables.{VmIsValid}
use tor_os.Vm.Translate.{page_of}
use tor_os.Vm.Walk.{IsOut}
use tor_os.Vm.Map.{vm_user_map_lem}
use tor_os.Vm.Unmap.{vm_user_unmap_lem}
use tor_os.Vm.Region.{Ends, map_region-Ends}
use tor_os.Vm.Boot.{AreFlags}
use tor_os.Vm.Identity.{Booted, vm_init_lem}
use tor_os.Tests.Memory.{end_of_kernel, small_mem, small_mem-PagesAreValid}

-- The root alone, in the first page of the allocator.
abbrev empty_tables : Vm
empty_tables = record { pgd = 0x4008_1000; words = λ a. 0; mem = small_mem }

abbrev only_root : ℕ → Option (List ℕ)
only_root x = if x == 0x4008_1000 then some [] else none

only_root_lem : (x : ℕ) (q : List ℕ) → only_root x ≡ some q → (x ≡ 0x4008_1000) × (q ≡ [])
only_root_lem x q e = elim (Bool-cases (x == 0x4008_1000)) [
  | inl h ↦ let new : only_root x ≡ some [] = rw h refl in (ground arith, cc)
  | inr h ↦ let old : only_root x ≡ none = rw h refl in cc
]

empty_tables-VmIsValid : VmIsValid end_of_kernel only_root empty_tables
unfolding bit_get
empty_tables-VmIsValid = record {
  pages = small_mem-PagesAreValid;
  low = omega arith;
  root = refl;
  tables = λ x q e. record {
    index = 0;
    address = (only_root_lem x q e).0;
    in_range = omega arith;
    in_use = refl;
    depth = omega (arith, ap length (only_root_lem x q e).1);
  };
  linked = λ x i q e l m valid. cc;
}

-- Valid, accessed, inner shareable
abbrev flags : ℕ
flags = 0x701

flags-AreFlags : AreFlags flags
flags-AreFlags = record { valid = refl; apart = refl }

vm_user_map_lem_example :
    ((place : ℕ → Option (List ℕ)) × VmIsValid end_of_kernel place
        (vm_user_map end_of_kernel 0x1234 0x5000 flags empty_tables).1)
    × ((((vm_user_map end_of_kernel 0x1234 0x5000 flags empty_tables).0 ≡ pos 0)
          × ((vb : ℕ)
              → vm_va2pa vb (vm_user_map end_of_kernel 0x1234 0x5000 flags empty_tables).1 ≡ (
                  if page_of vb == page_of 0x1234
                  then frame 0x5000 + vb % 4096
                  else vm_va2pa vb empty_tables)))
        ⊎ (((vm_user_map end_of_kernel 0x1234 0x5000 flags empty_tables).0 ≡ negsuc 0)
            × IsOut end_of_kernel (vm_user_map end_of_kernel 0x1234 0x5000 flags empty_tables).1
            × ((vb : ℕ)
                → vm_va2pa vb (vm_user_map end_of_kernel 0x1234 0x5000 flags empty_tables).1
                  ≡ vm_va2pa vb empty_tables)))
vm_user_map_lem_example =
    vm_user_map_lem end_of_kernel 0x1234 0x5000 flags empty_tables only_root empty_tables-VmIsValid
      refl refl

-- One page mapped.
abbrev one_page : Vm
one_page = (vm_user_map end_of_kernel 0x1234 0x5000 flags empty_tables).1

one_page-VmIsValid : (place : ℕ → Option (List ℕ)) × VmIsValid end_of_kernel place one_page
one_page-VmIsValid =
    (vm_user_map_lem end_of_kernel 0x1234 0x5000 flags empty_tables only_root empty_tables-VmIsValid
      refl refl).0

vm_user_unmap_lem_example :
    VmIsValid end_of_kernel one_page-VmIsValid.0 (vm_user_unmap 0x1234 one_page)
    × ((vb : ℕ)
        → vm_va2pa vb (vm_user_unmap 0x1234 one_page)
          ≡ (if page_of vb == page_of 0x1234 then 0 else vm_va2pa vb one_page))
vm_user_unmap_lem_example =
    vm_user_unmap_lem end_of_kernel 0x1234 one_page one_page-VmIsValid.0 one_page-VmIsValid.1

map_region-Ends_example :
    Ends end_of_kernel 0x8000
      (0x8000 + 0x2000)
      empty_tables
      (map_region end_of_kernel 0x8000 0x2000 flags empty_tables)
map_region-Ends_example =
    map_region-Ends end_of_kernel 0x8000 0x2000 flags empty_tables only_root empty_tables-VmIsValid
      refl refl refl (omega arith)

vm_init_lem_example :
    (((vm_init end_of_kernel flags flags flags empty_tables).0 ≡ true)
      × Booted end_of_kernel (vm_init end_of_kernel flags flags flags empty_tables).1)
    ⊎ (((vm_init end_of_kernel flags flags flags empty_tables).0 ≡ false)
        × IsOut end_of_kernel (vm_init end_of_kernel flags flags flags empty_tables).1)
vm_init_lem_example =
    vm_init_lem end_of_kernel flags flags flags empty_tables
      (record { pages = small_mem-PagesAreValid; low = omega arith }) flags-AreFlags flags-AreFlags
      flags-AreFlags (omega arith) (omega arith)

-- ===== src/Wm/Create.antt =====
-- Creating a window: it is fresh, and the manager stays valid on every branch.
use tor_os.Prelude.{
  ℕ, suc, ◌+◌, ◌^◌, ◌≤◌, ◌<◌, ◌≡◌, ◌∙◌, refl, sym, ap, subst, true, false, List, Option, none, some,
  ◌==◌, if◌then◌else◌, Bool-cases, Option-cases, ◌⊎◌, inl, inr, arith,
}
use tor_os.Prelude.Int.{ℤ, pos, negsuc, ◌+ℤ◌, leb_ℤ, ◌≤ℤ◌, int_laws}
use tor_os.Mm.{Mem, kmalloc}
use tor_os.Mm.Heap.{HeapIsValid, kmalloc_lem}
use tor_os.Wm.{Wm, Window, insert_window, put, max_windows, window_size}
use tor_os.Wm.Stack.{
  wm_create_window, link_window, new_window, as_u32, wm_init, with_desktop, empty_manager,
  desktop_title,
}
use tor_os.Wm.Order.{insert-Stacked, count-insert_window, length-insert_window, Stacked-same, level}
use tor_os.Wm.Valid.{WmIsValid, listed}

as_u32-lt : (z : ℤ) → as_u32 z < 2 ^ 63
as_u32-lt (pos n) = omega arith
as_u32-lt (negsuc n) = omega arith

-- Only the next id and the allocator have changed, and its pointer has not gone down.
mem-WmIsValid :
    (m : Wm) (id : ℕ) (mem : Mem)
    → WmIsValid m
    → HeapIsValid mem
    → m.mem.heap_ptr ≤ mem.heap_ptr
    → WmIsValid (record m { next_id = id; mem = mem })
mem-WmIsValid m id mem v h le = record {
  stacked = v.stacked;
  once = v.once;
  counted = v.counted;
  allocated = λ p k. omega (arith, v.allocated p k, le);
  heap = h;
  active = v.active;
}

-- A window at an address that no listed window has is put in the list.
module _ (p : ℕ) (w : Window) (m : Wm) (v : WmIsValid m) (fresh : listed p m ≡ 0) where
  level-other : (q : ℕ) → 0 < listed q m → level m.store q ≡ level (put p w m).store q
  level-other q h =
      let other : (q == p) ≡ false = ground (arith, fresh, h) in
      ap (λ b. (if b then w else m.store q).z_order) (sym other)

  listed-link_window :
      (q : ℕ) → listed q (link_window p (put p w m)) ≡ (if q == p then 1 else listed q m)
  listed-link_window q =
      ground (arith, count-insert_window (put p w m).store p q m.window_list, fresh)

  link_window-WmIsValid : p < m.mem.heap_ptr → WmIsValid (link_window p (put p w m))
  link_window-WmIsValid below = record {
    stacked =
        insert-Stacked (put p w m).store p m.window_list
          (Stacked-same m.store (put p w m).store m.window_list level-other v.stacked);
    once = λ q. ground (arith, listed-link_window q, v.once q);
    counted =
        ap (λ z. z +ℤ pos 1) v.counted
        ∙ one_more _ _ (length-insert_window (put p w m).store p m.window_list);
    allocated = λ q k. ground (arith, listed-link_window q, v.allocated q, below);
    heap = v.heap;
    active = λ q e. ground (arith, listed-link_window q, v.active q e);
  }
    where
      one_more : (n k : ℕ) → k ≡ suc n → pos n +ℤ pos 1 ≡ pos k
      one_more n k e = omega int_laws

-- What a call makes of the manager `m`: without a window there were 64 already or no memory, and the
-- list is the old one; a new window was not listed, and is the only one that is more so now.
abbrev pub Created : Wm → Option ℕ → Wm → Type 0
Created m none m' =
    (m'.window_list ≡ m.window_list)
    × ((pos max_windows ≤ℤ m.window_count) ⊎ ((kmalloc window_size m.mem).0 ≡ none))
Created m (some p) m' =
    (listed p m ≡ 0) × ((q : ℕ) → listed q m' ≡ (if q == p then 1 else listed q m))

module _ (title : Option (List ℕ)) (x y w h : ℤ) (style : ℕ) (m : Wm) where
  abbrev first : Option ℕ × Mem
  first = kmalloc window_size m.mem

  abbrev new : Window
  new = new_window m.next_id title x y w h style

  abbrev second : Option ℕ × Mem
  second = kmalloc new.fb_size first.1

  abbrev made : Option ℕ → Option ℕ × Wm
  made none = (none, record m { mem = first.1 })
  made (some p) = (
    some p,
    link_window p (
        put p (record new { framebuffer = second.0 })
          (record m { next_id = m.next_id + 1; mem = second.1 })),
  )

  wm_create_window_full :
      leb_ℤ (pos max_windows) m.window_count ≡ true
      → wm_create_window title x y w h style m ≡ (none, m)
  unfolding wm_create_window
  wm_create_window_full e = rw (e, wm_create_window) refl

  wm_create_window-made :
      (o : Option ℕ)
      → leb_ℤ (pos max_windows) m.window_count ≡ false
      → first.0 ≡ o
      → wm_create_window title x y w h style m ≡ made o
  unfolding wm_create_window
  wm_create_window-made none e f = rw (e, f, wm_create_window) refl
  wm_create_window-made (some p) e f = rw (e, f, wm_create_window) refl

  -- On every branch the manager stays valid; a new window was not in the list and is in it once.
  pub wm_create_window_lem :
      WmIsValid m
      → let r = wm_create_window title x y w h style m in WmIsValid r.1 × Created m r.0 r.1
  wm_create_window_lem v = elim (Bool-cases (leb_ℤ (pos max_windows) m.window_count)) [
    | inl e ↦ rw (wm_create_window_full e) (v, (refl, inl (ground arith)))
    | inr e ↦
        let a = kmalloc_lem window_size m.mem v.heap (omega arith) in
        let b = kmalloc_lem new.fb_size first.1 a.0 (as_u32-lt _) in
        let m1 = record m { next_id = m.next_id + 1; mem = second.1 } in
        let v1 : WmIsValid m1 =
          mem-WmIsValid m (m.next_id + 1) second.1 v b.0 (omega (arith, a.1, b.1)) in
        elim (Option-cases first.0) [
          | inl f ↦
              rw (wm_create_window-made none e f)
                (mem-WmIsValid m m.next_id first.1 v a.0 a.1, (refl, inr f))
          | inr (p, f) ↦
              let at_top = a.4 p f in
              let fresh : listed p m1 ≡ 0 = ground (arith, at_top.0, v.allocated p) in
              rw (wm_create_window-made (some p) e f) (
                link_window-WmIsValid p _ m1 v1 fresh (omega (arith, at_top.1, b.1)),
                (fresh, listed-link_window p _ m1 v1 fresh),
              )
        ]
  ]

-- The manager that `wm_init` leaves is valid.
pub wm_init-WmIsValid :
    (dw dh : ℤ) (store : ℕ → Window) (mem : Mem)
    → HeapIsValid mem
    → WmIsValid (wm_init dw dh store mem)
unfolding wm_init insert_window
wm_init-WmIsValid dw dh store mem h = elim (Option-cases (kmalloc window_size mem).0) [
  | inl f ↦ rw (made_as none f) (with_none (subst (λ r. WmIsValid r.1) (made_as none f) v))
  | inr (p, f) ↦
      rw (made_as (some p) f) (with_some p (subst (λ r. WmIsValid r.1) (made_as (some p) f) v))
]
  where
    e : Wm
    e = empty_manager dw dh store mem

    empty-WmIsValid : WmIsValid e
    empty-WmIsValid = record {
      stacked = tt;
      once = λ p. omega arith;
      counted = refl;
      allocated = λ p k. absurd (omega arith);
      heap = h;
      active = λ p k. cc;
    }

    v : WmIsValid (wm_create_window (some desktop_title) (pos 0) (pos 0) dw dh 0 e).1
    v = (wm_create_window_lem (some desktop_title) (pos 0) (pos 0) dw dh 0 e empty-WmIsValid).0

    made_as :
        (o : Option ℕ)
        → (kmalloc window_size mem).0 ≡ o
        → wm_create_window (some desktop_title) (pos 0) (pos 0) dw dh 0 e
          ≡ made (some desktop_title) (pos 0) (pos 0) dw dh 0 e o
    made_as o f = wm_create_window-made (some desktop_title) (pos 0) (pos 0) dw dh 0 e o refl f

    with_none :
        WmIsValid (made (some desktop_title) (pos 0) (pos 0) dw dh 0 e none).1
        → WmIsValid (with_desktop (made (some desktop_title) (pos 0) (pos 0) dw dh 0 e none))
    with_none u = record {
      stacked = u.stacked;
      once = u.once;
      counted = u.counted;
      allocated = u.allocated;
      heap = u.heap;
      active = u.active;
    }

    with_some :
        (p : ℕ)
        → WmIsValid (made (some desktop_title) (pos 0) (pos 0) dw dh 0 e (some p)).1
        → WmIsValid (with_desktop (made (some desktop_title) (pos 0) (pos 0) dw dh 0 e (some p)))
    with_some p u = record {
      stacked = (tt, tt);
      once = u.once;
      counted = u.counted;
      allocated = u.allocated;
      heap = u.heap;
      active = u.active;
    }

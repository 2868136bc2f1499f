-- ===== src/Wm/Valid.antt =====
-- The invariant of the window manager, and the operations that keep it.
use tor_os.Prelude.{
  ℕ, suc, ◌≤◌, ◌<◌, ◌≡◌, ◌≢◌, ◌∙◌, refl, sym, ap, subst, Bool, true, false, List, ◌∷◌, ◌++◌, Option,
  none, some, ◌==◌, if◌then◌else◌, Bool-cases, inl, inr, arith, count, length,
}
use tor_os.Prelude.Int.{ℤ, pos, ◌-ℤ◌, ltb_ℤ, int_laws}
use tor_os.Mm.Heap.{HeapIsValid}
use tor_os.Wm.{Wm, Window, insert_window, unlink_window, put, set_flags, wf_dirty}
use tor_os.Wm.Stack.{wm_destroy_window, wm_raise_window, wm_lower_window, wm_show_window, drop_if}
use tor_os.Wm.Order.{
  Stacked, insert-Stacked, unlink-Stacked, count-insert_window, count-unlink_window,
  length-insert_window, length-unlink_window, insert_window_splits, Stacked-same, AllAbove, level,
}

-- How often the window at `p` stands in the list.
abbrev pub listed : ℕ → Wm → ℕ
listed p m = count p m.window_list

-- The windows are stacked by level, each stands once and lies in the memory given out, they are
-- counted, and the active window is one of them.
pub record WmIsValid (m : Wm) : Type 0 where
  pub stacked : Stacked m.store m.window_list
  pub once : (p : ℕ) → listed p m ≤ 1
  pub counted : m.window_count ≡ pos (length m.window_list)
  pub allocated : (p : ℕ) → 0 < listed p m → p < m.mem.heap_ptr
  pub heap : HeapIsValid m.mem
  pub active : (p : ℕ) → m.active_window ≡ some p → 0 < listed p m

-- The list stays stacked when a window is written whose level is the old one.
module _ (p : ℕ) (w : Window) (m : Wm) (e : w.z_order ≡ (m.store p).z_order) where
  level-put : (q : ℕ) → level (put p w m).store q ≡ level m.store q
  level-put q = elim (Bool-cases (q == p)) [
    | inl h ↦
        let same : q ≡ p = ground arith in ap pick h ∙ e ∙ ap (λ r. (m.store r).z_order) (sym same)
    | inr h ↦ ap pick h
  ]
    where
      pick : Bool → ℤ
      pick b = (if b then w else m.store q).z_order

  pub put-WmIsValid : WmIsValid m → WmIsValid (put p w m)
  put-WmIsValid v = record {
    stacked =
        Stacked-same m.store (put p w m).store m.window_list (λ q h. sym (level-put q)) v.stacked;
    once = v.once;
    counted = v.counted;
    allocated = v.allocated;
    heap = v.heap;
    active = v.active;
  }

drop_if-some : (p q : ℕ) (o : Option ℕ) → drop_if p o ≡ some q → (o ≡ some q) × ((q == p) ≡ false)
drop_if-some p q none h = cc
drop_if-some p q (some r) h = elim (Bool-cases (r == p)) [
  | inl e ↦ let gone : drop_if p (some r) ≡ none = rw e refl in cc
  | inr e ↦
      let kept : drop_if p (some r) ≡ some r = rw e refl in
      let same : some r ≡ some q = sym kept ∙ h in (same, ground arith)
]

drop_if-gone : (p : ℕ) (o : Option ℕ) → drop_if p o ≢ some p
drop_if-gone p o h = let d = drop_if-some p p o h in ground (arith, d.1)

-- Destroying a listed window keeps the manager valid, and takes that window alone out of the list;
-- no other pointer of the manager keeps it.
pub wm_destroy_window_lem :
    (p : ℕ) (m : Wm)
    → WmIsValid m
    → 0 < listed p m
    → let m' = wm_destroy_window (some p) m in
      WmIsValid m'
      × ((q : ℕ) → listed q m' ≡ (if q == p then 0 else listed q m))
      × (m'.active_window ≢ some p)
      × (m'.focused_window ≢ some p)
      × (m'.drag_window ≢ some p)
unfolding wm_destroy_window
wm_destroy_window_lem p m v h =
    let left = λ (q : ℕ). count-unlink_window p q m.window_list in
    let n = length-unlink_window p m.window_list h in
    (
      record {
        stacked = unlink-Stacked m.store p m.window_list v.stacked;
        once = λ q. ground (arith, left q, v.once q);
        counted = counted_down m.window_count _ _ v.counted n;
        allocated = λ q k. v.allocated q (ground (arith, left q));
        heap = v.heap;
        active = λ q e.
            let d = drop_if-some p q m.active_window e in
            ground (arith, left q, d.1, v.active q d.0);
      },
      λ q. ground (arith, left q, v.once q),
      drop_if-gone p m.active_window,
      drop_if-gone p m.focused_window,
      drop_if-gone p m.drag_window,
    )
  where
    counted_down : (c : ℤ) (n k : ℕ) → c ≡ pos n → suc k ≡ n → c -ℤ pos 1 ≡ pos k
    counted_down c n k e h = rw e (omega int_laws)

module _ (p : ℕ) (m : Wm) (v : WmIsValid m) where
  abbrev restacked : List ℕ
  restacked = insert_window m.store p (unlink_window p m.window_list)

  count-restacked : (q : ℕ) → 0 < listed p m → count q restacked ≡ listed q m
  count-restacked q h = ground (
    arith,
    count-insert_window m.store p q (unlink_window p m.window_list),
    count-unlink_window p q m.window_list,
  )

  restacked-WmIsValid : 0 < listed p m → WmIsValid (record m { window_list = restacked })
  restacked-WmIsValid h = record {
    stacked = insert-Stacked m.store p _ (unlink-Stacked m.store p m.window_list v.stacked);
    once = λ q. omega (arith, count-restacked q h, v.once q);
    counted =
        v.counted
        ∙ ap pos (
            omega (
              arith,
              length-insert_window m.store p (unlink_window p m.window_list),
              length-unlink_window p m.window_list h,
            ));
    allocated = λ q k. v.allocated q (omega (arith, count-restacked q h));
    heap = v.heap;
    active = λ q e. omega (arith, count-restacked q h, v.active q e);
  }

  -- Raising a listed window of a valid manager keeps it valid: the window then stands above all
  -- windows of its level and below, and under those of a higher level, and the others keep their
  -- order.
  pub wm_raise_window_lem :
      m.initialized ≢ 0
      → 0 < listed p m
      → let m' = wm_raise_window (some p) m in
        WmIsValid m'
        × ((below : List ℕ) × (above : List ℕ) × (m'.window_list ≡ below ++ p ∷ above)
            × (unlink_window p m.window_list ≡ below ++ above)
            × AllAbove m.store (level m.store p) above)
  unfolding wm_raise_window
  wm_raise_window_lem started h =
      let on : (m.initialized == 0) ≡ false = ground arith in
      rw (on, wm_raise_window)
        (
          put-WmIsValid p _ (record m { window_list = restacked }) refl (restacked-WmIsValid h),
          insert_window_splits m.store p _ (unlink-Stacked m.store p m.window_list v.stacked),
        )

-- Lowering a window puts it first, also before windows of a lower level: a window above the level of
-- the first one, such as any window above the desktop, is then out of order.
pub wm_lower_window_breaks_WmIsValid :
    (p d : ℕ) (rest : List ℕ) (m : Wm)
    → m.window_list ≡ d ∷ rest
    → d ≢ p
    → ltb_ℤ (level m.store d) (level m.store p) ≡ true
    → ¬ WmIsValid (wm_lower_window (some p) m)
unfolding wm_lower_window unlink_window
wm_lower_window_breaks_WmIsValid p d rest m first other higher v =
    let not_p : (d == p) ≡ false = ground arith in
    let same = level-put p (set_flags wf_dirty (m.store p)) m refl in
    let list : unlink_window p m.window_list ≡ d ∷ unlink_window p rest =
      ap (unlink_window p) first ∙ rw not_p refl in
    let store = (wm_lower_window (some p) m).store in
    let s : Stacked store (p ∷ d ∷ unlink_window p rest) =
      subst (λ l. Stacked store (p ∷ l)) list v.stacked in
    absurd (ground (arith, s.0.0, same p, same d))

-- Showing a listed window keeps the manager valid.
pub wm_show_window-WmIsValid :
    (p : ℕ) (m : Wm)
    → WmIsValid m
    → m.initialized ≢ 0
    → 0 < listed p m
    → WmIsValid (wm_show_window (some p) m)
unfolding wm_show_window
wm_show_window-WmIsValid p m v started h =
    (wm_raise_window_lem p _ (put-WmIsValid p _ m refl v) started h).0

-- ===== src/VirtualDesktop/Close.antt =====
-- `vd_close`: what the shift does, and which desktops are active after it.
use tor_os.Prelude.{
  ℕ, zero, suc, ◌+◌, ◌-◌, ◌≤◌, ◌<◌, ◌≡◌, refl, sym, ◌∙◌, ◌≢◌, List, ◌==◌, ltb, leb, if◌then◌else◌,
  length, arith, length-set, [], ◌∷◌, ◌++◌, ◌&&◌,
}
use tor_os.Prelude.Int.{pos}
use tor_os.VirtualDesktop.{
  Manager, desktop_at, put_desktop, set_active, vd_close, adopt_windows, shift_down,
}
use tor_os.VirtualDesktop.Inv.{Inv, active_at, at-put, checked-in}

-- Two managers that differ in their windows at most.
record SameButWindows (m m' : Manager) : Type 0 where
  slots : length m'.desktops ≡ length m.desktops
  current : m'.current_desktop ≡ m.current_desktop
  number : m'.num_desktops ≡ m.num_desktops
  began : m'.initialized ≡ m.initialized
  active : (j : ℕ) → active_at m' j ≡ active_at m j

put_windows :
    (m : Manager) (i : ℕ) (ws : List ℕ)
    → i < length m.desktops
    → SameButWindows m (put_desktop m i (record (desktop_at m i) { windows = ws }))
put_windows m i ws h = record {
  slots = length-set m.desktops i _;
  current = refl;
  number = refl;
  began = refl;
  active = λ j. ground (arith, at-put m i j (record (desktop_at m i) { windows = ws }) h);
}

same_trans : (a b c : Manager) → SameButWindows a b → SameButWindows b c → SameButWindows a c
same_trans a b c p q = record {
  slots = q.slots ∙ p.slots;
  current = q.current ∙ p.current;
  number = q.number ∙ p.number;
  began = q.began ∙ p.began;
  active = λ j. q.active j ∙ p.active j;
}

adopt_same : (i : ℕ) (m : Manager) → i < length m.desktops → SameButWindows m (adopt_windows i m)
unfolding adopt_windows
adopt_same i m h = go (desktop_at m i).windows refl
  where
    m1 : Manager
    m1 =
        put_desktop m 0 (record (desktop_at m 0) {
          windows = (desktop_at m i).windows ++ (desktop_at m 0).windows;
        })

    one : SameButWindows m m1
    one = put_windows m 0 _ (omega arith)

    go : (ws : List ℕ) → (desktop_at m i).windows ≡ ws → SameButWindows m (adopt_windows i m)
    go [] e =
        rw (e, adopt_windows)
          (record { slots = refl; current = refl; number = refl; began = refl; active = λ j. refl })
    go (w ∷ ws) e =
        rw (e, adopt_windows)
          (same_trans m m1 _ one (put_windows m1 i [] (omega (arith, one.slots))))

-- What the shift leaves: the desktops from `i` on are those one above, and the rest stays.
record Shifted (n i : ℕ) (m m' : Manager) : Type 0 where
  slots : length m'.desktops ≡ length m.desktops
  current : m'.current_desktop ≡ m.current_desktop
  number : m'.num_desktops ≡ m.num_desktops
  began : m'.initialized ≡ m.initialized
  active : (j : ℕ) → active_at m' j ≡ active_at m (if leb i j && ltb j (i + n) then j + 1 else j)

shift_down-Shifted :
    (n i : ℕ) (m : Manager) → i + n < length m.desktops → Shifted n i m (shift_down n i m)
unfolding shift_down
shift_down-Shifted zero i m h = record {
  slots = refl;
  current = refl;
  number = refl;
  began = refl;
  active = λ j. ground arith;
}
shift_down-Shifted (suc n) i m h =
    let m1 : Manager = put_desktop m i (record (desktop_at m (i + 1)) { id = i + 1 }) in
    let len = length-set m.desktops i (record (desktop_at m (i + 1)) { id = i + 1 }) in
    let s = shift_down-Shifted n (i + 1) m1 (omega (arith, len)) in
    let at = λ (j : ℕ). at-put m i j (record (desktop_at m (i + 1)) { id = i + 1 }) (omega arith) in
    record {
      slots = s.slots ∙ len;
      current = s.current;
      number = s.number;
      began = s.began;
      active = λ j. ground (arith, s.active j, at j, at (j + 1));
    }

-- The state before the last line of `vd_close`, and what is active there.
module _ (i : ℕ) (m : Manager) (v : Inv m) (low : 1 ≤ i) (lt : i < m.num_desktops) where
  abbrev moved : Manager
  moved = shift_down (m.num_desktops - 1 - i) i (adopt_windows i m)

  abbrev next_current : ℕ
  next_current = if leb (m.num_desktops - 1) m.current_desktop then 0 else m.current_desktop

  adopted : SameButWindows m (adopt_windows i m)
  adopted = adopt_same i m (omega (arith, v.slots, v.many))

  shifted : Shifted (m.num_desktops - 1 - i) i (adopt_windows i m) moved
  shifted =
      shift_down-Shifted (m.num_desktops - 1 - i) i (adopt_windows i m)
        (omega (arith, v.slots, v.many, adopted.slots))

  closed : Manager
  closed =
      set_active
        (record moved { num_desktops = m.num_desktops - 1; current_desktop = next_current })
        next_current 1

  vd_close-closed : vd_close (pos i) m ≡ closed
  unfolding vd_close closed
  vd_close-closed =
      rw (checked-in m i v.started lt, vd_close) (ground (arith, shifted.current, adopted.current))

  slots-moved : length moved.desktops ≡ 8
  slots-moved = shifted.slots ∙ adopted.slots ∙ v.slots

  active-closed :
      (j : ℕ)
      → j < m.num_desktops - 1
      → active_at closed j ≡ (
          if next_current == j
          then 1
          else if m.current_desktop == (if leb i j then j + 1 else j)
          then 1
          else 0)
  unfolding closed
  active-closed j h =
      let m1 : Manager = record moved {
        num_desktops = m.num_desktops - 1;
        current_desktop = next_current;
      } in
      ground (
        arith,
        at-put m1 next_current j (record (desktop_at m1 next_current) { active = 1 })
            (ground (arith, slots-moved, v.listed, v.many, low, lt)),
        shifted.active j,
        adopted.active j,
        adopted.active (j + 1),
        v.active j (omega arith),
        v.active (j + 1) (omega arith),
      )

  -- Closing a desktop at or above the current one keeps the invariant: exactly the current desktop
  -- is active.
  pub vd_close-Inv : m.current_desktop ≤ i → Inv (vd_close (pos i) m)
  vd_close-Inv h = rw vd_close-closed (
      unfold closed in
      record {
        slots = length-set moved.desktops next_current _ ∙ slots-moved;
        many = omega (arith, v.many);
        listed = ground (arith, v.listed);
        started = λ e. v.started (sym (shifted.began ∙ adopted.began) ∙ e);
        active = λ j l. active-closed j l ∙ ground (arith, v.listed);
      })

  -- Closing a desktop below the current one leaves two desktops active: the one that was current,
  -- now one lower, and the new current one; so the invariant breaks.
  pub vd_close_breaks_Inv :
      i < m.current_desktop
      → (active_at (vd_close (pos i) m) (m.current_desktop - 1) ≡ 1)
        × (active_at (vd_close (pos i) m) (vd_close (pos i) m).current_desktop ≡ 1)
        × ((vd_close (pos i) m).current_desktop ≢ m.current_desktop - 1)
        × ¬ Inv (vd_close (pos i) m)
  vd_close_breaks_Inv h = rw vd_close-closed (
      let a : active_at closed (m.current_desktop - 1) ≡ 1 =
        active-closed (m.current_desktop - 1) (omega (arith, v.listed))
        ∙ ground (arith, v.listed) in
      let n : next_current ≢ m.current_desktop - 1 = ground (arith, v.listed) in
      let b : active_at closed next_current ≡ 1 =
        active-closed next_current (ground (arith, v.listed)) ∙ ground arith in
      (
        a,
        unfold closed in b,
        unfold closed in n,
        λ w.
            unfold closed in
            ground (arith, w.active (m.current_desktop - 1) (omega (arith, v.listed)), a, n),
      ))

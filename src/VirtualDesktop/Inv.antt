-- ===== src/VirtualDesktop/Inv.antt =====
-- Which desktop is active: the invariant that switching keeps, and that closing breaks.
use tor_os.Prelude.{
  ℕ, ◌+◌, ◌-◌, ◌≤◌, ◌<◌, ◌≡◌, ◌∙◌, ◌≢◌, Bool, true, false, none, some, ◌==◌, leb, if◌then◌else◌,
  length, arith, length-set, get_or-set_if, inl, inr, Option-cases,
}
use tor_os.Prelude.Int.{ℤ, pos, negsuc}
use tor_os.VirtualDesktop.{
  Manager, Desktop, desktop_at, put_desktop, set_active, blank_desktop, checked, vd_switch, vd_next,
  vd_prev,
}

abbrev pub active_at : Manager → ℕ → ℕ
active_at m i = (desktop_at m i).active

-- Between one and eight desktops, and of those exactly the current one is active.
pub record Inv (m : Manager) : Type 0 where
  pub slots : length m.desktops ≡ 8
  pub many : m.num_desktops ≤ 8
  pub listed : m.current_desktop < m.num_desktops
  pub started : m.initialized ≢ 0
  pub active :
      (i : ℕ) → i < m.num_desktops → active_at m i ≡ (if m.current_desktop == i then 1 else 0)

pub at-put :
    (m : Manager) (i j : ℕ) (d : Desktop)
    → i < length m.desktops
    → desktop_at (put_desktop m i d) j ≡ (if i == j then d else desktop_at m j)
at-put m i j d h = get_or-set_if m.desktops i j d blank_desktop h

-- The state after a switch to desktop `i`.
abbrev switched : Manager → ℕ → Manager
switched m i = record (set_active (set_active m m.current_desktop 0) i 1) { current_desktop = i }

switched-Inv : (m : Manager) (i : ℕ) → Inv m → i < m.num_desktops → Inv (switched m i)
switched-Inv m i v h =
    let c : ℕ = m.current_desktop in
    let m1 : Manager = set_active m c 0 in
    let size : length m1.desktops ≡ 8 = length-set m.desktops c _ ∙ v.slots in
    record {
      slots = length-set m1.desktops i _ ∙ size;
      many = v.many;
      listed = h;
      started = v.started;
      active = λ j l. ground (
        arith,
        v.active j l,
        at-put m c j (record (desktop_at m c) { active = 0 })
            (omega (arith, v.slots, v.listed, v.many)),
        at-put m1 i j (record (desktop_at m1 i) { active = 1 }) (omega (arith, size, v.many)),
      );
    }

module _ (m : Manager) where
  switch_out : (k : ℤ) → checked m k ≡ none → vd_switch k m ≡ m
  unfolding vd_switch
  switch_out k e = rw (e, vd_switch)

  switch_in :
      (k : ℤ) (i : ℕ)
      → checked m k ≡ some i
      → vd_switch k m ≡ (if i == m.current_desktop then m else switched m i)
  unfolding vd_switch
  switch_in k i e = rw (e, vd_switch)

checked-lt : (m : Manager) (k : ℤ) (i : ℕ) → checked m k ≡ some i → i < m.num_desktops
checked-lt m (pos n) i e = ground arith
checked-lt m (negsuc n) i e = cc

pub checked-in :
    (m : Manager) (i : ℕ) → m.initialized ≢ 0 → i < m.num_desktops → checked m (pos i) ≡ some i
checked-in m i a b = ground arith

pub vd_switch-Inv : (k : ℤ) (m : Manager) → Inv m → Inv (vd_switch k m)
vd_switch-Inv k m v = elim (Option-cases (checked m k)) [
  | inl e ↦ rw (switch_out m k e) v
  | inr (i, e) ↦ rw (switch_in m k i e) (go i (checked-lt m k i e) (i == m.current_desktop))
]
  where
    go : (i : ℕ) → i < m.num_desktops → (b : Bool) → Inv (if b then m else switched m i)
    go i h true = v
    go i h false = switched-Inv m i v h

-- A switch to a desktop in range makes it current; any other number changes nothing.
pub current-vd_switch :
    (i : ℕ) (m : Manager) → Inv m → i < m.num_desktops → (vd_switch (pos i) m).current_desktop ≡ i
current-vd_switch i m v h = rw (switch_in m (pos i) i (checked-in m i v.started h)) (ground arith)

pub num-vd_switch : (k : ℤ) (m : Manager) → (vd_switch k m).num_desktops ≡ m.num_desktops
unfolding vd_switch
num-vd_switch k m = ground arith

-- On a valid manager every switch keeps exactly the current desktop active, `vd_next` and `vd_prev`
-- go round the desktops, and each undoes the other.
pub vd_next-vd_prev :
    (m : Manager)
    → Inv m
    → Inv (vd_next m)
      × Inv (vd_prev m)
      × ((vd_prev (vd_next m)).current_desktop ≡ m.current_desktop)
      × ((vd_next (vd_prev m)).current_desktop ≡ m.current_desktop)
      × ((vd_next m).current_desktop
          ≡ (if m.current_desktop + 1 == m.num_desktops then 0 else m.current_desktop + 1))
unfolding vd_next vd_prev
vd_next-vd_prev m v =
    let nx : ℕ = if leb m.num_desktops (m.current_desktop + 1) then 0 else m.current_desktop + 1 in
    let pv : ℕ = if m.current_desktop == 0 then m.num_desktops - 1 else m.current_desktop - 1 in
    let a : nx < m.num_desktops = ground (arith, v.listed) in
    let b : pv < m.num_desktops = ground (arith, v.listed) in
    let va = vd_switch-Inv (pos nx) m v in
    let vb = vd_switch-Inv (pos pv) m v in
    let ca = current-vd_switch nx m v a in
    let cb = current-vd_switch pv m v b in
    let na = num-vd_switch (pos nx) m in
    let nb = num-vd_switch (pos pv) m in
    (
      va,
      vb,
      current-vd_switch _ (vd_switch (pos nx) m) va (ground (arith, ca, na))
          ∙ ground (arith, ca, na),
      current-vd_switch _ (vd_switch (pos pv) m) vb (ground (arith, cb, nb))
          ∙ ground (arith, cb, nb),
      ca ∙ ground (arith, v.listed),
    )

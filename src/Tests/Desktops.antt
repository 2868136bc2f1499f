-- ===== src/Tests/Desktops.antt =====
-- kernel/virtual_desktop.c at concrete inputs.
use tor_os.Prelude.{ℕ, suc, zero, ◌-◌, ◌<◌, ◌≡◌, ◌≢◌, refl, false, ◌==◌, if◌then◌else◌, arith}
use tor_os.Prelude.Int.{pos}
use tor_os.VirtualDesktop.{Manager, init_desktops, vd_init, vd_switch, vd_close}
use tor_os.VirtualDesktop.Inv.{Inv, active_at, vd_switch-Inv}
use tor_os.VirtualDesktop.Close.{vd_close_breaks_Inv}

-- Three desktops, the first of them current.
abbrev three : Manager
three = vd_init (pos 3) (λ w. false)

three-Inv : Inv three
unfolding vd_init init_desktops
three-Inv = record {
  slots = refl;
  many = omega arith;
  listed = omega arith;
  started = λ h. omega arith;
  active = first_active;
}
  where
    first_active : (i : ℕ) → i < 3 → active_at three i ≡ (if 0 == i then 1 else 0)
    first_active zero h = refl
    first_active (suc zero) h = refl
    first_active (suc (suc zero)) h = refl
    first_active (suc (suc (suc i))) h = absurd (omega arith)

-- The last desktop is current.
abbrev on_last : Manager
on_last = vd_switch (pos 2) three

on_last-Inv : Inv on_last
on_last-Inv = vd_switch-Inv (pos 2) three three-Inv

vd_close_breaks_Inv_example :
    (active_at (vd_close (pos 1) on_last) (on_last.current_desktop - 1) ≡ 1)
    × (active_at (vd_close (pos 1) on_last) (vd_close (pos 1) on_last).current_desktop ≡ 1)
    × ((vd_close (pos 1) on_last).current_desktop ≢ on_last.current_desktop - 1)
    × ¬ Inv (vd_close (pos 1) on_last)
unfolding vd_init init_desktops vd_switch
vd_close_breaks_Inv_example =
    vd_close_breaks_Inv 1 on_last on_last-Inv (omega arith) (omega arith) (omega arith)

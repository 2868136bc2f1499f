-- ===== src/Tests/Boot.antt =====
-- kernel/init.c at concrete inputs.
use tor_os.Prelude.{ℕ, suc, zero, ◌<◌, ◌≡◌, refl, false, List, [], ◌∷◌, some, arith}
use tor_os.Prelude.Int.{pos}
use tor_os.Libc.{strcmp, strncpy, strlen}
use tor_os.Init.Login.{
  Logins, user_at, login_manager_init, login_add_user, account, login_authenticate, admin, accepts,
}
use tor_os.Init.Login.Auth.{IsNew, login_authenticate-login_add_user}

abbrev net_name : List ℕ
net_name = b'n' ∷ b'e' ∷ b't' ∷ []

-- The accounts after boot.
abbrev accounts : Logins
accounts = login_manager_init 0

accounts-IsNew : IsNew net_name admin accounts
unfolding login_manager_init login_add_user account strncpy strcmp
accounts-IsNew = record { room = omega arith; table = refl; clear = refl; unmatched = others }
  where
    others : (j : ℕ) → j < 2 → accepts net_name admin (user_at accounts.users j) ≡ false
    others zero h = refl
    others (suc zero) h = refl
    others (suc (suc j)) h = absurd (omega arith)

login_authenticate-login_add_user_example :
    ((login_add_user (some net_name) admin 7 0 accounts).0 ≡ pos 0)
    × (login_authenticate
          (some net_name)
          (some admin)
          (login_add_user (some net_name) admin 7 0 accounts).1
        ≡ pos 7)
unfolding strlen
login_authenticate-login_add_user_example =
    login_authenticate-login_add_user net_name admin 7 0 accounts accounts-IsNew (omega arith)
      (omega arith)

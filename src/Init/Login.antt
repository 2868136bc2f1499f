-- ===== src/Init/Login.antt =====
-- kernel/init.c: the login manager's accounts.
-- Strings are read up to their NUL. Printing is left out.
pub mod Auth
pub mod Sessions
use tor_os.Prelude.{
  ℕ, zero, suc, ◌+◌, ◌-◌, ◌%◌, ◌^◌, Bool, true, false, not, ◌&&◌, List, [], ◌∷◌, Option, none, some,
  ◌==◌, ltb, leb, if◌then◌else◌, get_or, set, replicate,
}
use tor_os.Prelude.Int.{ℤ, pos, negsuc, as_int}
use tor_os.Search.{first}
use tor_os.Libc.{strcmp, strncpy, strcpy, strcat, is_zero}

abbrev pub max_users : ℕ
max_users = 16

abbrev pub max_sessions : ℕ
max_sessions = 4

-- `user_account_t`
pub record User : Type 0 where
  pub username : List ℕ
  pub password_hash : List ℕ
  pub uid : ℕ
  pub gid : ℕ
  pub home : List ℕ
  pub shell : List ℕ
  pub is_admin : ℕ
  pub is_active : ℕ

-- `user_session_t`
pub record Session : Type 0 where
  pub session_id : ℕ
  pub username : List ℕ
  pub uid : ℕ
  pub login_time : ℕ
  pub last_activity : ℕ
  pub desktop_window : Option ℕ
  pub active : ℕ

abbrev pub zero_user : User
zero_user = record {
  username = replicate 32 0;
  password_hash = replicate 64 0;
  uid = 0;
  gid = 0;
  home = replicate 128 0;
  shell = replicate 32 0;
  is_admin = 0;
  is_active = 0;
}

abbrev pub zero_session : Session
zero_session = record {
  session_id = 0;
  username = replicate 32 0;
  uid = 0;
  login_time = 0;
  last_activity = 0;
  desktop_window = none;
  active = 0;
}

pub record Logins : Type 0 where
  pub users : List User
  pub num_users : ℕ
  pub sessions : List Session
  pub login_active : ℕ

abbrev pub user_at : List User → ℕ → User
user_at us i = get_or us i zero_user

abbrev pub session_at : List Session → ℕ → Session
session_at ss i = get_or ss i zero_session

-- `strcmp(a, b) == 0`
abbrev pub same : List ℕ → List ℕ → Bool
same a b = is_zero (strcmp a b)

-- "/home/" and "/bin/sh"
abbrev pub home_dir : List ℕ
home_dir = 47 ∷ 104 ∷ 111 ∷ 109 ∷ 101 ∷ 47 ∷ []

abbrev pub sh : List ℕ
sh = 47 ∷ 98 ∷ 105 ∷ 110 ∷ 47 ∷ 115 ∷ 104 ∷ []

-- The account that `login_add_user` writes over the entry `u`.
unfoldable pub account : List ℕ → List ℕ → ℕ → ℕ → User → User
account username password uid is_admin u = record u {
  username = strncpy u.username username 31;
  password_hash = strncpy u.password_hash password 63;
  uid = uid;
  gid = uid;
  is_admin = is_admin;
  is_active = 1;
  home = strcat (strcpy u.home home_dir) username;
  shell = strcpy u.shell sh;
}

unfoldable pub login_add_user : Option (List ℕ) → List ℕ → ℕ → ℕ → Logins → ℤ × Logins
unfolding account
login_add_user none password uid is_admin l = (negsuc 0, l)
login_add_user (some username) password uid is_admin l =
    if leb max_users l.num_users then (negsuc 0, l) else (
      pos 0,
      record l {
        num_users = l.num_users + 1;
        users =
            set l.users l.num_users
              (account username password uid is_admin (user_at l.users l.num_users));
      },
    )

-- "admin" and "guest"
abbrev pub admin : List ℕ
admin = 97 ∷ 100 ∷ 109 ∷ 105 ∷ 110 ∷ []

abbrev pub guest : List ℕ
guest = 103 ∷ 117 ∷ 101 ∷ 115 ∷ 116 ∷ []

-- `active` is `login_active`, which is left as it is.
unfoldable pub login_manager_init : ℕ → Logins
unfolding login_add_user
login_manager_init active =
    (login_add_user (some guest) [] 1000 0
      (login_add_user (some admin) admin 0 1 (record {
        users = replicate 16 zero_user;
        num_users = 0;
        sessions = replicate 4 zero_session;
        login_active = active;
      })).1).1

-- The test of one round of `login_authenticate`.
abbrev pub accepts : List ℕ → List ℕ → User → Bool
accepts username password u =
    (same u.username username && not (u.is_active == 0)) && same u.password_hash password

-- The first of `n` accounts that passes a test.
unfoldable pub find_user : (User → Bool) → ℕ → List User → Option ℕ
unfolding first
find_user test n us = first (λ i. test (user_at us i)) n 0

unfoldable pub login_authenticate : Option (List ℕ) → Option (List ℕ) → Logins → ℤ
unfolding find_user
login_authenticate none password l = negsuc 0
login_authenticate (some username) none l = negsuc 0
login_authenticate (some username) (some password) l =
    elim (find_user (accepts username password) l.num_users l.users) [
      | none ↦ negsuc 0
      | some i ↦ as_int (user_at l.users i).uid
    ]

unfoldable pub login_change_password :
    Option (List ℕ) → Option (List ℕ) → Option (List ℕ) → Logins → ℤ × Logins
unfolding find_user
login_change_password (some username) (some old_pass) (some new_pass) l =
    elim (find_user (λ u. same u.username username) l.num_users l.users) [
      | none ↦ (negsuc 0, l)
      | some i ↦
          let u = user_at l.users i in
          if same u.password_hash old_pass
          then (
            pos 0,
            record l {
              users =
                  set l.users i (record u { password_hash = strncpy u.password_hash new_pass 63 });
            },
          )
          else (negsuc 0, l)
    ]
login_change_password _ _ _ l = (negsuc 0, l)

-- ===== src/Init/Login/Sessions.antt =====
-- kernel/init.c: the login manager's sessions and the screen lock.
-- The window calls of kernel/window.c and the clock `rtc_get_time` are parameters, on a window
-- manager's state `W`.
use tor_os.Prelude.{ℕ, ◌+◌, Bool, true, false, not, ◌&&◌, List, Option, none, some, ◌==◌, set}
use tor_os.Search.{first}
use tor_os.Libc.{strncpy}
use tor_os.Init.Login.{Session, Logins, user_at, session_at, same, max_sessions, find_user}

-- "Find free session slot"
unfoldable pub free_session : List Session → Option ℕ
unfolding first
free_session ss = first (λ i. (session_at ss i).active == 0) max_sessions 0

-- The slot that `login_destroy_session` looks for.
unfoldable pub find_session : ℕ → List Session → Option ℕ
unfolding first
find_session id ss =
    first (λ i. (session_at ss i).session_id == id && not ((session_at ss i).active == 0))
      max_sessions 0

module _ {W : Type 0} where
  -- `create_desktop` creates the desktop window, and sets its order and colour where there is one; the result
  -- is the session's index.
  unfoldable pub login_create_session :
      (W → Option ℕ × W) → ℕ → Option (List ℕ) → Logins × W → Option ℕ × (Logins × W)
  unfolding find_user free_session
  login_create_session create_desktop now none (l, w) = (none, (l, w))
  login_create_session create_desktop now (some username) (l, w) =
      elim (find_user (λ u. same u.username username) l.num_users l.users) [
        | none ↦ (none, (l, w))
        | some u ↦ elim (free_session l.sessions) [
          | none ↦ (none, (l, w))
          | some i ↦
              let v = session_at l.sessions i in
              let r = create_desktop w in
              (
                some i,
                (
                  record l {
                    sessions = set l.sessions i (record v {
                      session_id = i + 1;
                      username = strncpy v.username username 31;
                      uid = (user_at l.users u).uid;
                      login_time = now;
                      last_activity = now;
                      active = 1;
                      desktop_window = r.0;
                    });
                  },
                  r.1,
                ),
              )
        ]
      ]

  unfoldable pub login_destroy_session : (ℕ → W → W) → ℕ → Logins × W → Logins × W
  unfolding find_session
  login_destroy_session close id (l, w) = elim (find_session id l.sessions) [
    | none ↦ (l, w)
    | some i ↦
        let v = session_at l.sessions i in
        (
          record l { sessions = set l.sessions i (record v { active = 0; desktop_window = none }) },
          elim v.desktop_window [ none ↦ w | some p ↦ close p w ],
        )
  ]

unfoldable pub login_lock_screen : Logins → Logins
login_lock_screen l = record l { login_active = 0 }

-- The inner loop of `login_unlock_screen` finds an account for the session `s`.
abbrev pub opens : List ℕ → Logins → Session → Bool
opens password l s =
    not (s.active == 0)
    && elim (find_user (λ u. same u.username s.username && same u.password_hash password)
        l.num_users l.users) [ none ↦ false | some i ↦ true ]

unfoldable pub login_unlock_screen : Option (List ℕ) → Logins → Logins
unfolding find_user first
login_unlock_screen none l = l
login_unlock_screen (some password) l =
    elim (first (λ i. opens password l (session_at l.sessions i)) max_sessions 0) [
      | none ↦ l
      | some i ↦ record l { login_active = 1 }
    ]

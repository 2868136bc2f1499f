-- ===== src/Tests/Guards.antt =====
-- kernel/security.c at concrete inputs.
use tor_os.Prelude.{ℕ, ◌-◌, ◌≡◌, ◌==◌, if◌then◌else◌, List, [], ◌∷◌, none, some, length, drop}
use tor_os.Prelude.Int.{pos}
use tor_os.Security.Rules.{Sandbox, fs_read, allow, sandbox_init, sandbox_add_rule, sandbox_check}
use tor_os.Security.LastMatch.{last_match, sandbox_check-last_match}
use tor_os.Security.Audit.{Call, audit_init, audit_dump, log_all, audit_dump-log_all}

abbrev etc : List ℕ
etc = b'/' ∷ b'e' ∷ b't' ∷ b'c' ∷ []

abbrev anything : List ℕ
anything = b'*' ∷ []

-- Reading anything is allowed, in an active sandbox.
abbrev reader : Sandbox
reader = record (sandbox_add_rule (sandbox_init none) fs_read allow (some anything)).1 {
  active = 1;
}

sandbox_check-last_match_example :
    (sandbox_check none fs_read (some etc) ≡ allow)
    × (sandbox_check (some reader) fs_read (some etc) ≡ (
        if reader.active == 0
        then allow
        else last_match reader.rules fs_read (some etc) reader.num_rules))
sandbox_check-last_match_example = sandbox_check-last_match reader fs_read (some etc)

abbrev login_event : ℕ → Call
login_event t = record {
  event = some etc;
  who = some (1000, 3);
  detail = none;
  result = pos 0;
  now = t;
}

audit_dump-log_all_example :
    let (a, written) = log_all (login_event 1 ∷ login_event 2 ∷ []) audit_init [] in
    audit_dump a ≡ drop (length written - 256) written
audit_dump-log_all_example = audit_dump-log_all (login_event 1 ∷ login_event 2 ∷ [])

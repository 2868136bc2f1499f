-- ===== src/Security/Rules.antt =====
-- The sandboxes of kernel/security.c: rules, and the last rule that matches wins.
use tor_os.Prelude.{
  ℕ, zero, suc, ◌+◌, Bool, true, false, ◌&&◌, ◌||◌, List, [], ◌∷◌, Option, none, some, ◌==◌, leb,
  if◌then◌else◌, get_or, set, replicate,
}
use tor_os.Prelude.Int.{ℤ, pos, negsuc}
use tor_os.Libc.{strstr, strncpy, copy_name}

pub data RuleType : Type 0 where
  fs_read fs_write fs_exec net_connect net_listen proc_fork proc_exec sys_reboot sys_time : RuleType

abbrev pub type_eq : RuleType → RuleType → Bool
type_eq fs_read fs_read = true
type_eq fs_write fs_write = true
type_eq fs_exec fs_exec = true
type_eq net_connect net_connect = true
type_eq net_listen net_listen = true
type_eq proc_fork proc_fork = true
type_eq proc_exec proc_exec = true
type_eq sys_reboot sys_reboot = true
type_eq sys_time sys_time = true
type_eq _ _ = false

abbrev pub allow : ℕ
allow = 1

abbrev pub deny : ℕ
deny = 0

abbrev pub max_rules : ℕ
max_rules = 32

pub record Rule : Type 0 where
  pub type : RuleType
  pub action : ℕ
  pub pattern : List ℕ

pub record Sandbox : Type 0 where
  pub rules : List Rule
  pub num_rules : ℕ
  pub active : ℕ
  pub name : List ℕ

-- What `sandbox_init` puts in every slot: deny reading anything.
unfoldable pub deny_rule : Rule
deny_rule = record { type = fs_read; action = deny; pattern = set (replicate 128 0) 0 b'*' }

-- "sandbox", the name where none is given
abbrev default_name : List ℕ
default_name = b's' ∷ b'a' ∷ b'n' ∷ b'd' ∷ b'b' ∷ b'o' ∷ b'x' ∷ []

abbrev pub name_or : Option (List ℕ) → List ℕ → List ℕ
name_or none d = d
name_or (some s) d = s

unfoldable pub sandbox_init : Option (List ℕ) → Sandbox
unfolding deny_rule
sandbox_init name = record {
  rules = replicate max_rules deny_rule;
  num_rules = 0;
  active = 0;
  name = strncpy (replicate 32 0) (name_or name default_name) 31;
}

unfoldable pub sandbox_add_rule : Sandbox → RuleType → ℕ → Option (List ℕ) → ℤ × Sandbox
unfolding deny_rule
sandbox_add_rule box type action pattern =
    if leb max_rules box.num_rules then (negsuc 0, box) else (
      pos 0,
      record box {
        rules = set box.rules box.num_rules (record {
          type = type;
          action = action;
          pattern =
              copy_name (get_or box.rules box.num_rules deny_rule).pattern
                (name_or pattern (b'*' ∷ [])) 127;
        });
        num_rules = box.num_rules + 1;
      },
    )

abbrev pub found : Option (List ℕ) → Bool
found none = false
found (some p) = true

-- `pattern[0] == '*' || (target && strstr(target, pattern))`
unfoldable pub rule_matches : Rule → Option (List ℕ) → Bool
unfolding strstr
rule_matches r none = get_or r.pattern 0 0 == b'*'
rule_matches r (some t) = get_or r.pattern 0 0 == b'*' || found (strstr t r.pattern)

-- The loop of `sandbox_check`: `n` rounds from index `i`.
unfoldable pub check_rules : List Rule → RuleType → Option (List ℕ) → ℕ → ℕ → ℕ → ℕ
unfolding rule_matches deny_rule
check_rules rules type target zero i result = result
check_rules rules type target (suc n) i result =
    let r = get_or rules i deny_rule in
    check_rules rules type target n (i + 1)
      (if type_eq r.type type && rule_matches r target then r.action else result)

unfoldable pub sandbox_check : Option Sandbox → RuleType → Option (List ℕ) → ℕ
unfolding check_rules
sandbox_check none type target = allow
sandbox_check (some box) type target =
    if box.active == 0 then allow else check_rules box.rules type target box.num_rules 0 deny

-- Where the sandboxes stand: `active_sandbox` is an index into `boxes`, and `in_sandbox` the flag of
-- the kernel's own context.
pub record Boxes : Type 0 where
  pub boxes : List Sandbox
  pub active_sandbox : Option ℕ
  pub in_sandbox : ℕ

abbrev pub box_at : Boxes → ℕ → Sandbox
box_at s b = get_or s.boxes b (sandbox_init none)

unfoldable pub sandbox_enter : ℕ → Boxes → Boxes
sandbox_enter b s = record {
  boxes = set s.boxes b (record (box_at s b) { active = 1 });
  active_sandbox = some b;
  in_sandbox = 1;
}

abbrev is_box : Option ℕ → ℕ → Bool
is_box none b = false
is_box (some a) b = a == b

unfoldable pub sandbox_leave : ℕ → Boxes → Boxes
sandbox_leave b s = record {
  boxes = set s.boxes b (record (box_at s b) { active = 0 });
  active_sandbox = if is_box s.active_sandbox b then none else s.active_sandbox;
  in_sandbox = 0;
}

-- What `sandbox_current` copies out: the active sandbox, or zeros.
abbrev zero_box : Sandbox
zero_box = record {
  rules = replicate max_rules (record { type = fs_read; action = 0; pattern = replicate 128 0 });
  num_rules = 0;
  active = 0;
  name = replicate 32 0;
}

unfoldable pub sandbox_current : Boxes → Sandbox
sandbox_current s = elim s.active_sandbox [ none ↦ zero_box | some b ↦ box_at s b ]

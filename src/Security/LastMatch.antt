-- ===== src/Security/LastMatch.antt =====
-- What a sandbox answers: the last rule that matches wins, and a rule added last overrides.
use native.Mathlib.Numerals.{add-one}
use tor_os.Prelude.{
  ℕ, zero, suc, ◌+◌, ◌<◌, ◌≤◌, ◌≡◌, refl, ap, ◌∙◌, Bool, false, ◌&&◌, List, [], ◌∷◌, Option, none,
  some, ◌==◌, if◌then◌else◌, get_or, set, length, arith, get_or-set_if,
}
use tor_os.Prelude.Int.{pos, negsuc}
use tor_os.Libc.{copy_name}
use tor_os.Security.Rules.{
  Rule, RuleType, Sandbox, type_eq, rule_matches, check_rules, sandbox_check, sandbox_add_rule,
  deny_rule, deny, allow, max_rules, name_or,
}

-- The rules in the order in which they win: the last one first.
abbrev pub hits : RuleType → Option (List ℕ) → Rule → Bool
hits type target r = type_eq r.type type && rule_matches r target

-- The action of the last of the rules `0 ... n - 1` that matches, or deny.
pub last_match : List Rule → RuleType → Option (List ℕ) → ℕ → ℕ
last_match rules type target zero = deny
last_match rules type target (suc n) =
    if hits type target (get_or rules n deny_rule)
    then (get_or rules n deny_rule).action
    else last_match rules type target n

-- A loop from `i` with the answer for the rules below `i` gives the answer for all.
check_rules-last :
    (rules : List Rule) (type : RuleType) (target : Option (List ℕ)) (n i result : ℕ)
    → result ≡ last_match rules type target i
    → check_rules rules type target n i result ≡ last_match rules type target (i + n)
unfolding check_rules last_match
check_rules-last rules type target zero i result e =
    e ∙ ap (last_match rules type target) (omega arith)
check_rules-last rules type target (suc n) i result e =
    check_rules-last rules type target n (i + 1) _ (rw add-one (ground (arith, e)))
    ∙ ap (last_match rules type target) (omega arith)

-- An active sandbox answers with the action of the last rule that matches, and denies if none does;
-- a sandbox that is not active, or none, allows.
pub sandbox_check-last_match :
    (box : Sandbox) (type : RuleType) (target : Option (List ℕ))
    → (sandbox_check none type target ≡ allow)
      × (sandbox_check (some box) type target
          ≡ (if box.active == 0 then allow else last_match box.rules type target box.num_rules))
unfolding sandbox_check
sandbox_check-last_match box type target = (
  refl,
  ap (λ k. if box.active == 0 then allow else k)
      (check_rules-last box.rules type target box.num_rules 0 deny (unfold last_match in refl)
        ∙ ap (last_match box.rules type target) (omega arith)),
)

last_match-set :
    (rules : List Rule) (type : RuleType) (target : Option (List ℕ)) (n k : ℕ) (r : Rule)
    → n ≤ k
    → k < length rules
    → last_match (set rules k r) type target n ≡ last_match rules type target n
unfolding last_match
last_match-set rules type target zero k r h lt = refl
last_match-set rules type target (suc n) k r h lt = ground (
  arith,
  get_or-set_if rules k n r deny_rule lt,
  last_match-set rules type target n k r (omega arith) lt,
)

-- The rule that `sandbox_add_rule` writes.
abbrev pub new_rule : Sandbox → RuleType → ℕ → Option (List ℕ) → Rule
new_rule box type action pattern = record {
  type = type;
  action = action;
  pattern =
      copy_name (get_or box.rules box.num_rules deny_rule).pattern (name_or pattern (b'*' ∷ []))
        127;
}

abbrev added : Sandbox → RuleType → ℕ → Option (List ℕ) → Sandbox
added box type action pattern = record box {
  rules = set box.rules box.num_rules (new_rule box type action pattern);
  num_rules = box.num_rules + 1;
}

add_full :
    (box : Sandbox) (type : RuleType) (action : ℕ) (pattern : Option (List ℕ))
    → max_rules ≤ box.num_rules
    → sandbox_add_rule box type action pattern ≡ (negsuc 0, box)
unfolding sandbox_add_rule
add_full box type action pattern h = ground arith

add_room :
    (box : Sandbox) (type : RuleType) (action : ℕ) (pattern : Option (List ℕ))
    → box.num_rules < max_rules
    → sandbox_add_rule box type action pattern ≡ (pos 0, added box type action pattern)
unfolding sandbox_add_rule
add_room box type action pattern h = ground arith

last_match-added :
    (rules : List Rule) (type : RuleType) (target : Option (List ℕ)) (k : ℕ) (r : Rule)
    → k < length rules
    → last_match (set rules k r) type target (k + 1)
      ≡ (if hits type target r then r.action else last_match rules type target k)
unfolding last_match
last_match-added rules type target k r lt = rw add-one (
    ground (
      arith,
      get_or-set_if rules k k r deny_rule lt,
      last_match-set rules type target k k r (omega arith) lt,
    ))

-- `sandbox_add_rule`, on a sandbox with its 32 slots: it fails, and changes nothing, exactly when 32
-- rules are there; otherwise the new rule overrides all earlier ones wherever it matches, and
-- elsewhere the sandbox answers as before.
pub sandbox_check-sandbox_add_rule :
    (box : Sandbox) (type : RuleType) (action : ℕ) (pattern : Option (List ℕ))
    → length box.rules ≡ max_rules
    → (max_rules ≤ box.num_rules → sandbox_add_rule box type action pattern ≡ (negsuc 0, box))
      × (box.num_rules < max_rules
          → ((sandbox_add_rule box type action pattern).0 ≡ pos 0)
            × ((t : RuleType) (target : Option (List ℕ))
                → (box.active == 0) ≡ false
                → sandbox_check (some (sandbox_add_rule box type action pattern).1) t target ≡ (
                    if hits t target (new_rule box type action pattern)
                    then action
                    else sandbox_check (some box) t target)))
sandbox_check-sandbox_add_rule box type action pattern size = (
  add_full box type action pattern,
  λ lt. (
    ap (λ r. r.0) (add_room box type action pattern lt),
    λ t target act. rw (add_room box type action pattern lt) (
        (sandbox_check-last_match (added box type action pattern) t target).1
        ∙ ground (
          arith,
          (sandbox_check-last_match box t target).1,
          last_match-added box.rules t target box.num_rules (new_rule box type action pattern)
              (omega arith),
        )),
  ),
)

-- ===== src/Security/Audit.antt =====
-- The audit log of kernel/security.c: a ring of 256 entries.
-- `audit_count`, an `int`, counts without bound: the model holds below 2 ^ 31 entries.
use native.Mathlib.Numerals.{add-one}
use tor_os.Prelude.{
  ℕ, zero, suc, ◌+◌, ◌-◌, ◌%◌, ◌≤◌, ◌≡◌, refl, sym, ap, ◌∙◌, List, [], ◌∷◌, ◌++◌, Option, none,
  some, ◌==◌, ltb, if◌then◌else◌, get_or, set, replicate, length, arith, length-append,
  length-replicate, drop, drop_all, drop-get_or, Option-cases, inl, inr, subst,
}
use tor_os.Prelude.Int.{ℤ, pos}
use tor_os.Libc.{strncpy}
use tor_os.Ring.{Holds, Holds-push}

abbrev pub audit_max_entries : ℕ
audit_max_entries = 256

-- `audit_entry_t`
pub record Entry : Type 0 where
  pub timestamp : ℕ
  pub event : List ℕ
  pub uid : ℕ
  pub priv_level : ℕ
  pub detail : List ℕ
  pub result : ℤ

unfoldable pub blank_entry : Entry
blank_entry = record {
  timestamp = 0;
  event = replicate 32 0;
  uid = 0;
  priv_level = 0;
  detail = replicate 128 0;
  result = pos 0;
}

pub record Audit : Type 0 where
  pub audit_log_entries : List Entry
  pub audit_count : ℕ
  pub audit_enabled : ℕ

unfoldable pub audit_init : Audit
audit_init = record {
  audit_log_entries = replicate audit_max_entries blank_entry;
  audit_count = 0;
  audit_enabled = 1;
}

-- What the caller of `audit_log` hands over: `who` is the context's uid and privilege level.
pub record Call : Type 0 where
  pub event : Option (List ℕ)
  pub who : Option (ℕ × ℕ)
  pub detail : Option (List ℕ)
  pub result : ℤ
  pub now : ℕ

abbrev who_or : Option (ℕ × ℕ) → ℕ × ℕ
who_or none = (0, 0)
who_or (some p) = p

abbrev text_or_empty : Option (List ℕ) → List ℕ
text_or_empty none = []
text_or_empty (some s) = s

-- The entry that `audit_log` writes over an old one.
abbrev pub fill : Entry → List ℕ → Call → Entry
fill old event c = record {
  timestamp = c.now;
  event = strncpy old.event event 31;
  uid = (who_or c.who).0;
  priv_level = (who_or c.who).1;
  detail = strncpy old.detail (text_or_empty c.detail) 127;
  result = c.result;
}

unfoldable pub audit_log : Call → Audit → Audit
audit_log c a = if a.audit_enabled == 0 then a else elim c.event [
  | none ↦ a
  | some event ↦
      let idx : ℕ = a.audit_count % audit_max_entries in
      record a {
        audit_log_entries =
            set a.audit_log_entries idx (fill (get_or a.audit_log_entries idx blank_entry) event c);
        audit_count = a.audit_count + 1;
      }
]

-- The entries that `audit_dump` prints: `n` from number `i` on.
unfoldable pub dump_from : List Entry → ℕ → ℕ → List Entry
dump_from entries zero i = []
dump_from entries (suc n) i =
    get_or entries (i % audit_max_entries) blank_entry ∷ dump_from entries n (i + 1)

unfoldable pub audit_dump : Audit → List Entry
unfolding dump_from
audit_dump a =
    let start : ℕ =
      if ltb audit_max_entries a.audit_count then a.audit_count - audit_max_entries else 0 in
    dump_from a.audit_log_entries (a.audit_count - start) start

-- The entry that a call writes over what its slot holds; `none` where the call writes nothing.
abbrev pub entry_of : Call → Audit → Option Entry
entry_of c a = if a.audit_enabled == 0 then none else elim c.event [
  | none ↦ none
  | some event ↦
      some
        (fill (get_or a.audit_log_entries (a.audit_count % audit_max_entries) blank_entry) event c)
]

abbrev push_entry : List Entry → Option Entry → List Entry
push_entry written none = written
push_entry written (some e) = written ++ e ∷ []

-- The state after a run of calls, and every entry that the run wrote, oldest first.
pub log_all : List Call → Audit → List Entry → Audit × List Entry
log_all [] a written = (a, written)
log_all (c ∷ cs) a written = log_all cs (audit_log c a) (push_entry written (entry_of c a))

record Logged (a : Audit) (written : List Entry) : Type 0 where
  holds : Holds blank_entry audit_max_entries a.audit_log_entries written
  counted : a.audit_count ≡ length written

module _ (c : Call) (a : Audit) where
  audit_log-none : entry_of c a ≡ none → audit_log c a ≡ a
  unfolding audit_log
  audit_log-none e = ground arith

  audit_log-some :
      (x : Entry)
      → entry_of c a ≡ some x
      → audit_log c a ≡ record a {
        audit_log_entries = set a.audit_log_entries (a.audit_count % audit_max_entries) x;
        audit_count = a.audit_count + 1;
      }
  unfolding audit_log
  audit_log-some x e = ground arith

audit_log-Logged :
    (c : Call) (a : Audit) (written : List Entry)
    → Logged a written
    → Logged (audit_log c a) (push_entry written (entry_of c a))
audit_log-Logged c a written l = elim (Option-cases (entry_of c a)) [
  | inl e ↦ rw (e, audit_log-none c a e) l
  | inr (x, e) ↦
      rw (e, audit_log-some c a x e)
        (record {
          holds =
              subst
                (λ k.
                  Holds blank_entry audit_max_entries
                    (set a.audit_log_entries (k % audit_max_entries) x) (written ++ x ∷ []))
                (sym l.counted)
                (Holds-push blank_entry audit_max_entries a.audit_log_entries written x
                  (omega arith) l.holds);
          counted = omega (arith, l.counted, length-append written (x ∷ []));
        })
]

log_all-Logged :
    (cs : List Call) (a : Audit) (written : List Entry)
    → Logged a written
    → Logged (log_all cs a written).0 (log_all cs a written).1
unfolding log_all
log_all-Logged [] a written l = l
log_all-Logged (c ∷ cs) a written l =
    log_all-Logged cs (audit_log c a) (push_entry written (entry_of c a))
      (audit_log-Logged c a written l)

audit_init-Logged : Logged audit_init []
unfolding audit_init
audit_init-Logged = record {
  holds = record {
    room = length-replicate 256 blank_entry;
    entries = λ i h near. absurd (omega arith);
  };
  counted = refl;
}

dump_from-drop :
    (entries written : List Entry) (n i : ℕ)
    → Holds blank_entry audit_max_entries entries written
    → n + i ≡ length written
    → length written ≤ i + 256
    → dump_from entries n i ≡ drop i written
unfolding dump_from
dump_from-drop entries written zero i h e near = sym (drop_all i written (omega arith))
dump_from-drop entries written (suc n) i h e near = rw (
  drop-get_or i written blank_entry (omega arith),
  h.entries i (omega arith) near,
  dump_from-drop entries written n (i + 1) h (omega arith) (omega arith),
  add-one,
)

-- After any run of calls of `audit_log` from `audit_init`, `audit_dump` shows the last 256 entries
-- that the run wrote, or all of them if there were fewer, oldest first.
pub audit_dump-log_all :
    (cs : List Call)
    → let (a, written) = log_all cs audit_init [] in
      audit_dump a ≡ drop (length written - 256) written
unfolding audit_dump
audit_dump-log_all cs =
    let a = (log_all cs audit_init []).0 in
    let written = (log_all cs audit_init []).1 in
    let l = log_all-Logged cs audit_init [] audit_init-Logged in
    let start : ℕ =
      if ltb audit_max_entries a.audit_count then a.audit_count - audit_max_entries else 0 in
    let e : start ≡ length written - 256 = ground (arith, l.counted) in
    dump_from-drop a.audit_log_entries written (a.audit_count - start) start l.holds
      (omega (arith, l.counted, e)) (omega (arith, e))
    ∙ ap (λ k. drop k written) e

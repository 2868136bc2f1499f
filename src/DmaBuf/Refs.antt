-- ===== src/DmaBuf/Refs.antt =====
-- kernel/dmabuf.c: reference counts, and the list of handles.
use tor_os.Prelude.{
  ℕ, ◌^◌, ◌≤◌, ◌<◌, ◌≡◌, refl, sym, ap, subst, ◌∙◌, true, false, List, [], ◌∷◌, Option, none, some,
  arith, ◌==◌, if◌then◌else◌, count, Bool-cases, inl, inr,
}
use tor_os.DmaBuf.{Bufs, Handle, set_refs, unlink, find_id}

-- The live handles: each in the list once, its id its own and below the next, its count positive.
pub record ListIsValid (b : Bufs) : Type 0 where
  pub once : (p : ℕ) → count p b.dmabuf_list ≤ 1
  pub ids :
      (p q : ℕ)
      → 0 < count p b.dmabuf_list
      → 0 < count q b.dmabuf_list
      → (b.handles p).id ≡ (b.handles q).id
      → p ≡ q
  pub live :
      (p : ℕ)
      → 0 < count p b.dmabuf_list
      → (0 < (b.handles p).ref_count) × ((b.handles p).ref_count < 2 ^ 32)

find_id-hit :
    (id : ℕ) (hs : ℕ → Handle) (q : ℕ) (ps : List ℕ)
    → ((hs q).id == id) ≡ true
    → find_id id hs (q ∷ ps) ≡ some q
unfolding find_id
find_id-hit id hs q ps e = rw (e, find_id) refl

find_id-miss :
    (id : ℕ) (hs : ℕ → Handle) (q : ℕ) (ps : List ℕ)
    → ((hs q).id == id) ≡ false
    → find_id id hs (q ∷ ps) ≡ find_id id hs ps
unfolding find_id
find_id-miss id hs q ps e = rw (e, find_id) refl

pub find_id-some :
    (id : ℕ) (hs : ℕ → Handle) (ps : List ℕ) (p : ℕ)
    → find_id id hs ps ≡ some p
    → (0 < count p ps) × ((hs p).id ≡ id)
unfolding find_id
find_id-some id hs [] p h = cc
find_id-some id hs (q ∷ ps) p h = elim (Bool-cases ((hs q).id == id)) [
  | inl e ↦
      let r : q ≡ p = ground (arith, find_id-hit id hs q ps e) in
      subst (λ x. (0 < count x (q ∷ ps)) × ((hs x).id ≡ id)) r (ground arith, ground arith)
  | inr e ↦
      let r = find_id-some id hs ps p (sym (find_id-miss id hs q ps e) ∙ h) in
      (omega (arith, r.0), r.1)
]

pub none-ne-some : (a : ℕ) → ◌≡◌ {A = Option ℕ} none (some a) → ⊥
none-ne-some a h = cc

pub differ : (a b : ℕ) → (a == b) ≡ false → a ≡ b → ⊥
differ a b h e = ground arith

pub eq_refl : (i : ℕ) → (i == i) ≡ true
eq_refl i = ground arith

apart : (hs : ℕ → Handle) (id p q : ℕ) → (hs p).id ≡ id → ((hs q).id == id) ≡ false → p ≡ q → ⊥
apart hs id p q e r x = differ (hs q).id id r (subst (λ y. (hs y).id ≡ id) x e)

elsewhere : (p q : ℕ) (ps : List ℕ) → 0 < count p (q ∷ ps) → (p ≡ q → ⊥) → 0 < count p ps
elsewhere p q ps c ne = elim (Bool-cases (p == q)) [
  | inl e ↦ absurd (ne (ground arith))
  | inr e ↦ ground arith
]

pub find_id-none :
    (id : ℕ) (hs : ℕ → Handle) (ps : List ℕ)
    → find_id id hs ps ≡ none
    → (p : ℕ) → 0 < count p ps
    → (hs p).id ≡ id
    → ⊥
unfolding find_id
find_id-none id hs [] h p c e = omega arith
find_id-none id hs (q ∷ ps) h p c e = elim (Bool-cases ((hs q).id == id)) [
  | inl r ↦ none-ne-some q (sym h ∙ find_id-hit id hs q ps r)
  | inr r ↦
      find_id-none id hs ps (sym (find_id-miss id hs q ps r) ∙ h) p
        (elsewhere p q ps c (λ x. apart hs id p q e r x)) e
]

count-unlink_self : (p : ℕ) (ps : List ℕ) → count p ps ≤ 1 → count p (unlink p ps) ≡ 0
unfolding unlink
count-unlink_self p [] h = refl
count-unlink_self p (q ∷ ps) h = ground (arith, count-unlink_self p ps)

count-unlink_ne : (p q : ℕ) (ps : List ℕ) → (p == q) ≡ false → count q (unlink p ps) ≡ count q ps
unfolding unlink
count-unlink_ne p q [] h = refl
count-unlink_ne p q (r ∷ ps) h = ground (arith, count-unlink_ne p q ps h)

pub set_refs-same :
    (p q n : ℕ) (b : Bufs) → (p == q) ≡ false → (set_refs p n b).handles q ≡ b.handles q
set_refs-same p q n b e =
    ap (λ c. if c then record (b.handles p) { ref_count = n } else b.handles q) e

pub set_refs-id : (p q n : ℕ) (b : Bufs) → ((set_refs p n b).handles q).id ≡ (b.handles q).id
set_refs-id p q n b = elim (Bool-cases (p == q)) [
  | inl e ↦
      let r : p ≡ q = ground arith in
      ap (λ c. (if c then record (b.handles p) { ref_count = n } else b.handles q).id) e
      ∙ ap (λ x. (b.handles x).id) r
  | inr e ↦ ap (λ h. h.id) (set_refs-same p q n b e)
]

pub set_refs_self : (p n : ℕ) (b : Bufs) → ((set_refs p n b).handles p).ref_count ≡ n
set_refs_self p n b = rw (eq_refl p) refl

-- A count that stays positive keeps the list valid.
pub set_refs-ListIsValid :
    (p n : ℕ) (b : Bufs) → ListIsValid b → 0 < n → n < 2 ^ 32 → ListIsValid (set_refs p n b)
set_refs-ListIsValid p n b v pos small = record {
  once = v.once;
  ids = λ q r hq hr e. v.ids q r hq hr (sym (set_refs-id p q n b) ∙ e ∙ set_refs-id p r n b);
  live = λ q h. elim (Bool-cases (p == q)) [
    | inl e ↦
        let r : p ≡ q = ground arith in
        subst
          (λ x.
            (0 < ((set_refs p n b).handles x).ref_count)
            × (((set_refs p n b).handles x).ref_count < 2 ^ 32))
          r (omega (arith, set_refs_self p n b), omega (arith, set_refs_self p n b))
    | inr e ↦
        subst (λ k. (0 < k.ref_count) × (k.ref_count < 2 ^ 32)) (sym (set_refs-same p q n b e))
          (v.live q h)
  ];
}

pub empty : (n : ℕ) → 0 < n → n ≡ 0 → ⊥
empty n h e = omega arith

-- The handle at `p` out of the list.
abbrev pub removed : ℕ → Bufs → Bufs
removed p b = record b { dmabuf_list = unlink p b.dmabuf_list }

count-unlink-le : (p q : ℕ) (ps : List ℕ) → count q (unlink p ps) ≤ count q ps
unfolding unlink
count-unlink-le p q [] = omega arith
count-unlink-le p q (r ∷ ps) = ground (arith, count-unlink-le p q ps)

-- A handle that is still listed is another.
pub kept :
    (p q : ℕ) (b : Bufs)
    → ListIsValid b
    → 0 < count q (unlink p b.dmabuf_list)
    → ((p == q) ≡ false) × (0 < count q b.dmabuf_list)
kept p q b v h = elim (Bool-cases (p == q)) [
  | inl e ↦
      let r : p ≡ q = ground arith in
      absurd (
        empty (count q (unlink p b.dmabuf_list)) h (
          subst (λ x. count x (unlink p b.dmabuf_list) ≡ 0) r
            (count-unlink_self p b.dmabuf_list (v.once p))))
  | inr e ↦ (e, omega (arith, count-unlink-le p q b.dmabuf_list))
]

-- The last reference to the handle at `p` is gone.
pub removed-ListIsValid :
    (p n : ℕ) (b : Bufs) → ListIsValid b → ListIsValid (removed p (set_refs p n b))
removed-ListIsValid p n b v = record {
  once = λ q. omega (arith, v.once q, count-unlink-le p q b.dmabuf_list);
  ids = λ q r hq hr e.
      v.ids q r (kept p q b v hq).1 (kept p r b v hr).1
        (sym (set_refs-id p q n b) ∙ e ∙ set_refs-id p r n b);
  live = λ q h.
      subst (λ k. (0 < k.ref_count) × (k.ref_count < 2 ^ 32))
        (sym (set_refs-same p q n b (kept p q b v h).0)) (v.live q (kept p q b v h).1);
}

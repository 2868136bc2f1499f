-- ===== src/DmaBuf/Unref.antt =====
-- kernel/dmabuf.c: `dmabuf_get` and `dmabuf_unref` on a valid list of handles.
use tor_os.Prelude.{
  ℕ, ◌+◌, ◌-◌, ◌^◌, ◌<◌, ◌≡◌, ◌⊎◌, refl, sym, ap, subst, ◌∙◌, false, none, some, arith, ◌==◌,
  if◌then◌else◌, count, Bool-cases, Option-cases, inl, inr,
}
use tor_os.Mm.{Mem, page_free}
use tor_os.DmaBuf.{Bufs, u32, set_refs, find_id, dmabuf_get, dmabuf_unref, dmabuf_free}
use tor_os.DmaBuf.Refs.{
  ListIsValid, removed, find_id-some, find_id-none, differ, eq_refl, set_refs-id, set_refs_self,
  set_refs-ListIsValid, kept, removed-ListIsValid,
}

-- A handle is in the list.
abbrev pub listed : ℕ → Bufs → ℕ
listed p b = count p b.dmabuf_list

module _ (b : Bufs) (v : ListIsValid b) (on : (b.initialized == 0) ≡ false) where
  -- `dmabuf_get` on a valid list returns the one handle in the list that has the id, and NULL if
  -- none has it.
  pub dmabuf_get_lem :
      (id : ℕ)
      → ((p : ℕ) × (dmabuf_get id b ≡ some p)
          × (0 < listed p b)
          × ((b.handles p).id ≡ id)
          × ((q : ℕ) → 0 < listed q b → (b.handles q).id ≡ id → q ≡ p))
        ⊎ ((dmabuf_get id b ≡ none) × ((q : ℕ) → 0 < listed q b → (b.handles q).id ≡ id → ⊥))
  unfolding dmabuf_get
  dmabuf_get_lem id = elim (Option-cases (find_id id b.handles b.dmabuf_list)) [
    | inl e ↦ inr (rw on e, find_id-none id b.handles b.dmabuf_list e)
    | inr (p, e) ↦
        let f = find_id-some id b.handles b.dmabuf_list p e in
        inl (p, rw on e, f.0, f.1, λ q h i. v.ids q p h f.0 (i ∙ sym f.1))
  ]

  pub get-listed : (p : ℕ) → 0 < listed p b → dmabuf_get (b.handles p).id b ≡ some p
  get-listed p h = elim (dmabuf_get_lem (b.handles p).id) [
    | inl (q, e, l, i, one) ↦ e ∙ ap some (sym (one p h refl))
    | inr (e, never) ↦ absurd (never p h refl)
  ]

same_list : (b : Bufs) (m : Mem) → ListIsValid b → ListIsValid (record b { mem = m })
same_list b m v = record { once = v.once; ids = v.ids; live = v.live }

-- The allocator after the page of the handle at `p`, if it has one, is given back.
abbrev pub page_given_back : ℕ → ℕ → Bufs → Mem
page_given_back kernel_end p b =
    if (b.handles p).vaddr == 0 then b.mem else page_free kernel_end (b.handles p).vaddr b.mem

-- The state after the last reference is dropped.
abbrev last_dropped : ℕ → ℕ → Bufs → Bufs
last_dropped kernel_end p b = record (removed p (set_refs p 0 b)) {
  mem = page_given_back kernel_end p (set_refs p 0 b);
}

module _ (kernel_end p : ℕ) (b : Bufs) (on : (b.initialized == 0) ≡ false) where
  unref_one :
      (b.handles p).ref_count ≡ 1 → dmabuf_unref kernel_end (some p) b ≡ last_dropped kernel_end p b
  unfolding dmabuf_unref dmabuf_free
  unref_one h =
      let e : u32 ((b.handles p).ref_count + 2 ^ 32 - 1) ≡ 0 = omega arith in rw (on, e) refl

  unref_many :
      1 < (b.handles p).ref_count
      → (b.handles p).ref_count < 2 ^ 32
      → dmabuf_unref kernel_end (some p) b ≡ set_refs p ((b.handles p).ref_count - 1) b
  unfolding dmabuf_unref
  unref_many h small =
      let e : u32 ((b.handles p).ref_count + 2 ^ 32 - 1) ≡ (b.handles p).ref_count - 1 =
        omega arith in
      let z : ((b.handles p).ref_count - 1 == 0) ≡ false = ground arith in rw (on, e, z) refl

  given_back-set_refs :
      page_given_back kernel_end p (set_refs p 0 b) ≡ page_given_back kernel_end p b
  given_back-set_refs = rw (eq_refl p) refl

  -- Its id is not found once the handle is out of the list.
  get-removed :
      ListIsValid b
      → 0 < listed p b
      → dmabuf_get (b.handles p).id (last_dropped kernel_end p b) ≡ none
  get-removed v h =
      let w =
        same_list (removed p (set_refs p 0 b)) (page_given_back kernel_end p (set_refs p 0 b))
          (removed-ListIsValid p 0 b v) in
      elim (dmabuf_get_lem (last_dropped kernel_end p b) w on (b.handles p).id) [
        | inl (q, e, l, i, one) ↦
            let k = kept p q b v l in
            absurd (differ p q k.0 (sym (v.ids q p k.1 h (sym (set_refs-id p q 0 b) ∙ i))))
        | inr (e, never) ↦ e
      ]

  -- `dmabuf_unref` of a listed handle keeps the list valid. The last reference takes the handle out
  -- of the list, so that its id is found no more, and gives its page back if it has one; any other
  -- takes one from the count, changes no other part of the allocator or the list, and the id is
  -- still found.
  pub dmabuf_unref_lem :
      ListIsValid b
      → 0 < listed p b
      → let b' = dmabuf_unref kernel_end (some p) b in
        ListIsValid b'
        × ((((b.handles p).ref_count ≡ 1)
              × (dmabuf_get (b.handles p).id b' ≡ none)
              × (b'.mem ≡ page_given_back kernel_end p b))
            ⊎ (((b'.handles p).ref_count + 1 ≡ (b.handles p).ref_count)
                × (dmabuf_get (b.handles p).id b' ≡ some p)
                × (b'.dmabuf_list ≡ b.dmabuf_list)
                × (b'.mem ≡ b.mem)))
  dmabuf_unref_lem v h = elim (Bool-cases ((b.handles p).ref_count == 1)) [
    | inl one ↦ rw (unref_one (ground arith)) (
      same_list (removed p (set_refs p 0 b)) (page_given_back kernel_end p (set_refs p 0 b))
          (removed-ListIsValid p 0 b v),
      inl (ground arith, get-removed v h, given_back-set_refs),
    )
    | inr more ↦
        let l = v.live p h in
        let n : ℕ = (b.handles p).ref_count - 1 in
        let many : 1 < (b.handles p).ref_count = ground (arith, l.0) in
        let w = set_refs-ListIsValid p n b v (omega arith) (omega (arith, l.1)) in
        rw (unref_many many l.1) (
          w,
          inr (
            omega (arith, set_refs_self p n b),
            subst (λ i. dmabuf_get i (set_refs p n b) ≡ some p) (set_refs-id p p n b)
                (get-listed (set_refs p n b) w on p h),
            refl,
            refl,
          ),
        )
  ]

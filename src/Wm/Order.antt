-- ===== src/Wm/Order.antt =====
-- The list of windows: its order by level, and where a window is put in.
use tor_os.Prelude.{
  ℕ, suc, ◌-◌, ◌<◌, ◌≡◌, refl, sym, ap, true, List, [], ◌∷◌, ◌++◌, ◌==◌, if◌then◌else◌, Bool-cases,
  inl, inr, arith, count, length,
}
use tor_os.Prelude.Int.{ℤ, ltb_ℤ, leb_ℤ, ◌≤ℤ◌}
use tor_os.Wm.{Window, insert_window, unlink_window}

module _ (p k : ℕ) where
  pub count-unlink_window :
      (ws : List ℕ) → count k (unlink_window p ws) ≡ (if k == p then count k ws - 1 else count k ws)
  unfolding unlink_window
  count-unlink_window [] = ground arith
  count-unlink_window (q ∷ rest) = ground (arith, count-unlink_window rest)

pub length-unlink_window :
    (p : ℕ) (ws : List ℕ) → 0 < count p ws → suc (length (unlink_window p ws)) ≡ length ws
unfolding unlink_window
length-unlink_window p [] h = absurd (omega arith)
length-unlink_window p (q ∷ rest) h = ground (arith, length-unlink_window p rest)

pub unlink_window-absent : (p : ℕ) (ws : List ℕ) → count p ws ≡ 0 → unlink_window p ws ≡ ws
unfolding unlink_window
unlink_window-absent p [] h = refl
unlink_window-absent p (q ∷ rest) h = elim (Bool-cases (q == p)) [
  | inl e ↦ absurd (ground arith)
  | inr e ↦ rw (e, unlink_window) (ap (λ l. q ∷ l) (unlink_window-absent p rest (ground arith)))
]

module _ (store : ℕ → Window) where
  abbrev pub level : ℕ → ℤ
  level p = (store p).z_order

  -- No window of the list lies below the level.
  abbrev pub NoneBelow : ℤ → List ℕ → Type 0
  NoneBelow k [] = Unit {0}
  NoneBelow k (q ∷ rest) = (k ≤ℤ level q) × NoneBelow k rest

  -- Every window of the list lies above the level.
  abbrev pub AllAbove : ℤ → List ℕ → Type 0
  AllAbove k [] = Unit {0}
  AllAbove k (q ∷ rest) = (ltb_ℤ k (level q) ≡ true) × AllAbove k rest

  -- The levels never fall along the list.
  abbrev pub Stacked : List ℕ → Type 0
  Stacked [] = Unit {0}
  Stacked (q ∷ rest) = NoneBelow (level q) rest × Stacked rest

  pub NoneBelow-lower : (j k : ℤ) (ws : List ℕ) → j ≤ℤ k → NoneBelow k ws → NoneBelow j ws
  NoneBelow-lower j k [] h a = a
  NoneBelow-lower j k (q ∷ rest) h a = (omega (arith, a.0), NoneBelow-lower j k rest h a.1)

  AllAbove-NoneBelow : (j k : ℤ) (ws : List ℕ) → ltb_ℤ j k ≡ true → NoneBelow k ws → AllAbove j ws
  AllAbove-NoneBelow j k [] h a = a
  AllAbove-NoneBelow j k (q ∷ rest) h a = (ground (arith, a.0), AllAbove-NoneBelow j k rest h a.1)

  pub NoneBelow-count :
      (k : ℤ) (ws : List ℕ) (q : ℕ) → NoneBelow k ws → 0 < count q ws → k ≤ℤ level q
  NoneBelow-count k [] q a h = absurd (omega arith)
  NoneBelow-count k (w ∷ rest) q a h = elim (Bool-cases (q == w)) [
    | inl e ↦ let same : q ≡ w = ground arith in rw same a.0
    | inr e ↦ NoneBelow-count k rest q a.1 (ground arith)
  ]

  module _ (p : ℕ) where
    pub count-insert_window :
        (k : ℕ) (ws : List ℕ) → count k (insert_window store p ws) ≡ count k (p ∷ ws)
    unfolding insert_window
    count-insert_window k [] = refl
    count-insert_window k (q ∷ rest) = elim (Bool-cases (leb_ℤ (level q) (level p))) [
      | inl e ↦ rw (e, insert_window) (omega (arith, count-insert_window k rest))
      | inr e ↦ rw (e, insert_window) refl
    ]

    pub length-insert_window : (ws : List ℕ) → length (insert_window store p ws) ≡ suc (length ws)
    unfolding insert_window
    length-insert_window [] = refl
    length-insert_window (q ∷ rest) = elim (Bool-cases (leb_ℤ (level q) (level p))) [
      | inl e ↦ rw (e, insert_window) (omega (arith, length-insert_window rest))
      | inr e ↦ rw (e, insert_window) refl
    ]

    insert-NoneBelow :
        (k : ℤ) (ws : List ℕ)
        → k ≤ℤ level p
        → NoneBelow k ws
        → NoneBelow k (insert_window store p ws)
    unfolding insert_window
    insert-NoneBelow k [] h a = (h, a)
    insert-NoneBelow k (q ∷ rest) h a = elim (Bool-cases (leb_ℤ (level q) (level p))) [
      | inl e ↦ rw (e, insert_window) (a.0, insert-NoneBelow k rest h a.1)
      | inr e ↦ rw (e, insert_window) (h, a)
    ]

    unlink-NoneBelow : (k : ℤ) (ws : List ℕ) → NoneBelow k ws → NoneBelow k (unlink_window p ws)
    unfolding unlink_window
    unlink-NoneBelow k [] a = a
    unlink-NoneBelow k (q ∷ rest) a = elim (Bool-cases (q == p)) [
      | inl e ↦ rw (e, unlink_window) a.1
      | inr e ↦ rw (e, unlink_window) (a.0, unlink-NoneBelow k rest a.1)
    ]

    pub insert-Stacked : (ws : List ℕ) → Stacked ws → Stacked (insert_window store p ws)
    unfolding insert_window
    insert-Stacked [] s = (tt, tt)
    insert-Stacked (q ∷ rest) s = elim (Bool-cases (leb_ℤ (level q) (level p))) [
      | inl e ↦
          rw (e, insert_window)
            (insert-NoneBelow (level q) rest (ground arith) s.0, insert-Stacked rest s.1)
      | inr e ↦
          let above : level p ≤ℤ level q = ground arith in
          rw (e, insert_window) ((above, NoneBelow-lower (level p) (level q) rest above s.0), s)
    ]

    pub unlink-Stacked : (ws : List ℕ) → Stacked ws → Stacked (unlink_window p ws)
    unfolding unlink_window
    unlink-Stacked [] s = s
    unlink-Stacked (q ∷ rest) s = elim (Bool-cases (q == p)) [
      | inl e ↦ rw (e, unlink_window) s.1
      | inr e ↦ rw (e, unlink_window) (unlink-NoneBelow (level q) rest s.0, unlink-Stacked rest s.1)
    ]

    -- A window is put in above those of its level and below, and under the others.
    pub insert_window_splits :
        (ws : List ℕ)
        → Stacked ws
        → (below : List ℕ) × (above : List ℕ) × (insert_window store p ws ≡ below ++ p ∷ above)
          × (ws ≡ below ++ above)
          × AllAbove (level p) above
    unfolding insert_window
    insert_window_splits [] s = ([], [], refl, refl, tt)
    insert_window_splits (q ∷ rest) s = elim (Bool-cases (leb_ℤ (level q) (level p))) [
      | inl e ↦
          let (below, above, i, j, a) = insert_window_splits rest s.1 in
          rw (e, insert_window) (q ∷ below, above, ap (λ l. q ∷ l) i, ap (λ l. q ∷ l) j, a)
      | inr e ↦
          let higher : ltb_ℤ (level p) (level q) ≡ true = ground arith in
          rw (e, insert_window)
            (
              [],
              q ∷ rest,
              refl,
              refl,
              (higher, AllAbove-NoneBelow (level p) (level q) rest higher s.0),
            )
    ]

-- The list is stacked over other windows too, where those that are listed have the same levels.
module _ (f g : ℕ → Window) where
  NoneBelow-same :
      (k : ℤ) (ws : List ℕ)
      → ((q : ℕ) → 0 < count q ws → level f q ≡ level g q)
      → NoneBelow f k ws
      → NoneBelow g k ws
  NoneBelow-same k [] e a = a
  NoneBelow-same k (q ∷ rest) e a =
      (rw (sym (e q (ground arith))) a.0, NoneBelow-same k rest (λ r h. e r (omega arith)) a.1)

  pub Stacked-same :
      (ws : List ℕ)
      → ((q : ℕ) → 0 < count q ws → level f q ≡ level g q)
      → Stacked f ws
      → Stacked g ws
  Stacked-same [] e s = s
  Stacked-same (q ∷ rest) e s =
      let later = λ (r : ℕ) (h : 0 < count r rest). e r (omega arith) in
      (
        rw (sym (e q (ground arith))) (NoneBelow-same (level f q) rest later s.0),
        Stacked-same rest later s.1,
      )

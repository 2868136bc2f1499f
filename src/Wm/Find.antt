-- ===== src/Wm/Find.antt =====
-- Which window `wm_find_window_at` finds.
use tor_os.Prelude.{
  ℕ, ◌<◌, ◌≡◌, ◌≢◌, ◌∙◌, refl, sym, ap, subst, Bool, true, false, List, [], ◌∷◌, ◌++◌, Option, none,
  some, ◌==◌, if◌then◌else◌, Bool-cases, ◌⊎◌, inl, inr, arith, count, count-append, bit_or,
}
use tor_os.Prelude.Int.{ℤ, ◌≤ℤ◌}
use tor_os.Bitmap.{all_below, all_below_at, bool_eq, bool_eq_sound}
use tor_os.Wm.{Wm, Window, unlink_window, insert_window, has, set_flags, ws_visible, wf_dirty}
use tor_os.Wm.Stack.{shows_at, find_from, wm_find_window_at, wm_raise_window, flag}
use tor_os.Wm.Order.{
  Stacked, NoneBelow-count, AllAbove, level, insert_window_splits, unlink-Stacked,
  count-unlink_window,
}
use tor_os.Wm.Valid.{WmIsValid, listed}

listed_cases : (q w : ℕ) (rest : List ℕ) → 0 < count q (w ∷ rest) → (q ≡ w) ⊎ (0 < count q rest)
listed_cases q w rest h = elim (Bool-cases (q == w)) [
  | inl e ↦ inl (ground arith)
  | inr e ↦ inr (ground arith)
]

module _ (x y : ℤ) (store : ℕ → Window) where
  -- The window at `q` is listed and shows at the point.
  abbrev pub ShowsIn : List ℕ → ℕ → Type 0
  ShowsIn ws q = (0 < count q ws) × (shows_at x y (store q) ≡ true)

  -- What the search makes of a list, from what was found before: the highest window that shows at
  -- the point, or what was found before if none does.
  abbrev Found : List ℕ → Option ℕ → Option ℕ → Type 0
  Found ws before after =
      ((after ≡ before) × ((q : ℕ) → 0 < count q ws → shows_at x y (store q) ≡ false))
      ⊎ ((p : ℕ) × (after ≡ some p)
          × ShowsIn ws p
          × ((q : ℕ) → ShowsIn ws q → level store q ≤ℤ level store p))

  find_from_lem :
      (ws : List ℕ) (before : Option ℕ)
      → Stacked store ws
      → Found ws before (find_from x y store ws before)
  unfolding find_from
  find_from_lem [] before s = inl (refl, λ q h. absurd (omega arith))
  find_from_lem (w ∷ rest) before s = elim (Bool-cases (shows_at x y (store w))) [
    | inl e ↦ rw e (shown e (find_from_lem rest (some w) s.1))
    | inr e ↦ rw e (not_shown e (find_from_lem rest before s.1))
  ]
    where
      -- The window `w` is on no higher level than those after it.
      under : (p : ℕ) → 0 < count p rest → level store w ≤ℤ level store p
      under p h = NoneBelow-count store (level store w) rest p s.0 h

      later : (p : ℕ) → ShowsIn rest p → ShowsIn (w ∷ rest) p
      later p (h, sh) = (omega arith, sh)

      shown :
          shows_at x y (store w) ≡ true
          → {after : Option ℕ} → Found rest (some w) after
          → Found (w ∷ rest) before after
      shown e (inl (same, none_shows)) = inr (
        w,
        same,
        (ground arith, e),
        λ q (h, sh). elim (listed_cases q w rest h) [
          | inl is ↦ rw is (omega arith)
          | inr in_rest ↦ cc (sh, none_shows q in_rest)
        ],
      )
      shown e (inr (p, same, sh, highest)) = inr (
        p,
        same,
        later p sh,
        λ q (h, sq). elim (listed_cases q w rest h) [
          | inl is ↦ rw is (under p sh.0)
          | inr in_rest ↦ highest q (in_rest, sq)
        ],
      )

      not_shown :
          shows_at x y (store w) ≡ false
          → {after : Option ℕ} → Found rest before after
          → Found (w ∷ rest) before after
      not_shown e (inl (same, none_shows)) = inl (
        same,
        λ q h. elim (listed_cases q w rest h) [
          | inl is ↦ rw is e
          | inr in_rest ↦ none_shows q in_rest
        ],
      )
      not_shown e (inr (p, same, sh, highest)) = inr (
        p,
        same,
        later p sh,
        λ q (h, sq). elim (listed_cases q w rest h) [
          | inl is ↦
              let no_show : shows_at x y (store w) ≡ true =
                subst (λ r. shows_at x y (store r) ≡ true) is sq in
              cc
          | inr in_rest ↦ highest q (in_rest, sq)
        ],
      )

-- The highest window that shows at the point, or none if no window shows there.
abbrev pub Topmost : ℤ → ℤ → Wm → Option ℕ → Type 0
Topmost x y m none = (q : ℕ) → 0 < listed q m → shows_at x y (m.store q) ≡ false
Topmost x y m (some p) =
    ShowsIn x y m.store m.window_list p
    × ((q : ℕ) → ShowsIn x y m.store m.window_list q → level m.store q ≤ℤ level m.store p)

-- On a valid manager that has been initialised, the window found shows at the point and no window
-- that shows there lies on a higher level; none is found only where no window shows.
pub wm_find_window_at_lem :
    (x y : ℤ) (m : Wm) → WmIsValid m → m.initialized ≢ 0 → Topmost x y m (wm_find_window_at x y m)
unfolding wm_find_window_at
wm_find_window_at_lem x y m v started =
    let on : (m.initialized == 0) ≡ false = ground arith in
    rw (on, wm_find_window_at) (go (find_from_lem x y m.store m.window_list none v.stacked))
  where
    go : {after : Option ℕ} → Found x y m.store m.window_list none after → Topmost x y m after
    go (inl (e, none_shows)) = rw e none_shows
    go (inr (p, e, sh, highest)) = rw e (sh, highest)

-- The dirty flag, bit 2, is not the visible flag, bit 6.
dirty_table_holds :
    all_below 128 (λ f. bool_eq (has (bit_or f wf_dirty) ws_visible) (has f ws_visible)) ≡ true
unfolding all_below
dirty_table_holds = refl

shows-dirty :
    (x y : ℤ) (w : Window) → w.flags < 128 → shows_at x y (set_flags wf_dirty w) ≡ shows_at x y w
unfolding shows_at
shows-dirty x y w h =
    let table =
      all_below_at 128 (λ f. bool_eq (has (bit_or f wf_dirty) ws_visible) (has f ws_visible))
        w.flags dirty_table_holds h in
    let same : has (bit_or w.flags wf_dirty) ws_visible ≡ has w.flags ws_visible =
      bool_eq_sound _ _ table in
    rw same refl

module _ (x y : ℤ) (store : ℕ → Window) where
  find_from-append :
      (p q : List ℕ) (found : Option ℕ)
      → find_from x y store (p ++ q) found ≡ find_from x y store q (find_from x y store p found)
  unfolding find_from
  find_from-append [] q found = refl
  find_from-append (w ∷ rest) q found = find_from-append rest q _

  find_from-AllAbove :
      (k : ℤ) (ws : List ℕ) (found : Option ℕ)
      → AllAbove store k ws
      → ((q : ℕ) → 0 < count q ws → shows_at x y (store q) ≡ true → level store q ≤ℤ k)
      → find_from x y store ws found ≡ found
  unfolding find_from
  find_from-AllAbove k [] found a h = refl
  find_from-AllAbove k (w ∷ rest) found a h = elim (Bool-cases (shows_at x y (store w))) [
    | inl e ↦ absurd (ground (arith, a.0, h w (ground arith) e))
    | inr e ↦ rw e (find_from-AllAbove k rest found a.1 (λ q l s. h q (omega arith) s))
  ]

find_from-same :
    (x y : ℤ) (f g : ℕ → Window) (ws : List ℕ) (found : Option ℕ)
    → ((q : ℕ) → shows_at x y (f q) ≡ shows_at x y (g q))
    → find_from x y f ws found ≡ find_from x y g ws found
unfolding find_from
find_from-same x y f g [] found e = refl
find_from-same x y f g (w ∷ rest) found e =
    ap (λ b. find_from x y f rest (if b then some w else found)) (e w)
    ∙ find_from-same x y f g rest _ e

module _ (x y : ℤ) (p : ℕ) (m : Wm) (small : (m.store p).flags < 128) where
  abbrev dirtied : Wm
  dirtied = flag p wf_dirty m

  shows-dirtied : (q : ℕ) → shows_at x y (dirtied.store q) ≡ shows_at x y (m.store q)
  shows-dirtied q = elim (Bool-cases (q == p)) [
    | inl e ↦
        let same : q ≡ p = ground arith in
        ap pick e
        ∙ shows-dirty x y (m.store p) small
        ∙ ap (λ r. shows_at x y (m.store r)) (sym same)
    | inr e ↦ ap pick e
  ]
    where
      pick : Bool → Bool
      pick b = shows_at x y (if b then set_flags wf_dirty (m.store p) else m.store q)

-- On a valid manager the window that is raised is the one found at a point where it shows, unless a
-- window of a higher level shows there too. Its flags are below 2 ^ 7, as the code only sets those.
pub wm_find_window_at-wm_raise_window :
    (x y : ℤ) (p : ℕ) (m : Wm)
    → WmIsValid m
    → m.initialized ≢ 0
    → (m.store p).flags < 128
    → ShowsIn x y m.store m.window_list p
    → ((q : ℕ) → ShowsIn x y m.store m.window_list q → level m.store q ≤ℤ level m.store p)
    → wm_find_window_at x y (wm_raise_window (some p) m) ≡ some p
unfolding wm_find_window_at wm_raise_window
wm_find_window_at-wm_raise_window x y p m v started small sh highest =
    let on : (m.initialized == 0) ≡ false = ground arith in
    let (below, above, split, rest, higher) =
      insert_window_splits m.store p _ (unlink-Stacked m.store p m.window_list v.stacked) in
    let left = unlink_window p m.window_list in
    let find = find_from x y m.store in
    let ws = insert_window m.store p left in
    let store = (flag p wf_dirty m).store in
    let still = λ (q : ℕ) (h : 0 < count q above).
      let one : 0 < count q left = omega (arith, ap (count q) rest, count-append q below above) in
      let listed : 0 < count q m.window_list =
        ground (arith, count-unlink_window p q m.window_list) in
      listed in
    rw (on, wm_raise_window)
      (ap (λ b. if b then none else find_from x y store ws none) on
        ∙ find_from-same x y store m.store ws none (shows-dirtied x y p m small)
        ∙ ap (λ l. find l none) split
        ∙ find_from-append x y m.store below (p ∷ above) none
        ∙ ap (λ b. find above (if b then some p else find below none)) sh.1
        ∙ find_from-AllAbove x y m.store (level m.store p) above (some p) higher
            (λ q h s. highest q (still q h, s)))

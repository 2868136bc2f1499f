-- ===== src/Init/Login/Auth.antt =====
-- kernel/init.c: who is authenticated, by `login_authenticate` and `login_add_user`.
use tor_os.Prelude.{
  ℕ, zero, suc, ◌+◌, ◌≤◌, ◌<◌, ◌≡◌, ◌⊎◌, refl, sym, ap, ◌∙◌, Bool, true, false, List, [], ◌∷◌, some,
  arith, ◌==◌, leb, if◌then◌else◌, set, take, length, replicate, get_or-set_if, Option-cases, inl,
  inr,
}
use tor_os.Prelude.Int.{pos, negsuc, as_int}
use tor_os.Search.{first-IsFirst, first-none, first-at}
use tor_os.Libc.{strncpy, strlen}
use tor_os.Libc.Strings.{c_str, strlen_lem, strcmp-same, same-strcmp, strncpy_lem}
use tor_os.Init.Login.{
  Logins, user_at, zero_user, same, accepts, find_user, account, login_add_user, login_authenticate,
  max_users,
}

-- Account `i` is active and has the user name and the password, as strings.
pub record Matches (username password : List ℕ) (l : Logins) (i : ℕ) : Type 0 where
  pub in_range : i < l.num_users
  pub active : ((user_at l.users i).is_active == 0) ≡ false
  pub name : c_str (user_at l.users i).username ≡ c_str username
  pub secret : c_str (user_at l.users i).password_hash ≡ c_str password

accepts-Matches :
    (username password : List ℕ) (l : Logins) (i : ℕ)
    → i < l.num_users
    → accepts username password (user_at l.users i) ≡ true
    → Matches username password l i
accepts-Matches username password l i lt h =
    let u = user_at l.users i in
    record {
      in_range = lt;
      active = ground arith;
      name = strcmp-same u.username username (ground arith);
      secret = strcmp-same u.password_hash password (ground arith);
    }

Matches-accepts :
    (username password : List ℕ) (l : Logins) (i : ℕ)
    → Matches username password l i
    → accepts username password (user_at l.users i) ≡ true
Matches-accepts username password l i m =
    let u = user_at l.users i in
    ground (
      arith,
      m.active,
      same-strcmp u.username username m.name,
      same-strcmp u.password_hash password m.secret,
    )

false-ne-true : false ≡ true → ⊥
false-ne-true h = cc

-- `login_authenticate` returns the user id, as an `int`, of the first account that is active and
-- has the user name and the password; it returns -1 if there is no such account.
pub login_authenticate_lem :
    (username password : List ℕ) (l : Logins)
    → ((i : ℕ) × Matches username password l i
        × ((j : ℕ) → j < i → Matches username password l j → ⊥)
        × (login_authenticate (some username) (some password) l ≡ as_int (user_at l.users i).uid))
      ⊎ (((i : ℕ) → Matches username password l i → ⊥)
          × (login_authenticate (some username) (some password) l ≡ negsuc 0))
unfolding login_authenticate find_user
login_authenticate_lem username password l =
    let test : ℕ → Bool = λ k. accepts username password (user_at l.users k) in
    elim (Option-cases (find_user (accepts username password) l.num_users l.users)) [
      | inr (i, e) ↦
          let f = first-IsFirst test l.num_users 0 i e in
          inl (
            i,
            accepts-Matches username password l i (omega (arith, f.below)) f.passes,
            (λ j lt m.
                false-ne-true
                  (sym (f.least j (omega arith) lt) ∙ Matches-accepts username password l j m)),
            rw (e, login_authenticate) refl,
          )
      | inl e ↦ inr (
        (λ i m. false-ne-true (
            sym (first-none test l.num_users 0 e i (omega arith) (omega (arith, m.in_range)))
            ∙ Matches-accepts username password l i m)),
        rw (e, login_authenticate) refl,
      )
    ]

-- The state after `login_add_user` succeeds.
abbrev pub added : List ℕ → List ℕ → ℕ → ℕ → Logins → Logins
added username password uid is_admin l = record l {
  num_users = l.num_users + 1;
  users =
      set l.users l.num_users
        (account username password uid is_admin (user_at l.users l.num_users));
}

take_all : (n : ℕ) (s : List ℕ) → length s ≤ n → take n s ≡ s
take_all zero [] h = refl
take_all zero (c ∷ s) h = absurd (omega arith)
take_all (suc n) [] h = refl
take_all (suc n) (c ∷ s) h = ap (λ r. c ∷ r) (take_all n s (omega arith))

if_true {ℓ} : {A : Type ℓ} (b : Bool) (x y : A) → b ≡ true → (if b then x else y) ≡ x
if_true true x y h = refl
if_true false x y h = absurd (false-ne-true h)

if_false {ℓ} : {A : Type ℓ} (b : Bool) (x y : A) → b ≡ false → (if b then x else y) ≡ y
if_false false x y h = refl
if_false true x y h = absurd (false-ne-true (sym h))

-- A name and a password that fit are accepted for the account made with them.
account-accepts :
    (username password : List ℕ) (uid is_admin : ℕ)
    → strlen username ≤ 31
    → strlen password ≤ 63
    → accepts username password (account username password uid is_admin zero_user) ≡ true
unfolding account
account-accepts username password uid is_admin a b =
    let fit : (m n : ℕ) (s : List ℕ)
        → n < m
        → strlen s ≤ n
        → same (strncpy (replicate m 0) s n) s ≡ true =
      λ m n s lt h.
        same-strcmp (strncpy (replicate m 0) s n) s
          (strncpy_lem m n s lt ∙ take_all n (c_str s) (omega (arith, strlen_lem s))) in
    rw (fit 32 31 username (omega arith) a, fit 64 63 password (omega arith) b) refl

-- There is a free entry, cleared, and no account before it matches.
pub record IsNew (username password : List ℕ) (l : Logins) : Type 0 where
  pub room : l.num_users < max_users
  pub table : length l.users ≡ max_users
  pub clear : user_at l.users l.num_users ≡ zero_user
  pub unmatched : (j : ℕ) → j < l.num_users → accepts username password (user_at l.users j) ≡ false

module _ (username password : List ℕ) (uid is_admin : ℕ) (l : Logins) where
  added_at :
      IsNew username password l
      → (j : ℕ)
      → user_at (added username password uid is_admin l).users j ≡ (
          if l.num_users == j
          then account username password uid is_admin zero_user
          else user_at l.users j)
  added_at n j =
      get_or-set_if l.users l.num_users j _ zero_user (omega (arith, n.room, n.table))
      ∙ ap
          (λ u.
            if l.num_users == j
            then account username password uid is_admin u
            else user_at l.users j)
          n.clear

  added_before :
      IsNew username password l
      → (j : ℕ) → j < l.num_users
      → accepts username password (user_at (added username password uid is_admin l).users j) ≡ false
  added_before n j lt =
      ap (accepts username password) (
        added_at n j
        ∙ if_false (l.num_users == j) (account username password uid is_admin zero_user)
            (user_at l.users j) (ground arith))
      ∙ n.unmatched j lt

  added_last :
      IsNew username password l
      → user_at (added username password uid is_admin l).users l.num_users
        ≡ account username password uid is_admin zero_user
  added_last n =
      added_at n l.num_users
      ∙ if_true (l.num_users == l.num_users) (account username password uid is_admin zero_user)
          (user_at l.users l.num_users) (ground arith)

  account-uid : (account username password uid is_admin zero_user).uid ≡ uid
  unfolding account
  account-uid = refl

  add_user-added :
      IsNew username password l
      → login_add_user (some username) password uid is_admin l
        ≡ (pos 0, added username password uid is_admin l)
  unfolding login_add_user
  add_user-added n =
      let room : leb max_users l.num_users ≡ false = ground (arith, n.room) in rw room refl

  authenticate-added :
      IsNew username password l
      → strlen username ≤ 31
      → strlen password ≤ 63
      → login_authenticate (some username) (some password) (added username password uid is_admin l)
        ≡ as_int uid
  unfolding login_authenticate find_user
  authenticate-added n a b =
      let ok = account-accepts username password uid is_admin a b in
      let f =
        first-at
          (λ k.
            accepts username password (user_at (added username password uid is_admin l).users k))
          (l.num_users + 1) 0 l.num_users
          (record {
            from = omega arith;
            below = omega arith;
            passes = ap (accepts username password) (added_last n) ∙ ok;
            least = λ j c lt. added_before n j lt;
          }) in
      rw (f, login_authenticate) (ap (λ u. as_int u.uid) (added_last n) ∙ ap as_int account-uid)

  -- A user added to a free cleared entry, with a name of at most 31 and a password of at most 63
  -- bytes, that no earlier account matches, is authenticated with them as the user id given.
  pub login_authenticate-login_add_user :
      IsNew username password l
      → strlen username ≤ 31
      → strlen password ≤ 63
      → ((login_add_user (some username) password uid is_admin l).0 ≡ pos 0)
        × (login_authenticate
              (some username)
              (some password)
              (login_add_user (some username) password uid is_admin l).1
            ≡ as_int uid)
  login_authenticate-login_add_user n a b = (
    ap (λ r. r.0) (add_user-added n),
    ap (λ r. login_authenticate (some username) (some password) r.1) (add_user-added n)
        ∙ authenticate-added n a b,
  )

-- ===== src/Sql/Rows.antt =====
-- Tests on the rows of a table after an UPDATE or an INSERT.
use kvm_manager.Base.{
  none, some, ℕ, suc, ◌+◌, ◌≤◌, ◌≡◌, refl, sym, ap, subst, Bool, true, false, ◌&&◌, ◌||◌, List, [],
  ◌∷◌, ◌++◌, arith, Bool-cases, inl, inr, any, if◌then◌else◌,
}
use kvm_manager.Sql.{update_where, delete_where, find_where}

module _ {ℓ} {A : Type ℓ} (q : A → Bool) where
  -- How many rows pass a test.
  abbrev pub count : List A → ℕ
  count [] = 0
  count (a ∷ rest) = if q a then suc (count rest) else count rest

  pub any-append : (xs ys : List A) → any q (xs ++ ys) ≡ (any q xs || any q ys)
  any-append [] ys = refl
  any-append (x ∷ xs) ys = ground (arith, any-append xs ys)

  pub count-append : (xs ys : List A) → count (xs ++ ys) ≡ count xs + count ys
  count-append [] ys = omega arith
  count-append (x ∷ xs) ys = ground (arith, count-append xs ys)

  pub any_of_count : (xs : List A) → count xs ≤ 0 → any q xs ≡ false
  any_of_count [] h = refl
  any_of_count (x ∷ xs) h = ground (arith, any_of_count xs)

  pub count_none : (xs : List A) → any q xs ≡ false → count xs ≡ 0
  count_none [] h = refl
  count_none (x ∷ xs) h = ground (arith, count_none xs)

module _ {ℓ} {A : Type ℓ} (p q : A → Bool) where
  pub any_ext : ((a : A) → p a ≡ q a) → (xs : List A) → any p xs ≡ any q xs
  any_ext same [] = refl
  any_ext same (x ∷ xs) = ground (arith, same x, any_ext same xs)

  pub any_and : (xs : List A) → any p xs ≡ false → any (λ a. p a && q a) xs ≡ false
  any_and [] h = refl
  any_and (x ∷ xs) h = ground (arith, any_and xs)

module _ {ℓ} {A : Type ℓ} (p q : A → Bool) where
  pub count_mono : ((a : A) → p a ≡ true → q a ≡ true) → (xs : List A) → count p xs ≤ count q xs
  count_mono more [] = omega arith
  count_mono more (x ∷ xs) = ground (arith, more x, count_mono more xs)

  -- A deletion brings no row.
  pub any-delete_where_absent : (xs : List A) → any q xs ≡ false → any q (delete_where p xs) ≡ false
  any-delete_where_absent [] h = refl
  any-delete_where_absent (x ∷ xs) h = ground (arith, any-delete_where_absent xs)

module _ {ℓ} {A : Type ℓ} (p : A → Bool) where
  pub any-delete_where_self : (xs : List A) → any p (delete_where p xs) ≡ false
  any-delete_where_self [] = refl
  any-delete_where_self (x ∷ xs) = ground (arith, any-delete_where_self xs)

  pub find_where_absent : (xs : List A) → any p xs ≡ false → find_where p xs ≡ none
  find_where_absent [] h = refl
  find_where_absent (x ∷ xs) h = ground (arith, find_where_absent xs)

module _ {ℓ} {A : Type ℓ} (p q : A → Bool) (f : A → A) where
  -- The update keeps the test of each row that it changes.
  pub any-update_where :
      ((a : A) → p a ≡ true → q (f a) ≡ q a)
      → (xs : List A) → any q (update_where p f xs) ≡ any q xs
  any-update_where keep [] = refl
  any-update_where keep (x ∷ xs) = ground (arith, keep x, any-update_where keep xs)

  -- The update takes each row that passes the test out of it.
  pub any-update_where_none :
      ((a : A) → p a ≡ true → q (f a) ≡ false)
      → ((a : A) → p a ≡ false → q a ≡ false)
      → (xs : List A) → any q (update_where p f xs) ≡ false
  any-update_where_none drop rest [] = refl
  any-update_where_none drop rest (x ∷ xs) =
      ground (arith, drop x, rest x, any-update_where_none drop rest xs)

  -- No row passed the test, and none that the update changes does.
  pub any-update_where_absent :
      ((a : A) → q (f a) ≡ false)
      → (xs : List A) → any q xs ≡ false
      → any q (update_where p f xs) ≡ false
  any-update_where_absent drop [] h = refl
  any-update_where_absent drop (x ∷ xs) h = ground (arith, drop x, any-update_where_absent drop xs)

  -- A row that passes the test goes on passing it.
  pub any-update_where_kept :
      ((a : A) → p a ≡ true → q a ≡ true → q (f a) ≡ true)
      → (xs : List A) → any q xs ≡ true
      → any q (update_where p f xs) ≡ true
  any-update_where_kept keep [] h = h
  any-update_where_kept keep (x ∷ xs) h = ground (arith, keep x, any-update_where_kept keep xs)

  -- The update makes no new row pass the test.
  pub count-update_where :
      ((a : A) → p a ≡ true → q (f a) ≡ true → q a ≡ true)
      → (xs : List A) → count q (update_where p f xs) ≤ count q xs
  count-update_where back [] = omega arith
  count-update_where back (x ∷ xs) = ground (arith, back x, count-update_where back xs)

-- A row that passes one test comes to pass another.
pub any-update_where_some {ℓ} :
    {A : Type ℓ} (p q r : A → Bool) (f : A → A)
    → ((a : A) → p a ≡ true → r (f a) ≡ true)
    → ((a : A) → q a ≡ true → p a ≡ true)
    → (xs : List A) → any q xs ≡ true
    → any r (update_where p f xs) ≡ true
any-update_where_some p q r f pass among [] h = h
any-update_where_some p q r f pass among (x ∷ xs) h =
    ground (arith, pass x, among x, any-update_where_some p q r f pass among xs)

module _ {ℓ} {A : Type ℓ} (p : A → Bool) (f : A → A) where
  -- The row that a test finds, after an update under that test which keeps the test.
  pub find_where-update_where :
      ((a : A) → p (f a) ≡ p a)
      → (xs : List A) (a : A) → find_where p xs ≡ some a
      → find_where p (update_where p f xs) ≡ some (f a)
  find_where-update_where keep [] a h = cc
  find_where-update_where keep (x ∷ xs) a h =
      ground (arith, keep x, find_where-update_where keep xs a)

module _ {ℓ} {A : Type ℓ} (q p : A → Bool) (f : A → A) where
  keeps : ((a : A) → q (f a) ≡ q a) → (a : A) → q (if p a then f a else a) ≡ q a
  keeps keep a = elim (Bool-cases (p a)) [ inl e ↦ rw e (keep a) | inr e ↦ rw e refl ]

  -- The row that a test finds, after an update under another test.
  pub find_where-update_where_other :
      ((a : A) → q (f a) ≡ q a)
      → (xs : List A) (a : A) → find_where q xs ≡ some a
      → find_where q (update_where p f xs) ≡ some (if p a then f a else a)
  find_where-update_where_other keep [] a h = cc
  find_where-update_where_other keep (x ∷ xs) a h = elim (Bool-cases (q x)) [
    | inl e ↦
        (let same : some x ≡ some a =
            subst (λ b. (if b then some x else find_where q xs) ≡ some a) e h in
          rw (keeps keep x, e)
            (ap (λ o. elim o [ none ↦ none | some b ↦ some (if p b then f b else b) ]) same))
    | inr e ↦
        (let later : find_where q xs ≡ some a =
            subst (λ b. (if b then some x else find_where q xs) ≡ some a) e h in
          rw (keeps keep x, e) (find_where-update_where_other keep xs a later))
  ]

module _ {ℓ} {A : Type ℓ} (q r : A → Bool) where
  -- The row that a test finds passes it, and witnesses any other test that it passes.
  pub find_where_lem :
      (xs : List A) (a : A)
      → find_where q xs ≡ some a
      → (q a ≡ true) × (r a ≡ true → any r xs ≡ true)
  find_where_lem [] a h = cc
  find_where_lem (x ∷ xs) a h = elim (Bool-cases (q x)) [
    | inl e ↦
        (let same : some x ≡ some a =
            subst (λ b. (if b then some x else find_where q xs) ≡ some a) e h in
          (
            subst (λ o. elim o [ none ↦ true | some b ↦ q b ] ≡ true) same e,
            λ k.
                ground
                  (arith, subst (λ o. elim o [ none ↦ true | some b ↦ r b ] ≡ true) (sym same) k),
          ))
    | inr e ↦
        (let later : find_where q xs ≡ some a =
            subst (λ b. (if b then some x else find_where q xs) ≡ some a) e h in
          let (passes, found) = find_where_lem xs a later in (passes, λ k. ground (arith, found k)))
  ]

-- ===== src/Access/Users/Effects.antt =====
-- What the statements on users leave of the rows.
use kvm_manager.Base.{
  ◌≤◌, String, ◌≡◌, refl, sym, subst, ◌∙◌, Bool, true, false, ◌&&◌, none, some, List, [], ◌∷◌, ◌++◌,
  arith, ◌==◌, Bool-cases, Option-cases, inl, inr, any, if◌then◌else◌,
}
use kvm_manager.Sql.{update_where, delete_where, find_where}
use kvm_manager.Sql.Rows.{count}
use kvm_manager.Access.Users.{
  User, Role, Directory, has_user_id, has_role, with_fallback, insert_user_roles,
  replace_user_roles, fallback_role, list_user_effective_roles, find_user_by_id, with_roles,
}

users-insert_user_roles :
    (user_id : String) (keys : List String) (d : Directory)
    → (insert_user_roles user_id keys d).1.users ≡ d.users
unfolding insert_user_roles
users-insert_user_roles user_id [] d = refl
users-insert_user_roles user_id (key ∷ keys) d =
    elim (Option-cases (find_where (λ r. r.key == key) d.roles)) [
      | inl e ↦ rw (e, insert_user_roles) refl
      | inr (role, e) ↦ elim (Bool-cases (any (has_role user_id role.id) d.user_roles)) [
        | inl h ↦ rw (e, h, insert_user_roles) refl
        | inr h ↦
            rw (e, h, insert_user_roles)
              (users-insert_user_roles user_id keys
                (record d { user_roles = d.user_roles ++ (user_id, role.id) ∷ [] }))
      ]
    ]

users-replace_user_roles :
    (user_id : String) (keys : List String) (d : Directory)
    → (replace_user_roles user_id keys d).1.users ≡ d.users
unfolding replace_user_roles
users-replace_user_roles user_id keys d = users-insert_user_roles user_id keys _

users-fallback_role : (u : User) (d : Directory) → (fallback_role u d).users ≡ d.users
unfolding fallback_role
users-fallback_role u d =
    elim (Option-cases
      (find_where (λ r. r.key == (if u.role == "" then "viewer" else u.role)) d.roles)) [
        | inl e ↦ rw (e, fallback_role) refl
        | inr (role, e) ↦ rw (e, fallback_role) (users-replace_user_roles u.id (role.key ∷ []) d)
      ]

pub users-with_fallback :
    (u : User) (roles : List Role) (d : Directory) → (with_fallback u roles d).users ≡ d.users
unfolding with_fallback
users-with_fallback u [] d = users-fallback_role u d
users-with_fallback u (role ∷ roles) d = refl

-- Reading a user finds the first row with the identifier and changes no row.
pub find_user_by_id_lem :
    (id : String) (d : Directory)
    → ((find_user_by_id id d).0 ≡ find_where (has_user_id id) d.users)
      × ((find_user_by_id id d).1.users ≡ d.users)
unfolding find_user_by_id
find_user_by_id_lem id d = elim (Option-cases (find_where (has_user_id id) d.users)) [
  | inl e ↦ rw (e, find_user_by_id) (refl, refl)
  | inr (u, e) ↦
      rw (e, find_user_by_id) (refl, users-with_fallback u (list_user_effective_roles id d) d)
]

pub users-with_roles :
    (id : String) (keys : List String) (d : Directory) → (with_roles id keys d).1.users ≡ d.users
unfolding with_roles
users-with_roles id keys d =
    let d' = (replace_user_roles id keys d).1 in
    elim (Bool-cases (replace_user_roles id keys d).0) [
      | inl e ↦
          rw (e, with_roles) ((find_user_by_id_lem id d').1 ∙ users-replace_user_roles id keys d)
      | inr e ↦ rw (e, with_roles) (users-replace_user_roles id keys d)
    ]

module _ {ℓ} {A : Type ℓ} (p q : A → Bool) where
  abbrev pub both : A → Bool
  both a = p a && q a

  -- The only row with a test passes every test that some row with it passes.
  pub only_lem :
      (xs : List A) (a : A)
      → count p xs ≤ 1
      → find_where p xs ≡ some a
      → q a ≡ false
      → any both xs ≡ false
  only_lem [] a one h f = refl
  only_lem (x ∷ xs) a one h f = elim (Bool-cases (p x)) [
    | inl e ↦
        (let same : some x ≡ some a =
            subst (λ b. (if b then some x else find_where p xs) ≡ some a) e h in
          let f' : q x ≡ false =
            subst (λ o. elim o [ none ↦ true | some b ↦ q b ] ≡ false) (sym same) f in
          ground (arith, f', e, no_more xs))
    | inr e ↦
        (let later : find_where p xs ≡ some a =
            subst (λ b. (if b then some x else find_where p xs) ≡ some a) e h in
          ground (arith, e, only_lem xs a))
  ]
    where
      no_more : (ys : List A) → count p ys ≡ 0 → any both ys ≡ false
      no_more [] h = refl
      no_more (y ∷ ys) h = ground (arith, no_more ys)

  -- Rows outside an update or a deletion stay.
  pub any-update_where_outside :
      (f : A → A) (xs : List A)
      → any both xs ≡ false
      → any q xs ≡ true
      → any q (update_where p f xs) ≡ true
  any-update_where_outside f [] none_both h = h
  any-update_where_outside f (x ∷ xs) none_both h = ground (arith, any-update_where_outside f xs)

  pub any-delete_where_outside :
      (xs : List A) → any both xs ≡ false → any q xs ≡ true → any q (delete_where p xs) ≡ true
  any-delete_where_outside [] none_both h = h
  any-delete_where_outside (x ∷ xs) none_both h = ground (arith, any-delete_where_outside xs)

  -- An update that takes no row out of a test.
  pub any-update_where_kept :
      (f : A → A)
      → ((a : A) → q a ≡ true → q (f a) ≡ true)
      → (xs : List A) → any q xs ≡ true
      → any q (update_where p f xs) ≡ true
  any-update_where_kept f kept [] h = h
  any-update_where_kept f kept (x ∷ xs) h = ground (arith, kept x, any-update_where_kept f kept xs)

  pub count-delete_where : (xs : List A) → count q (delete_where p xs) ≤ count q xs
  count-delete_where [] = omega arith
  count-delete_where (x ∷ xs) = ground (arith, count-delete_where xs)

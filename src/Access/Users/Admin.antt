-- ===== src/Access/Users/Admin.antt =====
-- The default administrator, through the statements on users of rbac.go.
use mathlib.Core.Bool.{false≢true}
use kvm_manager.Base.{
  ℕ, ◌≤◌, String, ◌≡◌, refl, sym, subst, ◌∙◌, Bool, true, false, ◌&&◌, ◌||◌, not, Option, some,
  List, [], ◌∷◌, ◌++◌, arith, ◌==◌, eq_iff, Bool-cases, Option-cases, inl, inr, any,
}
use kvm_manager.Sql.{update_where, delete_where, find_where}
use kvm_manager.Sql.Rows.{count, count-append, count_none, any-append, count-update_where}
use kvm_manager.Access.Permissions.{normalize_role_keys}
use kvm_manager.Access.Users.{
  User, Directory, UserInput, has_user_id, new_user, first_key, create_managed_user, updated_user,
  update_managed_user, with_disabled, set_managed_user_disabled, delete_managed_user,
}
use kvm_manager.Access.Users.Handlers.{
  is_default_admin_user, changed_hash, save_user, disable_user, delete_user,
}
use kvm_manager.Access.Users.Effects.{
  find_user_by_id_lem, users-with_roles, only_lem, any-update_where_outside,
  any-delete_where_outside, any-update_where_kept, count-delete_where,
}

-- The default administrator, able to log in.
unfoldable pub is_enabled_admin : User → Bool
is_enabled_admin u = u.username == "admin" && not u.disabled

-- The administrator is there and enabled, and no two rows have one identifier.
pub record IsSafe (users : List User) : Type 0 where
  pub admin : any is_enabled_admin users ≡ true
  pub unique : (id : String) → count (has_user_id id) users ≤ 1

update-IsSafe :
    (id : String) (f : User → User) (users : List User) (current : User)
    → ((i : String) (u : User) → has_user_id i (f u) ≡ has_user_id i u)
    → find_where (has_user_id id) users ≡ some current
    → (is_enabled_admin current ≡ true
        → (u : User) → is_enabled_admin u ≡ true
        → is_enabled_admin (f u) ≡ true)
    → IsSafe users
    → IsSafe (update_where (has_user_id id) f users)
update-IsSafe id f users current same_id found kept safe = record {
  admin = elim (Bool-cases (is_enabled_admin current)) [
    | inl e ↦ any-update_where_kept (has_user_id id) is_enabled_admin f (kept e) users safe.admin
    | inr e ↦
        any-update_where_outside (has_user_id id) is_enabled_admin f users
          (only_lem (has_user_id id) is_enabled_admin users current (safe.unique id) found e)
          safe.admin
  ];
  unique = λ i. omega (
    arith,
    safe.unique i,
    count-update_where (has_user_id id) (has_user_id i) f (λ u _ h. sym (same_id i u) ∙ h) users,
  );
}

pub delete-IsSafe :
    (id : String) (users : List User) (current : User)
    → find_where (has_user_id id) users ≡ some current
    → is_enabled_admin current ≡ false
    → IsSafe users
    → IsSafe (delete_where (has_user_id id) users)
delete-IsSafe id users current found other safe = record {
  admin =
      any-delete_where_outside (has_user_id id) is_enabled_admin users
        (only_lem (has_user_id id) is_enabled_admin users current (safe.unique id) found other)
        safe.admin;
  unique =
      λ i. omega (arith, safe.unique i, count-delete_where (has_user_id id) (has_user_id i) users);
}

fresh_id :
    (id username : String) (users : List User)
    → any (λ u. u.id == id || u.username == username) users ≡ false
    → any (has_user_id id) users ≡ false
unfolding has_user_id
fresh_id id username [] h = refl
fresh_id id username (u ∷ users) h = ground (arith, fresh_id id username users)

unique_with_new :
    (i id : String) (row : User) (users : List User)
    → row.id ≡ id
    → ((j : String) → count (has_user_id j) users ≤ 1)
    → any (has_user_id id) users ≡ false
    → count (has_user_id i) (users ++ row ∷ []) ≤ 1
unfolding has_user_id
unique_with_new i id row users named single fresh = elim (Bool-cases (row.id == i)) [
  | inl e ↦
      (let none_here : any (has_user_id i) users ≡ false =
          subst (λ j. any (has_user_id j) users ≡ false) (sym named ∙ (eq_iff row.id i).0 e)
            fresh in
        ground (
          arith,
          e,
          count-append (has_user_id i) users (row ∷ []),
          count_none (has_user_id i) users none_here,
        ))
  | inr e ↦ ground (arith, e, count-append (has_user_id i) users (row ∷ []), single i)
]

pub create-IsSafe :
    (now : ℕ) (id : String) (input : UserInput) (password_hash : String) (d : Directory)
    → IsSafe d.users
    → IsSafe (create_managed_user now id input password_hash d).1.users
unfolding create_managed_user new_user
create-IsSafe now id input password_hash d safe =
    let keys = normalize_role_keys input.role_keys in
    let row = new_user now id input password_hash (first_key keys) in
    elim (Bool-cases (any (λ u. u.id == id || u.username == input.username) d.users)) [
      | inl e ↦ rw (e, create_managed_user) safe
      | inr e ↦
          rw (e, create_managed_user)
            (subst IsSafe
              (sym (users-with_roles id keys (record d { users = d.users ++ row ∷ [] })))
              (record {
                admin = ground (arith, any-append is_enabled_admin d.users (row ∷ []), safe.admin);
                unique = λ i.
                    unique_with_new i id row d.users refl safe.unique
                      (fresh_id id input.username d.users e);
              }))
    ]

-- The guard of an update keeps the administrator's name and lets nobody disable it.
guarded :
    (now : ℕ) (input : UserInput) (password_hash role : String) (current : User)
    → (is_default_admin_user current
        && (input.disabled || not (input.username == current.username)))
      ≡ false
    → is_enabled_admin current ≡ true
    → (u : User) → is_enabled_admin u ≡ true
    → is_enabled_admin (updated_user now input password_hash role u) ≡ true
unfolding is_default_admin_user is_enabled_admin updated_user
guarded now input password_hash role current allowed enabled u _ = ground (
  arith,
  eq_iff current.username "admin",
  eq_iff input.username current.username,
  eq_iff input.username "admin",
)

-- Saving the user that stands first with its identifier.
update_managed_user-IsSafe :
    (now : ℕ) (id : String) (input : UserInput) (password_hash : String) (d : Directory)
    (current : User)
    → find_where (has_user_id id) d.users ≡ some current
    → (is_default_admin_user current
        && (input.disabled || not (input.username == current.username)))
      ≡ false
    → IsSafe d.users
    → IsSafe (update_managed_user now id input password_hash d).1.users
unfolding update_managed_user updated_user has_user_id
update_managed_user-IsSafe now id input password_hash d current found allowed safe =
    let keys = normalize_role_keys input.role_keys in
    let f = updated_user now input password_hash (first_key keys) in
    elim (Bool-cases (
      any (λ u. not (u.id == id) && u.username == input.username) d.users
      && any (has_user_id id) d.users)) [
        | inl e ↦ rw (e, update_managed_user) safe
        | inr e ↦
            rw (e, update_managed_user)
              (elim (Bool-cases (not (any (has_user_id id) d.users))) [
                | inl g ↦ rw g safe
                | inr g ↦ rw g (
                    subst IsSafe
                      (sym (
                        users-with_roles id keys
                          (record d { users = update_where (has_user_id id) f d.users })))
                      (update-IsSafe id f d.users current (λ i u. refl) found
                        (guarded now input password_hash (first_key keys) current allowed) safe))
              ])
      ]

pub save-IsSafe :
    (hash : String → Option String) (now : ℕ) (id : String) (input : UserInput) (d : Directory)
    (current : User)
    → find_where (has_user_id id) d.users ≡ some current
    → (is_default_admin_user current
        && (input.disabled || not (input.username == current.username)))
      ≡ false
    → IsSafe d.users
    → IsSafe (save_user hash now id input d).1.users
unfolding save_user
save-IsSafe hash now id input d current found allowed safe =
    elim (Option-cases (changed_hash hash input.password)) [
      | inl e ↦ rw (e, save_user) safe
      | inr (password_hash, e) ↦
          rw (e, save_user)
            (update_managed_user-IsSafe now id input password_hash d current found allowed safe)
    ]

-- A user whose name is not the administrator's.
pub not_admin : (u : User) → is_default_admin_user u ≡ false → is_enabled_admin u ≡ false
unfolding is_default_admin_user is_enabled_admin
not_admin u other = ground arith

-- Disabling somebody else, and enabling anybody.
pub disable-IsSafe :
    (now : ℕ) (id : String) (d : Directory) (current : User)
    → find_where (has_user_id id) d.users ≡ some current
    → is_default_admin_user current ≡ false
    → IsSafe d.users
    → IsSafe (update_where (has_user_id id) (with_disabled now true) d.users)
unfolding with_disabled has_user_id
disable-IsSafe now id d current found other safe =
    update-IsSafe id (with_disabled now true) d.users current (λ i u. refl) found
      (λ enabled. absurd (false≢true (sym (not_admin current other) ∙ enabled))) safe

pub enable-IsSafe :
    (now : ℕ) (id : String) (d : Directory)
    → IsSafe d.users
    → IsSafe (update_where (has_user_id id) (with_disabled now false) d.users)
unfolding with_disabled has_user_id is_enabled_admin
enable-IsSafe now id d safe = record {
  admin =
      any-update_where_kept (has_user_id id) is_enabled_admin (with_disabled now false)
        (λ u h. ground arith) d.users safe.admin;
  unique = λ i. omega (
    arith,
    safe.unique i,
    count-update_where (has_user_id id) (has_user_id i) (with_disabled now false) (λ u _ h. h)
        d.users,
  );
}

pub disable_user-IsSafe :
    (now : ℕ) (id : String) (disabled : Bool) (d : Directory)
    → IsSafe (update_where (has_user_id id) (with_disabled now disabled) d.users)
    → IsSafe d.users
    → IsSafe (disable_user now id disabled d).1.users
unfolding disable_user set_managed_user_disabled
disable_user-IsSafe now id disabled d after safe =
    elim (Bool-cases (not (any (has_user_id id) d.users))) [
      | inl e ↦ rw (e, disable_user, set_managed_user_disabled) safe
      | inr e ↦
          rw (e, disable_user, set_managed_user_disabled)
            (subst IsSafe
              (sym
                (find_user_by_id_lem id (record d {
                  users = update_where (has_user_id id) (with_disabled now disabled) d.users;
                })).1)
              after)
    ]

pub delete_user-IsSafe :
    (id : String) (d : Directory)
    → IsSafe (delete_where (has_user_id id) d.users)
    → IsSafe d.users
    → IsSafe (delete_user id d).1.users
unfolding delete_user delete_managed_user
delete_user-IsSafe id d after safe = elim (Bool-cases (not (any (has_user_id id) d.users))) [
  | inl e ↦ rw (e, delete_user, delete_managed_user) safe
  | inr e ↦ rw (e, delete_user, delete_managed_user) after
]

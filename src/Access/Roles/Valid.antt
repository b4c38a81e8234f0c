-- ===== src/Access/Roles/Valid.antt =====
-- The custom roles that requests leave.
use kvm_manager.Base.{
  String, ◌≡◌, Bool, true, false, none, some, List, [], ◌∷◌, ◌++◌, arith, ◌==◌, Bool-cases, inl,
  inr, member, ℕ, All,
}
use kvm_manager.Sql.{update_where, delete_where}
use kvm_manager.Dict.{get}
use kvm_manager.Access.Keys.{is_role_key}
use kvm_manager.Access.Permissions.{implied_read_permissions}
use kvm_manager.Access.Permissions.Laws.{normalize_permissions_lem}
use kvm_manager.Access.Users.{Role, Directory}
use kvm_manager.Access.Roles.{
  RoleInput, is_custom, new_role, updated_role, check_role_input, remove_role_rows, RoleRequest,
  serve_roles,
}
use kvm_manager.Access.Roles.Steps.{serve_roles_keeps}

-- A key of the pattern, a name, and with each permission the reading that it implies.
pub record IsValid (r : Role) : Type 0 where
  pub key_fits : is_role_key r.key ≡ true
  pub named : (r.name == "") ≡ false
  pub closed :
      (p read : String)
      → get p implied_read_permissions ≡ some read
      → member p r.permissions ≡ true
      → member read r.permissions ≡ true

-- A built-in role, or one that is valid.
unfoldable pub IsSound : Role → Type 0
IsSound r = r.builtin ≡ false → IsValid r

check_role_input_lem :
    (input : RoleInput)
    → check_role_input input ≡ none
    → (is_role_key input.key ≡ true) × ((input.name == "") ≡ false)
unfolding check_role_input
check_role_input_lem input h = (ground arith, ground arith)

new_role-IsValid :
    (now : ℕ) (id : String) (input : RoleInput)
    → check_role_input input ≡ none
    → IsValid (new_role now id input)
unfolding new_role
new_role-IsValid now id input h = record {
  key_fits = (check_role_input_lem input h).0;
  named = (check_role_input_lem input h).1;
  closed = λ p read. (normalize_permissions_lem input.permissions p).1 read;
}

updated_role-IsValid :
    (now : ℕ) (input : RoleInput) (r : Role)
    → check_role_input input ≡ none
    → IsValid (updated_role now input r)
unfolding updated_role
updated_role-IsValid now input r h = record {
  key_fits = (check_role_input_lem input h).0;
  named = (check_role_input_lem input h).1;
  closed = λ p read. (normalize_permissions_lem input.permissions p).1 read;
}

module _ {ℓ κ} {A : Type ℓ} (P : A → Type κ) where
  All-append_one : (xs : List A) (a : A) → P a → All P xs → All P (xs ++ a ∷ [])
  All-append_one [] a p ps = (p, tt)
  All-append_one (x ∷ xs) a p (q, qs) = (q, All-append_one xs a p qs)

  All-update_where :
      (test : A → Bool) (f : A → A)
      → ((a : A) → P (f a))
      → (xs : List A) → All P xs
      → All P (update_where test f xs)
  All-update_where test f new [] ps = tt
  All-update_where test f new (x ∷ xs) (p, ps) = elim (Bool-cases (test x)) [
    | inl e ↦ rw e (new x, All-update_where test f new xs ps)
    | inr e ↦ rw e (p, All-update_where test f new xs ps)
  ]

  All-delete_where : (test : A → Bool) (xs : List A) → All P xs → All P (delete_where test xs)
  All-delete_where test [] ps = tt
  All-delete_where test (x ∷ xs) (p, ps) = elim (Bool-cases (test x)) [
    | inl e ↦ rw e (All-delete_where test xs ps)
    | inr e ↦ rw e (p, All-delete_where test xs ps)
  ]

-- Where every custom role has a key of the pattern, a name, and with each permission the reading that
-- it implies, every custom role still has them after any requests about roles.
pub serve_roles-IsSound :
    (requests : List RoleRequest) (d : Directory)
    → All IsSound d.roles
    → All IsSound (serve_roles requests d).roles
unfolding IsSound remove_role_rows
serve_roles-IsSound requests d sound =
    serve_roles_keeps (λ d'. All IsSound d'.roles)
      (λ now id input d' checked all_sound.
        All-append_one IsSound d'.roles (new_role now id input)
          (λ custom. new_role-IsValid now id input checked) all_sound)
      (λ now id input d' checked all_sound.
        All-update_where IsSound (is_custom id) (updated_role now input)
          (λ r custom. updated_role-IsValid now input r checked) d'.roles all_sound)
      (λ id d' all_sound. All-delete_where IsSound (is_custom id) d'.roles all_sound) requests d
      sound

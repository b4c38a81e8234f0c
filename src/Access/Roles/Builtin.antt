-- ===== src/Access/Roles/Builtin.antt =====
-- Requests about roles and the built-in roles.
use kvm_manager.Base.{String, ◌≡◌, refl, ◌∙◌, Bool, true, false, List, [], ◌∷◌, ◌++◌, arith, filter}
use kvm_manager.Sql.{update_where, delete_where}
use kvm_manager.Access.Users.{Role, Directory}
use kvm_manager.Access.Roles.{
  is_custom, new_role, updated_role, remove_role_rows, RoleRequest, serve_roles,
}
use kvm_manager.Access.Roles.Steps.{serve_roles_keeps}

unfoldable pub builtin_roles : List Role → List Role
builtin_roles roles = filter (λ r. r.builtin) roles

module _ {ℓ} {A : Type ℓ} (q p : A → Bool) where
  filter-append_one : (xs : List A) (a : A) → q a ≡ false → filter q (xs ++ a ∷ []) ≡ filter q xs
  filter-append_one [] a h = rw h refl
  filter-append_one (x ∷ xs) a h = ground (arith, filter-append_one xs a h)

  filter-update_where :
      (f : A → A)
      → ((a : A) → p a ≡ true → q a ≡ false)
      → ((a : A) → q (f a) ≡ q a)
      → (xs : List A) → filter q (update_where p f xs) ≡ filter q xs
  filter-update_where f out same [] = refl
  filter-update_where f out same (x ∷ xs) =
      ground (arith, out x, same x, filter-update_where f out same xs)

  filter-delete_where :
      ((a : A) → p a ≡ true → q a ≡ false)
      → (xs : List A) → filter q (delete_where p xs) ≡ filter q xs
  filter-delete_where out [] = refl
  filter-delete_where out (x ∷ xs) = ground (arith, out x, filter-delete_where out xs)

custom_is_not_builtin : (id : String) (r : Role) → is_custom id r ≡ true → r.builtin ≡ false
unfolding is_custom
custom_is_not_builtin id r h = ground arith

-- Whatever requests about roles are served, whichever identifiers and keys they name, the built-in
-- roles stay as they are, each with its key, its names and its permissions, and none is added.
pub builtin_roles-serve_roles :
    (requests : List RoleRequest) (d : Directory)
    → builtin_roles (serve_roles requests d).roles ≡ builtin_roles d.roles
unfolding builtin_roles new_role updated_role remove_role_rows
builtin_roles-serve_roles requests d =
    serve_roles_keeps (λ d'. builtin_roles d'.roles ≡ builtin_roles d.roles)
      (λ now id input d' checked same.
        filter-append_one (λ r. r.builtin) (λ r. r.builtin) d'.roles (new_role now id input) refl
        ∙ same)
      (λ now id input d' checked same.
        filter-update_where (λ r. r.builtin) (is_custom id) (updated_role now input)
          (custom_is_not_builtin id) (λ r. refl) d'.roles
        ∙ same)
      (λ id d' same.
        filter-delete_where (λ r. r.builtin) (is_custom id) (custom_is_not_builtin id) d'.roles
        ∙ same)
      requests d refl

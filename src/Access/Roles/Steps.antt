-- ===== src/Access/Roles/Steps.antt =====
-- Requests about roles as insertions, changes and deletions of custom roles.
use kvm_manager.Base.{
  ℕ, String, ◌≡◌, not, Option, none, some, List, [], ◌∷◌, ◌++◌, ◌==◌, ◌||◌, ◌&&◌, Bool-cases,
  Option-cases, inl, inr, any,
}
use kvm_manager.Sql.{update_where}
use kvm_manager.Access.Users.{Directory, StoreError}
use kvm_manager.Access.Users.Handlers.{Response}
use kvm_manager.Access.Roles.{
  RoleInput, is_custom, new_role, updated_role, insert_custom_role, update_custom_role,
  upsert_custom_role, delete_custom_role, remove_role_rows, trim_role_input, check_role_input,
  save_role, handle_create_role, remove_role, handle_role_route, RoleRequest, serve_role,
  serve_roles,
}

module _ {ℓ} (P : Directory → Type ℓ)
    (inserted : (now : ℕ) (id : String) (input : RoleInput) (d : Directory)
      → check_role_input input ≡ none
      → P d
      → P (record d { roles = d.roles ++ new_role now id input ∷ [] }))
    (changed : (now : ℕ) (id : String) (input : RoleInput) (d : Directory)
      → check_role_input input ≡ none
      → P d
      → P (record d { roles = update_where (is_custom id) (updated_role now input) d.roles }))
    (deleted : (id : String) (d : Directory) → P d → P (remove_role_rows id d)) where
  insert_keeps :
      (now : ℕ) (id : String) (input : RoleInput) (d : Directory)
      → check_role_input input ≡ none
      → P d
      → P (insert_custom_role now id input d).1
  unfolding insert_custom_role
  insert_keeps now id input d checked p =
      elim (Bool-cases (any (λ r. r.id == id || r.key == input.key) d.roles)) [
        | inl e ↦ rw (e, insert_custom_role) p
        | inr e ↦ rw (e, insert_custom_role) (inserted now id input d checked p)
      ]

  update_keeps :
      (now : ℕ) (id : String) (input : RoleInput) (d : Directory)
      → check_role_input input ≡ none
      → P d
      → P (update_custom_role now id input d).1
  unfolding update_custom_role
  update_keeps now id input d checked p = elim (Bool-cases (not (any (is_custom id) d.roles))) [
    | inl e ↦ rw (e, update_custom_role) p
    | inr e ↦
        rw (e, update_custom_role)
          (elim (Bool-cases (any (λ r. not (r.id == id) && r.key == input.key) d.roles)) [
            | inl f ↦ rw f p
            | inr f ↦ rw f (changed now id input d checked p)
          ])
  ]

  upsert_keeps :
      (now : ℕ) (new_id id : String) (input : RoleInput) (d : Directory)
      → check_role_input input ≡ none
      → P d
      → P (upsert_custom_role now new_id id input d).1
  unfolding upsert_custom_role
  upsert_keeps now new_id id input d checked p = elim (Bool-cases (id == "")) [
    | inl e ↦ rw (e, upsert_custom_role) (insert_keeps now new_id input d checked p)
    | inr e ↦ rw (e, upsert_custom_role) (update_keeps now id input d checked p)
  ]

  save_keeps :
      (answer : Option StoreError → Response) (now : ℕ) (new_id id : String)
      (body : Option RoleInput) (d : Directory)
      → P d
      → P (save_role answer (upsert_custom_role now new_id id) body d).1
  unfolding save_role
  save_keeps answer now new_id id none d p = p
  save_keeps answer now new_id id (some input) d p =
      elim (Option-cases (check_role_input (trim_role_input input))) [
        | inl e ↦ rw (e, save_role) (upsert_keeps now new_id id (trim_role_input input) d e p)
        | inr (refusal, e) ↦ rw (e, save_role) p
      ]

  remove_keeps : (id : String) (d : Directory) → P d → P (remove_role id d).1
  unfolding remove_role delete_custom_role
  remove_keeps id d p = elim (Bool-cases (not (any (is_custom id) d.roles))) [
    | inl e ↦ rw (e, remove_role, delete_custom_role) p
    | inr e ↦ rw (e, remove_role, delete_custom_role) (deleted id d p)
  ]

  route_keeps :
      (now : ℕ) (new_id method id : String) (body : Option RoleInput) (d : Directory)
      → P d
      → P (handle_role_route now new_id method id body d).1
  unfolding handle_role_route
  route_keeps now new_id method id body d p = elim (Bool-cases (method == "PUT")) [
    | inl e ↦ rw (e, handle_role_route) (save_keeps _ now new_id id body d p)
    | inr e ↦
        rw (e, handle_role_route)
          (elim (Bool-cases (method == "DELETE")) [
            | inl f ↦ rw f (remove_keeps id d p)
            | inr f ↦ rw f p
          ])
  ]

  serve_role_keeps : (r : RoleRequest) (d : Directory) → P d → P (serve_role r d)
  unfolding serve_role handle_create_role
  serve_role_keeps (RoleRequest.create now new_id body) d p = save_keeps _ now new_id "" body d p
  serve_role_keeps (RoleRequest.route now new_id method id body) d p =
      route_keeps now new_id method id body d p

  pub serve_roles_keeps :
      (requests : List RoleRequest) (d : Directory) → P d → P (serve_roles requests d)
  unfolding serve_roles
  serve_roles_keeps [] d p = p
  serve_roles_keeps (r ∷ older) d p =
      serve_role_keeps r (serve_roles older d) (serve_roles_keeps older d p)

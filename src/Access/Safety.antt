-- ===== src/Access/Safety.antt =====
-- Requests about users, roles and groups, mixed in any order: backend/api/router/rbac.go.
use kvm_manager.Base.{
  ℕ, String, ◌≡◌, refl, ◌∙◌, sym, subst, not, Option, none, some, List, [], ◌∷◌, ◌==◌, Bool-cases,
  Option-cases, inl, inr, any,
}
use kvm_manager.Text.{trim_space}
use kvm_manager.Access.Permissions.{unique_trimmed, normalize_role_keys}
use kvm_manager.Access.Users.{Directory, has_user_id, has_role}
use kvm_manager.Access.Users.Handlers.{Response}
use kvm_manager.Access.Users.Admin.{IsSafe}
use kvm_manager.Access.Users.Requests.{Request, serve, serve-IsSafe}
use kvm_manager.Access.Roles.{RoleRequest, serve_roles, remove_role_rows}
use kvm_manager.Access.Roles.Steps.{serve_roles_keeps}
use kvm_manager.Access.Groups.{
  UserGroupInput, GroupError, insert_group_members, replace_group_members, replace_group_roles,
  fill_group, save_group_row, upsert_user_group, trim_group_input, save_group, delete_user_group,
  remove_group, handle_create_user_group, handle_user_group_route, has_group_id,
}
use kvm_manager.Access.Groups.Untouched.{view-list_user_groups, view-replace_group_roles}
use kvm_manager.Access.Groups.Members.{save_group_row_keeps}

users-serve_roles :
    (requests : List RoleRequest) (d : Directory) → (serve_roles requests d).users ≡ d.users
unfolding remove_role_rows
users-serve_roles requests d =
    serve_roles_keeps (λ d'. d'.users ≡ d.users) (λ now id input d' checked same. same)
      (λ now id input d' checked same. same) (λ id d' same. same) requests d refl

users-insert_group_members :
    (id : String) (ids : List String) (d : Directory)
    → (insert_group_members id ids d).1.users ≡ d.users
unfolding insert_group_members
users-insert_group_members id [] d = refl
users-insert_group_members id (m ∷ ids) d = elim (Bool-cases (any (has_user_id m) d.users)) [
  | inr no_user ↦ rw (no_user, insert_group_members) refl
  | inl is_user ↦
      rw (is_user, insert_group_members)
        (elim (Bool-cases (any (has_role id m) d.group_members)) [
          | inl there ↦ rw there (users-insert_group_members id ids d)
          | inr fresh ↦ rw fresh (users-insert_group_members id ids _)
        ])
]

users-fill_group :
    (id : String) (input : UserGroupInput) (d : Directory)
    → (fill_group id input d).1.users ≡ d.users
unfolding fill_group replace_group_members
users-fill_group id input d =
    let d' = (replace_group_members id input.member_ids d).1 in
    let keys = normalize_role_keys input.role_keys in
    let filled : d'.users ≡ d.users =
      users-insert_group_members id (unique_trimmed [] input.member_ids) _ in
    elim (Bool-cases (replace_group_members id input.member_ids d).0) [
      | inl ok ↦
          rw (ok, fill_group)
            (view-list_user_groups (λ x. x.users) (λ x r. refl) (λ x r. refl)
                (replace_group_roles id keys d')
              ∙ view-replace_group_roles (λ x. x.users) (λ x r. refl) (λ x r. refl) id keys d'
              ∙ filled)
      | inr bad ↦ rw (bad, fill_group) filled
    ]

users-upsert_user_group :
    (now : ℕ) (new_id id : String) (input : UserGroupInput) (d : Directory)
    → (upsert_user_group now new_id id input d).1.users ≡ d.users
unfolding upsert_user_group
users-upsert_user_group now new_id id input d =
    let d' = (save_group_row now new_id id input d).1 in
    let kept = (save_group_row_keeps now new_id id input d).0 in
    elim (Option-cases (save_group_row now new_id id input d).0) [
      | inl e ↦ rw (e, upsert_user_group) (users-fill_group _ input d' ∙ kept)
      | inr (error, e) ↦ rw (e, upsert_user_group) kept
    ]

users-save_group :
    (answer : Option GroupError → Response) (now : ℕ) (new_id id : String)
    (body : Option UserGroupInput) (d : Directory)
    → (save_group answer now new_id id body d).1.users ≡ d.users
unfolding save_group
users-save_group answer now new_id id none d = refl
users-save_group answer now new_id id (some input) d =
    elim (Bool-cases (trim_space input.name == "")) [
      | inl e ↦ rw (e, save_group) refl
      | inr e ↦
          rw (e, save_group) (users-upsert_user_group now new_id id (trim_group_input input) d)
    ]

users-remove_group : (id : String) (d : Directory) → (remove_group id d).1.users ≡ d.users
unfolding remove_group delete_user_group
users-remove_group id d = elim (Bool-cases (not (any (has_group_id id) d.groups))) [
  | inl e ↦ rw (e, remove_group, delete_user_group) refl
  | inr e ↦ rw (e, remove_group, delete_user_group) refl
]

users-handle_user_group_route :
    (now : ℕ) (new_id method id : String) (body : Option UserGroupInput) (d : Directory)
    → (handle_user_group_route now new_id method id body d).1.users ≡ d.users
unfolding handle_user_group_route
users-handle_user_group_route now new_id method id body d = elim (Bool-cases (method == "PUT")) [
  | inl e ↦ rw (e, handle_user_group_route) (users-save_group _ now new_id id body d)
  | inr e ↦
      rw (e, handle_user_group_route)
        (elim (Bool-cases (method == "DELETE")) [
          | inl f ↦ rw f (users-remove_group id d)
          | inr f ↦ rw f refl
        ])
]

-- A request to the settings of access.
pub data AccessRequest : Type 0 where
  about_user : Request → AccessRequest
  about_role : RoleRequest → AccessRequest
  create_group : ℕ → String → Option UserGroupInput → AccessRequest
  about_group : ℕ → String → String → String → Option UserGroupInput → AccessRequest

unfoldable pub serve_access : (String → Option String) → AccessRequest → Directory → Directory
serve_access hash (AccessRequest.about_user r) d = serve hash r d
serve_access hash (AccessRequest.about_role r) d = serve_roles (r ∷ []) d
serve_access hash (AccessRequest.create_group now new_id body) d =
    (handle_create_user_group now new_id body d).1
serve_access hash (AccessRequest.about_group now new_id method id body) d =
    (handle_user_group_route now new_id method id body d).1

-- Requests, the latest first.
unfoldable pub serve_accesses :
    (String → Option String) → List AccessRequest → Directory → Directory
serve_accesses hash [] d = d
serve_accesses hash (r ∷ older) d = serve_access hash r (serve_accesses hash older d)

serve_access-IsSafe :
    (hash : String → Option String) (r : AccessRequest) (d : Directory)
    → IsSafe d.users
    → IsSafe (serve_access hash r d).users
unfolding serve_access handle_create_user_group
serve_access-IsSafe hash (AccessRequest.about_user r) d safe = serve-IsSafe hash r d safe
serve_access-IsSafe hash (AccessRequest.about_role r) d safe =
    subst IsSafe (sym (users-serve_roles (r ∷ []) d)) safe
serve_access-IsSafe hash (AccessRequest.create_group now new_id body) d safe =
    subst IsSafe (sym (users-save_group _ now new_id "" body d)) safe
serve_access-IsSafe hash (AccessRequest.about_group now new_id method id body) d safe =
    subst IsSafe (sym (users-handle_user_group_route now new_id method id body d)) safe

-- Whatever requests about users, roles and groups are served, by whomever and in any order, the user
-- named admin stays there and enabled, and no two users share an identifier, if both held before.
pub serve_accesses-IsSafe :
    (hash : String → Option String) (requests : List AccessRequest) (d : Directory)
    → IsSafe d.users
    → IsSafe (serve_accesses hash requests d).users
unfolding serve_accesses
serve_accesses-IsSafe hash [] d safe = safe
serve_accesses-IsSafe hash (r ∷ older) d safe =
    serve_access-IsSafe hash r (serve_accesses hash older d)
      (serve_accesses-IsSafe hash older d safe)

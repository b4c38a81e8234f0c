-- ===== src/Access/Groups/Untouched.antt =====
-- What the statements on groups leave of the tables.
use kvm_manager.Base.{
  String, ◌≡◌, refl, ◌∙◌, List, [], ◌∷◌, ◌++◌, ◌==◌, Bool-cases, Option-cases, inl, inr, any,
  if◌then◌else◌,
}
use kvm_manager.Sql.{find_where}
use kvm_manager.Access.Users.{
  User, Role, UserGroup, Directory, has_role, insert_user_roles, replace_user_roles, fallback_role,
  with_fallback, list_user_effective_roles,
}
use kvm_manager.Access.Groups.{
  insert_group_role, insert_group_roles, replace_group_roles, attach_access_to_users,
  list_group_members, read_groups, list_user_groups,
}

-- A view of the tables that does not read the roles of users and groups.
module _ {ℓ} {A : Type ℓ} (view : Directory → A)
    (blind_user_roles : (d : Directory) (rows : List (String × String))
      → view (record d { user_roles = rows }) ≡ view d)
    (blind_group_roles : (d : Directory) (rows : List (String × String))
      → view (record d { group_roles = rows }) ≡ view d) where
  view-insert_user_roles :
      (user_id : String) (keys : List String) (d : Directory)
      → view (insert_user_roles user_id keys d).1 ≡ view d
  unfolding insert_user_roles
  view-insert_user_roles user_id [] d = refl
  view-insert_user_roles user_id (key ∷ keys) d =
      elim (Option-cases (find_where (λ r. r.key == key) d.roles)) [
        | inl e ↦ rw (e, insert_user_roles) refl
        | inr (role, e) ↦ elim (Bool-cases (any (has_role user_id role.id) d.user_roles)) [
          | inl h ↦ rw (e, h, insert_user_roles) refl
          | inr h ↦
              rw (e, h, insert_user_roles)
                (view-insert_user_roles user_id keys
                    (record d { user_roles = d.user_roles ++ (user_id, role.id) ∷ [] })
                  ∙ blind_user_roles d (d.user_roles ++ (user_id, role.id) ∷ []))
        ]
      ]

  view-fallback_role : (u : User) (d : Directory) → view (fallback_role u d) ≡ view d
  unfolding fallback_role replace_user_roles
  view-fallback_role u d =
      elim (Option-cases
        (find_where (λ r. r.key == (if u.role == "" then "viewer" else u.role)) d.roles)) [
          | inl e ↦ rw (e, fallback_role) refl
          | inr (role, e) ↦
              rw (e, fallback_role)
                (view-insert_user_roles u.id (role.key ∷ []) _ ∙ blind_user_roles d _)
        ]

  view-with_fallback :
      (u : User) (roles : List Role) (d : Directory) → view (with_fallback u roles d) ≡ view d
  unfolding with_fallback
  view-with_fallback u [] d = view-fallback_role u d
  view-with_fallback u (role ∷ roles) d = refl

  view-attach_access_to_users :
      (us : List User) (d : Directory) → view (attach_access_to_users us d) ≡ view d
  unfolding attach_access_to_users
  view-attach_access_to_users [] d = refl
  view-attach_access_to_users (u ∷ us) d =
      view-attach_access_to_users us _ ∙ view-with_fallback u (list_user_effective_roles u.id d) d

  view-read_groups : (gs : List UserGroup) (d : Directory) → view (read_groups gs d) ≡ view d
  unfolding read_groups
  view-read_groups [] d = refl
  view-read_groups (g ∷ gs) d =
      view-read_groups gs _ ∙ view-attach_access_to_users (list_group_members g.id d) d

  pub view-list_user_groups : (d : Directory) → view (list_user_groups d) ≡ view d
  unfolding list_user_groups
  view-list_user_groups d = view-read_groups _ d

  view-insert_group_role :
      (group_id key : String) (d : Directory) → view (insert_group_role group_id key d) ≡ view d
  unfolding insert_group_role
  view-insert_group_role group_id key d =
      elim (Option-cases (find_where (λ r. r.key == key) d.roles)) [
        | inl e ↦ rw (e, insert_group_role) refl
        | inr (role, e) ↦ elim (Bool-cases (any (has_role group_id role.id) d.group_roles)) [
          | inl h ↦ rw (e, h, insert_group_role) refl
          | inr h ↦ rw (e, h, insert_group_role) (blind_group_roles d _)
        ]
      ]

  view-insert_group_roles :
      (group_id : String) (keys : List String) (d : Directory)
      → view (insert_group_roles group_id keys d) ≡ view d
  unfolding insert_group_roles
  view-insert_group_roles group_id [] d = refl
  view-insert_group_roles group_id (key ∷ keys) d =
      view-insert_group_roles group_id keys _ ∙ view-insert_group_role group_id key d

  pub view-replace_group_roles :
      (group_id : String) (keys : List String) (d : Directory)
      → view (replace_group_roles group_id keys d) ≡ view d
  unfolding replace_group_roles
  view-replace_group_roles group_id keys d =
      view-insert_group_roles group_id keys _ ∙ blind_group_roles d _

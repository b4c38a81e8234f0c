-- ===== src/Access/Groups/Members.antt =====
-- The members of a group that is saved.
use kvm_manager.Base.{
  ℕ, String, ◌≡◌, refl, ap, ◌∙◌, sym, subst, Bool, true, false, not, ◌&&◌, ◌||◌, none, List, [],
  ◌∷◌, ◌++◌, arith, ◌==◌, eq_iff, Bool-cases, inl, inr, any, all, member, if◌then◌else◌,
}
use kvm_manager.Sql.{delete_where}
use kvm_manager.Sql.Rows.{any-append}
use kvm_manager.Access.Permissions.{unique_trimmed, normalize_role_keys}
use kvm_manager.Access.Users.{User, Directory, has_user_id, has_role}
use kvm_manager.Access.Groups.{
  UserGroupInput, in_group, insert_group_members, replace_group_members, replace_group_roles,
  list_user_groups, save_group_row, fill_group, upsert_user_group, has_group_id,
}
use kvm_manager.Access.Groups.Untouched.{view-list_user_groups, view-replace_group_roles}

any-delete_where_group :
    (id g u : String) (rows : List (String × String))
    → any (has_role g u) (delete_where (in_group id) rows)
      ≡ (if g == id then false else any (has_role g u) rows)
unfolding has_role in_group
any-delete_where_group id g u [] = ground arith
any-delete_where_group id g u ((j, v) ∷ rows) =
    ground (arith, any-delete_where_group id g u rows, eq_iff j g, eq_iff j id, eq_iff g id)

-- Whether each is the identifier of a user.
unfoldable pub all_users : List String → List User → Bool
all_users ids users = all (λ id. any (has_user_id id) users) ids

joins_present :
    (d : Directory) (id m g u : String) (ids : List String)
    → any (has_role id m) d.group_members ≡ true
    → ((g == id && member u ids) || any (has_role g u) d.group_members)
      ≡ ((g == id && member u (m ∷ ids)) || any (has_role g u) d.group_members)
joins_present d id m g u ids there = elim (Bool-cases (g == id)) [
  | inr other ↦ rw other refl
  | inl same ↦ elim (Bool-cases (m == u)) [
    | inr other ↦ rw (same, other) refl
    | inl equal ↦
        (let there' : any (has_role g u) d.group_members ≡ true =
            subst (λ x. any (has_role x u) d.group_members ≡ true) (sym ((eq_iff g id).0 same))
              (subst (λ x. any (has_role id x) d.group_members ≡ true) ((eq_iff m u).0 equal)
                there) in
          ground (arith, there'))
  ]
]

joins_fresh :
    (d : Directory) (id m g u : String) (ids : List String)
    → ((g == id && member u ids) || any (has_role g u) (d.group_members ++ (id, m) ∷ []))
      ≡ ((g == id && member u (m ∷ ids)) || any (has_role g u) d.group_members)
unfolding has_role
joins_fresh d id m g u ids =
    ground
      (arith, any-append (has_role g u) d.group_members ((id, m) ∷ []), eq_iff g id, eq_iff id g)

insert_group_members_lem :
    (id : String) (ids : List String) (d : Directory)
    → let (ok, d') = insert_group_members id ids d in
      (ok ≡ all_users ids d.users)
      × (ok ≡ true
          → (g u : String)
          → any (has_role g u) d'.group_members
            ≡ ((g == id && member u ids) || any (has_role g u) d.group_members))
unfolding insert_group_members all_users
insert_group_members_lem id [] d = (refl, λ ok g u. ground arith)
insert_group_members_lem id (m ∷ ids) d =
    let d' : Directory = record d { group_members = d.group_members ++ (id, m) ∷ [] } in
    let (ok_present, rows_present) = insert_group_members_lem id ids d in
    let (ok_rest, rows_rest) = insert_group_members_lem id ids d' in
    elim (Bool-cases (any (has_user_id m) d.users)) [
      | inr no_user ↦ rw (no_user, insert_group_members) (refl, λ ok g u. ground arith)
      | inl is_user ↦
          rw (is_user, insert_group_members)
            (elim (Bool-cases (any (has_role id m) d.group_members)) [
              | inl there ↦
                  rw there
                    (ok_present, λ ok g u. rows_present ok g u ∙ joins_present d id m g u ids there)
              | inr fresh ↦
                  rw fresh (ok_rest, λ ok g u. rows_rest ok g u ∙ joins_fresh d id m g u ids)
            ])
    ]

replace_group_members_lem :
    (id : String) (ids : List String) (d : Directory)
    → all_users (unique_trimmed [] ids) d.users ≡ true
    → let (ok, d') = replace_group_members id ids d in
      (ok ≡ true)
      × ((g u : String)
          → any (has_role g u) d'.group_members ≡ (
              if g == id
              then member u (unique_trimmed [] ids)
              else any (has_role g u) d.group_members))
unfolding replace_group_members
replace_group_members_lem id ids d known =
    let cleared : Directory = record d {
      group_members = delete_where (in_group id) d.group_members;
    } in
    let (ok, rows) = insert_group_members_lem id (unique_trimmed [] ids) cleared in
    (
      ok ∙ known,
      λ g u. rows (ok ∙ known) g u ∙ ground (arith, any-delete_where_group id g u d.group_members),
    )

fill_group_lem :
    (id : String) (input : UserGroupInput) (d : Directory)
    → all_users (unique_trimmed [] input.member_ids) d.users ≡ true
    → let (error, d') = fill_group id input d in
      (error ≡ none)
      × ((g u : String)
          → any (has_role g u) d'.group_members ≡ (
              if g == id
              then member u (unique_trimmed [] input.member_ids)
              else any (has_role g u) d.group_members))
unfolding fill_group
fill_group_lem id input d known =
    let d' = (replace_group_members id input.member_ids d).1 in
    let (ok, rows) = replace_group_members_lem id input.member_ids d known in
    let keys = normalize_role_keys input.role_keys in
    let kept : (list_user_groups (replace_group_roles id keys d')).group_members
        ≡ d'.group_members =
      view-list_user_groups (λ x. x.group_members) (λ x r. refl) (λ x r. refl)
        (replace_group_roles id keys d')
      ∙ view-replace_group_roles (λ x. x.group_members) (λ x r. refl) (λ x r. refl) id keys d' in
    rw (ok, fill_group) (refl, λ g u. ap (any (has_role g u)) kept ∙ rows g u)

pub save_group_row_keeps :
    (now : ℕ) (new_id id : String) (input : UserGroupInput) (d : Directory)
    → let d' = (save_group_row now new_id id input d).1 in
      (d'.users ≡ d.users) × (d'.group_members ≡ d.group_members)
unfolding save_group_row
save_group_row_keeps now new_id id input d = elim (Bool-cases (id == "")) [
  | inl e ↦
      rw (e, save_group_row)
        (elim (Bool-cases (any (λ g. g.id == new_id || g.name == input.name) d.groups)) [
          | inl f ↦ rw f (refl, refl)
          | inr f ↦ rw f (refl, refl)
        ])
  | inr e ↦
      rw (e, save_group_row)
        (elim (Bool-cases (not (any (has_group_id id) d.groups))) [
          | inl f ↦ rw f (refl, refl)
          | inr f ↦
              rw f
                (elim (Bool-cases (any (λ g. not (g.id == id) && g.name == input.name) d.groups)) [
                  | inl k ↦ rw k (refl, refl)
                  | inr k ↦ rw k (refl, refl)
                ])
        ])
]

-- Where the row of a group can be saved and every member that is named is a user, saving the group
-- succeeds; its members are then exactly those named, trimmed and without blanks, and the members of
-- every other group are as before.
pub upsert_user_group_lem :
    (now : ℕ) (new_id id : String) (input : UserGroupInput) (d : Directory)
    → (save_group_row now new_id id input d).0 ≡ none
    → all_users (unique_trimmed [] input.member_ids) d.users ≡ true
    → let (error, d') = upsert_user_group now new_id id input d in
      (error ≡ none)
      × ((g u : String)
          → any (has_role g u) d'.group_members ≡ (
              if g == (if id == "" then new_id else id)
              then member u (unique_trimmed [] input.member_ids)
              else any (has_role g u) d.group_members))
unfolding upsert_user_group
upsert_user_group_lem now new_id id input d saved known =
    let d' = (save_group_row now new_id id input d).1 in
    let (same_users, same_members) = save_group_row_keeps now new_id id input d in
    let group_id = if id == "" then new_id else id in
    let (ok, rows) =
      fill_group_lem group_id input d'
        (ap (all_users (unique_trimmed [] input.member_ids)) same_users ∙ known) in
    rw (saved, upsert_user_group)
      (
        ok,
        λ g u.
            rows g u
            ∙ ap
                (λ m.
                  if g == group_id
                  then member u (unique_trimmed [] input.member_ids)
                  else any (has_role g u) m)
                same_members,
      )

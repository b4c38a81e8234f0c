-- ===== src/Access/Users/Known.antt =====
-- Giving roles to a user by their keys: replaceUserRoles of backend/internal/repository/rbac.go.
use kvm_manager.Base.{
  String, ◌≡◌, refl, sym, ap, ◌∙◌, Bool, true, false, ◌&&◌, not, Option, none, some, List, [], ◌∷◌,
  ◌++◌, arith, ◌==◌, eq_iff, eq_refl, Bool-cases, Option-cases, inl, inr, any, all, member,
}
use kvm_manager.Text.{trim_space}
use kvm_manager.Sql.{delete_where, find_where}
use kvm_manager.Sql.Rows.{any-append, find_where_lem}
use kvm_manager.Access.Permissions.{unique_trimmed, normalize_role_keys}
use kvm_manager.Access.Users.{Role, Directory, has_role, insert_user_roles, replace_user_roles}

abbrev pub has_key : String → Role → Bool
has_key key r = r.key == key

-- Some role has the key.
abbrev pub is_known : List Role → String → Bool
is_known roles key = any (has_key key) roles

-- No two roles have the same identifier, the primary key of their table.
unfoldable pub has_unique_ids : List Role → Bool
has_unique_ids [] = true
has_unique_ids (r ∷ rest) = not (any (λ q. q.id == r.id) rest) && has_unique_ids rest

has_no_repeats : List String → Bool
has_no_repeats [] = true
has_no_repeats (k ∷ ks) = not (member k ks) && has_no_repeats ks

unique_trimmed_seen :
    (keys seen : List String) (k : String)
    → member k seen ≡ true
    → member k (unique_trimmed seen keys) ≡ false
unfolding unique_trimmed
unique_trimmed_seen [] seen k h = refl
unique_trimmed_seen (key ∷ keys) seen k h = ground (
  arith,
  unique_trimmed_seen keys seen k h,
  unique_trimmed_seen keys (trim_space key ∷ seen) k,
  eq_iff (trim_space key) k,
)

unique_trimmed-no_repeats :
    (keys seen : List String) → has_no_repeats (unique_trimmed seen keys) ≡ true
unfolding unique_trimmed has_no_repeats
unique_trimmed-no_repeats [] seen = refl
unique_trimmed-no_repeats (key ∷ keys) seen =
    let k = trim_space key in
    ground (
      arith,
      unique_trimmed-no_repeats keys seen,
      unique_trimmed-no_repeats keys (k ∷ seen),
      unique_trimmed_seen keys (k ∷ seen) k,
      eq_refl k,
    )

or_viewer-no_repeats :
    (keys : List String)
    → has_no_repeats keys ≡ true
    → has_no_repeats (elim keys [ [] ↦ "viewer" ∷ [] | k ∷ ks ↦ k ∷ ks ]) ≡ true
unfolding has_no_repeats
or_viewer-no_repeats [] h = refl
or_viewer-no_repeats (k ∷ ks) h = h

normalize_role_keys-no_repeats :
    (keys : List String) → has_no_repeats (normalize_role_keys keys) ≡ true
unfolding normalize_role_keys
normalize_role_keys-no_repeats keys =
    or_viewer-no_repeats (unique_trimmed [] keys) (unique_trimmed-no_repeats keys [])

-- The first of a list with unique identifiers has the identifier of no other.
first_differs :
    (r a : Role) (rest : List Role) (p : Role → Bool)
    → has_unique_ids (r ∷ rest) ≡ true
    → find_where p rest ≡ some a
    → (r.id == a.id) ≡ false
unfolding has_unique_ids
first_differs r a rest p u h =
    let found = (find_where_lem p (λ q. q.id == r.id) rest a h).1 in
    ground (arith, found, eq_iff r.id a.id, eq_iff a.id r.id)

key_of : Option Role → String
key_of none = ""
key_of (some r) = r.key

id_of : Option Role → String
id_of none = ""
id_of (some r) = r.id

-- Roles found by tests have the same key if they have the same identifier.
role_key_eq :
    (roles : List Role) (p q : Role → Bool) (a b : Role)
    → has_unique_ids roles ≡ true
    → find_where p roles ≡ some a
    → find_where q roles ≡ some b
    → (a.id == b.id) ≡ true
    → a.key ≡ b.key
unfolding has_unique_ids key_of id_of
role_key_eq [] p q a b u h k e = cc
role_key_eq (r ∷ rest) p q a b u h k e = elim (Bool-cases (p r)) [
  | inl x ↦ elim (Bool-cases (q r)) [
    | inl y ↦
        (let first : some r ≡ some a = rw x at h in
          let second : some r ≡ some b = rw y at k in ap key_of (sym first ∙ second))
    | inr y ↦
        (let first : some r ≡ some a = rw x at h in
          let differs = first_differs r b rest q u (rw y at k) in
          ground (arith, differs, ap id_of first))
  ]
  | inr x ↦ elim (Bool-cases (q r)) [
    | inl y ↦
        (let second : some r ≡ some b = rw y at k in
          let differs = first_differs r a rest p u (rw x at h) in
          ground (arith, differs, ap id_of second, eq_iff a.id b.id, eq_iff r.id a.id))
    | inr y ↦ role_key_eq rest p q a b (ground arith) (rw x at h) (rw y at k) e
  ]
]

-- Distinct keys of roles belong to roles of distinct identifiers.
role_key_inj :
    (roles : List Role) (i j : String) (a b : Role)
    → has_unique_ids roles ≡ true
    → find_where (has_key i) roles ≡ some a
    → find_where (has_key j) roles ≡ some b
    → (a.id == b.id) ≡ true
    → (i == j) ≡ true
role_key_inj roles i j a b u h k e =
    let same = role_key_eq roles (has_key i) (has_key j) a b u h k e in
    let first = (find_where_lem (has_key i) (has_key i) roles a h).0 in
    let second = (find_where_lem (has_key j) (has_key j) roles b k).0 in
    ground (arith, same, first, second, eq_iff a.key i, eq_iff b.key j, eq_iff i j)

find_where-none :
    (p : Role → Bool) (roles : List Role) → find_where p roles ≡ none → any p roles ≡ false
find_where-none p [] h = refl
find_where-none p (r ∷ rest) h = ground (arith, find_where-none p rest)

no_rows :
    (user_id role_id : String) (rows : List (String × String))
    → any (has_role user_id role_id) (delete_where (λ row. row.0 == user_id) rows) ≡ false
unfolding has_role
no_rows user_id role_id [] = refl
no_rows user_id role_id (row ∷ rows) = ground (arith, no_rows user_id role_id rows)

-- No row of the user has the role of one of the keys.
IsFree : String → List String → Directory → Type 0
IsFree user_id keys d =
    (key : String) (role : Role)
    → member key keys ≡ true
    → find_where (has_key key) d.roles ≡ some role
    → any (has_role user_id role.id) d.user_roles ≡ false

insert_user_roles_known :
    (user_id : String) (keys : List String) (d : Directory)
    → (insert_user_roles user_id keys d).0 ≡ true
    → all (is_known d.roles) keys ≡ true
unfolding insert_user_roles
insert_user_roles_known user_id [] d h = refl
insert_user_roles_known user_id (key ∷ keys) d h =
    elim (Option-cases (find_where (has_key key) d.roles)) [
      | inl e ↦ (let bad : false ≡ true = rw (e, insert_user_roles) at h in cc)
      | inr (role, e) ↦ elim (Bool-cases (any (has_role user_id role.id) d.user_roles)) [
        | inl dup ↦ (let bad : false ≡ true = rw (e, dup, insert_user_roles) at h in cc)
        | inr new ↦
            (let rest =
                insert_user_roles_known user_id keys
                  (record d { user_roles = d.user_roles ++ (user_id, role.id) ∷ [] })
                  (rw (e, new, insert_user_roles) at h) in
              ground (
                arith,
                rest,
                (find_where_lem (has_key key) (has_key key) d.roles role e).1,
                (find_where_lem (has_key key) (has_key key) d.roles role e).0,
              ))
      ]
    ]

insert_user_roles_ok :
    (user_id : String) (keys : List String) (d : Directory)
    → has_unique_ids d.roles ≡ true
    → has_no_repeats keys ≡ true
    → all (is_known d.roles) keys ≡ true
    → IsFree user_id keys d
    → (insert_user_roles user_id keys d).0 ≡ true
unfolding insert_user_roles IsFree has_no_repeats has_role
insert_user_roles_ok user_id [] d u n k free = refl
insert_user_roles_ok user_id (key ∷ keys) d u n k free =
    elim (Option-cases (find_where (has_key key) d.roles)) [
      | inl e ↦ ground (arith, find_where-none (has_key key) d.roles e)
      | inr (role, e) ↦
          (let new = free key role (ground (arith, eq_refl key)) e in
            rw (e, new, insert_user_roles)
              (insert_user_roles_ok user_id keys
                (record d { user_roles = d.user_roles ++ (user_id, role.id) ∷ [] }) u (ground arith)
                (ground arith)
                (λ later other m f. ground (
                  arith,
                  any-append (has_role user_id other.id) d.user_roles ((user_id, role.id) ∷ []),
                  free later other (ground arith) f,
                  role_key_inj d.roles key later role other u e f,
                  eq_iff key later,
                ))))
    ]

-- Giving roles to a user whose earlier roles are taken away succeeds exactly when every key is that
-- of a role.
pub replace_user_roles_lem :
    (user_id : String) (keys : List String) (d : Directory)
    → has_unique_ids d.roles ≡ true
    → (replace_user_roles user_id (normalize_role_keys keys) d).0
      ≡ all (is_known d.roles) (normalize_role_keys keys)
unfolding replace_user_roles IsFree
replace_user_roles_lem user_id keys d u =
    let d' : Directory = record d {
      user_roles = delete_where (λ row. row.0 == user_id) d.user_roles;
    } in
    let ks = normalize_role_keys keys in
    elim (Bool-cases (all (is_known d.roles) ks)) [
      | inl e ↦
          insert_user_roles_ok user_id ks d' u (normalize_role_keys-no_repeats keys) e
            (λ key role m f. no_rows user_id role.id d.user_roles)
          ∙ sym e
      | inr e ↦ elim (Bool-cases (insert_user_roles user_id ks d').0) [
        | inl ok ↦ ok ∙ sym (insert_user_roles_known user_id ks d' ok)
        | inr bad ↦ bad ∙ sym e
      ]
    ]

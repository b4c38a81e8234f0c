-- ===== src/Access/Permissions/Laws.antt =====
-- The permissions that a role is stored with.
use mathlib.Core.Bool.{false≢true}
use kvm_manager.Base.{
  String, ◌≡◌, refl, sym, subst, ◌∙◌, ap, Bool, true, false, ◌||◌, Option, none, some, List, [],
  ◌∷◌, arith, ◌==◌, eq_iff, eq_refl, Bool-cases, Option-cases, inl, inr, any, all, member, adjoin,
  member-adjoin, if◌then◌else◌,
}
use kvm_manager.Sql.{is_none, insert_by, sort_by}
use kvm_manager.Dict.{Dict, get}
use kvm_manager.Text.{trim_space}
use kvm_manager.Access.Permissions.{
  implied_read_permissions, add_permission, seen_permissions, is_before, normalize_permissions,
}

-- Whether a trimmed text that implies some reading gives a permission.
abbrev pub grants : String → Option String → String → Bool
grants text implied wanted =
    if text == ""
    then false
    else text == wanted || elim implied [ none ↦ false | some read ↦ read == wanted ]

-- Whether a submitted text gives a permission: by itself, or as the reading that it implies.
unfoldable pub gives : String → String → Bool
gives wanted submitted =
    grants (trim_space submitted) (get (trim_space submitted) implied_read_permissions) wanted

member-insert_by :
    (p a : String) (xs : List String)
    → member p (insert_by is_before a xs) ≡ (a == p || member p xs)
member-insert_by p a [] = refl
member-insert_by p a (x ∷ xs) = ground (arith, member-insert_by p a xs)

member-sort_by : (p : String) (xs : List String) → member p (sort_by is_before xs) ≡ member p xs
member-sort_by p [] = refl
member-sort_by p (x ∷ xs) =
    ground (arith, member-sort_by p xs, member-insert_by p x (sort_by is_before xs))

member-add_permission :
    (wanted submitted : String) (seen : List String)
    → member wanted (add_permission submitted seen) ≡ (gives wanted submitted || member wanted seen)
unfolding add_permission gives
member-add_permission wanted submitted seen =
    let p = trim_space submitted in
    elim (Bool-cases (p == "")) [
      | inl e ↦ rw e refl
      | inr e ↦ rw e (elim (Option-cases (get p implied_read_permissions)) [
        | inl h ↦ rw h (ground (arith, member-adjoin p wanted seen))
        | inr (read, h) ↦
            rw h (
              ground
                (arith, member-adjoin p wanted seen, member-adjoin read wanted (adjoin p seen)))
      ])
    ]

member-seen_permissions :
    (wanted : String) (ps : List String)
    → member wanted (seen_permissions ps) ≡ any (gives wanted) ps
unfolding seen_permissions
member-seen_permissions wanted [] = refl
member-seen_permissions wanted (p ∷ ps) =
    member-add_permission wanted p (seen_permissions ps)
    ∙ ap (λ b. gives wanted p || b) (member-seen_permissions wanted ps)

member-normalize_permissions :
    (wanted : String) (permissions : List String)
    → member wanted (normalize_permissions permissions) ≡ any (gives wanted) permissions
unfolding normalize_permissions
member-normalize_permissions wanted permissions =
    member-sort_by wanted (seen_permissions permissions)
    ∙ member-seen_permissions wanted permissions

-- A value of a map passes each test that all its values pass.
get-all :
    (test : String → Bool) (m : Dict String) (k v : String)
    → all (λ entry. test entry.1) m ≡ true
    → get k m ≡ some v
    → test v ≡ true
unfolding get
get-all test [] k v h e = cc
get-all test ((j, w) ∷ m) k v h e = elim (Bool-cases (j == k)) [
  | inl here ↦
      (let same : some w ≡ some v = subst (λ b. (if b then some w else get k m) ≡ some v) here e in
        subst (λ o. elim o [ none ↦ true | some u ↦ test u ] ≡ true) same (ground arith))
  | inr later ↦
      get-all test m k v (ground arith)
        (subst (λ b. (if b then some w else get k m) ≡ some v) later e)
]

-- No reading permission implies another.
implied_twice :
    (p read : String)
    → get p implied_read_permissions ≡ some read
    → is_none (get read implied_read_permissions) ≡ true
unfolding get implied_read_permissions
implied_twice p read h =
    get-all (λ r. is_none (get r implied_read_permissions)) implied_read_permissions p read refl h

not_read :
    (t r p read : String)
    → get t implied_read_permissions ≡ some r
    → get p implied_read_permissions ≡ some read
    → (r == p) ≡ false
not_read t r p read e h = elim (Bool-cases (r == p)) [
  | inl same ↦
      (let r_implies : get r implied_read_permissions ≡ some read =
          subst (λ x. get x implied_read_permissions ≡ some read) (sym ((eq_iff r p).0 same)) h in
        absurd (false≢true (subst (λ o. is_none o ≡ true) r_implies (implied_twice t r e))))
  | inr other ↦ other
]

grants_implied :
    (text p read : String) (implied : Option String)
    → (text ≡ p → implied ≡ some read)
    → ((r : String) → implied ≡ some r → (r == p) ≡ false)
    → grants text implied p ≡ true
    → grants text implied read ≡ true
grants_implied text p read none same once g = ground (arith, eq_iff text p, same)
grants_implied text p read (some r) same once g = elim (Bool-cases (text == p)) [
  | inl e ↦
      (let here : some r ≡ some read = same ((eq_iff text p).0 e) in
        let equal : (r == read) ≡ true =
          subst (λ o. elim o [ none ↦ true | some u ↦ r == u ] ≡ true) here (eq_refl r) in
        ground (arith, equal))
  | inr e ↦ ground (arith, once r refl)
]

-- A text that gives a permission also gives the reading that the permission implies.
gives_implied :
    (p read submitted : String)
    → get p implied_read_permissions ≡ some read
    → gives p submitted ≡ true
    → gives read submitted ≡ true
unfolding gives
gives_implied p read submitted h g =
    let t = trim_space submitted in
    grants_implied t p read (get t implied_read_permissions)
      (λ same. subst (λ x. get x implied_read_permissions ≡ some read) (sym same) h)
      (λ r e. not_read t r p read e h) g

any_mono {ℓ} :
    {A : Type ℓ} (p q : A → Bool)
    → ((a : A) → p a ≡ true → q a ≡ true)
    → (xs : List A) → any p xs ≡ true
    → any q xs ≡ true
any_mono p q more [] h = h
any_mono p q more (x ∷ xs) h = ground (arith, more x, any_mono p q more xs)

-- A role is stored with exactly the permissions that were submitted, trimmed, and the readings that
-- those imply; with each permission, the stored ones hold the reading that it implies.
pub normalize_permissions_lem :
    (permissions : List String) (p : String)
    → (member p (normalize_permissions permissions) ≡ any (gives p) permissions)
      × ((read : String)
          → get p implied_read_permissions ≡ some read
          → member p (normalize_permissions permissions) ≡ true
          → member read (normalize_permissions permissions) ≡ true)
normalize_permissions_lem permissions p = (
  member-normalize_permissions p permissions,
  λ read h in_set.
      member-normalize_permissions read permissions
      ∙ any_mono (gives p) (gives read) (λ s. gives_implied p read s h) permissions
          (sym (member-normalize_permissions p permissions) ∙ in_set),
)

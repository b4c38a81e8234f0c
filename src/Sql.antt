-- ===== src/Sql.antt =====
-- SQL statements on a table, which is the list of its rows in the order of their insertion.
pub mod Rows
use kvm_manager.Base.{ℕ, Bool, true, false, Option, none, some, List, [], ◌∷◌, if◌then◌else◌}

-- UPDATE … WHERE
abbrev pub update_where {ℓ} : {A : Type ℓ} → (A → Bool) → (A → A) → List A → List A
update_where p f [] = []
update_where p f (a ∷ rest) = (if p a then f a else a) ∷ update_where p f rest

-- ORDER BY, with the test "stands before or beside".
abbrev pub insert_by {ℓ} : {A : Type ℓ} → (A → A → Bool) → A → List A → List A
insert_by before a [] = a ∷ []
insert_by before a (b ∷ rest) = if before a b then a ∷ b ∷ rest else b ∷ insert_by before a rest

abbrev pub sort_by {ℓ} : {A : Type ℓ} → (A → A → Bool) → List A → List A
sort_by before [] = []
sort_by before (a ∷ rest) = insert_by before a (sort_by before rest)

abbrev pub is_none {ℓ} : {A : Type ℓ} → Option A → Bool
is_none none = true
is_none (some a) = false

-- COALESCE
abbrev pub coalesce : Option ℕ → ℕ → Option ℕ
coalesce none now = some now
coalesce (some t) now = some t

-- DELETE … WHERE
abbrev pub delete_where {ℓ} : {A : Type ℓ} → (A → Bool) → List A → List A
delete_where p [] = []
delete_where p (a ∷ rest) = let kept = delete_where p rest in if p a then kept else a ∷ kept

-- The first row that passes a test.
abbrev pub find_where {ℓ} : {A : Type ℓ} → (A → Bool) → List A → Option A
find_where p [] = none
find_where p (a ∷ rest) = if p a then some a else find_where p rest

-- ===== src/Dict/Many.antt =====
-- Loops over keys and entries: several deletions, several assignments, and sets kept under keys. A
-- loop over a map runs from its last entry to its first, which is one of Go's orders.
use kvm_manager.Base.{
  String, ◌≡◌, refl, true, false, none, some, List, [], ◌∷◌, arith, ◌==◌, eq_refl, member, without,
  adjoin, member-without, member-adjoin, if◌then◌else◌,
}
use kvm_manager.Dict.{Dict, get, put, remove, get-put, get-remove}

unfoldable pub without_all : List String → List String → List String
without_all [] js = js
without_all (k ∷ ks) js = without_all ks (without k js)

unfoldable pub adjoin_all : List String → List String → List String
adjoin_all [] js = js
adjoin_all (k ∷ ks) js = adjoin k (adjoin_all ks js)

unfoldable pub keys {ℓ} : {V : Type ℓ} → Dict V → List String
keys [] = []
keys ((k, v) ∷ m) = k ∷ keys m

unfoldable pub remove_all {ℓ} : {V : Type ℓ} → List String → Dict V → Dict V
remove_all [] m = m
remove_all (k ∷ ks) m = remove_all ks (remove k m)

unfoldable pub assign_all {ℓ} : {V : Type ℓ} → Dict V → Dict V → Dict V
assign_all [] m = m
assign_all ((k, v) ∷ new) m = put k v (assign_all new m)

-- SMEMBERS: a missing key is the empty set.
unfoldable pub members : String → Dict (List String) → List String
members k d = elim (get k d) [ none ↦ [] | some js ↦ js ]

-- SADD
unfoldable pub sadd : String → String → Dict (List String) → Dict (List String)
sadd k j d = put k (adjoin j (members k d)) d

unfoldable pub sadd_all : String → List String → Dict (List String) → Dict (List String)
sadd_all k [] d = d
sadd_all k (j ∷ js) d = sadd k j (sadd_all k js d)

-- SREM
unfoldable pub srem : String → String → Dict (List String) → Dict (List String)
srem k j d = elim (get k d) [ none ↦ d | some js ↦ put k (without j js) d ]

pub member-without_all :
    (ks js : List String) (j : String)
    → member j (without_all ks js) ≡ (if member j ks then false else member j js)
unfolding without_all
member-without_all [] js j = refl
member-without_all (k ∷ ks) js j =
    ground (arith, member-without_all ks (without k js) j, member-without k j js)

pub member-adjoin_all :
    (ks js : List String) (j : String)
    → member j (adjoin_all ks js) ≡ (if member j ks then true else member j js)
unfolding adjoin_all
member-adjoin_all [] js j = refl
member-adjoin_all (k ∷ ks) js j =
    ground (arith, member-adjoin_all ks js j, member-adjoin k j (adjoin_all ks js))

pub members-remove : (k : String) (d : Dict (List String)) → members k (remove k d) ≡ []
unfolding members
members-remove k d = ground (arith, get-remove k k d, eq_refl k)

pub members-sadd :
    (k i j : String) (d : Dict (List String))
    → member j (members k (sadd k i d)) ≡ (if i == j then true else member j (members k d))
unfolding sadd members
members-sadd k i j d =
    ground
      (arith, get-put k k (adjoin i (members k d)) d, eq_refl k, member-adjoin i j (members k d))

pub members-sadd_all :
    (k : String) (js : List String) (j : String) (d : Dict (List String))
    → member j (members k (sadd_all k js d))
      ≡ (if member j js then true else member j (members k d))
unfolding sadd_all
members-sadd_all k [] j d = refl
members-sadd_all k (i ∷ js) j d =
    ground (arith, members-sadd_all k js j d, members-sadd k i j (sadd_all k js d))

module _ {ℓ} {V : Type ℓ} where
  pub get-remove_all :
      (ks : List String) (m : Dict V) (j : String)
      → get j (remove_all ks m) ≡ (if member j ks then none else get j m)
  unfolding remove_all
  get-remove_all [] m j = refl
  get-remove_all (k ∷ ks) m j = ground (arith, get-remove_all ks (remove k m) j, get-remove k j m)

  pub get-assign_all :
      (new m : Dict V) (j : String)
      → get j (assign_all new m) ≡ elim (get j new) [ none ↦ get j m | some v ↦ some v ]
  unfolding assign_all get
  get-assign_all [] m j = refl
  get-assign_all ((k, v) ∷ new) m j =
      ground (arith, get-assign_all new m j, get-put k j v (assign_all new m))

  -- A key is listed exactly when it has an entry.
  pub member-keys :
      (m : Dict V) (j : String)
      → member j (keys m) ≡ elim (get j m) [ none ↦ false | some v ↦ true ]
  unfolding keys get
  member-keys [] j = refl
  member-keys ((k, v) ∷ m) j = ground (arith, member-keys m j)

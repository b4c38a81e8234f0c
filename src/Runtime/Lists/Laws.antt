-- ===== src/Runtime/Lists/Laws.antt =====
-- The listings of the cache: what they hold, and their order.
use kvm_manager.Base.{ℕ, Bool, true, ◌&&◌, List, [], ◌∷◌, leb}
use kvm_manager.Dict.{Dict}

-- No element has a smaller rank than one before it.
abbrev pub is_ranked {ℓ} : {V : Type ℓ} → (V → ℕ) → List V → Bool
is_ranked rank [] = true
is_ranked rank (x ∷ xs) = elim xs [ [] ↦ true | y ∷ _ ↦ leb (rank x) (rank y) ] && is_ranked rank xs

-- ===== src/Dict/Defs.antt =====
-- The operations of a Go map, and the invariant that a key stands in it once.
use skall.Base.{
  ℕ, suc, ◌≡◌, Bool, true, false, Option, none, some, List, [], ◌∷◌, HasEquals, ◌==◌, if◌then◌else◌,
}

abbrev pub Dict {ℓ} : Type ℓ → Type ℓ → Type ℓ
Dict K V = List (K × V)

-- make(map[K]V)
abbrev pub empty {ℓ} : {K V : Type ℓ} → Dict K V
empty = []

module _ {ℓ} {K V : Type ℓ} ⦃e : HasEquals K⦄ where
  -- v, ok := m[k]
  unfoldable pub get : K → Dict K V → Option V
  get k [] = none
  get k ((j, v) ∷ m) = if j == k then some v else get k m

  -- _, ok := m[k]
  abbrev pub has : K → Dict K V → Bool
  has k m = elim (get k m) [ none ↦ false | some v ↦ true ]

  -- m[k] = v
  unfoldable pub put : K → V → Dict K V → Dict K V
  put k v [] = (k, v) ∷ []
  put k v ((j, w) ∷ m) = if j == k then (j, v) ∷ m else (j, w) ∷ put k v m

  -- delete(m, k)
  unfoldable pub delete : K → Dict K V → Dict K V
  delete k [] = []
  delete k ((j, v) ∷ m) = let rest = delete k m in if j == k then rest else (j, v) ∷ rest

  abbrev pub IsMap : Dict K V → Type ℓ
  IsMap [] = Unit
  IsMap ((k, v) ∷ m) = (get k m ≡ none) × IsMap m

module _ {ℓ} {K V : Type ℓ} where
  unfoldable pub keys : Dict K V → List K
  keys [] = []
  keys ((k, v) ∷ m) = k ∷ keys m

  unfoldable pub values : Dict K V → List V
  values [] = []
  values ((k, v) ∷ m) = v ∷ values m

  -- len(m)
  unfoldable pub size : Dict K V → ℕ
  size [] = 0
  size (kv ∷ m) = suc (size m)

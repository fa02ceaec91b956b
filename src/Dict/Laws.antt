-- ===== src/Dict/Laws.antt =====
-- What each operation of a map does to every other.
use skall.Base.{
  suc, ◌≤◌, ◌≡◌, refl, ap, not, ◌&&◌, ◌||◌, none, some, [], ◌∷◌, arith, HasEquals, ◌==◌, eq_iff,
  eq_refl, contains, length, if◌then◌else◌,
}
use skall.Dict.Defs.{Dict, empty, get, has, put, delete, keys, values, size, IsMap}

module _ {ℓ} {K V : Type ℓ} ⦃e : HasEquals K⦄ where
  pub get-empty : (k : K) → get k (empty {V = V}) ≡ none
  unfolding get
  get-empty k = refl

  pub get-put :
      (j k : K) (v : V) (m : Dict K V) → get j (put k v m) ≡ (if k == j then some v else get j m)
  unfolding get put
  get-put j k v [] = refl
  get-put j k v ((i, w) ∷ m) = ground (arith, eq_iff k j, eq_iff i k, eq_iff i j, get-put j k v m)

  pub get-delete :
      (j k : K) (m : Dict K V) → get j (delete k m) ≡ (if k == j then none else get j m)
  unfolding get delete
  get-delete j k [] = ground arith
  get-delete j k ((i, w) ∷ m) = ground (arith, eq_iff k j, eq_iff i k, eq_iff i j, get-delete j k m)

  pub has-put : (j k : K) (v : V) (m : Dict K V) → has j (put k v m) ≡ (k == j || has j m)
  has-put j k v m = ground (arith, get-put j k v m)

  pub has-delete : (j k : K) (m : Dict K V) → has j (delete k m) ≡ (not (k == j) && has j m)
  has-delete j k m = ground (arith, get-delete j k m)

  pub get-put_self : (k : K) (v : V) (m : Dict K V) → get k (put k v m) ≡ some v
  get-put_self k v m = simp (get-put, eq_refl)

  get-delete_self : (k : K) (m : Dict K V) → get k (delete k m) ≡ none
  get-delete_self k m = simp (get-delete, eq_refl)

  pub put-IsMap : (k : K) (v : V) (m : Dict K V) → IsMap m → IsMap (put k v m)
  unfolding put get
  put-IsMap k v [] h = (refl, tt)
  put-IsMap k v ((i, w) ∷ m) h =
      ground (arith, put-IsMap k v m h.1, get-put i k v m, eq_iff i k, eq_iff k i)

  pub delete-IsMap : (k : K) (m : Dict K V) → IsMap m → IsMap (delete k m)
  unfolding delete
  delete-IsMap k [] h = tt
  delete-IsMap k ((i, w) ∷ m) h = ground (arith, delete-IsMap k m h.1, get-delete i k m)

  pub size-put :
      (k : K) (v : V) (m : Dict K V) → size (put k v m) ≡ (if has k m then size m else suc (size m))
  unfolding size put get
  size-put k v [] = refl
  size-put k v ((i, w) ∷ m) = ground (arith, size-put k v m)

  delete_absent : (k : K) (m : Dict K V) → get k m ≡ none → size (delete k m) ≡ size m
  unfolding size delete get
  delete_absent k [] h = refl
  delete_absent k ((i, w) ∷ m) h = ground (arith, delete_absent k m)

  pub size-delete :
      (k : K) (m : Dict K V)
      → IsMap m
      → size m ≡ (if has k m then suc (size (delete k m)) else size (delete k m))
  unfolding size delete get
  size-delete k [] h = refl
  size-delete k ((i, w) ∷ m) h = ground (arith, size-delete k m h.1, delete_absent k m, eq_iff i k)

  pub size-delete-le : (k : K) (m : Dict K V) → size (delete k m) ≤ size m
  unfolding size delete
  size-delete-le k [] = omega arith
  size-delete-le k ((i, w) ∷ m) = ground (arith, size-delete-le k m)

  -- The keys of a map are what has a value in it.
  pub contains-keys : (k : K) (m : Dict K V) → contains k (keys m) ≡ has k m
  unfolding keys get
  contains-keys k [] = refl
  contains-keys k ((i, w) ∷ m) = ground (arith, contains-keys k m)

module _ {ℓ} {K V : Type ℓ} where
  length-keys : (m : Dict K V) → length (keys m) ≡ size m
  unfolding keys size
  length-keys [] = refl
  length-keys (kv ∷ m) = ap suc (length-keys m)

  length-values : (m : Dict K V) → length (values m) ≡ size m
  unfolding values size
  length-values [] = refl
  length-values (kv ∷ m) = ap suc (length-values m)

pub ruleset dict_laws = (get-empty, get-put, get-delete)

-- ===== src/Storage/Conversation.antt =====
-- The rows that the SELECT of a conversation returns (internal/storage/store.go).
use skall.Base.{
  ℕ, ◌≡◌, ◌⊎◌, refl, Bool, true, false, List, [], ◌∷◌, ◌++◌, arith, eq_iff, keep, drop,
  take-append-drop, length-take, length, All, ◌∙◌, contains, IsDistinct,
}
use Prim.Native.Nat.{min}
use skall.Bytes.{Bytes, Bytes-eq, bytes_le, bytes_le_total, bytes_le_trans, bytes_le_antisymm}
use skall.Dict.{Dict}
use skall.Dict.Sort.{
  sort, IsSorted, sort-IsSorted, All-sort, contains_image-sort, images, IsDistinct-sort,
}
use skall.Storage.Rows.{MessageRow}
use skall.Storage.Messages.{by_time, select}

abbrev pub Row : Type 0
Row = Bytes × MessageRow

by_time_total : (x y : Row) → (by_time x y ≡ true) ⊎ (by_time y x ≡ true)
unfolding by_time
by_time_total (i, v) (j, w) = ground (
  arith,
  eq_iff v.timestamp w.timestamp,
  eq_iff w.timestamp v.timestamp,
  bytes_le_total i j,
  bytes_le_total v.timestamp w.timestamp,
)

by_time_trans : (x y z : Row) → by_time x y ≡ true → by_time y z ≡ true → by_time x z ≡ true
unfolding by_time
by_time_trans (i, u) (j, v) (k, w) p q =
    let (a, b, c) : Bytes × Bytes × Bytes = (u.timestamp, v.timestamp, w.timestamp) in
    ground (
      arith,
      eq_iff a b,
      eq_iff b c,
      eq_iff a c,
      bytes_le_trans i j k,
      bytes_le_trans a b c,
      bytes_le_antisymm a b,
      bytes_le_antisymm b c,
    )

-- The order of a conversation: by the text of the time, and by the ID where the times are one text.
abbrev Before : Row → Row → Type 0
Before x y =
    (bytes_le x.1.timestamp y.1.timestamp ≡ true)
    × (x.1.timestamp ≡ y.1.timestamp → bytes_le x.0 y.0 ≡ true)

abbrev pub IsOrdered : List Row → Type 0
IsOrdered [] = Unit
IsOrdered (x ∷ rows) = All (Before x) rows × IsOrdered rows

abbrev pub row_id : Row → Bytes
row_id row = row.0

by_time-Before : (x y : Row) → by_time x y ≡ true → Before x y
unfolding by_time
by_time-Before (i, v) (j, w) h = (
  ground (arith, eq_iff v.timestamp w.timestamp, bytes_le_total v.timestamp w.timestamp),
  λ same. ground (arith, eq_iff v.timestamp w.timestamp),
)

All-by_time-Before :
    (x : Row) (rows : List Row) → All (λ y. by_time x y ≡ true) rows → All (Before x) rows
All-by_time-Before x [] h = tt
All-by_time-Before x (y ∷ rows) h = (by_time-Before x y h.0, All-by_time-Before x rows h.1)

IsSorted-IsOrdered : (rows : List Row) → IsSorted by_time rows → IsOrdered rows
IsSorted-IsOrdered [] h = tt
IsSorted-IsOrdered (x ∷ rows) h = (All-by_time-Before x rows h.0, IsSorted-IsOrdered rows h.1)

-- The ID of each row for which P holds is in the list.
abbrev pub HasEach : (Row → Type 0) → List Bytes → List Row → Type 0
HasEach P ids rows = All (λ x. P x → contains x.0 ids ≡ true) rows

HasEach-mono :
    (P : Row → Type 0) (ids more : List Bytes) (rows : List Row)
    → ((id : Bytes) → contains id ids ≡ true → contains id more ≡ true)
    → HasEach P ids rows
    → HasEach P more rows
HasEach-mono P ids more [] keeps h = tt
HasEach-mono P ids more (x ∷ rows) keeps h =
    (λ p. keeps x.0 (h.0 p), HasEach-mono P ids more rows keeps h.1)

module _ (p : Row → Bool) (P : Row → Type 0) (sound : (x : Row) → p x ≡ true → P x)
    (complete : (x : Row) → P x → p x ≡ true) where
  All-keep : (rows : List Row) → All P (keep p rows)
  All-keep [] = tt
  All-keep (x ∷ rows) = ground (arith, All-keep rows, sound x)

  contains_id-keep :
      (id : Bytes) (rows : List Row)
      → contains id (images row_id rows) ≡ false
      → contains id (images row_id (keep p rows)) ≡ false
  contains_id-keep id [] h = refl
  contains_id-keep id (x ∷ rows) h = ground (arith, contains_id-keep id rows)

  IsDistinct-keep :
      (rows : List Row) → IsDistinct (images row_id rows) → IsDistinct (images row_id (keep p rows))
  IsDistinct-keep [] h = tt
  IsDistinct-keep (x ∷ rows) h =
      ground (arith, IsDistinct-keep rows h.1, contains_id-keep x.0 rows h.0)

  HasEach-keep : (rows : List Row) → HasEach P (images row_id (keep p rows)) rows
  HasEach-keep [] = tt
  HasEach-keep (x ∷ rows) = (
    λ h. ground (arith, complete x h, eq_iff x.0 x.0),
    HasEach-mono P (images row_id (keep p rows)) (images row_id (keep p (x ∷ rows))) rows
        (λ id there. ground (arith, there)) (HasEach-keep rows),
  )

  -- A SELECT of the rows for which P holds, with LIMIT n, and the rows that the limit cuts off.
  pub select_lem :
      (n : ℕ) (rows : Dict Bytes MessageRow)
      → IsDistinct (images row_id rows)
      → (rest : List Row) × IsOrdered (select p n rows ++ rest)
        × All P (select p n rows ++ rest)
        × HasEach P (images row_id (select p n rows ++ rest)) rows
        × IsDistinct (images row_id (select p n rows ++ rest))
        × (length (select p n rows) ≡ min n (length (select p n rows ++ rest)))
  unfolding select
  select_lem n rows once =
      let all = sort by_time (keep p rows) in
      let whole = take-append-drop n all in
      (
        drop n all,
        rw whole (
            IsSorted-IsOrdered all
              (sort-IsSorted by_time by_time_total by_time_trans (keep p rows))),
        rw whole (All-sort P by_time (keep p rows) (All-keep rows)),
        rw whole (
            HasEach-mono P (images row_id (keep p rows)) (images row_id all) rows
              (λ id there. contains_image-sort by_time row_id id (keep p rows) ∙ there)
              (HasEach-keep rows)),
        rw whole (IsDistinct-sort by_time row_id (keep p rows) (IsDistinct-keep rows once)),
        rw whole (length-take n all),
      )

-- ===== src/Bytes/Text.antt =====
-- A Go string is a list of bytes: its equality, its order, and text literals.
use Prim.Native.Char.{code}
use skall.Base.{
  ℕ, String, ◌≡◌, refl, ◌↔◌, Bool, true, false, ◌&&◌, ◌||◌, List, [], ◌∷◌, ◌+◌, ◌⊎◌, inl, inr,
  arith, nat_eq, HasEquals, ltb, leb, if◌then◌else◌,
}

abbrev pub Bytes : Type 0
Bytes = List ℕ

unfoldable pub bytes_eq : Bytes → Bytes → Bool
bytes_eq [] [] = true
bytes_eq [] (b ∷ t) = false
bytes_eq (a ∷ s) [] = false
bytes_eq (a ∷ s) (b ∷ t) = nat_eq a b && bytes_eq s t

bytes_eq_of_eq : (s : Bytes) → bytes_eq s s ≡ true
unfolding bytes_eq
bytes_eq_of_eq [] = refl
bytes_eq_of_eq (a ∷ s) = ground (arith, bytes_eq_of_eq s)

eq_of_bytes_eq : (s t : Bytes) → bytes_eq s t ≡ true → s ≡ t
unfolding bytes_eq
eq_of_bytes_eq [] [] h = refl
eq_of_bytes_eq [] (b ∷ t) h = ground arith
eq_of_bytes_eq (a ∷ s) [] h = ground arith
eq_of_bytes_eq (a ∷ s) (b ∷ t) h = ground (arith, eq_of_bytes_eq s t)

pub bytes_eq_iff : (s t : Bytes) → (bytes_eq s t ≡ true) ↔ (s ≡ t)
bytes_eq_iff s t = (eq_of_bytes_eq s t, λ e. rw (← e) (bytes_eq_of_eq s))

instance abbrev pub Bytes-eq : HasEquals Bytes
Bytes-eq = record { equals = bytes_eq; equals_iff = bytes_eq_iff }

-- The bytes of an ASCII text literal.
abbrev pub lit : String → Bytes
lit String.[] = []
lit (String.◌∷◌ c s) = code c ∷ lit s

-- s == ""
abbrev pub is_empty : Bytes → Bool
is_empty [] = true
is_empty (b ∷ s) = false

-- Go's < on strings: byte by byte, a proper prefix first.
unfoldable pub bytes_le : Bytes → Bytes → Bool
bytes_le [] t = true
bytes_le (a ∷ s) [] = false
bytes_le (a ∷ s) (b ∷ t) = ltb a b || (nat_eq a b && bytes_le s t)

pub bytes_le_total : (s t : Bytes) → (bytes_le s t ≡ true) ⊎ (bytes_le t s ≡ true)
unfolding bytes_le
bytes_le_total [] t = inl refl
bytes_le_total (a ∷ s) [] = inr refl
bytes_le_total (a ∷ s) (b ∷ t) = ground (arith, bytes_le_total s t)

pub bytes_le_trans :
    (s t u : Bytes) → bytes_le s t ≡ true → bytes_le t u ≡ true → bytes_le s u ≡ true
unfolding bytes_le
bytes_le_trans [] t u p q = refl
bytes_le_trans (a ∷ s) [] u p q = ground arith
bytes_le_trans (a ∷ s) (b ∷ t) [] p q = ground arith
bytes_le_trans (a ∷ s) (b ∷ t) (c ∷ u) p q = ground (arith, bytes_le_trans s t u)

pub bytes_le_antisymm : (s t : Bytes) → bytes_le s t ≡ true → bytes_le t s ≡ true → s ≡ t
unfolding bytes_le
bytes_le_antisymm [] [] p q = refl
bytes_le_antisymm [] (b ∷ t) p q = ground arith
bytes_le_antisymm (a ∷ s) [] p q = ground arith
bytes_le_antisymm (a ∷ s) (b ∷ t) p q = ground (arith, bytes_le_antisymm s t)

-- strings.HasPrefix(s, p)
abbrev pub has_prefix : Bytes → Bytes → Bool
has_prefix s [] = true
has_prefix [] (p ∷ ps) = false
has_prefix (b ∷ s) (p ∷ ps) = nat_eq b p && has_prefix s ps

-- strings.Contains(s, p)
unfoldable pub contains_text : Bytes → Bytes → Bool
contains_text [] p = has_prefix [] p
contains_text (b ∷ s) p = has_prefix (b ∷ s) p || contains_text s p

-- strings.ToLower, on the ASCII letters.
unfoldable pub to_lower : Bytes → Bytes
to_lower [] = []
to_lower (b ∷ s) = (if leb 65 b && leb b 90 then b + 32 else b) ∷ to_lower s

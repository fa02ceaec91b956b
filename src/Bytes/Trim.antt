-- ===== src/Bytes/Trim.antt =====
-- strings.TrimSpace on bytes: the UTF-8 encodings of white space fall off both ends.
use mathlib.Core.List.{reverse-append, reverse-reverse}
use skall.Base.{
  ℕ, zero, suc, ◌≡◌, refl, sym, ap, ◌∙◌, Bool, ◌&&◌, ◌||◌, [], ◌∷◌, ◌++◌, arith, nat_eq, leb,
  if◌then◌else◌, reverse, ◌≤◌, ◌<◌, All, All-reverse,
}
use skall.Bytes.Text.{Bytes, lit}

-- \t \n \v \f \r and the space
space_byte : ℕ → Bool
space_byte a = (leb 9 a && leb a 13) || nat_eq a 32

-- U+0085 and U+00A0
space_pair : ℕ → ℕ → Bool
space_pair a b = nat_eq a 0xc2 && (nat_eq b 0x85 || nat_eq b 0xa0)

-- U+1680, U+2000 to U+200A, U+2028, U+2029, U+202F, U+205F and U+3000
space_triple : ℕ → ℕ → ℕ → Bool
space_triple a b c =
    (nat_eq a 0xe1 && nat_eq b 0x9a && nat_eq c 0x80)
    || (nat_eq a 0xe2
        && nat_eq b 0x80
        && (leb 0x80 c && leb c 0x8a || nat_eq c 0xa8 || nat_eq c 0xa9 || nat_eq c 0xaf))
    || (nat_eq a 0xe2 && nat_eq b 0x81 && nat_eq c 0x9f)
    || (nat_eq a 0xe3 && nat_eq b 0x80 && nat_eq c 0x80)

-- How many bytes at the head are one white space, by three tests.
module _ (one : ℕ → Bool) (two : ℕ → ℕ → Bool) (three : ℕ → ℕ → ℕ → Bool) where
  width : Bytes → ℕ
  width [] = 0
  width (a ∷ []) = if one a then 1 else 0
  width (a ∷ b ∷ []) = if one a then 1 else if two a b then 2 else 0
  width (a ∷ b ∷ c ∷ s) = if one a then 1 else if two a b then 2 else if three a b c then 3 else 0

  width-prefix : (s t : Bytes) → width (s ++ t) ≡ 0 → width s ≡ 0
  unfolding width
  width-prefix [] t h = refl
  width-prefix (a ∷ []) [] h = h
  width-prefix (a ∷ []) (x ∷ []) h = ground arith
  width-prefix (a ∷ []) (x ∷ y ∷ t) h = ground arith
  width-prefix (a ∷ b ∷ []) [] h = h
  width-prefix (a ∷ b ∷ []) (x ∷ t) h = ground arith
  width-prefix (a ∷ b ∷ c ∷ s) t h = h

-- Drops white space at the head; the number is what is left of the one being dropped.
module _ (w : Bytes → ℕ) where
  skip : ℕ → Bytes → Bytes
  skip n [] = []
  skip zero (a ∷ s) = elim (w (a ∷ s)) [ zero ↦ a ∷ s | suc k ↦ skip k s ]
  skip (suc n) (a ∷ s) = skip n s

  case : Bytes → (ℕ → Bytes) → ℕ → Bytes
  case s rest zero = s
  case s rest (suc k) = rest k

  skip_step : (a : ℕ) (s : Bytes) → skip zero (a ∷ s) ≡ case (a ∷ s) (λ k. skip k s) (w (a ∷ s))
  unfolding skip case
  skip_step a s = go (w (a ∷ s))
    where
      go : (k : ℕ) → elim k [ zero ↦ a ∷ s | suc j ↦ skip j s ] ≡ case (a ∷ s) (λ j. skip j s) k
      go zero = refl
      go (suc k) = refl

  skip-suc : (n a : ℕ) (s : Bytes) → skip (suc n) (a ∷ s) ≡ skip n s
  unfolding skip
  skip-suc n a s = refl

  -- What is left begins with no white space.
  skip_done : w [] ≡ 0 → (n : ℕ) (s : Bytes) → w (skip n s) ≡ 0
  unfolding case
  skip_done e n [] = unfold skip in e
  skip_done e zero (a ∷ s) = rw (skip_step a s) (go (w (a ∷ s)) refl (λ k. skip_done e k s))
    where
      go :
          (k : ℕ)
          → w (a ∷ s) ≡ k
          → ((j : ℕ) → w (skip j s) ≡ 0)
          → w (case (a ∷ s) (λ j. skip j s) k) ≡ 0
      go zero h rec = h
      go (suc k) h rec = rec k
  skip_done e (suc n) (a ∷ s) = rw (skip-suc n a s) (skip_done e n s)

  skip_still : (s : Bytes) → w s ≡ 0 → skip zero s ≡ s
  unfolding case
  skip_still [] h = unfold skip in refl
  skip_still (a ∷ s) h = rw (skip_step a s) (rw h refl)

  -- What falls off is a piece at the head.
  skip_suffix : (n : ℕ) (s : Bytes) → (p : Bytes) × (s ≡ p ++ skip n s)
  unfolding case
  skip_suffix n [] = unfold skip in ([], refl)
  skip_suffix zero (a ∷ s) = rw (skip_step a s) (go (w (a ∷ s)) (λ k. skip_suffix k s))
    where
      go :
          (k : ℕ)
          → ((j : ℕ) → (p : Bytes) × (s ≡ p ++ skip j s))
          → (p : Bytes) × (a ∷ s ≡ p ++ case (a ∷ s) (λ j. skip j s) k)
      go zero rec = ([], refl)
      go (suc k) rec = (a ∷ (rec k).0, ap (λ (t : Bytes). a ∷ t) (rec k).1)
  skip_suffix (suc n) (a ∷ s) =
      rw (skip-suc n a s) (let r = skip_suffix n s in (a ∷ r.0, ap (λ (t : Bytes). a ∷ t) r.1))

abbrev left_width : Bytes → ℕ
left_width = width space_byte space_pair space_triple

-- The same tests on a text that is read backwards.
abbrev right_width : Bytes → ℕ
right_width = width space_byte (λ b a. space_pair a b) (λ c b a. space_triple a b c)

trim_left : Bytes → Bytes
trim_left s = skip left_width 0 s

trim_right : Bytes → Bytes
trim_right s = reverse (skip right_width 0 (reverse s))

-- strings.TrimSpace(s)
unfoldable pub trim_space : Bytes → Bytes
unfolding trim_left trim_right skip width space_byte space_pair space_triple
trim_space s = trim_right (trim_left s)

trim_right-prefix : (s : Bytes) → (q : Bytes) × (s ≡ trim_right s ++ q)
unfolding trim_right
trim_right-prefix s =
    let r = skip_suffix right_width 0 (reverse s) in
    (
      reverse r.0,
      sym (reverse-reverse s)
          ∙ ap reverse r.1
          ∙ reverse-append r.0 (skip right_width 0 (reverse s)),
    )

trim_right_idem : (s : Bytes) → trim_right (trim_right s) ≡ trim_right s
unfolding trim_right
trim_right_idem s = rw reverse-reverse (
    rw (
      skip_still right_width (skip right_width 0 (reverse s))
        (skip_done right_width (unfold width in refl) 0 (reverse s))))

trim_left_width : (s : Bytes) → left_width (trim_right (trim_left s)) ≡ 0
trim_left_width s =
    let r = trim_right-prefix (trim_left s) in
    width-prefix space_byte space_pair space_triple (trim_right (trim_left s)) r.0 (
      ap left_width (sym r.1) ∙ unfold trim_left in skip_done left_width (unfold width in refl) 0 s)

-- Trimming once is enough.
pub trim_space_idem : (s : Bytes) → trim_space (trim_space s) ≡ trim_space s
trim_space_idem s =
    unfold trim_space trim_left trim_right in
    (ap trim_right (skip_still left_width (trim_right (trim_left s)) (trim_left_width s))
      ∙ trim_right_idem (trim_left s))

-- A visible ASCII byte.
abbrev pub IsVisible : ℕ → Type 0
IsVisible b = (33 ≤ b) × (b < 128)

left_width-visible : (s : Bytes) → All IsVisible s → left_width s ≡ 0
unfolding width space_byte space_pair space_triple
left_width-visible [] h = refl
left_width-visible (a ∷ []) h = ground (arith, h.0)
left_width-visible (a ∷ b ∷ []) h = ground (arith, h.0)
left_width-visible (a ∷ b ∷ c ∷ s) h = ground (arith, h.0)

right_width-visible : (s : Bytes) → All IsVisible s → right_width s ≡ 0
unfolding width space_byte space_pair space_triple
right_width-visible [] h = refl
right_width-visible (a ∷ []) h = ground (arith, h.0)
right_width-visible (a ∷ b ∷ []) h = ground (arith, h.0)
right_width-visible (a ∷ b ∷ c ∷ s) h = ground (arith, h.0)

-- A text of visible ASCII bytes is left as it is.
pub trim_space-visible : (s : Bytes) → All IsVisible s → trim_space s ≡ s
trim_space-visible s h =
    unfold trim_space trim_left trim_right in
    (ap (λ (t : Bytes). reverse (skip right_width 0 (reverse t)))
        (skip_still left_width s (left_width-visible s h))
      ∙ ap reverse (
          skip_still right_width (reverse s)
            (right_width-visible (reverse s) (All-reverse IsVisible s h)))
      ∙ reverse-reverse s)

trim_space_test : trim_space (lit " \t a b \n") ≡ lit "a b"
unfolding trim_space
trim_space_test = refl

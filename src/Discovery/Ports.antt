-- ===== src/Discovery/Ports.antt =====
-- Decimal text and ports (internal/network/discovery/mdns.go).
use mathlib.Core.List.{append_assoc, append-nil}
use skall.Base.{
  ℕ, zero, suc, ◌+◌, ◌*◌, ◌/◌, ◌%◌, ◌-◌, ◌^◌, ◌≡◌, ◌≤◌, ◌<◌, refl, ap, ◌∙◌, sym, All-append, Bool,
  false, Option, none, some, [], ◌∷◌, ◌++◌, arith, ltb, ok, if_intro, All,
}
use skall.Bytes.{Bytes, is_empty, trim_space, trim_space-visible, IsVisible}
use skall.Discovery.Decimal.{
  digits, itoa, value_of, magnitude, in_range, atoi, check_port, parse_port,
}

value_of-digit : (n : ℕ) (rest : Bytes) → value_of (n / 10) ((48 + n % 10) ∷ rest) ≡ value_of n rest
unfolding value_of
value_of-digit n rest =
    let e : n / 10 * 10 + (48 + n % 10 - 48) ≡ n = omega arith in rw e (ground arith)

value_of-digits :
    (k n : ℕ) (rest : Bytes)
    → n < 10 ^ k
    → 0 < k
    → value_of 0 (digits k n ++ rest) ≡ value_of n rest
unfolding digits
value_of-digits zero n rest h p = absurd (omega arith)
value_of-digits (suc k) n rest h p =
    if_intro (λ (s : Bytes). value_of 0 (s ++ rest) ≡ value_of n rest) (ltb n 10) _ _
      (λ small. unfold value_of in ground arith)
      (λ large. rw (append_assoc (digits k (n / 10)) ((48 + n % 10) ∷ []) rest) (
        value_of-digits k (n / 10) ((48 + n % 10) ∷ rest) (omega arith) (pos k large h)
        ∙ value_of-digit n rest))
  where
    pos : (k : ℕ) → ltb n 10 ≡ false → n < 10 ^ suc k → 0 < k
    pos zero large h = absurd (ground arith)
    pos (suc k) large h = omega arith

abbrev IsDigit : ℕ → Type 0
IsDigit b = (48 ≤ b) × (b ≤ 57)

digits-IsDigit : (k n : ℕ) → All IsDigit (digits k n)
unfolding digits
digits-IsDigit zero n = tt
digits-IsDigit (suc k) n =
    if_intro (All IsDigit) (ltb n 10) _ _ (λ small. ground arith)
      (λ large.
        All-append IsDigit (digits k (n / 10)) ((48 + n % 10) ∷ []) (digits-IsDigit k (n / 10))
          (ground arith))

digits-IsVisible : (s : Bytes) → All IsDigit s → All IsVisible s
digits-IsVisible [] h = tt
digits-IsVisible (b ∷ s) h = (ground (arith, h.0), digits-IsVisible s h.1)

digits-ne-nil : (k n : ℕ) → is_empty (digits (suc k) n) ≡ false
unfolding digits
digits-ne-nil k n =
    if_intro (λ (s : Bytes). is_empty s ≡ false) (ltb n 10) _ _ (λ small. refl)
      (λ large. ends (digits k (n / 10)))
  where
    ends : (s : Bytes) → is_empty (s ++ (48 + n % 10) ∷ []) ≡ false
    ends [] = refl
    ends (b ∷ s) = refl

atoi-digits :
    (s : Bytes) (n : ℕ)
    → is_empty s ≡ false
    → All IsDigit s
    → value_of 0 s ≡ some n
    → n < 2 ^ 63
    → atoi s ≡ some (false, n)
atoi-digits [] n e d v h = absurd (ground arith)
atoi-digits (b ∷ s) n e d v h = unfold atoi magnitude in_range in ground (arith, d.0, v)

-- ParsePort reads every port from the text that Itoa writes for it.
parse_port-itoa : (port : ℕ) → 0 < port → port ≤ 65535 → parse_port (itoa port) ≡ ok port
unfolding parse_port itoa check_port
parse_port-itoa port p q =
    let s = digits 19 port in
    let digit = digits-IsDigit 19 port in
    let value : value_of 0 s ≡ some port =
      ap (value_of 0) (sym (append-nil s))
      ∙ value_of-digits 19 port [] (omega arith) (omega arith)
      ∙ unfold value_of in refl in
    ground (
      arith,
      trim_space-visible s (digits-IsVisible s digit),
      digits-ne-nil 18 port,
      atoi-digits s port (digits-ne-nil 18 port) digit value (omega arith),
    )

-- ParsePort never returns a port that is not between 1 and 65535.
parse_port_bounds :
    (value : Bytes) {port : ℕ} → parse_port value ≡ ok port → (0 < port) × (port ≤ 65535)
unfolding parse_port check_port
parse_port_bounds value h = in_bounds (atoi (trim_space value)) (ground arith)
  where
    in_bounds :
        {port : ℕ} (r : Option (Bool × ℕ)) → check_port r ≡ ok port → (0 < port) × (port ≤ 65535)
    in_bounds none h = absurd (ground arith)
    in_bounds (some (negative, n)) h = ground arith

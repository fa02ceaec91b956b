-- ===== src/Discovery/Decimal.antt =====
-- strconv.Itoa and strconv.Atoi on a 64-bit int, and ParsePort (internal/network/discovery/mdns.go).
use skall.Base.{
  ℕ, zero, suc, ◌+◌, ◌*◌, ◌/◌, ◌%◌, ◌-◌, ◌^◌, Bool, true, false, ◌&&◌, ◌||◌, Option, none, some, [],
  ◌∷◌, ◌++◌, nat_eq, ltb, leb, if◌then◌else◌, Result, ok, err,
}
use skall.Bytes.{Bytes, is_empty, trim_space}

-- The decimal digits of n, at most so many.
unfoldable pub digits : ℕ → ℕ → Bytes
digits zero n = []
digits (suc k) n =
    let front = digits k (n / 10) in if ltb n 10 then (48 + n) ∷ [] else front ++ (48 + n % 10) ∷ []

-- strconv.Itoa of a number that is not negative: an int has at most 19 digits.
unfoldable pub itoa : ℕ → Bytes
itoa n = digits 19 n

abbrev pub is_digit : ℕ → Bool
is_digit b = leb 48 b && leb b 57

-- The value of a text of digits, after the number that its front has given.
unfoldable pub value_of : ℕ → Bytes → Option ℕ
value_of n [] = some n
value_of n (b ∷ s) = let rest = value_of (n * 10 + (b - 48)) s in if is_digit b then rest else none

unfoldable pub magnitude : Bytes → Option ℕ
magnitude [] = none
magnitude (b ∷ s) = value_of 0 (b ∷ s)

-- strconv.Atoi: whether the number is negative, and its magnitude; `none` is a syntax or range error.
unfoldable pub in_range : Bool → Option ℕ → Option (Bool × ℕ)
in_range negative none = none
in_range false (some n) = if ltb n (2 ^ 63) then some (false, n) else none
in_range true (some n) = if leb n (2 ^ 63) then some (true, n) else none

unfoldable pub atoi : Bytes → Option (Bool × ℕ)
atoi [] = none
atoi (b ∷ s) =
    if nat_eq b 45
    then in_range true (magnitude s)
    else if nat_eq b 43
    then in_range false (magnitude s)
    else in_range false (magnitude (b ∷ s))

pub data PortError : Type 0 where
  port_required port_syntax port_out_of_range : PortError

unfoldable pub check_port : Option (Bool × ℕ) → Result PortError ℕ
check_port none = err port_syntax
check_port (some (negative, port)) =
    if negative || nat_eq port 0 || ltb 65535 port then err port_out_of_range else ok port

-- ParsePort
unfoldable pub parse_port : Bytes → Result PortError ℕ
parse_port value =
    let trimmed = trim_space value in
    if is_empty trimmed then err port_required else check_port (atoi trimmed)

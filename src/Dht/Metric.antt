-- ===== src/Dht/Metric.antt =====
-- The distance of XORKeyDistance (internal/network/p2p/dht.go).
use skall.Base.{ℕ, zero, suc, ◌/◌, ◌≡◌, refl, ap, [], ◌∷◌, arith}
use skall.Bytes.{Bytes, Bytes-eq}
use skall.Dht.Distance.{xor_bits, xor_bytes, set_bytes, xor_key_distance}

xor_bits_comm : (w a b : ℕ) → xor_bits w a b ≡ xor_bits w b a
unfolding xor_bits
xor_bits_comm zero a b = refl
xor_bits_comm (suc w) a b = ground (arith, xor_bits_comm w (a / 2) (b / 2))

xor_bytes_comm : (s t : Bytes) → xor_bytes s t ≡ xor_bytes t s
unfolding xor_bytes
xor_bytes_comm [] [] = refl
xor_bytes_comm [] (b ∷ t) = refl
xor_bytes_comm (a ∷ s) [] = refl
xor_bytes_comm (a ∷ s) (b ∷ t) = rw (xor_bits_comm 8 a b, xor_bytes_comm s t) refl

xor_bits_self : (w a : ℕ) → xor_bits w a a ≡ 0
unfolding xor_bits
xor_bits_self zero a = refl
xor_bits_self (suc w) a = ground (arith, xor_bits_self w (a / 2))

set_bytes_self : (s : Bytes) → set_bytes 0 (xor_bytes s s) ≡ 0
unfolding set_bytes xor_bytes
set_bytes_self [] = refl
set_bytes_self (a ∷ s) = rw (xor_bits_self 8 a) (set_bytes_self s)

-- The distance is symmetric, and a key is at distance 0 from itself.
xor_key_distance_lem :
    (sha256 : Bytes → Bytes) (a b : Bytes)
    → (xor_key_distance sha256 a b ≡ xor_key_distance sha256 b a)
      × (xor_key_distance sha256 a a ≡ 0)
unfolding xor_key_distance
xor_key_distance_lem sha256 a b =
    (ap (set_bytes 0) (xor_bytes_comm (sha256 a) (sha256 b)), set_bytes_self (sha256 a))

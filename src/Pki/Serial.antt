-- ===== src/Pki/Serial.antt =====
-- internal/pki/cert.go, `SerialString`: a serial number in hexadecimal.
pub mod Value
use certplane.Base.{
  ℕ, zero, suc, ◌+◌, ◌-◌, ◌/◌, ◌%◌, Option, none, some, List, [], ◌∷◌, if◌then◌else◌, ltb,
}
use certplane.Base.Int.{ℤ, pos, negsuc}
use certplane.Base.Text.{Text}

-- A digit of `big.Int.Text`, below 16.
pub hex_digit : ℕ → ℕ
hex_digit d = if ltb d 10 then b'0' + d else b'a' + (d - 10)

-- The digits of `n` before those of `acc`. With fuel above `n` the number runs out first.
pub hex_digits : ℕ → ℕ → Text → Text
hex_digits zero n acc = acc
hex_digits (suc fuel) n acc =
    let rest = hex_digits fuel (n / 16) (hex_digit (n % 16) ∷ acc) in
    if ltb n 16 then hex_digit n ∷ acc else rest

-- `n.Text(16)`
unfoldable pub text_16 : ℤ → Text
unfolding hex_digits hex_digit
text_16 (pos n) = hex_digits (suc n) n []
text_16 (negsuc n) = b'-' ∷ hex_digits (suc (suc n)) (suc n) []

unfoldable pub serial_string : Option ℤ → Text
unfolding text_16
serial_string none = []
serial_string (some n) = text_16 n

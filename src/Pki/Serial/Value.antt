-- ===== src/Pki/Serial/Value.antt =====
-- The number that the digits of a serial number stand for.
use certplane.Base.{ℕ, ◌+◌, ◌-◌, ◌*◌, [], ◌∷◌, if◌then◌else◌, ltb}
use certplane.Base.Text.{Text}

-- The value of a digit, and of digits behind the number `n`.
pub digit_value : ℕ → ℕ
digit_value c = if ltb c b'a' then c - b'0' else c - b'a' + 10

abbrev pub value : ℕ → Text → ℕ
value n [] = n
value n (c ∷ s) = value (n * 16 + digit_value c) s

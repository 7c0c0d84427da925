-- ===== src/Settings.antt =====
-- config: the YAML configuration of the broker and of the agent, its defaults and its validation.
-- Logging models logging.go; Broker and Agent model broker.go and agent.go, Loading load.go. A
-- validation returns the errors that it joins, in their order.
pub mod Logging
pub mod Broker
pub mod Agent
pub mod Loading
use certplane.Base.{ℕ, ◌*◌, Bool, true, false, ◌≡◌, refl, List, [], ◌∷◌, ◌++◌, if◌then◌else◌}
use certplane.Base.Int.{ℤ, pos, is_zero, leb_ℤ}
use certplane.Base.Text.{Text, is_empty}
use certplane.Clock.{Duration, second}

-- `if cond { errs = append(errs, err) }`
abbrev pub check : {E : Type 0} → Bool → E → List E
check bad e = if bad then e ∷ [] else []

-- `if x == "" { x = default }`, and the same for numbers and durations.
abbrev pub default_text : Text → Text → Text
default_text x value = if is_empty x then value else x

abbrev pub default_int : ℤ → ℤ → ℤ
default_int x value = if is_zero x then value else x

abbrev pub seconds : ℕ → Duration
seconds n = pos (n * second)

-- `d <= 0`
abbrev pub not_positive : ℤ → Bool
not_positive d = leb_ℤ d (pos 0)

-- A chain of checks without an error has passed each of them.
pub check-nil : {E : Type 0} (bad : Bool) (e : E) → check bad e ≡ [] → bad ≡ false
check-nil true e h = cc
check-nil false e h = refl

pub ++-nil : {E : Type 0} (xs ys : List E) → xs ++ ys ≡ [] → (xs ≡ []) × (ys ≡ [])
++-nil [] ys h = (refl, h)
++-nil (x ∷ xs) ys h = cc

-- One check behind others.
pub check-last :
    {E : Type 0} (es : List E) (bad : Bool) (e : E)
    → es ++ check bad e ≡ []
    → (es ≡ []) × (bad ≡ false)
check-last es bad e h = let (a, b) = ++-nil es (check bad e) h in (a, check-nil bad e b)

-- ===== src/Base/Decimal.antt =====
-- Natural numbers written in decimal and read again: `str(n)` and `int(s)`.
use Prim.Native.Nat.{ℕ, zero, suc, ◌+◌, ◌-◌, ◌*◌, ◌/◌, ◌%◌, ◌≤◌}
use mathlib.Core.Path.{◌≡◌, refl, ap, ◌∙◌}
use mathlib.Core.Bool.{Bool, true, ◌&&◌}
use mathlib.Core.Option.{Option, none, some}
use mathlib.Core.Logic.{inl, inr}
use mathlib.Core.List.{[], ◌∷◌}
use native.Mathlib.Omega.{arith}
use keel_trader.Base.Tests.{leb, ltb, if◌then◌else◌, Bool-cases}
use keel_trader.Base.Text.{Text}

-- The digits of a number before those in hand, for so many divisions by ten at most.
digits_before : (fuel n : ℕ) → Text → Text
digits_before zero n t = t
digits_before (suc fuel) n t =
    let more = digits_before fuel (n / 10) ((b'0' + n % 10) ∷ t) in
    if ltb n 10 then (b'0' + n) ∷ t else more

-- `str(n)`
unfoldable pub decimal : ℕ → Text
unfolding digits_before
decimal n = digits_before (suc n) n []

abbrev is_digit : ℕ → Bool
is_digit c = leb b'0' c && leb c b'9'

read_after : ℕ → Text → Option ℕ
read_after acc [] = some acc
read_after acc (c ∷ s) =
    let rest = read_after (acc * 10 + (c - b'0')) s in if is_digit c then rest else none

-- `int(s)` on digits alone
unfoldable pub read_decimal : Text → Option ℕ
unfolding read_after
read_decimal [] = none
read_decimal (c ∷ s) = read_after 0 (c ∷ s)

read_after-digit :
    (acc d : ℕ) (t : Text)
    → d + 1 ≤ 10
    → read_after acc ((b'0' + d) ∷ t) ≡ read_after (acc * 10 + d) t
unfolding read_after
read_after-digit acc d t h =
    let is_one : is_digit (48 + d) ≡ true = ground arith in
    let same : 48 + d - 48 ≡ d = omega arith in rw (is_one, same) refl

-- With enough divisions, reading the digits after a 0 is reading the rest after the number.
read_after-digits :
    (fuel n : ℕ) (t : Text) → n + 1 ≤ fuel → read_after 0 (digits_before fuel n t) ≡ read_after n t
unfolding read_after digits_before
read_after-digits zero n t h = ground arith
read_after-digits (suc fuel) n t h = elim (Bool-cases (ltb n 10)) [
  | inl b ↦ rw b (read_after-digit 0 n t (ground arith) ∙ ap (λ q. read_after q t) (omega arith))
  | inr b ↦ rw b (
      read_after-digits fuel (n / 10) ((b'0' + n % 10) ∷ t) (ground arith)
      ∙ (read_after-digit (n / 10) (n % 10) t (omega arith)
          ∙ ap (λ q. read_after q t) (omega arith)))
]

-- The digits are never none.
read_decimal-digits :
    (fuel n c : ℕ) (t : Text)
    → read_decimal (digits_before fuel n (c ∷ t)) ≡ read_after 0 (digits_before fuel n (c ∷ t))
unfolding read_decimal digits_before
read_decimal-digits zero n c t = refl
read_decimal-digits (suc fuel) n c t = elim (Bool-cases (ltb n 10)) [
  | inl b ↦ rw b refl
  | inr b ↦ rw b (read_decimal-digits fuel (n / 10) (b'0' + n % 10) (c ∷ t))
]

pub read_decimal-decimal : (n : ℕ) → read_decimal (decimal n) ≡ some n
unfolding read_decimal decimal digits_before
read_decimal-decimal n = elim (Bool-cases (ltb n 10)) [
  | inl b ↦ rw b (read_after-digit 0 n [] (ground arith) ∙ ap some (omega arith))
  | inr b ↦ rw b (
      read_decimal-digits n (n / 10) (b'0' + n % 10) []
      ∙ read_after-digits n (n / 10) ((b'0' + n % 10) ∷ []) (ground arith)
      ∙ read_after-digit (n / 10) (n % 10) [] (omega arith)
      ∙ ap some (omega arith))
]

-- ===== src/Account/Name/Case.antt =====
-- core/alpaca_account_lock.py: account names in another case.
use mathlib.Core.List.{reverse, reverse-append}
use keel_trader.Base.{◌≡◌, refl, ap, [], ◌∷◌, ◌++◌, arith}
use keel_trader.Base.Text.{Text, strip, lstrip, lower, upper, upper_char}
use keel_trader.Account.Name.{normalize_account_name}

map-append_upper : (s t : Text) → upper (s ++ t) ≡ upper s ++ upper t
map-append_upper [] t = refl
map-append_upper (c ∷ s) t = ap (◌∷◌ (upper_char c)) (map-append_upper s t)

reverse-upper : (s : Text) → reverse (upper s) ≡ upper (reverse s)
reverse-upper [] = refl
reverse-upper (c ∷ s) =
    rw (reverse-append (upper_char c ∷ []) (upper s), reverse-append (c ∷ []) s)
      (rw (reverse-upper s, map-append_upper (reverse s) (c ∷ [])))

lstrip-upper : (s : Text) → lstrip (upper s) ≡ upper (lstrip s)
lstrip-upper [] = refl
lstrip-upper (c ∷ s) = ground (arith, lstrip-upper s)

strip-upper : (s : Text) → strip (upper s) ≡ upper (strip s)
strip-upper s = simp (lstrip-upper, reverse-upper)

lower-upper : (s : Text) → lower (upper s) ≡ lower s
lower-upper [] = refl
lower-upper (c ∷ s) = ground (arith, lower-upper s)

-- A name in upper case stands for the same account, so it meets the same lock and the same memory.
pub normalize-upper : (s : Text) → normalize_account_name (upper s) ≡ normalize_account_name s
unfolding normalize_account_name
normalize-upper s = rw (strip-upper s, lower-upper (strip s))

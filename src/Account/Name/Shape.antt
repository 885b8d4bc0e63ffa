-- ===== src/Account/Name/Shape.antt =====
-- The pattern of a safe account name: one to 64 characters, a letter or digit at each end, and
-- letters, digits, dots, underscores and dashes between (`SAFE_ALPACA_ACCOUNT_NAME_RE`).
use keel_trader.Base.{ℕ, Bool, true, false, ◌&&◌, ◌||◌, [], ◌∷◌, leb, ◌==◌, length}
use keel_trader.Base.Text.{Text}

abbrev pub is_alnum : ℕ → Bool
is_alnum c = (leb b'a' c && leb c b'z') || (leb b'0' c && leb c b'9')

abbrev pub is_name_char : ℕ → Bool
is_name_char c = is_alnum c || (c == b'.') || (c == b'_') || (c == b'-')

-- What follows the first character: nothing, or name characters and a last letter or digit.
abbrev pub tail_matches : Text → Bool
tail_matches [] = true
tail_matches (c ∷ []) = is_alnum c
tail_matches (c ∷ d ∷ s) = is_name_char c && tail_matches (d ∷ s)

abbrev pub safe_account_name : Text → Bool
safe_account_name [] = false
safe_account_name (c ∷ s) = is_alnum c && tail_matches s && leb (length s) 63

-- `".." in s`
abbrev pub has_dotdot : Text → Bool
has_dotdot [] = false
has_dotdot (c ∷ []) = false
has_dotdot (c ∷ d ∷ s) = ((c == b'.') && (d == b'.')) || has_dotdot (d ∷ s)

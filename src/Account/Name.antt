-- ===== src/Account/Name.antt =====
-- core/alpaca_account_lock.py: `normalize_alpaca_account_name` and the lock's path, over the state
-- directory of core/state_paths.py. Texts are ASCII.
mod Shape
pub mod Safety
pub mod Case
use keel_trader.Base.{
  ℕ, suc, ◌≡◌, Bool, true, false, not, ◌&&◌, ◌||◌, Option, none, some, List, [], ◌∷◌, ◌++◌, map,
  leb, ltb, ◌==◌, if◌then◌else◌, length, or_default,
}
use keel_trader.Base.Text.{Text, codes, strip, lower, has_char}
use keel_trader.Config.{Env}
pub use Shape.{is_alnum, is_name_char, tail_matches, safe_account_name, has_dotdot}

-- `none` is the `ValueError`.
unfoldable pub normalize_account_name : Text → Option Text
normalize_account_name account_name =
    let normalized = map (λ c. if c == b' ' then b'_' else c) (lower (strip account_name)) in
    if leb (length normalized) 0
    then none
    else if has_dotdot normalized || has_char b'/' normalized || has_char 92 normalized
    then none
    else if not (safe_account_name normalized)
    then none
    else some normalized

-- core/state_paths.py. `repo` is the directory of the checkout, `home` what `~` stands for; a
-- path is a text with `/` between its parts.
unfoldable pub expanduser : Text → Text → Text
expanduser home [] = []
expanduser home (c ∷ []) = if c == b'~' then home else c ∷ []
expanduser home (c ∷ s ∷ rest) =
    if (c == b'~') && (s == b'/') then home ++ (s ∷ rest) else c ∷ s ∷ rest

abbrev is_absolute : Text → Bool
is_absolute [] = false
is_absolute (c ∷ s) = c == b'/'

unfoldable pub resolve_state_dir : (repo home : Text) → Env → Option Text → Text
resolve_state_dir repo home env state_dir =
    let from_env = or_default (env (codes "STATE_DIR")) (codes "strategy_state") in
    let path = expanduser home (or_default state_dir from_env) in
    if is_absolute path then path else repo ++ (b'/' ∷ path)

abbrev pub locks_part : Text
locks_part = codes "/account_locks/"

abbrev pub lock_suffix : Text
lock_suffix = codes ".lock"

-- `lock_path_for_account`, under the resolved state directory.
unfoldable pub lock_path_for_account : Text → Text → Option Text
lock_path_for_account state_dir account_name = elim (normalize_account_name account_name) [
  | none ↦ none
  | some safe ↦ some (state_dir ++ (locks_part ++ (safe ++ lock_suffix)))
]

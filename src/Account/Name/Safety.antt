-- ===== src/Account/Name/Safety.antt =====
-- core/alpaca_account_lock.py: normalised names and the paths made of them.
use mathlib.Core.List.{
  reverse, reverse-append, reverse-reverse, append_cancel_left, append_cancel_right,
}
use keel_trader.Base.{
  ℕ, ◌≡◌, ◌↔◌, refl, ap, true, false, some, [], ◌∷◌, ◌++◌, map, ◌==◌, if◌then◌else◌, arith, inl,
  inr, Option-cases,
}
use keel_trader.Base.Text.{Text, strip, lstrip, lower, has_char, is_space}
use keel_trader.Account.Name.{
  normalize_account_name, lock_path_for_account, locks_part, lock_suffix, is_name_char,
  tail_matches, safe_account_name, has_dotdot,
}

abbrev despace : ℕ → ℕ
despace c = if c == b' ' then b'_' else c

-- `replace(" ", "_")` and `lower` leave a safe name alone.
despace-lower_tail : (s : Text) → tail_matches s ≡ true → map despace (lower s) ≡ s
despace-lower_tail [] h = refl
despace-lower_tail (c ∷ []) h = ground arith
despace-lower_tail (c ∷ d ∷ s) h = ground (arith, despace-lower_tail (d ∷ s))

despace-lower_safe : (s : Text) → safe_account_name s ≡ true → map despace (lower s) ≡ s
despace-lower_safe [] h = refl
despace-lower_safe (c ∷ s) h = ground (arith, despace-lower_tail s)

abbrev EndsInk : Text → Type 0
EndsInk s = (m : Text) × (l : ℕ) × (s ≡ m ++ (l ∷ [])) × (is_space l ≡ false)

-- A safe name ends in a letter or digit, so it does not end in a space.
tail_matches-EndsInk : (c : ℕ) (s : Text) → tail_matches (c ∷ s) ≡ true → EndsInk (c ∷ s)
tail_matches-EndsInk c [] h = ([], c, refl, ground arith)
tail_matches-EndsInk c (d ∷ s) h =
    let (m, l, e, no_space) = tail_matches-EndsInk d s (ground arith) in
    (c ∷ m, l, ap (◌∷◌ c) e, no_space)

lstrip-reverse : (s : Text) → EndsInk s → lstrip (reverse s) ≡ reverse s
lstrip-reverse s (m, l, e, no_space) = rw (e, reverse-append m (l ∷ [])) (rw no_space)

strip_safe : (s : Text) → safe_account_name s ≡ true → strip s ≡ s
strip_safe [] h = refl
strip_safe (c ∷ s) h =
    let starts : lstrip (c ∷ s) ≡ c ∷ s = ground arith in
    let ends : EndsInk (c ∷ s) = tail_matches-EndsInk c s (tail_of s h) in
    rw (starts, lstrip-reverse (c ∷ s) ends) (reverse-reverse (c ∷ s))
  where
    tail_of : (r : Text) → safe_account_name (c ∷ r) ≡ true → tail_matches (c ∷ r) ≡ true
    tail_of [] k = ground arith
    tail_of (d ∷ r) k = ground arith

has_char_tail :
    (x : ℕ) (s : Text) → is_name_char x ≡ false → tail_matches s ≡ true → has_char x s ≡ false
has_char_tail x [] n h = refl
has_char_tail x (c ∷ []) n h = ground (arith)
has_char_tail x (c ∷ d ∷ s) n h = ground (arith, has_char_tail x (d ∷ s) n)

has_char_safe :
    (x : ℕ) (s : Text) → is_name_char x ≡ false → safe_account_name s ≡ true → has_char x s ≡ false
has_char_safe x [] n h = refl
has_char_safe x (c ∷ s) n h = ground (arith, has_char_tail x s n)

-- What `normalize_account_name` lets through.
normalize_safe :
    (s : Text) {n : Text}
    → normalize_account_name s ≡ some n
    → (safe_account_name n ≡ true) × (has_dotdot n ≡ false)
unfolding normalize_account_name
normalize_safe s h = ground arith

-- A text with the pattern and without two dots in a row is its own normal form.
normalize_of_safe :
    (n : Text)
    → safe_account_name n ≡ true
    → has_dotdot n ≡ false
    → normalize_account_name n ≡ some n
unfolding normalize_account_name
normalize_of_safe n safe no_dots =
    rw (strip_safe n safe, despace-lower_safe n safe)
      (ground (arith, has_char_safe b'/' n refl safe, has_char_safe 92 n refl safe))

-- Normalising twice is normalising once, so that every module that stores or locks under the
-- normal name means the same account.
pub normalize_idem :
    (s : Text) {n : Text} → normalize_account_name s ≡ some n → normalize_account_name n ≡ some n
normalize_idem s {n} h =
    let (safe, no_dots) = normalize_safe s h in normalize_of_safe n safe no_dots

lock_path_inverse :
    (dir a b : Text) {p : Text}
    → lock_path_for_account dir a ≡ some p
    → lock_path_for_account dir b ≡ some p
    → normalize_account_name a ≡ normalize_account_name b
unfolding lock_path_for_account
lock_path_inverse dir a b {p} ha hb = elim (Option-cases (normalize_account_name a)) [
  | inl e ↦ ground arith
  | inr (m, e) ↦ elim (Option-cases (normalize_account_name b)) [
    | inl f ↦ ground arith
    | inr (n, f) ↦
        let whole : dir ++ (locks_part ++ (m ++ lock_suffix))
            ≡ dir ++ (locks_part ++ (n ++ lock_suffix)) =
          ground arith in
        let part : m ≡ n =
          append_cancel_right m n lock_suffix
            (append_cancel_left locks_part _ _ (append_cancel_left dir _ _ whole)) in
        ground arith
  ]
]

-- Two account names lead to the same lock file exactly when they have the same normal form, and
-- the name of that file has no `/` and no `\`, so it lies in the directory of the locks.
pub lock_path_iff :
    (dir a b : Text) {p : Text}
    → lock_path_for_account dir a ≡ some p
    → (lock_path_for_account dir b ≡ some p ↔ normalize_account_name a ≡ normalize_account_name b)
      × (n : Text) × (p ≡ dir ++ (locks_part ++ (n ++ lock_suffix)))
      × (has_char b'/' n ≡ false)
      × (has_char 92 n ≡ false)
unfolding lock_path_for_account
lock_path_iff dir a b {p} ha = elim (Option-cases (normalize_account_name a)) [
  | inl e ↦ ground arith
  | inr (n, e) ↦
      let (safe, _) = normalize_safe a e in
      (
        (λ hb. lock_path_inverse dir a b ha hb, λ same_name. ground arith),
        n,
        ground arith,
        has_char_safe b'/' n refl safe,
        has_char_safe 92 n refl safe,
      )
]

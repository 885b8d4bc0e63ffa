-- ===== src/Technical/Causal.antt =====
-- forecast/technical.py: the features of a series and of the same series with later bars.
use keel_trader.Base.{
  ℕ, zero, suc, ◌+◌, ◌-◌, ◌≤◌, ◌<◌, max, ◌≡◌, ◌∙◌, refl, sym, ap, List, [], ◌∷◌, ◌++◌, arith,
  length, take, length-append,
}
use keel_trader.Double.{Double}
use keel_trader.Outcome.{ok}
use keel_trader.Technical.{
  table, at, pct_change, mean_loop, rolling_mean, rolling_max, return_at, sample_std, greatest,
  rolling_std_of_returns, true_range, row_at, technical_features,
}

module _ {A : Type 0} where
  table-ext :
      (f g : ℕ → A) (lo count : ℕ)
      → ((j : ℕ) → j < lo + count → f j ≡ g j)
      → table f lo count ≡ table g lo count
  table-ext f g lo zero h = refl
  table-ext f g lo (suc count) h =
      cc (h lo (omega arith), table-ext f g (lo + 1) count (λ j b. h j (omega (arith, b))))

  length-table : (f : ℕ → A) (lo count : ℕ) → length (table f lo count) ≡ count
  length-table f lo zero = refl
  length-table f lo (suc count) = ap suc (length-table f (lo + 1) count)

  take-table : (f : ℕ → A) (lo n m : ℕ) → n ≤ m → take n (table f lo m) ≡ table f lo n
  take-table f lo zero m h = refl
  take-table f lo (suc n) zero h = ground arith
  take-table f lo (suc n) (suc m) h = ap (◌∷◌ (f lo)) (take-table f (lo + 1) n m (omega (arith, h)))

  take-append : (n : ℕ) (xs ys : List A) → n ≤ length xs → take n (xs ++ ys) ≡ take n xs
  take-append zero xs ys h = refl
  take-append (suc n) [] ys h = ground arith
  take-append (suc n) (x ∷ xs) ys h = ap (◌∷◌ x) (take-append n xs ys (omega (arith, h)))

module _ {F : Type 0} ⦃d : Double F⦄ where
  at-append : (xs ys : List F) (i : ℕ) → i < length xs → at (xs ++ ys) i ≡ at xs i
  at-append [] ys i h = ground arith
  at-append (x ∷ xs) ys zero h = refl
  at-append (x ∷ xs) ys (suc i) h = at-append xs ys i (omega (arith, h))

  -- A rolling mean looks at no later value.
  mean_loop-take :
      (w : ℕ) (xs : List F) (i : ℕ) (window : List F) (acc : F)
      → at (mean_loop w window acc (take (suc i) xs)) i ≡ at (mean_loop w window acc xs) i
  unfolding mean_loop
  mean_loop-take w [] i window acc = refl
  mean_loop-take w (x ∷ xs) zero window acc = refl
  mean_loop-take w (x ∷ xs) (suc i) window acc = mean_loop-take w xs i _ _

  rolling_mean-take :
      (xs ys : List F) (w i : ℕ)
      → take (suc i) xs ≡ take (suc i) ys
      → at (rolling_mean xs w) i ≡ at (rolling_mean ys w) i
  unfolding rolling_mean
  rolling_mean-take xs ys w i h =
      sym (mean_loop-take w xs i [] (d.nought))
      ∙ ap (λ z. at (mean_loop w [] (d.nought) z) i) h
      ∙ mean_loop-take w ys i [] (d.nought)

  pct_change-append :
      (xs ys : List F) (n i : ℕ) → i < length xs → pct_change (xs ++ ys) n i ≡ pct_change xs n i
  unfolding pct_change
  pct_change-append xs ys n i h =
      rw (at-append xs ys i h, at-append xs ys (i - n) (omega (arith, h)))

  rolling_max-append :
      (xs ys : List F) (w i : ℕ)
      → 0 < w
      → i < length xs
      → rolling_max (xs ++ ys) w i ≡ rolling_max xs w i
  unfolding rolling_max
  rolling_max-append xs ys w i pos_w h =
      rw (at-append xs ys (i + 1 - w) (omega (arith, h, pos_w))) (
        ap (greatest (at xs (i + 1 - w))) (
          table-ext (at (xs ++ ys)) (at xs) (i + 1 - w + 1) (i - (i + 1 - w))
            (λ j b. at-append xs ys j (omega (arith, b, h, pos_w)))))

  rolling_std-append :
      (xs ys : List F) (w i : ℕ)
      → i < length xs
      → rolling_std_of_returns (xs ++ ys) w i ≡ rolling_std_of_returns xs w i
  unfolding rolling_std_of_returns
  rolling_std-append xs ys w i h = ap sample_std (
      table-ext (return_at (xs ++ ys)) (return_at xs) (max 1 (i + 1 - w))
        (i + 1 - max 1 (i + 1 - w))
        (λ j b.
          rw (
            at-append xs ys j (omega (arith, b, h)),
            at-append xs ys (j - 1) (omega (arith, b, h)),
          )))

  true_range-append :
      (highs lows closes h l c : List F) (i : ℕ)
      → length highs ≡ length closes
      → length lows ≡ length closes
      → i < length closes
      → true_range (highs ++ h) (lows ++ l) (closes ++ c) i ≡ true_range highs lows closes i
  unfolding true_range
  true_range-append highs lows closes h l c i eh el b = rw (
    at-append highs h i (omega (arith, eh, b)),
    at-append lows l i (omega (arith, el, b)),
    at-append closes c (i - 1) (omega (arith, b)),
  )

  -- The true ranges up to a bar.
  ranges-append :
      (highs lows closes h l c : List F) (i : ℕ)
      → length highs ≡ length closes
      → length lows ≡ length closes
      → i < length closes
      → take
          (suc i)
          (table (true_range (highs ++ h) (lows ++ l) (closes ++ c)) 0 (length (closes ++ c)))
        ≡ take (suc i) (table (true_range highs lows closes) 0 (length closes))
  ranges-append highs lows closes h l c i eh el b =
      let later = true_range (highs ++ h) (lows ++ l) (closes ++ c) in
      let now = true_range highs lows closes in
      take-table later 0 (suc i) (length (closes ++ c)) (omega (arith, b, length-append closes c))
      ∙ table-ext later now 0 (suc i)
          (λ j k. true_range-append highs lows closes h l c j eh el (omega (arith, b, k)))
      ∙ sym (take-table now 0 (suc i) (length closes) (omega (arith, b)))

  row_at-append :
      (highs lows closes h l c : List F) (i : ℕ)
      → length highs ≡ length closes
      → length lows ≡ length closes
      → i < length closes
      → row_at (highs ++ h) (lows ++ l) (closes ++ c) i ≡ row_at highs lows closes i
  unfolding row_at
  row_at-append highs lows closes h l c i eh el b =
      let same_closes = take-append (suc i) closes c (omega (arith, b)) in
      rw (
        pct_change-append closes c 1 i b,
        pct_change-append closes c 24 i b,
        pct_change-append closes c 72 i b,
        rolling_std-append closes c 24 i b,
        rolling_mean-take (closes ++ c) closes 24 i same_closes,
        rolling_mean-take (closes ++ c) closes 72 i same_closes,
        rolling_mean-take
            (table (true_range (highs ++ h) (lows ++ l) (closes ++ c)) 0 (length (closes ++ c)))
            (table (true_range highs lows closes) 0 (length closes)) 24 i
            (ranges-append highs lows closes h l c i eh el b),
        rolling_max-append closes c 72 i (omega arith) b,
        at-append closes c i b,
      )

  pub technical_features-append :
      (opens highs lows closes o h l c : List F) {rows more : List (List F)}
      → technical_features opens highs lows closes ≡ ok rows
      → technical_features (opens ++ o) (highs ++ h) (lows ++ l) (closes ++ c) ≡ ok more
      → (take (length closes) more ≡ rows) × (length rows ≡ length closes)
  unfolding technical_features
  technical_features-append opens highs lows closes o h l c {rows = rows} {more = more} e e' =
      let n = length closes in
      let later = row_at (highs ++ h) (lows ++ l) (closes ++ c) in
      let now = row_at highs lows closes in
      let (eh, el, r) : (length highs ≡ n) × (length lows ≡ n) × (table now 0 n ≡ rows) =
        ground arith in
      let r' : table later 0 (length (closes ++ c)) ≡ more = ground arith in
      (
        sym (ap (take n) r')
            ∙ take-table later 0 n (length (closes ++ c)) (omega (arith, length-append closes c))
            ∙ table-ext later now 0 n
                (λ j k. row_at-append highs lows closes h l c j eh el (omega (arith, k)))
            ∙ r,
        sym (ap length r) ∙ length-table now 0 n,
      )

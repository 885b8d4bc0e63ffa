-- ===== src/History/Paging.antt =====
-- sim/kraken_data.py: the pages of an exchange.
use keel_trader.Base.{
  ℕ, zero, suc, ◌+◌, ◌*◌, ◌<◌, ◌≤◌, ◌≡◌, nat_eq, Option, none, some, List, [], ◌∷◌, All, arith, inl,
  inr, Bool-cases, List-cases, ltb, leb, same,
}
use keel_trader.Base.Dict.{insert, IsDict, insert-IsDict}
use keel_trader.Base.Text.{Text, text_eq}
use keel_trader.Outcome.{Result, ok, err, Result-cases}
use keel_trader.History.{
  Ohlcv, Bars, ms_per_bar, keep_page, last_time, page_loop, until_of, fetch_ohlcv_paged,
}

-- No bar is after the end, and there is one for each time.
abbrev pub IsKept : {F : Type 0} → (until_ms : ℕ) → Bars F → Type 0
IsKept until_ms bars = All (λ b. b.0 ≤ until_ms) bars × IsDict bars

-- The fetch is over, and the bars, if no call raised, are kept.
abbrev pub IsFetched : {F : Type 0} → (until_ms : ℕ) → Option (Result (Bars F)) → Type 0
IsFetched until_ms none = ⊥
IsFetched until_ms (some (err e)) = Unit
IsFetched until_ms (some (ok bars)) = IsKept until_ms bars

-- A page that is not the last moves the cursor by two steps at least.
next_fuel :
    (until_ms cursor last_ts step fuel : ℕ)
    → until_ms < cursor + suc fuel * (2 * step)
    → cursor + step ≤ last_ts
    → until_ms < last_ts + step + fuel * (2 * step)
next_fuel until_ms cursor last_ts step fuel h k = grind arith

pub ms_per_bar-ge :
    (timeframe : Text) (step : ℕ) → ms_per_bar timeframe ≡ ok step → 3_600_000 ≤ step
unfolding ms_per_bar
ms_per_bar-ge timeframe step e = ground arith

more_fuel :
    (until_ms since_ms pages step : ℕ)
    → until_ms < since_ms + pages * 7_200_000
    → 3_600_000 ≤ step
    → until_ms < since_ms + pages * (2 * step)
more_fuel until_ms since_ms pages step h k = grind arith

module _ {F : Type 0} where
  All-insert :
      (until_ms ts : ℕ) (bar : Ohlcv F) (out : Bars F)
      → ts ≤ until_ms
      → All (λ b. b.0 ≤ until_ms) out
      → All (λ b. b.0 ≤ until_ms) (insert ts bar out)
  All-insert until_ms ts bar [] h g = (h, tt)
  All-insert until_ms ts bar ((u, b) ∷ out) h (g, gs) = elim (Bool-cases (same ts u)) [
    | inl e ↦ rw e (g, gs)
    | inr e ↦ rw e (g, All-insert until_ms ts bar out h gs)
  ]

  keep_page-IsKept :
      (until_ms : ℕ) (batch : List (ℕ × Ohlcv F)) (out : Bars F)
      → IsKept until_ms out
      → IsKept until_ms (keep_page until_ms batch out)
  keep_page-IsKept until_ms [] out h = h
  keep_page-IsKept until_ms ((ts, bar) ∷ batch) out (h, k) = elim (Bool-cases (leb ts until_ms)) [
    | inl e ↦ rw e (
        keep_page-IsKept until_ms batch (insert ts bar out)
          (All-insert until_ms ts bar out (ground arith) h, insert-IsDict ts bar out k))
    | inr e ↦ rw e (keep_page-IsKept until_ms batch out (h, k))
  ]

  page_loop-IsFetched :
      (fetch : ℕ → Result (List (ℕ × Ohlcv F))) (step until_ms fuel cursor : ℕ) (out : Bars F)
      → until_ms < cursor + fuel * (2 * step)
      → IsKept until_ms out
      → IsFetched until_ms (page_loop fetch step until_ms (suc fuel) cursor out)
  unfolding page_loop
  page_loop-IsFetched fetch step until_ms zero cursor out h k =
      elim (Bool-cases (ltb cursor until_ms)) [ inr b ↦ rw b k | inl b ↦ ground arith ]
  page_loop-IsFetched fetch step until_ms (suc fuel) cursor out h k =
      elim (Bool-cases (ltb cursor until_ms)) [
        | inr b ↦ rw b k
        | inl b ↦ elim (Result-cases (fetch cursor)) [
          | inl (_, f) ↦ rw (b, f) tt
          | inr (batch, f) ↦ elim (List-cases batch) [
            | inl e ↦ rw (b, f, e) k
            | inr (p, rest, e) ↦ elim (Bool-cases (ltb (last_time p rest) (cursor + step))) [
              | inl l ↦ rw (b, f, e, l) (keep_page-IsKept until_ms (p ∷ rest) out k)
              | inr l ↦
                  rw (b, f, e, l)
                    (page_loop-IsFetched fetch step until_ms fuel (last_time p rest + step)
                      (keep_page until_ms (p ∷ rest) out)
                      (next_fuel until_ms cursor (last_time p rest) step fuel h (ground arith))
                      (keep_page-IsKept until_ms (p ∷ rest) out k))
            ]
          ]
        ]
      ]

  -- With fuel for one page more than as many pages of two hours as reach past the end, the fetch is
  -- over, whatever the exchange answers: it raises, or it returns bars of which none is after the
  -- end and no two are of one time.
  pub fetch_ohlcv_paged-IsFetched :
      (fetch : ℕ → Result (List (ℕ × Ohlcv F))) (now_ms since_ms : ℕ) (until_ms : Option ℕ)
      (timeframe : Text) (pages : ℕ)
      → until_of now_ms until_ms < since_ms + pages * 7_200_000
      → IsFetched
          (until_of now_ms until_ms)
          (fetch_ohlcv_paged fetch now_ms since_ms until_ms timeframe (suc pages))
  unfolding fetch_ohlcv_paged
  fetch_ohlcv_paged-IsFetched fetch now_ms since_ms until_ms timeframe pages h =
      elim (Result-cases (ms_per_bar timeframe)) [
        | inl (_, f) ↦ rw (f, IsFetched, fetch_ohlcv_paged) tt
        | inr (step, f) ↦
            rw (f, IsFetched, fetch_ohlcv_paged)
              (page_loop-IsFetched fetch step (until_of now_ms until_ms) pages since_ms []
                (more_fuel (until_of now_ms until_ms) since_ms pages step h
                  (ms_per_bar-ge timeframe step f))
                (tt, tt))
      ]

-- ===== src/Strategy/Picks.antt =====
-- models/xgb/strategy.py: which signals become positions.
use keel_trader.Base.{
  ℕ, zero, suc, ◌≡◌, ◌≤◌, refl, Bool, true, ◌&&◌, ◌||◌, List, [], ◌∷◌, map, filter, take, any,
  length, All, All-map, arith, Bool-cases, Option-cases, inl, inr, same, length-take, length-map,
}
use keel_trader.Base.Int.{pos_part}
use keel_trader.Base.Dict.{Dict, lookup}
use keel_trader.Base.Text.{Text, text_eq, text_beq_refl}
use keel_trader.Double.{Double, lt}
use keel_trader.Strategy.{
  SymbolSignal, Position, StrategyConfig, is_eligible, filter_by_conviction, rank_insert, ranked,
  ranks_before, select_picks, positions, position_of,
}
use keel_trader.Strategy.Sizing.{IsCapped, AllCapped}

module _ {ℓ} {A : Type ℓ} where
  any-filter : (q p : A → Bool) (xs : List A) → any q (filter p xs) ≡ any (λ x. q x && p x) xs
  any-filter q p [] = refl
  any-filter q p (x ∷ xs) = ground (arith, any-filter q p xs)

  any-take : (q : A → Bool) (n : ℕ) (xs : List A) → any q (take n xs) ≡ true → any q xs ≡ true
  any-take q zero xs h = ground arith
  any-take q (suc n) [] h = ground arith
  any-take q (suc n) (x ∷ xs) h = ground (arith, any-take q n xs)

  length-filter : (p : A → Bool) (xs : List A) → length (filter p xs) ≤ length xs
  length-filter p [] = omega arith
  length-filter p (x ∷ xs) = ground (arith, length-filter p xs)

module _ {F : Type 0} ⦃d : Double F⦄ where
  any-rank_insert :
      (q : SymbolSignal F → Bool) (s : SymbolSignal F) (ts : List (SymbolSignal F))
      → any q (rank_insert s ts) ≡ (q s || any q ts)
  any-rank_insert q s [] = refl
  any-rank_insert q s (t ∷ ts) = elim (Bool-cases (ranks_before t s)) [
    | inl b ↦ rw b (ground (arith, any-rank_insert q s ts))
    | inr b ↦ rw b
  ]

  any-ranked :
      (q : SymbolSignal F → Bool) (ts : List (SymbolSignal F)) → any q (ranked ts) ≡ any q ts
  any-ranked q [] = refl
  any-ranked q (t ∷ ts) = ground (arith, any-ranked q ts, any-rank_insert q t (ranked ts))

  -- Every pick is an eligible signal.
  pub select_picks-eligible :
      (cfg : StrategyConfig F) (signals : List (SymbolSignal F)) (q : SymbolSignal F → Bool)
      → any q (select_picks cfg (filter_by_conviction cfg signals)) ≡ true
      → any (λ s. q s && is_eligible cfg s) signals ≡ true
  unfolding select_picks filter_by_conviction
  select_picks-eligible cfg signals q h = ground (
    arith,
    any-take q (pos_part (cfg.max_positions)) (ranked (filter (is_eligible cfg) signals)),
    any-ranked q (filter (is_eligible cfg) signals),
    any-filter q (is_eligible cfg) signals,
  )

  pub length-select_picks :
      (cfg : StrategyConfig F) (signals : List (SymbolSignal F))
      → length (select_picks cfg signals) ≤ pos_part (cfg.max_positions)
  unfolding select_picks
  length-select_picks cfg signals =
      omega (arith, length-take (pos_part (cfg.max_positions)) (ranked signals))

  pub length-positions :
      (picks : List (SymbolSignal F)) (weights : Dict Text F)
      → length (positions picks weights) ≤ length picks
  length-positions picks weights = omega (
    arith,
    length-filter (λ p. lt (d.nought) (p.weight)) (map (position_of weights) picks),
    length-map (position_of weights) picks,
  )

  -- A position has a positive weight within the cap, and its symbol is a pick's.
  abbrev pub IsSized : F → List (SymbolSignal F) → Position F → Type 0
  IsSized limit picks p =
      (lt (d.nought) (p.weight) ≡ true)
      × IsCapped limit (p.weight)
      × (any (λ s. same (s.symbol) (p.symbol)) picks ≡ true)

  pub positions-IsSized :
      (limit : F) (weights : Dict Text F) (picks : List (SymbolSignal F))
      → AllCapped limit weights
      → All (IsSized limit picks) (positions picks weights)
  positions-IsSized limit weights [] all = tt
  positions-IsSized limit weights (s ∷ ss) all =
      let ih =
        All-map (IsSized limit ss) (IsSized limit (s ∷ ss)) (positions ss weights)
          (λ p (pos, capped, among). (pos, capped, ground arith))
          (positions-IsSized limit weights ss all) in
      elim (Option-cases (lookup (s.symbol) weights)) [
        | inl e ↦ ground arith
        | inr (v, e) ↦ ground (arith, all (s.symbol) v e, text_beq_refl (s.symbol), ih)
      ]

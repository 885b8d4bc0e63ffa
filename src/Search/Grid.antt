-- ===== src/Search/Grid.antt =====
-- research/autoresearch.py: the size of a grid.
use keel_trader.Base.{
  ℕ, ◌*◌, ◌≡◌, ◌∙◌, refl, ap, List, [], ◌∷◌, map, arith, length, length-append, length-map,
}
use keel_trader.Search.{TrialConfig, Override, each_choice, product, mutants, mutant, mutation_grid}

-- The product of the numbers of choices.
abbrev pub combinations : {A : Type 0} → List (List A) → ℕ
combinations [] = 1
combinations (choices ∷ more) = length choices * combinations more

length-each_choice :
    {A : Type 0} (cs : List A) (rest : List (List A))
    → length (each_choice cs rest) ≡ length cs * length rest
length-each_choice [] rest = omega arith
length-each_choice (c ∷ cs) rest =
    length-append (map (λ r. c ∷ r) rest) (each_choice cs rest)
    ∙ ground (arith, length-map (λ r. c ∷ r) rest, length-each_choice cs rest)

length-product : {A : Type 0} (grid : List (List A)) → length (product grid) ≡ combinations grid
length-product [] = refl
length-product (choices ∷ more) =
    length-each_choice choices (product more) ∙ ap (λ n. length choices * n) (length-product more)

module _ {F : Type 0} where
  length-mutants :
      (combos : List (List (Override F))) (presets : List (TrialConfig F))
      → length (mutants combos presets) ≡ length presets * length combos
  length-mutants combos [] = omega arith
  length-mutants combos (preset ∷ presets) =
      length-append (map (mutant preset) combos) (mutants combos presets)
      ∙ ground (arith, length-map (mutant preset) combos, length-mutants combos presets)

  -- The grid makes, of each preset, as many configurations as there are combinations of values; an
  -- empty grid leaves the presets.
  pub length-mutation_grid :
      (presets : List (TrialConfig F)) (grid : List (List (Override F)))
      → length (mutation_grid presets grid) ≡ length presets * combinations grid
  unfolding mutation_grid
  length-mutation_grid presets [] = omega arith
  length-mutation_grid presets (g ∷ grid) =
      length-mutants (product (g ∷ grid)) presets
      ∙ ap (λ n. length presets * n) (length-product (g ∷ grid))

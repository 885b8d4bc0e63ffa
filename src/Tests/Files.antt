-- ===== src/Tests/Files.antt =====
-- A market file of one symbol and one bar, whose floats are bit patterns.
use keel_trader.Base.{
  ℕ, ◌+◌, ◌*◌, ◌/◌, ◌%◌, ◌^◌, ◌≡◌, refl, Option, none, some, List, [], ◌∷◌, replicate,
  if◌then◌else◌, ltb, arith,
}
use keel_trader.Base.Text.{Text, codes}
use keel_trader.Outcome.{ok, err, value_error}
use keel_trader.MarketBin.Fields.{Bytes, FloatCodec}
use keel_trader.MarketBin.{write_market_bin, read_header, read_symbols, read_features, read_prices}
use keel_trader.MarketBin.Blocks.{Row, map_block}
use keel_trader.MarketBin.RoundTrip.{IsMarket, header_of, read-write_market_bin}

abbrev word : ℕ → Option (ℕ × ℕ × ℕ × ℕ)
word n =
    if ltb n (2 ^ 32)
    then some (n % 256, n / 256 % 256, n / 65_536 % 256, n / 16_777_216 % 256)
    else none

abbrev number : ℕ × ℕ × ℕ × ℕ → ℕ
number (a, b, c, d) = a + b * 256 + c * 65_536 + d * 16_777_216

number-word : (n : ℕ) (w : ℕ × ℕ × ℕ × ℕ) → word n ≡ some w → number w ≡ n
number-word n w e = ground arith

abbrev patterns : FloatCodec ℕ
patterns = record { pack = word; unpack = number; single = λ n. n; unpack-pack = number-word }

abbrev symbols : List Text
symbols = codes "BTC/USD" ∷ []

abbrev features : List (Row ℕ)
features = ((7 ∷ 4_000_000_000 ∷ []) ∷ []) ∷ []

abbrev prices : List (Row ℕ)
prices = ((1 ∷ 2 ∷ 3 ∷ 4 ∷ 5 ∷ []) ∷ []) ∷ []

market : IsMarket patterns symbols features prices 1 2 1
market = record {
  stored = omega arith;
  features_block = (refl, ((refl, (refl, tt)), tt));
  prices_block = (refl, ((refl, (refl, tt)), tt));
  features_pack = (refl, (refl, tt));
  prices_pack = (refl, (refl, (refl, (refl, (refl, tt)))));
  version_fits = omega arith;
  symbols_fit = omega arith;
  timesteps_fit = omega arith;
  features_fit = omega arith;
}

read-write_market_bin_example :
    (file : Bytes) × (write_market_bin patterns symbols features prices 1 2 1 ≡ ok file)
    × (read_header file ≡ ok (header_of symbols 1 2 1))
    × (read_symbols file ≡ ok symbols)
    × (read_features patterns file ≡ ok (map_block (λ n. n) features))
    × (read_prices patterns file ≡ ok (map_block (λ n. n) prices))
read-write_market_bin_example = read-write_market_bin patterns market

bad_magic : read_header (replicate 64 0) ≡ err value_error
unfolding read_header
bad_magic = refl

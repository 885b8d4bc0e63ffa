-- ===== src/MarketBin/RoundTrip.antt =====
-- sim/binpack.py: what the readers make of a file that the writer made.
use mathlib.Core.List.{append_assoc, append-nil}
use keel_trader.Base.{
  ℕ, ◌+◌, ◌*◌, ◌^◌, ◌<◌, true, List, [], ◌++◌, map, length, arith, ◌≡◌, refl, ap, ◌==◌, sym, ◌∙◌,
  All, length-append, take-append, drop-append,
}
use keel_trader.Base.Text.{Text}
use keel_trader.Outcome.{ok}
use keel_trader.MarketBin.Fields.{
  Bytes, FloatCodec, Packs, unpack_floats, unpack_floats-pack_floats,
}
use keel_trader.MarketBin.{
  Header, price_features, read_at, write_market_bin, read_header, read_block, read_features,
  read_prices, read_symbols, pack_block, join,
}
use keel_trader.MarketBin.Table.{
  IsHeader, IsStored, header_bytes, pack_header-bytes, read_header-bytes, names_lem,
}
use keel_trader.MarketBin.Blocks.{
  Row, values, IsBlock, map_block, cut_block-values, pack_block-values, length-values,
}

read_at-append :
    (pre b post : Bytes) (offset n : ℕ)
    → length pre ≡ offset
    → length b ≡ n
    → read_at offset n (pre ++ (b ++ post)) ≡ b
read_at-append pre b post offset n e f =
    rw (drop-append pre (b ++ post) offset e, take-append b post n f) refl

header_length : (h : Header) → length (header_bytes h) ≡ 64
header_length h = refl

file_end :
    (header names features prices : Bytes)
    → header ++ (names ++ (features ++ prices)) ≡ (header ++ (names ++ features)) ++ (prices ++ [])
file_end header names features prices =
    rw
      (
        append-nil prices,
        append_assoc header (names ++ features) prices,
        append_assoc names features prices,
      )
      refl

beq-length : (b : Bytes) (n : ℕ) → length b ≡ n → (length b == n) ≡ true
beq-length b n h = ground arith

abbrev pub header_of : (names : List Text) (nt fps version : ℕ) → Header
header_of names nt fps version = record {
  version = version;
  num_symbols = length names;
  num_timesteps = nt;
  features_per_sym = fps;
  price_features = price_features;
}

module _ {F : Type 0} (codec : FloatCodec F) where
  -- The bytes of a block.
  block_bytes :
      (per ns nt : ℕ) (block : List (Row F))
      → IsBlock per ns nt block
      → All (Packs codec) (values block)
      → (b : Bytes) × (pack_block codec per ns nt block ≡ ok b)
        × (length b ≡ nt * ns * per * 4)
        × (unpack_floats codec b ≡ ok (map (codec.single) (values block)))
  block_bytes per ns nt block h packs =
      let (b, e, n, f) = unpack_floats-pack_floats codec (values block) packs in
      (
        b,
        pack_block-values codec per ns nt block h ∙ e,
        n ∙ ap (λ q. q * 4) (length-values per ns nt block h),
        f,
      )

  read_block-values :
      (pre b post : Bytes) (offset per ns nt : ℕ) (block : List (Row F))
      → length pre ≡ offset
      → length b ≡ nt * ns * per * 4
      → unpack_floats codec b ≡ ok (map (codec.single) (values block))
      → IsBlock per ns nt block
      → read_block codec (pre ++ (b ++ post)) offset nt ns per ≡ ok (map_block (codec.single) block)
  unfolding read_block
  read_block-values pre b post offset per ns nt block e n f h =
      rw
        (
          read_at-append pre b post offset (nt * ns * per * 4) e n,
          beq-length b (nt * ns * per * 4) n,
          f,
        )
        (ap ok (
          rw (sym (append-nil (map (codec.single) (values block))))
            (cut_block-values (codec.single) per ns nt block [] h)))

  -- What a writer is given: names that the table holds, blocks of the sizes that are stated, of
  -- floats in the range of single precision, and sizes that fit into 32 bits.
  pub record IsMarket (names : List Text) (features prices : List (Row F)) (nt fps version : ℕ)
      : Type 0 where
    pub stored : All IsStored names
    pub features_block : IsBlock fps (length names) nt features
    pub prices_block : IsBlock price_features (length names) nt prices
    pub features_pack : All (Packs codec) (values features)
    pub prices_pack : All (Packs codec) (values prices)
    pub version_fits : version < 2 ^ 32
    pub symbols_fit : length names < 2 ^ 32
    pub timesteps_fit : nt < 2 ^ 32
    pub features_fit : fps < 2 ^ 32

  module _ {names : List Text} {features prices : List (Row F)} {nt fps version : ℕ}
      (m : IsMarket names features prices nt fps version) where
    IsHeader_lem : IsHeader (header_of names nt fps version)
    IsHeader_lem = (m.version_fits, m.symbols_fit, m.timesteps_fit, m.features_fit, omega arith)

    -- Names of at most 15 ASCII characters without a NUL, blocks of the stated sizes whose floats are
    -- in the range of single precision, and sizes below 2 ^ 32 are always written, and the readers
    -- give back from the file the header, the names as they were, and both blocks with each float
    -- rounded to single precision.
    pub read-write_market_bin :
        (file : Bytes) × (write_market_bin codec names features prices nt fps version ≡ ok file)
        × (read_header file ≡ ok (header_of names nt fps version))
        × (read_symbols file ≡ ok names)
        × (read_features codec file ≡ ok (map_block (codec.single) features))
        × (read_prices codec file ≡ ok (map_block (codec.single) prices))
    unfolding write_market_bin read_symbols read_features read_prices
    read-write_market_bin =
        let h = header_of names nt fps version in
        let (nb, names_written, names_length, names_read) = names_lem names (m.stored) in
        let (fb, f_written, f_length, f_read) =
          block_bytes fps (length names) nt features (m.features_block) (m.features_pack) in
        let (pb, p_written, p_length, p_read) =
          block_bytes 5 (length names) nt prices (m.prices_block) (m.prices_pack) in
        let head : (rest : Bytes) → read_header (header_bytes h ++ rest) ≡ ok h =
          λ rest. read_header-bytes h rest IsHeader_lem in
        (
          header_bytes h ++ (join nb ++ (fb ++ pb)),
          rw (pack_header-bytes h IsHeader_lem, names_written, f_written, p_written) refl,
          head (join nb ++ (fb ++ pb)),
          rw (head (join nb ++ (fb ++ pb))) (names_read (fb ++ pb)),
          rw
              (
                head (join nb ++ (fb ++ pb)),
                sym (append_assoc (header_bytes h) (join nb) (fb ++ pb)),
              )
              (read_block-values (header_bytes h ++ join nb) fb pb (64 + length names * 16) fps
                (length names) nt features
                (omega
                  (arith, length-append (header_bytes h) (join nb), names_length, header_length h))
                f_length f_read (m.features_block)),
          rw (head (join nb ++ (fb ++ pb)), file_end (header_bytes h) (join nb) fb pb)
              (read_block-values (header_bytes h ++ (join nb ++ fb)) pb []
                (64 + length names * 16 + nt * length names * fps * 4) 5 (length names) nt prices
                (omega (
                  arith,
                  length-append (header_bytes h) (join nb ++ fb),
                  length-append (join nb) fb,
                  names_length,
                  header_length h,
                  f_length,
                ))
                p_length p_read (m.prices_block)),
        )

-- ===== src/MarketBin.antt =====
-- sim/binpack.py: the one writer and reader of the MKTD file. A file is the list of its bytes. The
-- packing of a single-precision float is `struct`'s, a parameter. The branch on numpy arrays
-- stands in Build; what a failed write leaves in the file is left out.
pub mod Fields
pub mod Table
pub mod Blocks
pub mod RoundTrip
use keel_trader.Base.{
  ℕ, zero, suc, ◌+◌, ◌-◌, ◌*◌, Bool, Option, none, some, List, [], ◌∷◌, ◌++◌, map, length, take,
  drop, replicate, all, ltb, ◌==◌, if◌then◌else◌,
}
use keel_trader.Base.Text.{Text, codes, text_beq}
use keel_trader.Outcome.{Result, ok, err, value_error, struct_error, index_error, ◌>>=◌, each}
use keel_trader.MarketBin.Fields.{
  Bytes, FloatCodec, pack_u32, unpack_u32, pack_floats, unpack_floats,
}

-- `MAGIC`, `PRICE_FEATURES`, `HEADER_SIZE` and `SYM_NAME_LEN`
abbrev pub magic : Bytes
magic = codes "MKTD"

abbrev pub price_features : ℕ
price_features = 5

abbrev pub header_size : ℕ
header_size = 64

abbrev pub sym_name_len : ℕ
sym_name_len = 16

-- What `read_header` returns.
pub record Header : Type 0 where
  pub version : ℕ
  pub num_symbols : ℕ
  pub num_timesteps : ℕ
  pub features_per_sym : ℕ
  pub price_features : ℕ

-- `struct.pack("<4sIIIII40s", …)`
unfoldable pub pack_header : Header → Result Bytes
pack_header h = do
  version ← pack_u32 (h.version)
  symbols ← pack_u32 (h.num_symbols)
  timesteps ← pack_u32 (h.num_timesteps)
  features ← pack_u32 (h.features_per_sym)
  prices ← pack_u32 (h.price_features)
  ok (magic ++ (version ++ (symbols ++ (timesteps ++ (features ++ (prices ++ replicate 40 0))))))

-- `s.ljust(n, b"\x00")`
abbrev pub ljust : ℕ → Bytes → Bytes
ljust n s = s ++ replicate (n - length s) 0

-- `name.encode("ascii")[:SYM_NAME_LEN - 1].ljust(SYM_NAME_LEN, b"\x00")`; `UnicodeEncodeError` is a
-- `ValueError`.
unfoldable pub pack_name : Text → Result Bytes
pack_name name =
    if all (λ c. ltb c 128) name
    then ok (ljust sym_name_len (take (sym_name_len - 1) name))
    else err value_error

-- `b"".join` of what the calls of `fh.write` were given
abbrev pub join : List Bytes → Bytes
join [] = []
join (b ∷ bs) = b ++ join bs

module _ {F : Type 0} (codec : FloatCodec F) where
  -- `struct.pack(f"<{per}f", *cell)`
  unfoldable pub pack_cell : ℕ → List F → Result Bytes
  pack_cell per cell = if length cell == per then pack_floats codec cell else err struct_error

  -- The loop on `s`.
  unfoldable pub pack_row : (per ns : ℕ) → List (List F) → Result Bytes
  pack_row per zero row = ok []
  pack_row per (suc ns) [] = err index_error
  pack_row per (suc ns) (cell ∷ row) = do
    b ← pack_cell per cell
    rest ← pack_row per ns row
    ok (b ++ rest)

  -- The loop on `t`.
  unfoldable pub pack_block : (per ns nt : ℕ) → List (List (List F)) → Result Bytes
  pack_block per ns zero block = ok []
  pack_block per ns (suc nt) [] = err index_error
  pack_block per ns (suc nt) (row ∷ block) = do
    b ← pack_row per ns row
    rest ← pack_block per ns nt block
    ok (b ++ rest)

  unfoldable pub write_market_bin :
      (symbol_names : List Text) (features prices : List (List (List F)))
      (num_timesteps features_per_sym version : ℕ)
      → Result Bytes
  write_market_bin symbol_names features prices num_timesteps features_per_sym version = do
    header ← pack_header (record {
      version = version;
      num_symbols = length symbol_names;
      num_timesteps = num_timesteps;
      features_per_sym = features_per_sym;
      price_features = price_features;
    })
    names ← each pack_name symbol_names
    feature_block ← pack_block features_per_sym (length symbol_names) num_timesteps features
    price_block ← pack_block price_features (length symbol_names) num_timesteps prices
    ok (header ++ (join names ++ (feature_block ++ price_block)))

-- `fh.seek(offset)` and `fh.read(n)`
abbrev pub read_at : (offset n : ℕ) → Bytes → Bytes
read_at offset n file = take n (drop offset file)

-- The fields of the header past the magic; the last 40 bytes are not looked at.
abbrev header_fields : Bytes → Result Header
header_fields raw = do
  (version, r) ← unpack_u32 raw
  (symbols, r) ← unpack_u32 r
  (timesteps, r) ← unpack_u32 r
  (features, r) ← unpack_u32 r
  (prices, r) ← unpack_u32 r
  ok (record {
    version = version;
    num_symbols = symbols;
    num_timesteps = timesteps;
    features_per_sym = features;
    price_features = prices;
  })

unfoldable pub read_header : Bytes → Result Header
read_header file =
    let raw = read_at 0 header_size file in
    if length raw == header_size
    then (if text_beq (take 4 raw) magic then header_fields (drop 4 raw) else err value_error)
    else err struct_error

module _ {F : Type 0} where
  -- The inner loop of `_read_block`: the row, and what is left of `flat` past it.
  abbrev pub cut_row : (per ns : ℕ) → List F → List (List F) × List F
  cut_row per zero flat = ([], flat)
  cut_row per (suc ns) flat =
      let (row, rest) = cut_row per ns (drop per flat) in (take per flat ∷ row, rest)

  -- The outer loop.
  abbrev pub cut_block : (per ns nt : ℕ) → List F → List (List (List F))
  cut_block per ns zero flat = []
  cut_block per ns (suc nt) flat =
      let (row, rest) = cut_row per ns flat in row ∷ cut_block per ns nt rest

module _ {F : Type 0} (codec : FloatCodec F) where
  -- `_read_block`; `struct.unpack` wants exactly the bytes of its format.
  unfoldable pub read_block : Bytes → (offset nt ns per : ℕ) → Result (List (List (List F)))
  read_block file offset nt ns per =
      let raw = read_at offset (nt * ns * per * 4) file in
      if length raw == nt * ns * per * 4
      then (do flat ← unpack_floats codec raw; ok (cut_block per ns nt flat))
      else err struct_error

  unfoldable pub read_features : Bytes → Result (List (List (List F)))
  read_features file = do
    hdr ← read_header file
    read_block file (header_size + hdr.num_symbols * sym_name_len) (hdr.num_timesteps)
        (hdr.num_symbols) (hdr.features_per_sym)

  unfoldable pub read_prices : Bytes → Result (List (List (List F)))
  read_prices file = do
    hdr ← read_header file
    read_block file
        (header_size
          + hdr.num_symbols * sym_name_len
          + hdr.num_timesteps * hdr.num_symbols * hdr.features_per_sym * 4)
        (hdr.num_timesteps) (hdr.num_symbols) (hdr.price_features)

-- `raw.split(b"\x00", 1)[0]`
abbrev pub until_nul : Bytes → Bytes
until_nul [] = []
until_nul (c ∷ s) = let rest = until_nul s in if c == 0 then [] else c ∷ rest

-- `decode("ascii")`; `UnicodeDecodeError` is a `ValueError`.
abbrev pub decode_ascii : Bytes → Result Text
decode_ascii s = if all (λ c. ltb c 128) s then ok s else err value_error

-- The loop of `read_symbols`, on what is left of the file.
unfoldable pub read_names : ℕ → Bytes → Result (List Text)
read_names zero file = ok []
read_names (suc ns) file = do
  name ← decode_ascii (until_nul (take sym_name_len file))
  names ← read_names ns (drop sym_name_len file)
  ok (name ∷ names)

unfoldable pub read_symbols : Bytes → Result (List Text)
read_symbols file = do hdr ← read_header file; read_names (hdr.num_symbols) (drop header_size file)

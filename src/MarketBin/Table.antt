-- ===== src/MarketBin/Table.antt =====
-- sim/binpack.py: the header and the table of the names, written and read.
use mathlib.Core.List.{append_assoc}
use keel_trader.Base.{
  ℕ, zero, suc, ◌-◌, ◌*◌, ◌^◌, ◌<◌, ◌≤◌, true, List, [], ◌∷◌, ◌++◌, length, replicate, all, ltb,
  arith, ◌≡◌, refl, All, length-append, length-replicate, take-append, drop-append, take-all,
}
use keel_trader.Base.Text.{Text}
use keel_trader.Outcome.{ok, each}
use keel_trader.MarketBin.Fields.{Bytes, unpack_u32, digits, pack_u32-digits, digits_sum}
use keel_trader.MarketBin.{
  Header, magic, sym_name_len, pack_header, read_header, pack_name, ljust, join, until_nul,
  read_names,
}

-- Each field fits into 32 bits.
abbrev pub IsHeader : Header → Type 0
IsHeader h =
    (h.version < 2 ^ 32)
    × (h.num_symbols < 2 ^ 32)
    × (h.num_timesteps < 2 ^ 32)
    × (h.features_per_sym < 2 ^ 32)
    × (h.price_features < 2 ^ 32)

abbrev pub header_bytes : Header → Bytes
header_bytes h =
    magic
    ++ (digits (h.version)
        ++ (digits (h.num_symbols)
            ++ (digits (h.num_timesteps)
                ++ (digits (h.features_per_sym) ++ (digits (h.price_features) ++ replicate 40 0)))))

pub pack_header-bytes : (h : Header) → IsHeader h → pack_header h ≡ ok (header_bytes h)
unfolding pack_header
pack_header-bytes h (a, b, c, d, e) =
    rw
      (
        pack_u32-digits (h.version) a,
        pack_u32-digits (h.num_symbols) b,
        pack_u32-digits (h.num_timesteps) c,
        pack_u32-digits (h.features_per_sym) d,
        pack_u32-digits (h.price_features) e,
      )
      refl

pub read_header-bytes :
    (h : Header) (rest : Bytes) → IsHeader h → read_header (header_bytes h ++ rest) ≡ ok h
unfolding read_header unpack_u32
read_header-bytes h rest (a, b, c, d, e) =
    rw
      (
        digits_sum (h.version) a,
        digits_sum (h.num_symbols) b,
        digits_sum (h.num_timesteps) c,
        digits_sum (h.features_per_sym) d,
        digits_sum (h.price_features) e,
      )
      refl

-- A name that the table holds whole: ASCII, without a NUL, and of at most 15 characters.
abbrev pub IsStored : Text → Type 0
IsStored name = (All (λ c. (0 < c) × (c < 128)) name) × (length name ≤ 15)

all_ascii : (name : Text) → All (λ c. (0 < c) × (c < 128)) name → all (λ c. ltb c 128) name ≡ true
all_ascii [] h = refl
all_ascii (c ∷ s) (h, hs) = ground (arith, all_ascii s hs)

until_nul-append :
    (name : Text) (n : ℕ)
    → All (λ c. (0 < c) × (c < 128)) name
    → 1 ≤ n
    → until_nul (name ++ replicate n 0) ≡ name
until_nul-append [] zero h k = refl
until_nul-append [] (suc n) h k = refl
until_nul-append (c ∷ s) n (h, hs) k = ground (arith, until_nul-append s n hs k)

pack_name-ljust : (name : Text) → IsStored name → pack_name name ≡ ok (ljust sym_name_len name)
unfolding pack_name
pack_name-ljust name (h, n) = rw (all_ascii name h, take-all name 15 n) refl

length-ljust : (name : Text) → length name ≤ 15 → length (ljust sym_name_len name) ≡ sym_name_len
length-ljust name n =
    let pad : Bytes = replicate (16 - length name) 0 in
    omega (arith, n, length-append name pad, length-replicate {A = ℕ} (16 - length name) 0)

until_nul-ljust : (name : Text) → IsStored name → until_nul (ljust sym_name_len name) ≡ name
until_nul-ljust name (h, n) = until_nul-append name (16 - length name) h (omega (arith, n))

-- The entry at the head of a table, read.
read_names-join :
    (name : Text) (names : List Text) (b rest : Bytes) (ns : ℕ)
    → IsStored name
    → read_names ns (b ++ rest) ≡ ok names
    → read_names (suc ns) ((ljust sym_name_len name ++ b) ++ rest) ≡ ok (name ∷ names)
unfolding read_names
read_names-join name names b rest ns (h, n) e =
    rw
      (
        append_assoc (ljust sym_name_len name) b rest,
        take-append (ljust sym_name_len name) (b ++ rest) 16 (length-ljust name n),
        drop-append (ljust sym_name_len name) (b ++ rest) 16 (length-ljust name n),
        until_nul-ljust name (h, n),
        all_ascii name h,
        e,
      )
      refl

pub names_lem :
    (names : List Text)
    → All IsStored names
    → (b : List Bytes) × (each pack_name names ≡ ok b)
      × (length (join b) ≡ length names * sym_name_len)
      × ((rest : Bytes) → read_names (length names) (join b ++ rest) ≡ ok names)
unfolding read_names
names_lem [] h = ([], refl, refl, λ rest. refl)
names_lem (name ∷ names) (h, hs) =
    let (b, e, n, f) = names_lem names hs in
    (
      ljust sym_name_len name ∷ b,
      rw (pack_name-ljust name h, e) refl,
      omega (arith, n, length-ljust name (h.1), length-append (ljust sym_name_len name) (join b)),
      λ rest. read_names-join name names (join b) rest (length names) h (f rest),
    )

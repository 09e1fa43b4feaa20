-- ===== src/ExecFormat/Hex.antt =====
-- crates/archangel-exec-format/src/hex.rs: bytes as hexadecimal text.
pub mod RoundTrip
use archangel.Common.{
  ℕ, ◌+◌, ◌-◌, ◌*◌, ◌/◌, ◌%◌, ◌&&◌, List, [], ◌∷◌, ◌++◌, ◌==◌, leb, ltb, if◌then◌else◌, length,
  Result, ok, err, ◌>>=◌,
}
use archangel.Common.Text.{Str, trim}

-- `str::as_bytes`: the UTF-8 encoding.
unfoldable pub char_bytes : ℕ → List ℕ
char_bytes c =
    if ltb c 128
    then c ∷ []
    else if ltb c 2048
    then (192 + c / 64) ∷ (128 + c % 64) ∷ []
    else if ltb c 65536
    then (224 + c / 4096) ∷ (128 + (c / 64) % 64) ∷ (128 + c % 64) ∷ []
    else (240 + c / 262144) ∷ (128 + (c / 4096) % 64) ∷ (128 + (c / 64) % 64) ∷ (128 + c % 64) ∷ []

unfoldable pub as_bytes : Str → List ℕ
unfolding char_bytes
as_bytes [] = []
as_bytes (c ∷ s) = char_bytes c ++ as_bytes s

-- `char::from_digit` of a digit below sixteen.
abbrev pub hex_digit : ℕ → ℕ
hex_digit d = if ltb d 10 then 48 + d else 87 + d

unfoldable pub encode : List ℕ → Str
encode [] = []
encode (b ∷ bytes) = hex_digit (b / 16) ∷ hex_digit (b % 16) ∷ encode bytes

pub data HexError : Type 0 where
  odd_length invalid : ℕ → HexError

unfoldable pub nibble : ℕ → Result ℕ HexError
nibble b =
    if leb 48 b && leb b 57
    then ok (b - 48)
    else if leb 97 b && leb b 102
    then ok (10 + b - 97)
    else if leb 65 b && leb b 70
    then ok (10 + b - 65)
    else err (invalid b)

-- The loop over the pairs; `decode` has refused an odd number of bytes before.
unfoldable pub decode_pairs : List ℕ → Result (List ℕ) HexError
unfolding nibble
decode_pairs [] = ok []
decode_pairs (h ∷ []) = ok []
decode_pairs (h ∷ l ∷ rest) =
    let behind = decode_pairs rest in
    nibble h >>= λ hi. nibble l >>= λ lo. behind >>= λ out. ok ((hi * 16 + lo) ∷ out)

unfoldable pub decode : Str → Result (List ℕ) HexError
unfolding as_bytes decode_pairs
decode s =
    let raw = as_bytes (trim s) in
    if length raw % 2 == 1 then err (odd_length (length raw)) else decode_pairs raw

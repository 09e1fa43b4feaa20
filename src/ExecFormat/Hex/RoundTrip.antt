-- ===== src/ExecFormat/Hex/RoundTrip.antt =====
-- crates/archangel-exec-format/src/hex.rs: decoding gives back what was encoded.
use mathlib.Core.List.{reverse, reverse-reverse}
use archangel.Common.{
  ℕ, ◌+◌, ◌*◌, ◌/◌, ◌%◌, ◌<◌, ◌≡◌, refl, ap, false, List, [], ◌∷◌, All, length, ok, arith, ◌==◌,
}
use archangel.Common.Text.{Str, trim, trim_start, is_whitespace}
use archangel.Common.Text.Split.{All-reverse}
use archangel.ExecFormat.Hex.{hex_digit, encode, nibble, char_bytes, as_bytes, decode_pairs, decode}

abbrev pub IsByte : ℕ → Type 0
IsByte b = b < 256

-- A visible ASCII character.
pub IsPlain : ℕ → Type 0
IsPlain c = (c < 128) × (is_whitespace c ≡ false)

hex_digit-IsPlain : (d : ℕ) → d < 16 → IsPlain (hex_digit d)
unfolding IsPlain is_whitespace
hex_digit-IsPlain d h = (ground arith, ground arith)

nibble-hex_digit : (d : ℕ) → d < 16 → nibble (hex_digit d) ≡ ok d
unfolding nibble
nibble-hex_digit d h = ground arith

pub encode-IsPlain : (bytes : List ℕ) → All IsByte bytes → All IsPlain (encode bytes)
unfolding encode
encode-IsPlain [] h = tt
encode-IsPlain (b ∷ bytes) h = (
  hex_digit-IsPlain (b / 16) (omega (arith, h.0)),
  (hex_digit-IsPlain (b % 16) (omega (arith, h.0)), encode-IsPlain bytes h.1),
)

pub as_bytes-plain : (s : Str) → All IsPlain s → as_bytes s ≡ s
unfolding as_bytes char_bytes IsPlain
as_bytes-plain [] h = refl
as_bytes-plain (c ∷ s) h = ground (arith, h.0.0, as_bytes-plain s h.1)

trim_start-plain : (s : Str) → All IsPlain s → trim_start s ≡ s
unfolding trim_start IsPlain
trim_start-plain [] h = refl
trim_start-plain (c ∷ s) h = rw h.0.1 refl

pub decode_pairs-encode :
    (bytes : List ℕ) → All IsByte bytes → decode_pairs (encode bytes) ≡ ok bytes
unfolding decode_pairs encode
decode_pairs-encode [] h = refl
decode_pairs-encode (b ∷ bytes) h =
    rw
      (
        nibble-hex_digit (b / 16) (omega (arith, h.0)),
        nibble-hex_digit (b % 16) (omega (arith, h.0)),
        decode_pairs-encode bytes h.1,
      )
      (ap (λ v. ok (v ∷ bytes)) (let same : (b / 16) * 16 + b % 16 ≡ b = omega arith in same))

pub length-encode : (bytes : List ℕ) → length (encode bytes) ≡ 2 * length bytes
unfolding encode
length-encode [] = refl
length-encode (b ∷ bytes) = omega (arith, length-encode bytes)

pub even_length : (bytes : List ℕ) → ((2 * length bytes) % 2 == 1) ≡ false
even_length bytes = ground arith

trim-plain : (s : Str) → All IsPlain s → trim s ≡ s
unfolding trim
trim-plain s h =
    rw (trim_start-plain s h, trim_start-plain (reverse s) (All-reverse IsPlain s h))
      (reverse-reverse s)

-- The text of any bytes is decoded to these bytes.
pub decode-encode : (bytes : List ℕ) → All IsByte bytes → decode (encode bytes) ≡ ok bytes
unfolding decode
decode-encode bytes h =
    let plain = encode-IsPlain bytes h in
    rw
      (
        trim-plain (encode bytes) plain,
        as_bytes-plain (encode bytes) plain,
        length-encode bytes,
        even_length bytes,
      )
      (decode_pairs-encode bytes h)

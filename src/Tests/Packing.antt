-- ===== src/Tests/Packing.antt =====
-- A codec for natural numbers: four numbers for each, and two hexadecimal digits for a byte.
use nexusfeed.Prelude.{
  ℕ, zero, suc, ◌+◌, ◌*◌, ◌/◌, ◌%◌, ◌≡◌, refl, ap, sym, ◌∙◌, Option, none, some, List, [], ◌∷◌, map,
  length, arith,
}
use nexusfeed.Features.Packing.{Codec, CodecLaws}
use mathlib.Core.Option.{some-injective}

abbrev pack : List ℕ → List ℕ
pack [] = []
pack (x ∷ xs) = x ∷ 0 ∷ 0 ∷ 0 ∷ pack xs

abbrev consed : ℕ → Option (List ℕ) → Option (List ℕ)
consed x none = none
consed x (some xs) = some (x ∷ xs)

abbrev unpack : ℕ → List ℕ → Option (List ℕ)
unpack zero [] = some []
unpack (suc n) (a ∷ b ∷ c ∷ d ∷ rest) = consed a (unpack n rest)
unpack _ _ = none

abbrev digits : List ℕ → List ℕ
digits [] = []
digits (b ∷ bytes) = b / 16 ∷ b % 16 ∷ digits bytes

abbrev bytes_of : List ℕ → Option (List ℕ)
bytes_of [] = some []
bytes_of (a ∷ b ∷ rest) = consed (a * 16 + b) (bytes_of rest)
bytes_of _ = none

abbrev pub hex : Codec ℕ
hex = record {
  struct_pack = λ vector. some (pack vector);
  struct_unpack = unpack;
  b64encode = digits;
  b64decode = bytes_of;
}

bytes_of-digits : (bytes : List ℕ) → bytes_of (digits bytes) ≡ some bytes
bytes_of-digits [] = refl
bytes_of-digits (b ∷ bytes) =
    let same : b / 16 * 16 + b % 16 ≡ b = omega arith in rw (bytes_of-digits bytes, same) refl

length-pack : (vector : List ℕ) → length (pack vector) ≡ length vector * 4
length-pack [] = refl
length-pack (x ∷ vector) = omega (arith, length-pack vector)

unpack-pack : (vector : List ℕ) → unpack (length vector) (pack vector) ≡ some (map (λ x. x) vector)
unpack-pack [] = refl
unpack-pack (x ∷ vector) = rw (unpack-pack vector) refl

pub hex-CodecLaws : CodecLaws hex (λ x. x)
hex-CodecLaws = record {
  decode_encode = bytes_of-digits;
  pack_length = λ vector bytes e. sym (ap length (some-injective _ _ e)) ∙ length-pack vector;
  unpack_pack = λ vector bytes e.
      sym (ap (unpack (length vector)) (some-injective _ _ e)) ∙ unpack-pack vector;
}

-- ===== src/Features/Packing.antt =====
-- nexusfeed/features/online_store.py: `_pack_embedding` and `_unpack_embedding`. Python's struct and
-- base64 are not code of the repository: `Codec` holds their functions. A text is the list of the
-- ASCII codes of its characters.
use nexusfeed.Prelude.{ℕ, ◌*◌, ◌/◌, ◌≡◌, refl, Option, none, some, List, map, length, arith}
use nexusfeed.World.{Exn, Result, ok, raise}

pub record Codec (W : Type 0) : Type 0 where
  -- `struct.pack(f"{len(vector)}f", *vector)`; `none` is an OverflowError
  pub struct_pack : List W → Option (List ℕ)
  -- `struct.unpack(f"{n}f", decoded)`; `none` is a struct.error
  pub struct_unpack : (n : ℕ) (decoded : List ℕ) → Option (List W)
  pub b64encode : List ℕ → List ℕ
  -- `none` is a binascii.Error
  pub b64decode : List ℕ → Option (List ℕ)

-- What Python documents, where `single` rounds to a 32-bit float: base64 decodes what it encoded, a
-- float takes four bytes, and unpacking gives the packed floats back, rounded.
pub record CodecLaws {W : Type 0} (codec : Codec W) (single : W → W) : Type 0 where
  pub decode_encode : (bytes : List ℕ) → codec.b64decode (codec.b64encode bytes) ≡ some bytes
  pub pack_length :
      (vector : List W) (bytes : List ℕ)
      → codec.struct_pack vector ≡ some bytes
      → length bytes ≡ length vector * 4
  pub unpack_pack :
      (vector : List W) (bytes : List ℕ)
      → codec.struct_pack vector ≡ some bytes
      → codec.struct_unpack (length vector) bytes ≡ some (map single vector)

module _ {W : Type 0} (codec : Codec W) where
  open codec use {struct_pack, struct_unpack, b64encode, b64decode}

  unfoldable pub pack_embedding : List W → Result (List ℕ)
  pack_embedding vector = elim (struct_pack vector) [
    | none ↦ raise Exn.library_error
    | some raw ↦ ok (b64encode raw)
  ]

  unfoldable pub unpack_embedding : List ℕ → Result (List W)
  unpack_embedding raw = elim (b64decode raw) [
    | none ↦ raise Exn.value_error
    | some decoded ↦ elim (struct_unpack (length decoded / 4) decoded) [
      | none ↦ raise Exn.library_error
      | some vector ↦ ok vector
    ]
  ]

  -- what was packed is unpacked, rounded to 32-bit floats
  pub unpack_embedding-pack_embedding :
      (single : W → W)
      → CodecLaws codec single
      → (vector : List W) (text : List ℕ) → pack_embedding vector ≡ ok text
      → unpack_embedding text ≡ ok (map single vector)
  unfolding pack_embedding unpack_embedding
  unpack_embedding-pack_embedding single laws vector text h = by_bytes (struct_pack vector) refl
    where
      by_bytes :
          (packed : Option (List ℕ))
          → struct_pack vector ≡ packed
          → unpack_embedding text ≡ ok (map single vector)
      by_bytes none e = absurd (ground arith)
      by_bytes (some bytes) e =
          let encoded : ok (b64encode bytes) ≡ ok text = rw (e, pack_embedding) at h in
          let same : b64encode bytes ≡ text = cc in
          let count : length bytes / 4 ≡ length vector =
            omega (arith, laws.pack_length vector bytes e) in
          let decoded = rw same at (laws.decode_encode bytes) in
          rw (unpack_embedding, decoded) (rw count (rw (laws.unpack_pack vector bytes e) refl))

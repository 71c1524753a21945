-- ===== src/Abi/Layout.antt =====
-- `#[repr(C)]`: where the fields of a struct lie in memory, and the bytes of a value. The structs of
-- the kernel interface are built of five scalar types.
pub mod RoundTrip
pub mod Pair
use fuse_rs.Base.{
  ℕ, zero, suc, ◌+◌, ◌-◌, ◌%◌, ◌^◌, ◌<◌, List, [], ◌∷◌, ◌++◌, ℤ, as_i32, as_u32, IsI32, as_i64,
  as_u64, IsI64, ◌≡◌, to_le, from_le, length, take, drop, replicate,
}
use Prim.Native.Nat.{max}

pub data Scalar : Type 0 where
  u16 u32 u64 i32 i64 : Scalar

-- The size of a scalar, which is its alignment too.
unfoldable pub scalar_size : Scalar → ℕ
scalar_size u16 = 2
scalar_size u32 = 4
scalar_size u64 = 8
scalar_size i32 = 4
scalar_size i64 = 8

abbrev pub Value : Scalar → Type 0
Value u16 = ℕ
Value u32 = ℕ
Value u64 = ℕ
Value i32 = ℤ
Value i64 = ℤ

-- The values that the type has.
abbrev pub IsValue : (s : Scalar) → Value s → Type 0
IsValue u16 n = n < 2 ^ 16
IsValue u32 n = n < 2 ^ 32
IsValue u64 n = n < 2 ^ 64
IsValue i32 z = IsI32 z
IsValue i64 z = IsI64 z

abbrev pub Fields : List Scalar → Type 0
Fields [] = Unit {0}
Fields (s ∷ l) = Value s × Fields l

abbrev pub AreValues : (l : List Scalar) → Fields l → Type 0
AreValues [] f = Unit {0}
AreValues (s ∷ l) f = IsValue s f.0 × AreValues l f.1

-- The bytes that are skipped before a field of alignment `align`.
unfoldable pub padding : ℕ → ℕ → ℕ
padding align offset = (align - offset % align) % align

-- The offset behind the last field.
unfoldable pub end_offset : ℕ → List Scalar → ℕ
unfolding padding scalar_size
end_offset offset [] = offset
end_offset offset (s ∷ l) = end_offset (offset + padding (scalar_size s) offset + scalar_size s) l

unfoldable pub alignment : List Scalar → ℕ
unfolding scalar_size
alignment [] = 1
alignment (s ∷ l) = max (scalar_size s) (alignment l)

-- `mem::size_of`: a struct is padded at its end to a multiple of its alignment.
unfoldable pub size_of : List Scalar → ℕ
unfolding end_offset alignment padding
size_of l = end_offset 0 l + padding (alignment l) (end_offset 0 l)

unfoldable pub encode_scalar : (s : Scalar) → Value s → List ℕ
encode_scalar u16 n = to_le 2 n
encode_scalar u32 n = to_le 4 n
encode_scalar u64 n = to_le 8 n
encode_scalar i32 z = to_le 4 (as_u32 z)
encode_scalar i64 z = to_le 8 (as_u64 z)

unfoldable pub decode_scalar : (s : Scalar) → List ℕ → Value s
decode_scalar u16 bs = from_le bs
decode_scalar u32 bs = from_le bs
decode_scalar u64 bs = from_le bs
decode_scalar i32 bs = as_i32 (from_le bs)
decode_scalar i64 bs = as_i64 (from_le bs)

-- The bytes of a value; what is skipped is written as zeros.
unfoldable pub encode_fields : ℕ → (l : List Scalar) → Fields l → List ℕ
unfolding padding scalar_size encode_scalar
encode_fields offset [] f = []
encode_fields offset (s ∷ l) f =
    let skipped = padding (scalar_size s) offset in
    replicate skipped 0
    ++ (encode_scalar s f.0 ++ encode_fields (offset + skipped + scalar_size s) l f.1)

unfoldable pub encode : (l : List Scalar) → Fields l → List ℕ
unfolding encode_fields padding alignment end_offset
encode l f = encode_fields 0 l f ++ replicate (padding (alignment l) (end_offset 0 l)) 0

-- What a reference into the bytes reads, each field at its offset.
unfoldable pub decode_fields : ℕ → (l : List Scalar) → List ℕ → Fields l
unfolding padding scalar_size decode_scalar
decode_fields offset [] bs = tt
decode_fields offset (s ∷ l) bs =
    let skipped = padding (scalar_size s) offset in
    let field = drop skipped bs in
    (
      decode_scalar s (take (scalar_size s) field),
      decode_fields (offset + skipped + scalar_size s) l (drop (scalar_size s) field),
    )

unfoldable pub decode : (l : List Scalar) → List ℕ → Fields l
unfolding decode_fields
decode = decode_fields 0

-- A `#[repr(C)]` struct: its fields in order, as a record of this model.
pub record Struct (T : Type 0) : Type 0 where
  pub layout : List Scalar
  pub to_fields : T → Fields layout
  pub of_fields : Fields layout → T
  pub of_fields-to_fields : (t : T) → of_fields (to_fields t) ≡ t
  pub to_fields-of_fields : (f : Fields layout) → to_fields (of_fields f) ≡ f

module _ {T : Type 0} ⦃s : Struct T⦄ where
  unfoldable pub to_bytes : T → List ℕ
  unfolding encode
  to_bytes t = encode s.layout (s.to_fields t)

  unfoldable pub of_bytes : List ℕ → T
  unfolding decode
  of_bytes bs = s.of_fields (decode s.layout bs)

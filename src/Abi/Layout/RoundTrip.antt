-- ===== src/Abi/Layout/RoundTrip.antt =====
-- Bytes of a struct written and read, and their number.
use fuse_rs.Base.{
  ℕ, zero, suc, ◌+◌, ◌≡◌, refl, ap, ap₂, ◌∙◌, List, [], ◌∷◌, ◌++◌, arith, append_assoc, as_i32,
  as_u32, as_i32-as_u32, as_u32-lt, as_i64, as_u64, as_i64-as_u64, as_u64-lt, length-to_le,
  from_le-to_le, length, take, drop, replicate, length-append, length-replicate, take-append,
  drop-append, All, IsByte, to_le-IsByte, All-append,
}
use fuse_rs.Abi.Layout.{
  Scalar, u16, u32, u64, i32, i64, Value, IsValue, Fields, AreValues, scalar_size, padding,
  end_offset, alignment, size_of, encode_scalar, decode_scalar, encode_fields, decode_fields,
  encode, decode, Struct, to_bytes, of_bytes,
}

pub length-encode_scalar : (s : Scalar) (v : Value s) → length (encode_scalar s v) ≡ scalar_size s
unfolding encode_scalar scalar_size
length-encode_scalar u16 v = length-to_le 2 v
length-encode_scalar u32 v = length-to_le 4 v
length-encode_scalar u64 v = length-to_le 8 v
length-encode_scalar i32 v = refl
length-encode_scalar i64 v = refl

decode_scalar-encode_scalar :
    (s : Scalar) (v : Value s) → IsValue s v → decode_scalar s (encode_scalar s v) ≡ v
unfolding encode_scalar decode_scalar
decode_scalar-encode_scalar u16 v h = from_le-to_le 2 v h
decode_scalar-encode_scalar u32 v h = from_le-to_le 4 v h
decode_scalar-encode_scalar u64 v h = from_le-to_le 8 v h
decode_scalar-encode_scalar i32 v h =
    ap as_i32 (from_le-to_le 4 (as_u32 v) (as_u32-lt v)) ∙ as_i32-as_u32 v h
decode_scalar-encode_scalar i64 v h =
    ap as_i64 (from_le-to_le 8 (as_u64 v) (as_u64-lt v)) ∙ as_i64-as_u64 v h

encode_scalar-IsByte : (s : Scalar) (v : Value s) → All IsByte (encode_scalar s v)
unfolding encode_scalar
encode_scalar-IsByte u16 v = to_le-IsByte 2 v
encode_scalar-IsByte u32 v = to_le-IsByte 4 v
encode_scalar-IsByte u64 v = to_le-IsByte 8 v
encode_scalar-IsByte i32 v = to_le-IsByte 4 (as_u32 v)
encode_scalar-IsByte i64 v = to_le-IsByte 8 (as_u64 v)

zeros-IsByte : (n : ℕ) → All IsByte (replicate n 0)
zeros-IsByte zero = tt
zeros-IsByte (suc n) = (omega arith, zeros-IsByte n)

length-encode_fields :
    (o : ℕ) (l : List Scalar) (f : Fields l) → o + length (encode_fields o l f) ≡ end_offset o l
unfolding encode_fields end_offset
length-encode_fields o [] f = omega arith
length-encode_fields o (s ∷ l) f =
    let p = padding (scalar_size s) o in
    let rest = encode_fields (o + p + scalar_size s) l f.1 in
    omega (
      arith,
      length-append (replicate p 0) (encode_scalar s f.0 ++ rest),
      length-append (encode_scalar s f.0) rest,
      length-replicate {A = ℕ} p 0,
      length-encode_scalar s f.0,
      length-encode_fields (o + p + scalar_size s) l f.1,
    )

-- One field behind its padding: what is dropped and taken for it.
module _ (p n : ℕ) (field more rest : List ℕ) (fits : length field ≡ n) where
  drop_padding : drop p ((replicate p 0 ++ (field ++ more)) ++ rest) ≡ field ++ (more ++ rest)
  drop_padding =
      ap (drop p) (append_assoc (replicate p 0) (field ++ more) rest)
      ∙ drop-append p (replicate p 0) ((field ++ more) ++ rest) (length-replicate p 0)
      ∙ append_assoc field more rest

  take_field : take n (drop p ((replicate p 0 ++ (field ++ more)) ++ rest)) ≡ field
  take_field = ap (take n) drop_padding ∙ take-append n field (more ++ rest) fits

  drop_field : drop n (drop p ((replicate p 0 ++ (field ++ more)) ++ rest)) ≡ more ++ rest
  drop_field = ap (drop n) drop_padding ∙ drop-append n field (more ++ rest) fits

decode_fields-encode_fields :
    (o : ℕ) (l : List Scalar) (f : Fields l) (rest : List ℕ)
    → AreValues l f
    → decode_fields o l (encode_fields o l f ++ rest) ≡ f
unfolding encode_fields decode_fields
decode_fields-encode_fields o [] f rest h = refl
decode_fields-encode_fields o (s ∷ l) f rest h =
    let p = padding (scalar_size s) o in
    let n = scalar_size s in
    let field = encode_scalar s f.0 in
    let more = encode_fields (o + p + n) l f.1 in
    let fits = length-encode_scalar s f.0 in
    ap₂ (λ v w. (v, w))
      (ap (decode_scalar s) (take_field p n field more rest fits)
        ∙ decode_scalar-encode_scalar s f.0 h.0)
      (ap (decode_fields (o + p + n) l) (drop_field p n field more rest fits)
        ∙ decode_fields-encode_fields (o + p + n) l f.1 rest h.1)

encode_fields-IsByte : (o : ℕ) (l : List Scalar) (f : Fields l) → All IsByte (encode_fields o l f)
unfolding encode_fields
encode_fields-IsByte o [] f = tt
encode_fields-IsByte o (s ∷ l) f =
    let p = padding (scalar_size s) o in
    All-append IsByte (replicate p 0) _ (zeros-IsByte p) (
      All-append IsByte (encode_scalar s f.0) _ (encode_scalar-IsByte s f.0)
        (encode_fields-IsByte (o + p + scalar_size s) l f.1))

module _ {T : Type 0} ⦃s : Struct T⦄ where
  -- A value takes up `size_of` bytes.
  pub length-to_bytes : (t : T) → length (to_bytes t) ≡ size_of s.layout
  unfolding to_bytes encode size_of
  length-to_bytes t =
      let end = end_offset 0 s.layout in
      let tail = padding (alignment s.layout) end in
      omega (
        arith,
        length-append (encode_fields 0 s.layout (s.to_fields t)) (replicate tail 0),
        length-replicate {A = ℕ} tail 0,
        length-encode_fields 0 s.layout (s.to_fields t),
      )

  pub to_bytes-IsByte : (t : T) → All IsByte (to_bytes t)
  unfolding to_bytes encode
  to_bytes-IsByte t =
      All-append IsByte (encode_fields 0 s.layout (s.to_fields t)) _
        (encode_fields-IsByte 0 s.layout (s.to_fields t)) (zeros-IsByte _)

  -- A reference into a value's bytes reads the value back.
  pub of_bytes-to_bytes : (t : T) → AreValues s.layout (s.to_fields t) → of_bytes (to_bytes t) ≡ t
  unfolding of_bytes to_bytes decode encode
  of_bytes-to_bytes t h =
      let tail = replicate (padding (alignment s.layout) (end_offset 0 s.layout)) 0 in
      ap s.of_fields (decode_fields-encode_fields 0 s.layout (s.to_fields t) tail h)
      ∙ s.of_fields-to_fields t

-- ===== src/Types/Initialise/Promote.antt =====
-- A literal integer takes on the type of the place that it is for, exactly.
use yarg_lang.Prelude.{
  ℕ, ◌%◌, ◌≡◌, refl, ap, ◌∙◌, Bool, true, false, arith, if◌then◌else◌, Option, none, some,
}
use yarg_lang.Prelude.Int.{ℤ, pos, negsuc, ltb_ℤ}
use yarg_lang.BigInt.Layout.{Integer, value}
use yarg_lang.BigInt.Layout.Normal.{IsNormal}
use yarg_lang.BigInt.Words.{
  IntRange, int_within, int_below, int_above, int_to_i32, int_to_u32, int_to_i64, int_to_u64,
}
use yarg_lang.BigInt.Words.Read.{int_to_i32-clamp, int_to_u32_lem, int_to_i64-value, int_to_u64_lem}
use yarg_lang.BigInt.Words.Range.{int_is_range_lem}
use yarg_lang.Types.{
  ConcreteYargType, type_int8, type_uint8, type_int16, type_uint16, type_int32, type_uint32,
  type_int64, type_uint64, SimpleYargType, int8, uint8, int16, uint16, int32, uint32, int64, uint64,
  integer, simple, yt, simple_yt, code, types_equal,
}
use yarg_lang.Types.Initialise.{
  Value, big_small_int, nil_val, number, promote, cast_signed, is_nil, is_nil_kind, is_impl_obj,
  initialise, promotion, is_initialisable_type,
}

-- The machine types, with their least and greatest numbers.
pub record Machine : Type 0 where
  pub kind : ConcreteYargType
  pub entry : SimpleYargType
  pub least : ℤ
  pub greatest : ℕ

pub data IsMachine : Machine → Type 0 where
  int8_type :
      IsMachine (record { kind = type_int8; entry = int8; least = negsuc 127; greatest = 127 })
  uint8_type :
      IsMachine (record { kind = type_uint8; entry = uint8; least = pos 0; greatest = 255 })
  int16_type :
      IsMachine
        (record { kind = type_int16; entry = int16; least = negsuc 32767; greatest = 32767 })
  uint16_type :
      IsMachine (record { kind = type_uint16; entry = uint16; least = pos 0; greatest = 65535 })
  int32_type : IsMachine (record {
    kind = type_int32;
    entry = int32;
    least = negsuc 2147483647;
    greatest = 2147483647;
  })
  uint32_type :
      IsMachine
        (record { kind = type_uint32; entry = uint32; least = pos 0; greatest = 4294967295 })
  int64_type : IsMachine (record {
    kind = type_int64;
    entry = int64;
    least = negsuc 9223372036854775807;
    greatest = 9223372036854775807;
  })
  uint64_type : IsMachine (record {
    kind = type_uint64;
    entry = uint64;
    least = pos 0;
    greatest = 18446744073709551615;
  })

abbrev pub in_range : ℤ → ℕ → ℤ → Bool
in_range l u z = if ltb_ℤ (pos u) z then false else if ltb_ℤ z l then false else true

-- The test of the range, and in it a conversion that is exact.
choose :
    (a b : Bool) (r : IntRange) (v w : Value)
    → r ≡ (if a then int_above else if b then int_below else int_within)
    → ((if a then false else if b then false else true) ≡ true → v ≡ w)
    → (elim r [ int_within ↦ some v | _ ↦ none ])
      ≡ (if if a then false else if b then false else true then some w else none)
choose true b r v w e same = rw e refl
choose false true r v w e same = rw e refl
choose false false r v w e same = rw e (ap some (same refl))

module _ (i : Integer) (n : IsNormal i) where
  signed_32 : in_range (negsuc 2147483647) 2147483647 (value i) ≡ true → int_to_i32 i ≡ value i
  signed_32 h = int_to_i32-clamp i n (ground arith) ∙ ground arith

  unsigned_32 : in_range (pos 0) 4294967295 (value i) ≡ true → pos (int_to_u32 i) ≡ value i
  unsigned_32 h = ground (arith, int_to_u32_lem i n)

  signed_64 :
      in_range (negsuc 9223372036854775807) 9223372036854775807 (value i) ≡ true
      → int_to_i64 i ≡ value i
  signed_64 h = int_to_i64-value i n (ground arith) (ground arith)

  unsigned_64 :
      in_range (pos 0) 18446744073709551615 (value i) ≡ true → pos (int_to_u64 i) ≡ value i
  unsigned_64 h = ground (arith, int_to_u64_lem i n)

  signed_8 : in_range (negsuc 127) 127 (value i) ≡ true → cast_signed 128 (int_to_i32 i) ≡ value i
  signed_8 h = rw (signed_32 (ground arith)) (ground arith)

  signed_16 :
      in_range (negsuc 32767) 32767 (value i) ≡ true → cast_signed 32768 (int_to_i32 i) ≡ value i
  signed_16 h = rw (signed_32 (ground arith)) (ground arith)

  unsigned_8 : in_range (pos 0) 255 (value i) ≡ true → pos (int_to_u32 i % 256) ≡ value i
  unsigned_8 h = ground (arith, int_to_u32_lem i n)

  unsigned_16 : in_range (pos 0) 65535 (value i) ≡ true → pos (int_to_u32 i % 65536) ≡ value i
  unsigned_16 h = ground (arith, int_to_u32_lem i n)

  -- A literal is promoted to a machine type exactly where its value is in range, and keeps the value.
  pub promote-exact :
      (m : Machine)
      → IsMachine m
      → promote m.kind i
        ≡ (if in_range m.least m.greatest (value i) then some (number m.entry (value i)) else none)
  unfolding promote
  promote-exact m int8_type =
      choose _ _ _ _ _ (int_is_range_lem i (negsuc 127) 127 n (omega arith) (omega arith))
        (λ h. ap (number int8) (signed_8 h))
  promote-exact m uint8_type =
      choose _ _ _ _ _ (int_is_range_lem i (pos 0) 255 n (omega arith) (omega arith))
        (λ h. ap (number uint8) (unsigned_8 h))
  promote-exact m int16_type =
      choose _ _ _ _ _ (int_is_range_lem i (negsuc 32767) 32767 n (omega arith) (omega arith))
        (λ h. ap (number int16) (signed_16 h))
  promote-exact m uint16_type =
      choose _ _ _ _ _ (int_is_range_lem i (pos 0) 65535 n (omega arith) (omega arith))
        (λ h. ap (number uint16) (unsigned_16 h))
  promote-exact m int32_type =
      choose _ _ _ _ _
        (int_is_range_lem i (negsuc 2147483647) 2147483647 n (omega arith) (omega arith))
        (λ h. ap (number int32) (signed_32 h))
  promote-exact m uint32_type =
      choose _ _ _ _ _ (int_is_range_lem i (pos 0) 4294967295 n (omega arith) (omega arith))
        (λ h. ap (number uint32) (unsigned_32 h))
  promote-exact m int64_type =
      choose _ _ _ _ _
        (int_is_range_lem i (negsuc 9223372036854775807) 9223372036854775807 n (omega arith)
          (omega arith))
        (λ h. ap (number int64) (signed_64 h))
  promote-exact m uint64_type =
      choose _ _ _ _ _
        (int_is_range_lem i (pos 0) 18446744073709551615 n (omega arith) (omega arith))
        (λ h. ap (number uint64) (unsigned_64 h))

outcome :
    (o : Option Value) (b : Bool) (w : Value)
    → o ≡ (if b then some w else none)
    → ◌≡◌ {A = Bool × Value}
        (elim o [ some v ↦ (true, v) | none ↦ (false, nil_val) ])
        (if b then (true, w) else (false, nil_val))
outcome o true w e = rw e refl
outcome o false w e = rw e refl

-- For each of the eight machine types, a place of it takes a well-formed literal integer exactly
-- where the value is in the range of the type, and then the promoted value has that type and that
-- value.
pub is_initialisable_type-literal :
    (m : Machine) (i : Integer)
    → IsMachine m
    → IsNormal i
    → is_initialisable_type
        (simple m.entry)
        (record { type_of = simple integer; as_ = big_small_int true i })
      ≡ some (
          if in_range m.least m.greatest (value i)
          then (true, number m.entry (value i))
          else (false, nil_val))
unfolding is_initialisable_type is_nil is_nil_kind is_impl_obj initialise promotion types_equal yt
    simple_yt code
is_initialisable_type-literal m i int8_type n =
    ap some
      (outcome (promote type_int8 i) _ (number int8 (value i)) (promote-exact i n _ int8_type))
is_initialisable_type-literal m i uint8_type n =
    ap some
      (outcome (promote type_uint8 i) _ (number uint8 (value i)) (promote-exact i n _ uint8_type))
is_initialisable_type-literal m i int16_type n =
    ap some
      (outcome (promote type_int16 i) _ (number int16 (value i)) (promote-exact i n _ int16_type))
is_initialisable_type-literal m i uint16_type n =
    ap some (
      outcome (promote type_uint16 i) _ (number uint16 (value i)) (promote-exact i n _ uint16_type))
is_initialisable_type-literal m i int32_type n =
    ap some
      (outcome (promote type_int32 i) _ (number int32 (value i)) (promote-exact i n _ int32_type))
is_initialisable_type-literal m i uint32_type n =
    ap some (
      outcome (promote type_uint32 i) _ (number uint32 (value i)) (promote-exact i n _ uint32_type))
is_initialisable_type-literal m i int64_type n =
    ap some
      (outcome (promote type_int64 i) _ (number int64 (value i)) (promote-exact i n _ int64_type))
is_initialisable_type-literal m i uint64_type n =
    ap some (
      outcome (promote type_uint64 i) _ (number uint64 (value i)) (promote-exact i n _ uint64_type))

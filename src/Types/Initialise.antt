-- ===== src/Types/Initialise.antt =====
-- What a place of a type may be initialised with (cyarg/value.c: is_nil; cyarg/yargtype.c:
-- isInitialisableType).
pub mod Promote
use yarg_lang.Prelude.{
  ℕ, ◌+◌, ◌-◌, ◌*◌, ◌%◌, Bool, true, false, ltb, ◌==◌, if◌then◌else◌, Option, none, some,
}
use yarg_lang.Prelude.Int.{ℤ, pos, negsuc}
use yarg_lang.BigInt.Layout.{Integer}
use yarg_lang.BigInt.Words.{
  IntRange, int_within, int_is_range, int_to_i32, int_to_u32, int_to_i64, int_to_u64,
}
use yarg_lang.Types.{
  ConcreteYargType, type_int8, type_uint8, type_int16, type_uint16, type_int32, type_uint32,
  type_int64, type_uint64, type_pointer, type_class, type_instance, type_function, type_routine,
  type_channel, type_sync_group, type_map, type_string, SimpleYargType, int8, uint8, int16, uint16,
  int32, uint32, int64, uint64, integer, implementation_obj, YargType, any, simple, array, yt,
  is_nil_assignable_type, types_equal,
}

-- The union `AnyValue` as its type has it: an object or none, an integer of the language with the
-- flag `literal_` of its header, or a number of the machine.
pub data Content : Type 0 where
  no_object : Content
  object : (address : ℕ) → Content
  big_small_int : (literal : Bool) (i : Integer) → Content
  machine : ℤ → Content

pub record Value : Type 0 where
  pub type_of : YargType
  pub as_ : Content

abbrev pub nil_val : Value
nil_val = record { type_of = any; as_ = no_object }

abbrev pub has_no_object : Content → Bool
has_no_object no_object = true
has_no_object c = false

unfoldable pub is_nil_kind : ConcreteYargType → Bool
is_nil_kind type_pointer = true
is_nil_kind type_class = true
is_nil_kind type_instance = true
is_nil_kind type_function = true
is_nil_kind type_routine = true
is_nil_kind type_channel = true
is_nil_kind type_sync_group = true
is_nil_kind type_map = true
is_nil_kind type_string = true
is_nil_kind k = false

-- A value of the type `implementation_obj` is never nil: its code is that of a Boolean.
unfoldable pub is_nil : Value → Bool
is_nil v = elim v.type_of [
  | any ↦ has_no_object v.as_
  | other ↦ if is_nil_kind (yt other) then has_no_object v.as_ else false
]

unfoldable pub is_impl_obj : Value → Bool
is_impl_obj v = elim v.type_of [
  | simple implementation_obj ↦ if has_no_object v.as_ then false else true
  | other ↦ false
]

-- The conversion of C to a signed type of `2 * half` values, and to an unsigned type of `word`.
abbrev pub cast_signed : ℕ → ℤ → ℤ
cast_signed half (pos n) =
    if ltb (n % (2 * half)) half
    then pos (n % (2 * half))
    else negsuc (2 * half - n % (2 * half) - 1)
cast_signed half (negsuc n) =
    if ltb (n % (2 * half)) half
    then negsuc (n % (2 * half))
    else pos (2 * half - n % (2 * half) - 1)

abbrev pub number : SimpleYargType → ℤ → Value
number t z = record { type_of = simple t; as_ = machine z }

-- The `switch` on the type of a place that a literal integer is for.
unfoldable pub promote : ConcreteYargType → Integer → Option Value
promote type_int8 i = elim (int_is_range i (negsuc 127) 127) [
  | int_within ↦ some (number int8 (cast_signed 128 (int_to_i32 i)))
  | _ ↦ none
]
promote type_uint8 i = elim (int_is_range i (pos 0) 255) [
  | int_within ↦ some (number uint8 (pos (int_to_u32 i % 256)))
  | _ ↦ none
]
promote type_int16 i = elim (int_is_range i (negsuc 32767) 32767) [
  | int_within ↦ some (number int16 (cast_signed 32768 (int_to_i32 i)))
  | _ ↦ none
]
promote type_uint16 i = elim (int_is_range i (pos 0) 65535) [
  | int_within ↦ some (number uint16 (pos (int_to_u32 i % 65536)))
  | _ ↦ none
]
promote type_int32 i = elim (int_is_range i (negsuc 2147483647) 2147483647) [
  | int_within ↦ some (number int32 (int_to_i32 i))
  | _ ↦ none
]
promote type_uint32 i = elim (int_is_range i (pos 0) 4294967295) [
  | int_within ↦ some (number uint32 (pos (int_to_u32 i)))
  | _ ↦ none
]
promote type_int64 i = elim (int_is_range i (negsuc 9223372036854775807) 9223372036854775807) [
  | int_within ↦ some (number int64 (int_to_i64 i))
  | _ ↦ none
]
promote type_uint64 i = elim (int_is_range i (pos 0) 18446744073709551615) [
  | int_within ↦ some (number uint64 (pos (int_to_u64 i)))
  | _ ↦ none
]
promote k i = none

-- The elements of an array of `any` may be of every type.
unfoldable pub is_initialisable_array : YargType → ℕ → YargType → ℕ → Bool
is_initialisable_array any m t n = m == n
is_initialisable_array s m any n = false
is_initialisable_array s m t n = if m == n then types_equal s t else false

unfoldable pub promotion : YargType → Content → Option Value
promotion lhs (big_small_int true i) = promote (yt lhs) i
promotion lhs c = none

-- A promotion is tried on integers, before the types are compared.
unfoldable pub initialise : YargType → YargType → Content → Bool × Value
initialise (array s m) (array t n) c = (is_initialisable_array s m t n, nil_val)
initialise lhs (simple integer) c = elim (promotion lhs c) [
  | some v ↦ (true, v)
  | none ↦ (types_equal lhs (simple integer), nil_val)
]
initialise lhs rhs c = (types_equal lhs rhs, nil_val)

-- The result and `promotedRhs`; `none` for a fatal error.
unfoldable pub is_initialisable_type : YargType → Value → Option (Bool × Value)
is_initialisable_type any v = some (true, nil_val)
is_initialisable_type lhs v =
    if is_nil v
    then some (is_nil_assignable_type lhs, nil_val)
    else if is_impl_obj v
    then none
    else some (initialise lhs v.type_of v.as_)

-- ===== src/Types/Tests.antt =====
-- Types (cyarg/yargtype.c) on a target of 32 bits.
use yarg_lang.Prelude.{ℕ, ◌+◌, ◌<◌, ◌≡◌, ◌↔◌, refl, true, false, [], ◌∷◌, some, arith}
use yarg_lang.Prelude.Int.{pos}
use yarg_lang.BigInt.Layout.{Integer}
use yarg_lang.BigInt.Layout.Normal.{IsNormal}
use yarg_lang.Types.{
  type_uint8, uint8, int8, int32, integer, YargType, any, simple, struct, pointer, mapping,
  no_fields, field, yt, simple_yt, code, types_equal,
}
use yarg_lang.Types.Equal.{canonical, types_equal-canonical}
use yarg_lang.Types.Layout.{
  Target, size_of_kind, size_of_type_storage, alignment_for_kind, alignment_for_type_storage,
  array_element_offset, new_struct_type, append_field_type,
}
use yarg_lang.Types.Layout.Struct.{
  IsLaidOut, new_struct_type-IsLaidOut, append_field_type-IsLaidOut,
}
use yarg_lang.Types.Initialise.{big_small_int, nil_val, is_initialisable_type}
use yarg_lang.Types.Initialise.Promote.{uint8_type, is_initialisable_type-literal}

abbrev pico : Target
pico = record { value_size = 16; address_size = 4; small_int_size = 4; word = 4294967296 }

abbrev a_word : YargType
a_word = simple int32

abbrev a_byte : YargType
a_byte = simple int8

-- A byte after a word, in no more than five bytes; the second element of an array of these is not
-- aligned. All types of maps are taken for equal.
layouts :
    (append_field_type pico (append_field_type pico new_struct_type a_word) a_byte ≡ record {
      fields = field a_word 0 (field a_byte 4 no_fields);
      storage_size = 5;
      alignment = 4;
    })
    × (array_element_offset pico (struct (field a_word 0 (field a_byte 4 no_fields)) 5 4) 1 ≡ 5)
    × (types_equal (mapping a_word a_byte) (mapping a_byte any) ≡ true)
unfolding append_field_type new_struct_type size_of_kind size_of_type_storage alignment_for_kind
    alignment_for_type_storage array_element_offset types_equal yt simple_yt code
layouts = (refl, refl, refl)

-- What two structs with other offsets and sizes have in common.
abbrev near : YargType
near = pointer (struct (field a_byte 0 no_fields) 1 1)

abbrev far : YargType
far = pointer (struct (field a_byte 8 no_fields) 9 1)

types_equal-canonical_example : (types_equal near far ≡ true) ↔ (canonical near ≡ canonical far)
types_equal-canonical_example = types_equal-canonical near far

append_field_type-IsLaidOut_example :
    IsLaidOut pico (append_field_type pico new_struct_type a_word)
    × ((append_field_type pico new_struct_type a_word).storage_size < 0 + 4 + 4)
unfolding size_of_type_storage size_of_kind alignment_for_type_storage alignment_for_kind
    new_struct_type yt simple_yt
append_field_type-IsLaidOut_example =
    append_field_type-IsLaidOut pico new_struct_type a_word (new_struct_type-IsLaidOut pico)
      (omega arith) (omega arith)

abbrev literal : ℕ → Integer
literal x = record {
  neg = false;
  overflow = false;
  obj = false;
  literal = true;
  d = 1;
  m = 2;
  h = x ∷ 0 ∷ [];
}

literal-IsNormal : (x : ℕ) → x < 65536 → IsNormal (literal x)
literal-IsNormal x lt = record {
  shaped = record {
    even = refl;
    some_room = omega arith;
    fits = omega arith;
    sized = refl;
    bits = (lt, (omega arith, tt));
  };
  least = omega arith;
  most = omega arith;
  padded = λ _. refl;
  top = λ more. absurd (omega arith);
}

-- 300 is no uint8.
is_initialisable_type-literal_example :
    is_initialisable_type
      (simple uint8)
      (record { type_of = simple integer; as_ = big_small_int true (literal 300) })
    ≡ some (false, nil_val)
is_initialisable_type-literal_example =
    is_initialisable_type-literal
      (record { kind = type_uint8; entry = uint8; least = pos 0; greatest = 255 }) (literal 300)
      uint8_type (literal-IsNormal 300 (omega arith))

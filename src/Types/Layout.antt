-- ===== src/Types/Layout.antt =====
-- How large a type is in memory, and where the fields of a struct are put (cyarg/yargtype.c:
-- yt_sizeof_type_storage, yt_alignmentfor_type_storage, appendFieldType and its neighbours).
pub mod Struct
use yarg_lang.Prelude.{
  ℕ, zero, suc, ◌+◌, ◌-◌, ◌*◌, ◌%◌, ◌^◌, Bool, ltb, if◌then◌else◌, Option, none, some,
}
use yarg_lang.Types.{
  ConcreteYargType, type_bool, type_int, type_double, type_int8, type_uint8, type_int16,
  type_uint16, type_int32, type_uint32, type_int64, type_uint64, type_address, YargType, any,
  simple, array, struct, Fields, no_fields, field, yt,
}

-- What the compiler of the target gives for `sizeof`, and the number of values of `size_t`.
pub record Target : Type 0 where
  pub value_size : ℕ
  pub address_size : ℕ
  pub small_int_size : ℕ
  pub word : ℕ

module _ (target : Target) where
  unfoldable pub size_of_kind : ConcreteYargType → ℕ
  size_of_kind type_double = 8
  size_of_kind type_int8 = 1
  size_of_kind type_uint8 = 1
  size_of_kind type_int16 = 2
  size_of_kind type_uint16 = 2
  size_of_kind type_int32 = 4
  size_of_kind type_uint32 = 4
  size_of_kind type_int64 = 8
  size_of_kind type_uint64 = 8
  size_of_kind type_address = target.address_size
  size_of_kind k = target.value_size

  unfoldable pub size_of_type_storage : YargType → ℕ
  size_of_type_storage any = target.value_size
  size_of_type_storage (struct fs size alignment) = size
  size_of_type_storage (array e n) = (size_of_type_storage e * n) % target.word
  size_of_type_storage t = size_of_kind (yt t)

  unfoldable pub alignment_for_kind : ConcreteYargType → ℕ
  unfolding size_of_kind
  alignment_for_kind type_int = target.small_int_size
  alignment_for_kind k = size_of_kind k

  unfoldable pub alignment_for_type_storage : YargType → ℕ
  alignment_for_type_storage any = target.value_size
  alignment_for_type_storage (struct fs size alignment) = alignment
  alignment_for_type_storage (array e n) = alignment_for_type_storage e
  alignment_for_type_storage t = alignment_for_kind (yt t)

  unfoldable pub array_element_offset : YargType → ℕ → ℕ
  array_element_offset element_type index =
      (index * size_of_type_storage element_type) % target.word

-- The struct type under construction: the fields that have their type, in the order they came. The
-- table of the names is left out: its count is the index of the next field, so that the names given
-- to one struct are taken to differ, as the assertion of `appendFieldType` wants.
pub record StructType : Type 0 where
  pub fields : Fields
  pub storage_size : ℕ
  pub alignment : ℕ

abbrev pub alignment_padding : ℕ → ℕ → ℕ
alignment_padding alignment offset = (alignment - offset % alignment) % alignment

unfoldable pub new_struct_type : StructType
new_struct_type = record { fields = no_fields; storage_size = 0; alignment = 1 }

abbrev pub append_field : Fields → YargType → ℕ → Fields
append_field no_fields t o = field t o no_fields
append_field (field u p fs) t o = field u p (append_field fs t o)

module _ (target : Target) where
  unfoldable pub append_field_type : StructType → YargType → StructType
  append_field_type st t =
      let field_alignment = alignment_for_type_storage target t in
      let offset =
        (st.storage_size + alignment_padding field_alignment st.storage_size) % target.word in
      record {
        fields = append_field st.fields t offset;
        storage_size = (offset + size_of_type_storage target t) % target.word;
        alignment = if ltb st.alignment field_alignment then field_alignment else st.alignment;
      }

  -- A field at a place of the program's choice; nothing is checked.
  unfoldable pub append_field_type_at_offset : StructType → YargType → ℕ → StructType
  append_field_type_at_offset st t offset = record st {
    fields = append_field st.fields t offset;
    storage_size = (offset + size_of_type_storage target t) % target.word;
  }

pub struct_field_offset : Fields → ℕ → Option ℕ
struct_field_offset no_fields i = none
struct_field_offset (field t o fs) zero = some o
struct_field_offset (field t o fs) (suc i) = struct_field_offset fs i

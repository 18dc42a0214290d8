-- ===== src/Types.antt =====
-- cyarg/yargtype.c: the types of the language at run time. A type is a tree: an array, a struct, a
-- pointer or a map names types that are there before it. The null pointer is `any`.
pub mod Equal
pub mod Layout
pub mod Initialise
pub mod Tests
use yarg_lang.Prelude.{ℕ, ◌+◌, ◌-◌, ◌*◌, ◌%◌, Bool, true, false, ◌&&◌, ltb, ◌==◌, if◌then◌else◌}

pub data ConcreteYargType : Type 0 where
  type_bool type_int type_double type_int8 type_uint8 type_int16 type_uint16 : ConcreteYargType
  type_int32 type_uint32 type_int64 type_uint64 type_string type_address type_class :
      ConcreteYargType
  type_instance type_function type_routine type_channel type_sync_group type_array :
      ConcreteYargType
  type_struct type_pointer type_map type_yarg_type : ConcreteYargType

-- The entries of `yargTypes`. The code of `implementation_obj` is 0, that of a Boolean.
pub data SimpleYargType : Type 0 where
  boolean address dbl int8 uint8 int16 uint16 int32 uint32 int64 uint64 type : SimpleYargType
  class_ string integer implementation_obj function routine channel sync_group : SimpleYargType

unfoldable pub simple_yt : SimpleYargType → ConcreteYargType
simple_yt boolean = type_bool
simple_yt address = type_address
simple_yt dbl = type_double
simple_yt int8 = type_int8
simple_yt uint8 = type_uint8
simple_yt int16 = type_int16
simple_yt uint16 = type_uint16
simple_yt int32 = type_int32
simple_yt uint32 = type_uint32
simple_yt int64 = type_int64
simple_yt uint64 = type_uint64
simple_yt type = type_yarg_type
simple_yt class_ = type_class
simple_yt string = type_string
simple_yt integer = type_int
simple_yt implementation_obj = type_bool
simple_yt function = type_function
simple_yt routine = type_routine
simple_yt channel = type_channel
simple_yt sync_group = type_sync_group

-- A field holds its type and its offset; a struct also its `storage_size` and its `alignment`.
mutual
  pub data YargType : Type 0 where
    any : YargType
    simple : SimpleYargType → YargType
    array : (element_type : YargType) (cardinality : ℕ) → YargType
    struct : (fields : Fields) (storage_size alignment : ℕ) → YargType
    pointer : (target_type : YargType) → YargType
    mapping : (key_type value_type : YargType) → YargType

  pub data Fields : Type 0 where
    no_fields : Fields
    field : (field_type : YargType) (offset : ℕ) (others : Fields) → Fields

-- The field `yt`, which no code reads through the null pointer.
unfoldable pub yt : YargType → ConcreteYargType
yt any = type_bool
yt (simple k) = simple_yt k
yt (array e n) = type_array
yt (struct fs s a) = type_struct
yt (pointer t) = type_pointer
yt (mapping k v) = type_map

unfoldable pub code : ConcreteYargType → ℕ
code type_bool = 0
code type_int = 1
code type_double = 2
code type_int8 = 3
code type_uint8 = 4
code type_int16 = 5
code type_uint16 = 6
code type_int32 = 7
code type_uint32 = 8
code type_int64 = 9
code type_uint64 = 10
code type_string = 11
code type_address = 12
code type_class = 13
code type_instance = 14
code type_function = 15
code type_routine = 16
code type_channel = 17
code type_sync_group = 18
code type_array = 19
code type_struct = 20
code type_pointer = 21
code type_map = 22
code type_yarg_type = 23

-- `a->yt == b->yt`
abbrev pub same_yt : ConcreteYargType → ConcreteYargType → Bool
same_yt j k = code j == code k

unfoldable pub is_obj_kind : ConcreteYargType → Bool
is_obj_kind type_struct = true
is_obj_kind type_array = true
is_obj_kind type_pointer = true
is_obj_kind type_channel = true
is_obj_kind type_sync_group = true
is_obj_kind type_routine = true
is_obj_kind type_map = true
is_obj_kind k = false

-- The comparisons with entries of `yargTypes` come first, then those of the kind.
unfoldable pub is_obj_yargtype : YargType → Bool
is_obj_yargtype any = false
is_obj_yargtype (simple implementation_obj) = true
is_obj_yargtype (simple class_) = true
is_obj_yargtype (simple string) = true
is_obj_yargtype (simple type) = true
is_obj_yargtype (simple function) = true
is_obj_yargtype t = is_obj_kind (yt t)

unfoldable pub is_packable_container_type : YargType → Bool
is_packable_container_type (array e n) = true
is_packable_container_type (struct fs s a) = true
is_packable_container_type (pointer t) = true
is_packable_container_type t = false

unfoldable pub is_nil_assignable_kind : ConcreteYargType → Bool
is_nil_assignable_kind type_string = true
is_nil_assignable_kind type_class = true
is_nil_assignable_kind type_instance = true
is_nil_assignable_kind type_function = true
is_nil_assignable_kind type_routine = true
is_nil_assignable_kind type_channel = true
is_nil_assignable_kind type_sync_group = true
is_nil_assignable_kind type_pointer = true
is_nil_assignable_kind type_map = true
is_nil_assignable_kind type_yarg_type = true
is_nil_assignable_kind type_array = true
is_nil_assignable_kind k = false

unfoldable pub is_nil_assignable_type : YargType → Bool
is_nil_assignable_type any = true
is_nil_assignable_type t = is_nil_assignable_kind (yt t)

unfoldable pub is_placeable_kind : ConcreteYargType → Bool
is_placeable_kind type_int8 = true
is_placeable_kind type_uint8 = true
is_placeable_kind type_int16 = true
is_placeable_kind type_uint16 = true
is_placeable_kind type_int32 = true
is_placeable_kind type_uint32 = true
is_placeable_kind type_int64 = true
is_placeable_kind type_uint64 = true
is_placeable_kind type_double = true
is_placeable_kind k = false

unfoldable mutual
  pub is_placeable_type : YargType → Bool
  is_placeable_type (simple k) = is_placeable_kind (simple_yt k)
  is_placeable_type (array e n) = is_placeable_type e
  is_placeable_type (struct fs s a) = are_placeable fs
  is_placeable_type t = false

  pub are_placeable : Fields → Bool
  are_placeable no_fields = true
  are_placeable (field t o fs) = is_placeable_type t && are_placeable fs

-- A map key is a string, or a map with such keys.
unfoldable pub is_supported_map_key_type : YargType → Bool
is_supported_map_key_type (mapping k v) = is_supported_map_key_type k
is_supported_map_key_type (simple string) = true
is_supported_map_key_type t = false

-- `a == b` on two addresses is left out: a type is equal to itself without it.
unfoldable mutual
  pub types_equal : YargType → YargType → Bool
  types_equal any any = true
  types_equal any b = false
  types_equal a any = false
  types_equal (pointer s) (pointer t) = types_equal s t
  types_equal (array s m) (array t n) = types_equal s t && m == n
  types_equal (struct fs s a) (struct gs t b) = fields_equal fs gs
  types_equal a b = same_yt (yt a) (yt b)

  pub fields_equal : Fields → Fields → Bool
  fields_equal no_fields no_fields = true
  fields_equal (field s o fs) (field t p gs) = types_equal s t && fields_equal fs gs
  fields_equal fs gs = false

-- ===== src/Types/Equal.antt =====
-- `typesEqual` (cyarg/yargtype.c) compares types up to what it does not look at.
use yarg_lang.Prelude.{
  ℕ, ◌≡◌, refl, sym, ap, ◌∙◌, ◌↔◌, Bool, true, false, ◌&&◌, arith, ◌==◌, ==_iff, if◌then◌else◌,
}
use yarg_lang.Types.{
  ConcreteYargType, type_bool, type_int, type_double, type_int8, type_uint8, type_int16,
  type_uint16, type_int32, type_uint32, type_int64, type_uint64, type_string, type_address,
  type_class, type_instance, type_function, type_routine, type_channel, type_sync_group, type_array,
  type_struct, type_pointer, type_map, type_yarg_type, SimpleYargType, boolean, address, dbl, int8,
  uint8, int16, uint16, int32, uint32, int64, uint64, type, class_, string, integer,
  implementation_obj, function, routine, channel, sync_group, simple_yt, YargType, any, simple,
  array, struct, pointer, mapping, Fields, no_fields, field, yt, code, types_equal, fields_equal,
}

-- What is compared: not the offsets and sizes of a struct, nor the parts of a map; and
-- `implementation_obj` has the code of `boolean`.
abbrev pub canonical_simple : SimpleYargType → SimpleYargType
canonical_simple implementation_obj = boolean
canonical_simple k = k

unfoldable mutual
  pub canonical : YargType → YargType
  canonical any = any
  canonical (simple k) = simple (canonical_simple k)
  canonical (array e n) = array (canonical e) n
  canonical (struct fs s a) = struct (canonical_fields fs) 0 0
  canonical (pointer t) = pointer (canonical t)
  canonical (mapping k v) = mapping any any

  pub canonical_fields : Fields → Fields
  canonical_fields no_fields = no_fields
  canonical_fields (field t o fs) = field (canonical t) 0 (canonical_fields fs)

simple_of : ConcreteYargType → SimpleYargType
simple_of type_address = address
simple_of type_double = dbl
simple_of type_int8 = int8
simple_of type_uint8 = uint8
simple_of type_int16 = int16
simple_of type_uint16 = uint16
simple_of type_int32 = int32
simple_of type_uint32 = uint32
simple_of type_int64 = int64
simple_of type_uint64 = uint64
simple_of type_yarg_type = type
simple_of type_class = class_
simple_of type_string = string
simple_of type_int = integer
simple_of type_function = function
simple_of type_routine = routine
simple_of type_channel = channel
simple_of type_sync_group = sync_group
simple_of k = boolean

decode : ℕ → ConcreteYargType
decode n =
    if n == 0
    then type_bool
    else if n == 1
    then type_int
    else if n == 2
    then type_double
    else if n == 3
    then type_int8
    else if n == 4
    then type_uint8
    else if n == 5
    then type_int16
    else if n == 6
    then type_uint16
    else if n == 7
    then type_int32
    else if n == 8
    then type_uint32
    else if n == 9
    then type_int64
    else if n == 10
    then type_uint64
    else if n == 11
    then type_string
    else if n == 12
    then type_address
    else if n == 13
    then type_class
    else if n == 14
    then type_instance
    else if n == 15
    then type_function
    else if n == 16
    then type_routine
    else if n == 17
    then type_channel
    else if n == 18
    then type_sync_group
    else if n == 19
    then type_array
    else if n == 20
    then type_struct
    else if n == 21
    then type_pointer
    else if n == 22
    then type_map
    else type_yarg_type

decode-code : (k : ConcreteYargType) → decode (code k) ≡ k
unfolding decode code
decode-code type_bool = refl
decode-code _ = refl

simple_of-simple_yt : (k : SimpleYargType) → simple_of (simple_yt k) ≡ canonical_simple k
unfolding simple_of simple_yt
simple_of-simple_yt boolean = refl
simple_of-simple_yt _ = refl

simple_yt-canonical_simple : (k : SimpleYargType) → simple_yt (canonical_simple k) ≡ simple_yt k
unfolding simple_yt
simple_yt-canonical_simple boolean = refl
simple_yt-canonical_simple _ = refl

-- No entry of `yargTypes` has the code of a type with parts.
simple_code :
    (k : SimpleYargType)
    → ((code (simple_yt k) == 19) ≡ false)
      × ((code (simple_yt k) == 20) ≡ false)
      × ((code (simple_yt k) == 21) ≡ false)
      × ((code (simple_yt k) == 22) ≡ false)
unfolding simple_yt code
simple_code boolean = (refl, refl, refl, refl)
simple_code _ = (refl, refl, refl, refl)

simple_iff :
    (j k : SimpleYargType)
    → ((code (simple_yt j) == code (simple_yt k)) ≡ true)
      ↔ (canonical (simple j) ≡ canonical (simple k))
unfolding canonical
simple_iff j k = (
  λ e.
      let same : simple_yt j ≡ simple_yt k =
        sym (decode-code (simple_yt j))
        ∙ ap decode ((==_iff _ _).0 e)
        ∙ decode-code (simple_yt k) in
      ap simple (sym (simple_of-simple_yt j) ∙ ap simple_of same ∙ simple_of-simple_yt k),
  λ e.
      let inner : canonical_simple j ≡ canonical_simple k = cc in
      (==_iff _ _).1 (
        ap code
          (sym (simple_yt-canonical_simple j) ∙ ap simple_yt inner ∙ simple_yt-canonical_simple k)),
)

-- The same test on two types of one shape, from the tests on their parts.
array_iff :
    (p : Bool) (x y : YargType) (m n : ℕ)
    → (p ≡ true) ↔ (x ≡ y)
    → ((p && m == n) ≡ true) ↔ (array x m ≡ array y n)
array_iff p x y m n h = ground (arith, ==_iff m n)

field_iff :
    (p q : Bool) (x y : YargType) (xs ys : Fields)
    → (p ≡ true) ↔ (x ≡ y)
    → (q ≡ true) ↔ (xs ≡ ys)
    → ((p && q) ≡ true) ↔ (field x 0 xs ≡ field y 0 ys)
field_iff p q x y xs ys h k = ground arith

mutual
  unfolding types_equal fields_equal canonical canonical_fields yt code

  equal_iff : (a b : YargType) → (types_equal a b ≡ true) ↔ (canonical a ≡ canonical b)
  equal_iff (simple j) (simple k) = simple_iff j k
  equal_iff (array s m) (array t n) =
      array_iff (types_equal s t) (canonical s) (canonical t) m n (equal_iff s t)
  equal_iff (struct fs s a) (struct gs t b) =
      (λ e. ap (λ xs. struct xs 0 0) ((fields_iff fs gs).0 e), λ e. (fields_iff fs gs).1 (cc))
  equal_iff (pointer s) (pointer t) =
      (λ e. ap pointer ((equal_iff s t).0 e), λ e. (equal_iff s t).1 (cc))
  equal_iff (simple k) (array t n) = ground (arith, simple_code k)
  equal_iff (simple k) (struct gs t b) = ground (arith, simple_code k)
  equal_iff (simple k) (pointer t) = ground (arith, simple_code k)
  equal_iff (simple k) (mapping t u) = ground (arith, simple_code k)
  equal_iff (array t n) (simple k) = ground (arith, simple_code k)
  equal_iff (struct gs t b) (simple k) = ground (arith, simple_code k)
  equal_iff (pointer t) (simple k) = ground (arith, simple_code k)
  equal_iff (mapping t u) (simple k) = ground (arith, simple_code k)
  equal_iff _ _ = ground arith

  fields_iff :
      (fs gs : Fields) → (fields_equal fs gs ≡ true) ↔ (canonical_fields fs ≡ canonical_fields gs)
  fields_iff (field s o fs) (field t p gs) =
      field_iff (types_equal s t) (fields_equal fs gs) (canonical s) (canonical t)
        (canonical_fields fs) (canonical_fields gs) (equal_iff s t) (fields_iff fs gs)
  fields_iff _ _ = ground arith

-- `types_equal` holds of two types exactly where they have the same canonical form, which leaves out
-- the offsets and sizes of structs and the parts of maps, and takes the type of an implementation
-- object for a Boolean.
pub types_equal-canonical :
    (a b : YargType) → (types_equal a b ≡ true) ↔ (canonical a ≡ canonical b)
types_equal-canonical a b = equal_iff a b

-- ===== src/Types/Layout/Struct.antt =====
-- The fields of a struct are aligned, in order and apart.
use yarg_lang.Prelude.{ℕ, ◌+◌, ◌-◌, ◌%◌, ◌≤◌, ◌<◌, ◌≡◌, sym, ap, ◌∙◌, arith, ltb, if◌then◌else◌}
use native.Mathlib.Nat.{mod-eq_of_lt, mod-lt, mod-add-mod, add-mod-mod, mod_self}
use yarg_lang.Types.{YargType, Fields, no_fields, field}
use yarg_lang.Types.Layout.{
  Target, StructType, new_struct_type, append_field, alignment_padding, append_field_type,
  size_of_type_storage, alignment_for_type_storage,
}

-- The padding brings an offset to a multiple of the alignment.
padding_lem : (a o : ℕ) → 1 ≤ a → (o + alignment_padding a o) % a ≡ 0
padding_lem a o h =
    add-mod-mod o (a - o % a) a
    ∙ sym (mod-add-mod o a (a - o % a))
    ∙ ap (λ k. k % a) (omega (arith, mod-lt o h))
    ∙ mod_self a

module _ (target : Target) where
  -- The fields lie between `lo` and `hi`, each aligned and behind the one before it, and no
  -- alignment is above `most`.
  abbrev pub Fits : ℕ → Fields → ℕ → ℕ → Type 0
  Fits lo no_fields hi most = lo ≤ hi
  Fits lo (field t o fs) hi most =
      (lo ≤ o)
      × ((o % alignment_for_type_storage target t ≡ 0)
          × ((alignment_for_type_storage target t ≤ most)
              × Fits (o + size_of_type_storage target t) fs hi most))

  pub record IsLaidOut (st : StructType) : Type 0 where
    pub fits : Fits 0 st.fields st.storage_size st.alignment
    pub some_alignment : 1 ≤ st.alignment

  Fits-append :
      (lo : ℕ) (fs : Fields) (hi most : ℕ) (t : YargType) (o most' : ℕ)
      → Fits lo fs hi most
      → hi ≤ o
      → o % alignment_for_type_storage target t ≡ 0
      → most ≤ most'
      → alignment_for_type_storage target t ≤ most'
      → Fits lo (append_field fs t o) (o + size_of_type_storage target t) most'
  Fits-append lo no_fields hi most t o most' f le al mo am =
      (omega (arith, f), (al, (am, omega arith)))
  Fits-append lo (field u p fs) hi most t o most' (a, (b, (c, f))) le al mo am = (
    a,
    (
      b,
      (
        omega (arith, c),
        Fits-append (p + size_of_type_storage target u) fs hi most t o most' f le al mo am,
      ),
    ),
  )

  pub new_struct_type-IsLaidOut : IsLaidOut new_struct_type
  unfolding new_struct_type
  new_struct_type-IsLaidOut = record { fits = omega arith; some_alignment = omega arith }

  module _ (st : StructType) (t : YargType) where
    abbrev next_offset : ℕ
    next_offset =
        st.storage_size + alignment_padding (alignment_for_type_storage target t) st.storage_size

    -- Where the fields of a struct are aligned, in order and apart, a field is appended with an
    -- alignment of at least 1, and the sizes do not wrap, `append_field_type` leaves them so, and
    -- the struct is larger by less than the alignment and the size of the field.
    pub append_field_type-IsLaidOut :
        IsLaidOut st
        → 1 ≤ alignment_for_type_storage target t
        → st.storage_size + alignment_for_type_storage target t + size_of_type_storage target t
          < target.word
        → IsLaidOut (append_field_type target st t)
          × ((append_field_type target st t).storage_size
              < st.storage_size
                + alignment_for_type_storage target t
                + size_of_type_storage target t)
    unfolding append_field_type
    append_field_type-IsLaidOut laid some_alignment room =
        let a = alignment_for_type_storage target t in
        let pad : alignment_padding a st.storage_size < a =
          mod-lt (a - st.storage_size % a) some_alignment in
        let here : next_offset % target.word ≡ next_offset = mod-eq_of_lt (omega arith) in
        let there : (next_offset + size_of_type_storage target t) % target.word
            ≡ next_offset + size_of_type_storage target t =
          mod-eq_of_lt (omega arith) in
        let most : ℕ = if ltb st.alignment a then a else st.alignment in
        let above : (st.alignment ≤ most) × (a ≤ most) = ground arith in
        let fits : Fits 0 (append_field st.fields t next_offset)
            (next_offset + size_of_type_storage target t) most =
          Fits-append 0 st.fields st.storage_size st.alignment t next_offset most laid.fits
            (omega arith) (padding_lem a st.storage_size some_alignment) above.0 above.1 in
        (
          record {
            fits = rw (here, there) fits;
            some_alignment = omega (arith, above.0, laid.some_alignment);
          },
          rw (here, there) (omega (arith, pad)),
        )

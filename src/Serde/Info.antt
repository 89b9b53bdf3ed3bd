-- ===== src/Serde/Info.antt =====
-- lib/sd/native/class_info.hxx: ClassInfo, as the walkers and the reviver ask it.
use dshuffle.Prelude.{ℕ, ◌+◌, ◌-◌, ◌*◌, ◌%◌, ◌^◌, Bool, not, ◌==◌, leb, none, some, get_elem?}
use dshuffle.Prelude.Outcome.{Outcome, ok, undefined, ◌>>=◌}
use dshuffle.Serde.Types.{type_size}
use dshuffle.Serde.Classes.{FieldInfo, ClassInfo}

unfoldable pub is_enum : ClassInfo → Bool
is_enum info = not (info.enum_ref_arr_off == 0)

unfoldable pub is_array : ClassInfo → Bool
is_array info = leb 1 info.dim

unfoldable pub is_object : ClassInfo → Bool
is_object info = info.dim == 0

unfoldable pub get_field : ClassInfo → ℕ → Outcome FieldInfo
get_field info idx = elim (get_elem? info.fields idx) [ none ↦ undefined | some f ↦ ok f ]

unfoldable pub object_body_size : ClassInfo → ℕ
object_body_size info = (info.obj_size + 2 ^ 32 - info.header_size) % 2 ^ 32

unfoldable pub array_body_size : ClassInfo → ℕ → Outcome ℕ
unfolding get_field
array_body_size info n = do f ← get_field info 0; s ← type_size f.type; ok (n * s % 2 ^ 32)

-- The handle of a constant; the object is what the handle points to.
unfoldable pub get_enum : ClassInfo → ℕ → Outcome ℕ
get_enum info ordinal = elim (get_elem? info.enum_refs ordinal) [ none ↦ undefined | some h ↦ ok h ]

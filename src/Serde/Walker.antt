-- ===== src/Serde/Walker.antt =====
-- lib/sd/native/object_walker.cxx: ObjectWalker writes an object of the JVM and all that it refers to.
-- The conversion of simdutf is a parameter.
use dshuffle.Prelude.{
  ℕ, zero, suc, ◌+◌, ◌*◌, ◌%◌, ◌^◌, Bool, not, ◌&&◌, ◌==◌, if◌then◌else◌, List, [], ◌∷◌, none, some,
  length,
}
use dshuffle.Prelude.Outcome.{
  Outcome, ok, undefined, out_of_fuel, assert_failed, ◌>>=◌, ◌>>◌, check,
}
use dshuffle.Prelude.Bytes.{read_at}
use dshuffle.Prelude.Words.{bytes_of}
use dshuffle.Serde.Types.{
  t_char, is_primitive_type, is_reference_type, null_flag, enum_flag, object_flag, array_flag,
}
use dshuffle.Serde.Classes.{
  FieldInfo, ClassInfo, ClassResolver, unregistered_class_id, get_class_info,
}
use dshuffle.Serde.Info.{is_enum, is_array, is_object, get_field, object_body_size, array_body_size}
use dshuffle.Serde.FakeObject.{
  Jvm, parse_heap_cptr, raw, klass_pointer, enum_ordinal, array_length, array_elem_ref,
}
use dshuffle.Serde.RwBuffer.{RwBuffer, put_at, put, put_value, get_at, skip, fill_next_align_8}

-- the JVM, the registered classes and the options
pub record Context : Type 0 where
  pub jvm : Jvm
  pub resolver : ClassResolver
  pub enable_utf16_to_utf8 : Bool
  pub convert_utf16le_to_utf8 : List ℕ → List ℕ

-- `walk` on an object and the id that is expected: the offset of what it wrote, and the buffer
abbrev pub Walk : Type 0
Walk = RwBuffer → ℕ → ℕ → Outcome (ℕ × RwBuffer)

-- The reference in the buffer gives way to the offset of the member.
unfoldable pub walk_member : Walk → Context → ℕ → FieldInfo → RwBuffer → Outcome RwBuffer
walk_member walk c obj_base f b = do
  check (is_reference_type f.type)
  cptr ← get_at 4 b (obj_base + f.offset)
  member ← parse_heap_cptr c.jvm cptr
  r ← walk b member f.id
  put_at r.1 (bytes_of 4 r.0) (obj_base + f.offset)

unfoldable pub walk_field : Walk → Context → ℕ → FieldInfo → RwBuffer → Outcome RwBuffer
unfolding walk_member
walk_field walk c obj_base f b =
    if is_primitive_type f.type then ok b else walk_member walk c obj_base f b

unfoldable pub walk_fields : Walk → Context → ℕ → List FieldInfo → RwBuffer → Outcome RwBuffer
unfolding walk_field
walk_fields walk c obj_base [] b = ok b
walk_fields walk c obj_base (f ∷ fs) b =
    walk_field walk c obj_base f b >>= walk_fields walk c obj_base fs

unfoldable pub do_walk_object : Walk → Context → ℕ → ClassInfo → RwBuffer → Outcome RwBuffer
unfolding walk_fields
do_walk_object walk c obj info b = do
  check (b.off % 8 == 0)
  b₁ ← put_value 2 b info.id
  b₂ ← put_value 2 b₁ object_flag
  b₃ ← fill_next_align_8 b₂
  let body = read_at c.jvm.mem (raw obj info.header_size) (object_body_size info)
  b₄ ← put b₃ body
  walk_fields walk c b₃.off info.fields b₄

-- `n` elements from the element `i` on
unfoldable pub walk_elems : Walk → Context → ℕ → ℕ → ℕ → ℕ → ℕ → RwBuffer → Outcome RwBuffer
walk_elems walk c obj header id zero i b = ok b
walk_elems walk c obj header id (suc n) i b = do
  e ← array_elem_ref c.jvm obj header i
  r ← walk b e id
  walk_elems walk c obj header id n (suc i) r.1

unfoldable pub cvt_utf16_to_utf8 : Context → ℕ → ClassInfo → ℕ → RwBuffer → Outcome RwBuffer
cvt_utf16_to_utf8 c obj info n b = do
  origin ← array_body_size info n
  b₁ ← put_value 4 b origin
  let utf8 = c.convert_utf16le_to_utf8 (read_at c.jvm.mem (raw obj info.header_size) (2 * n))
  b₂ ← put_at b₁ utf8 (b₁.off + 4)
  b₃ ← put_value 4 b₂ (length utf8 % 2 ^ 32)
  ok (skip b₃ (length utf8 % 2 ^ 32))

unfoldable pub walk_scalars : Context → ℕ → ClassInfo → FieldInfo → ℕ → RwBuffer → Outcome RwBuffer
unfolding cvt_utf16_to_utf8
walk_scalars c obj info elem n b = do
  check (info.dim == 1)
  if (elem.type == t_char) && c.enable_utf16_to_utf8
      then cvt_utf16_to_utf8 c obj info n b
      else array_body_size info n >>= λ size.
          put b (read_at c.jvm.mem (raw obj info.header_size) size)

unfoldable pub do_walk_array : Walk → Context → ℕ → ClassInfo → RwBuffer → Outcome RwBuffer
unfolding walk_elems walk_scalars
do_walk_array walk c obj info b = do
  let n = array_length c.jvm obj info.header_size
  check (b.off % 8 == 0)
  b₁ ← put_value 2 b info.id
  b₂ ← put_value 2 b₁ array_flag
  b₃ ← put_value 4 b₂ n
  b₄ ← fill_next_align_8 b₃
  elem ← get_field info 0
  if is_reference_type elem.type
      then walk_elems walk c obj info.header_size elem.id n 0 b₄
      else if is_primitive_type elem.type
      then walk_scalars c obj info elem n b₄
      else undefined

unfoldable pub walk_null : ℕ → RwBuffer → Outcome RwBuffer
walk_null expected_id b = do
  check (not (expected_id == unregistered_class_id))
  b₁ ← put_value 2 b expected_id
  put_value 2 b₁ null_flag

unfoldable pub walk_enum : Context → ℕ → ClassInfo → RwBuffer → Outcome RwBuffer
walk_enum c obj info b = do
  b₁ ← put_value 2 b info.id
  b₂ ← put_value 2 b₁ (enum_flag + object_flag)
  b₃ ← put_value 4 b₂ (enum_ordinal c.jvm obj)
  check (b₃.off % 8 == 0)
  ok b₃

-- An object by its class
unfoldable pub walk_class : Walk → Context → ℕ → ClassInfo → RwBuffer → Outcome RwBuffer
unfolding walk_enum do_walk_object do_walk_array
walk_class walk c obj info b =
    if is_enum info
    then walk_enum c obj info b
    else if is_object info
    then do_walk_object walk c obj info b
    else if is_array info
    then do_walk_array walk c obj info b
    else undefined

-- The class of an object; an `assert` fails on the dummy.
unfoldable pub class_of : Context → ℕ → Outcome ClassInfo
class_of c obj = do
  klass ← klass_pointer c.jvm obj
  elim (get_class_info c.resolver.info_by_klass klass) [
    | none ↦ assert_failed
    | some info ↦ ok info
  ]

-- Each level of references takes one of the fuel.
unfoldable pub walk : ℕ → Context → Walk
unfolding walk_null class_of walk_class
walk zero c b obj expected_id = out_of_fuel
walk (suc fuel) c b obj expected_id = do
  b₁ ← fill_next_align_8 b
  let base = b₁.off % 2 ^ 32
  b₂ ←
      if obj == 0
      then walk_null expected_id b₁
      else class_of c obj >>= λ info. walk_class (walk fuel c) c obj info b₁
  ok (base, b₂)

abbrev pub object_data_offset : ℕ
object_data_offset = 8

-- The static `walk`: the buffer with the total length in its header, and that length.
unfoldable pub walk_root : ℕ → Context → ℕ → RwBuffer → Outcome (ℕ × RwBuffer)
unfolding walk
walk_root fuel c obj out = do
  r ← walk fuel c (skip (record out { off = 0 }) object_data_offset) obj unregistered_class_id
  b ← put_at r.1 (bytes_of 8 r.1.off) 0
  ok (r.1.off, b)

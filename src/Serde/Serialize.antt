-- ===== src/Serde/Serialize.antt =====
-- lib/sd/kernel/sd.c: the serializer that runs on the accelerator. Its map of visited objects is
-- commented out, as the host's is. `UNREACHABLE_CRIT` logs and goes on.
use dshuffle.Prelude.{
  ℕ, zero, suc, ◌+◌, ◌-◌, ◌*◌, ◌%◌, ◌^◌, ◌==◌, if◌then◌else◌, List, [], ◌∷◌, Option, none, some,
}
use dshuffle.Prelude.Outcome.{Outcome, ok, undefined, out_of_fuel, ◌>>=◌}
use dshuffle.Prelude.Words.{word, bytes_of}
use dshuffle.Prelude.Bytes.{write_at}
use dshuffle.Kernel.Copy.{d_memcpy}
use dshuffle.Serde.Types.{
  is_primitive_type, is_reference_type, type_size, null_flag, enum_flag, object_flag, array_flag,
}
use dshuffle.Serde.Classes.{FieldInfo, ClassInfo, unregistered_class_id, get_class_info_by_klass}
use dshuffle.Serde.Info.{is_enum, is_array, is_object, get_field}
use dshuffle.Serde.FakeObject.{Jvm, parse_heap_cptr, parse_metaspace_cptr}
use dshuffle.Serde.DeviceBuffer.{
  Buffer, h2d, cur_off, put_word, put_word_at, get_word_at, put, fill_next_align_8,
}

-- `jvm_args` and `meta_idx`, the global variables
pub record Globals : Type 0 where
  pub jvm_args : Jvm
  pub class_infos_by_klass : List ClassInfo

unfoldable pub parse_u32_at : Buffer → ℕ → ℕ → ℕ
parse_u32_at b p off = word b.mem 4 (p + off % 2 ^ 32)

unfoldable pub get_klass_pointer : Globals → Buffer → ℕ → Outcome ℕ
unfolding parse_u32_at
get_klass_pointer g b d_object = parse_metaspace_cptr g.jvm_args (parse_u32_at b d_object 8)

unfoldable pub get_enum_ordinal : Buffer → ℕ → ℕ
unfolding parse_u32_at
get_enum_ordinal b d_object = parse_u32_at b d_object (8 + 4)

unfoldable pub get_array_length : Buffer → ℕ → ℕ → ℕ
unfolding parse_u32_at
get_array_length b d_array header_size = parse_u32_at b d_array (header_size + 2 ^ 32 - 4)

unfoldable pub get_array_elem_cptr : Buffer → ℕ → ℕ → ℕ → ℕ
unfolding parse_u32_at
get_array_elem_cptr b d_array header_size i = parse_u32_at b d_array (header_size + i * 4)

-- `_do_serialize_recur` on an object of the host and the id that is expected
abbrev pub Recur : Type 0
Recur = Buffer → ℕ → ℕ → Outcome (ℕ × Buffer)

unfoldable pub serialize_member : Recur → Globals → ℕ → FieldInfo → Buffer → Outcome Buffer
serialize_member recur g obj_base f b = do
  let f_offset = (obj_base + f.offset) % 2 ^ 32
  h_member ← parse_heap_cptr g.jvm_args (get_word_at 4 b f_offset)
  r ← recur b h_member f.id
  ok (put_word_at 4 r.1 r.0 f_offset)

unfoldable pub serialize_field : Recur → Globals → ℕ → FieldInfo → Buffer → Outcome Buffer
unfolding serialize_member
serialize_field recur g obj_base f b =
    if is_primitive_type f.type then ok b else serialize_member recur g obj_base f b

unfoldable pub serialize_fields : Recur → Globals → ℕ → List FieldInfo → Buffer → Outcome Buffer
unfolding serialize_field
serialize_fields recur g obj_base [] b = ok b
serialize_fields recur g obj_base (f ∷ fs) b =
    serialize_field recur g obj_base f b >>= serialize_fields recur g obj_base fs

unfoldable pub serialize_object : Recur → Globals → ℕ → ClassInfo → Buffer → Outcome Buffer
unfolding serialize_fields
serialize_object recur g h_object info b = do
  let b₁ = fill_next_align_8 (put_word 2 (put_word 2 b info.id) object_flag)
  b₂ ←
      put b₁ (h2d (h_object + info.header_size))
        ((info.obj_size + 2 ^ 32 - info.header_size) % 2 ^ 32)
  serialize_fields recur g (cur_off b₁) info.fields b₂

-- `n` elements from the element `i` on
unfoldable pub serialize_elems : Recur → Globals → ℕ → ℕ → ℕ → ℕ → ℕ → Buffer → Outcome Buffer
serialize_elems recur g d_array header id zero i b = ok b
serialize_elems recur g d_array header id (suc n) i b = do
  h_elem ← parse_heap_cptr g.jvm_args (get_array_elem_cptr b d_array header i)
  r ← recur b h_elem id
  serialize_elems recur g d_array header id n (suc i) r.1

unfoldable pub serialize_scalars : ℕ → ClassInfo → FieldInfo → ℕ → Buffer → Outcome Buffer
serialize_scalars d_array info elem n b = do
  s ← type_size elem.type
  put b (d_array + info.header_size) (n * s % 2 ^ 32)

unfoldable pub serialize_array : Recur → Globals → ℕ → ClassInfo → Buffer → Outcome Buffer
unfolding serialize_elems serialize_scalars
serialize_array recur g h_array info b = do
  let d_array = h2d h_array
  let n = get_array_length b d_array info.header_size
  let b₁ = fill_next_align_8 (put_word 4 (put_word 2 (put_word 2 b info.id) array_flag) n)
  elem ← get_field info 0
  if is_reference_type elem.type
      then serialize_elems recur g d_array info.header_size elem.id n 0 b₁
      else if is_primitive_type elem.type
      then serialize_scalars d_array info elem n b₁
      else ok b₁

unfoldable pub serialize_enum : ℕ → ClassInfo → Buffer → Buffer
serialize_enum h_object info b =
    let b₂ = put_word 2 (put_word 2 b info.id) (enum_flag + object_flag) in
    put_word 4 b₂ (get_enum_ordinal b₂ (h2d h_object))

unfoldable pub serialize_class : Recur → Globals → ℕ → ClassInfo → Buffer → Outcome Buffer
unfolding serialize_object serialize_array serialize_enum
serialize_class recur g h_object info b =
    if is_enum info
    then ok (serialize_enum h_object info b)
    else if is_object info
    then serialize_object recur g h_object info b
    else if is_array info
    then serialize_array recur g h_object info b
    else ok b

-- What is read of the class through the pointer that the search returns
unfoldable pub the_class : Option ClassInfo → Outcome ClassInfo
the_class none = undefined
the_class (some info) = ok info

-- Each level of references takes one of the fuel.
unfoldable pub serialize_recur : ℕ → Globals → Recur
unfolding serialize_class the_class
serialize_recur zero g b h_object expected_id = out_of_fuel
serialize_recur (suc fuel) g b h_object expected_id = do
  let b₁ = fill_next_align_8 b
  b₂ ←
      if h_object == 0
      then ok (put_word 2 (put_word 2 b₁ expected_id) null_flag)
      else get_klass_pointer g b₁ (h2d h_object) >>= λ klass.
          get_class_info_by_klass g.class_infos_by_klass klass >>= λ found.
          the_class found >>= λ info. serialize_class (serialize_recur fuel g) g h_object info b₁
  ok (cur_off b₁, b₂)

-- `_do_serialize`: the header gets the total length.
unfoldable pub serialize_root : ℕ → Globals → Buffer → ℕ → Outcome (ℕ × Buffer)
unfolding serialize_recur
serialize_root fuel g b h_object = do
  r ← serialize_recur fuel g b h_object unregistered_class_id
  let total = r.1.cur_p - r.1.p
  ok (total, record r.1 { mem = write_at r.1.mem r.1.p (bytes_of 8 total) })

-- The buffer is set to the device's output area behind its header, and what was written is copied to the
-- host's. The length, and the memory.
unfoldable pub do_serialize : ℕ → Globals → (ℕ → ℕ) → ℕ → ℕ → ℕ → ℕ → Outcome (ℕ × (ℕ → ℕ))
unfolding serialize_root
do_serialize fuel g mem d_output d_output_len h_output h_object = do
  let outbuf : Buffer = record { mem = mem; p = d_output; cur_p = d_output + 8; lim = d_output_len }
  r ← serialize_root fuel g outbuf h_object
  done ← d_memcpy r.1.mem h_output r.1.p r.0
  ok (r.0, done.0)

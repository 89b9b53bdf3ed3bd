-- ===== src/Serde/StreamTests.antt =====
-- Runs of the walker and the reviver on a small heap, and the theorems about them at that heap.
use dshuffle.Prelude.{ℕ, ◌+◌, ◌≡◌, refl, false, List, [], ◌∷◌, ◌++◌, arith}
use dshuffle.Prelude.Outcome.{Outcome, ok, undefined, ◌>>=◌}
use dshuffle.Prelude.Bytes.{write_at, read_at}
use dshuffle.Prelude.Words.{bytes_of, word}
use dshuffle.Memory.Align.{upper_align}
use dshuffle.Serde.Pointer.{parse_cptr}
use dshuffle.Serde.Info.{is_enum, is_object, is_array, get_field, object_body_size, array_body_size}
use dshuffle.Serde.Types.{
  type_size, is_primitive_type, is_reference_type, is_null_f, is_redirect_f, is_object_f,
  is_array_f, t_int, t_object, t_array, t_byte,
}
use dshuffle.Serde.Classes.{
  FieldInfo, ClassInfo, ClassResolver, get_class_info, get_class_info_by_id, id2index,
  unregistered_class_id,
}
use dshuffle.Serde.FakeObject.{
  klass_pointer, parse_heap_cptr, parse_at, raw, array_length, enum_ordinal, parse_metaspace_cptr,
}
use dshuffle.Serde.RwBuffer.{
  RwBuffer, fill_next_align_8, skip, put_value, put, put_at, get_at, get, skip_next_align_8,
  bytes_at,
}
use dshuffle.Serde.Walker.{Context, walk_root}
use dshuffle.Serde.Reviver.{
  Call, Env, revive, alloc_object, new_type_array, set_field, set_object_field,
  set_byte_array_region, delete_local_ref,
}
use dshuffle.Serde.Value.{
  Value, null, constant, instance_of, scalars, end, scalar, member, end_of, depth,
}
use dshuffle.Serde.Wire.{width, Stands, Wire, IsSound, HasClass}
use dshuffle.Serde.Rebuild.{rebuild, root_of, IsWorking}
use dshuffle.Serde.RoundTrip.{walk_root-Wire, walk_root-revive}

-- A class with a number and two references, byte arrays, and an enum.
abbrev count_field : FieldInfo
count_field = record { id = unregistered_class_id; offset = 0; type = t_int; j_field_id = 1 }

abbrev bytes_field : FieldInfo
bytes_field = record { id = 21; offset = 4; type = t_array; j_field_id = 2 }

abbrev next_field : FieldInfo
next_field = record { id = 20; offset = 8; type = t_object; j_field_id = 3 }

abbrev byte_elem : FieldInfo
byte_elem = record { id = unregistered_class_id; offset = 0; type = t_byte; j_field_id = 0 }

abbrev pub node : ClassInfo
node = record {
  klass = 500;
  id = 20;
  enum_ref_arr_off = 0;
  obj_size = 24;
  header_size = 12;
  dim = 0;
  fields = count_field ∷ bytes_field ∷ next_field ∷ [];
  enum_refs = [];
}

abbrev pub byte_array : ClassInfo
byte_array = record {
  klass = 600;
  id = 21;
  enum_ref_arr_off = 0;
  obj_size = 16;
  header_size = 16;
  dim = 1;
  fields = byte_elem ∷ [];
  enum_refs = [];
}

abbrev pub color : ClassInfo
color = record {
  klass = 700;
  id = 22;
  enum_ref_arr_off = 40;
  obj_size = 16;
  header_size = 12;
  dim = 0;
  fields = [];
  enum_refs = 901 ∷ 902 ∷ [];
}

abbrev pub resolver : ClassResolver
resolver = record {
  info_by_id = node ∷ byte_array ∷ color ∷ [];
  info_by_klass = node ∷ byte_array ∷ color ∷ [];
}

-- The node at 64 refers to the array at 96; a constant is at 128.
abbrev pub heap : ℕ → ℕ
heap =
    write_at
      (write_at (write_at (λ a. 0) 72 (bytes_of 4 500 ++ 7 ∷ 0 ∷ 0 ∷ 0 ∷ 12 ∷ 0 ∷ 0 ∷ 0 ∷ [])) 104
        (bytes_of 4 600 ++ 3 ∷ 0 ∷ 0 ∷ 0 ∷ 11 ∷ 22 ∷ 33 ∷ []))
      136 (bytes_of 4 700 ++ 1 ∷ [])

abbrev pub context : Context
context = record {
  jvm = record {
    mem = heap;
    h_heap_base = 0;
    heap_compress_ptr_mode = 2;
    heap_compress_ptr_shift = 3;
    h_compressed_class_space_base = 0;
    metaspace_compress_ptr_mode = 1;
    metaspace_compress_ptr_shift = 0;
  };
  resolver = resolver;
  enable_utf16_to_utf8 = false;
  convert_utf16le_to_utf8 = λ xs. xs;
}

abbrev pub out : RwBuffer
out = record { bytes = λ a. 99; size = 128; off = 0 }

abbrev pub tree : Value
tree =
    instance_of node
      (scalar 7 (member (scalars byte_array 3 (11 ∷ 22 ∷ 33 ∷ [])) (member null end)))

abbrev pub env : Env
env = record {
  resolver = resolver;
  enable_utf16_to_utf8 = false;
  convert_utf8_to_utf16le = λ xs. xs;
  handle_of = λ n. 1000 + n;
  length_of_new = λ n. n;
  exception = λ n. false;
}

-- The header, then the node with the offsets 32 and 48 in its slots, the array, and null.
written :
    (walk_root 2 context 64 out >>= λ r. ok (read_at (r.1.bytes) 8 44))
    ≡ ok (
        20 ∷ 0 ∷ 16 ∷ 0 ∷ 0 ∷ 0 ∷ 0 ∷ 0 ∷ 7 ∷ 0 ∷ 0 ∷ 0 ∷ 32 ∷ 0 ∷ 0 ∷ 0 ∷ 48 ∷ 0 ∷ 0 ∷ 0 ∷ 0 ∷ 0
        ∷ 0 ∷ 0 ∷ 21 ∷ 0 ∷ 32 ∷ 0 ∷ 3 ∷ 0 ∷ 0 ∷ 0 ∷ 11 ∷ 22 ∷ 33 ∷ 0 ∷ 0 ∷ 0 ∷ 0 ∷ 0 ∷ 20 ∷ 0 ∷ 1
        ∷ 0 ∷ [])
unfolding walk_root fill_next_align_8 upper_align skip put_value put put_at get_at klass_pointer
    parse_heap_cptr parse_at raw array_length enum_ordinal parse_cptr parse_metaspace_cptr
    get_class_info word is_enum is_object is_array get_field object_body_size array_body_size
    type_size is_primitive_type is_reference_type
written = refl

-- The reviver on the walker's output.
revived_calls :
    (elim (walk_root 2 context 64 out) as (λ r. Outcome (List Call)) [
      | ok r ↦ elim (revive 2 env 500 (r.1)) as (λ s. Outcome (List Call)) [
        | ok s ↦ ok (s.1.calls)
        | _ ↦ undefined
      ]
      | _ ↦ undefined
    ])
    ≡ ok (
        alloc_object node
        ∷ set_field 1000 count_field 7
        ∷ new_type_array t_byte 3
        ∷ set_byte_array_region 1001 (11 ∷ 22 ∷ 33 ∷ [])
        ∷ set_object_field 1000 bytes_field 1001
        ∷ delete_local_ref 1001
        ∷ set_object_field 1000 next_field 0
        ∷ delete_local_ref 0
        ∷ [])
unfolding walk_root fill_next_align_8 upper_align skip put_value put put_at get_at klass_pointer
    parse_heap_cptr parse_at raw array_length enum_ordinal parse_cptr parse_metaspace_cptr
    get_class_info word is_enum is_object is_array get_field object_body_size array_body_size
    type_size is_primitive_type is_reference_type revive get skip_next_align_8 bytes_at
    get_class_info_by_id id2index is_null_f is_redirect_f is_object_f is_array_f
revived_calls = refl

node-IsSound : IsSound resolver node
unfolding get_class_info get_class_info_by_id id2index
node-IsSound = record {
  by_klass = refl;
  by_id = refl;
  small_id = omega arith;
  header = omega arith;
  small = omega arith;
}

byte_array-IsSound : IsSound resolver byte_array
unfolding get_class_info get_class_info_by_id id2index
byte_array-IsSound = record {
  by_klass = refl;
  by_id = refl;
  small_id = omega arith;
  header = omega arith;
  small = omega arith;
}

color-IsSound : IsSound resolver color
unfolding get_class_info get_class_info_by_id id2index
color-IsSound = record {
  by_klass = refl;
  by_id = refl;
  small_id = omega arith;
  header = omega arith;
  small = omega arith;
}

node_at_64 : HasClass context node 64
unfolding klass_pointer parse_at raw parse_metaspace_cptr parse_cptr word
node_at_64 = record { there = omega arith; klass = refl; sound = node-IsSound }

array_at_96 : HasClass context byte_array 96
unfolding klass_pointer parse_at raw parse_metaspace_cptr parse_cptr word
array_at_96 = record { there = omega arith; klass = refl; sound = byte_array-IsSound }

color_at_128 : HasClass context color 128
unfolding klass_pointer parse_at raw parse_metaspace_cptr parse_cptr word
color_at_128 = record { there = omega arith; klass = refl; sound = color-IsSound }

array-Stands : Stands context (scalars byte_array 3 (11 ∷ 22 ∷ 33 ∷ [])) 96
unfolding is_enum array_length parse_at raw word is_primitive_type width type_size
array-Stands = (
  byte_elem,
  (array_at_96, refl, omega arith, refl, refl, omega arith),
  refl,
  refl,
  refl,
  omega arith,
  refl,
)

pub tree-Stands : Stands context tree 64
unfolding is_enum raw word is_primitive_type is_reference_type width type_size parse_heap_cptr
    parse_cptr
tree-Stands = (
  node_at_64,
  refl,
  refl,
  (
    omega arith,
    λ h. absurd (cc),
    (omega arith, λ h. omega arith, (omega arith, λ h. omega arith, omega arith)),
  ),
  (refl, refl, (refl, refl, (96, refl, array-Stands), (refl, refl, (0, refl, refl), tt))),
)

color-Stands : Stands context (constant color 1) 128
unfolding is_enum enum_ordinal parse_at raw word
color-Stands = (color_at_128, refl, refl, omega arith)

pub env-IsWorking : IsWorking env
env-IsWorking = record { allocates = λ n. ground arith; quiet = λ n. refl; long = λ n. refl }

walk_root-Wire_example :
    (b : RwBuffer) × (walk_root 2 context 64 out ≡ ok (52, b))
    × (b.size ≡ 128)
    × (word b.bytes 8 0 ≡ 52)
    × Wire resolver b.bytes unregistered_class_id tree 8
unfolding end_of depth
walk_root-Wire_example =
    walk_root-Wire context tree 2 64 out tree-Stands (omega arith) (omega arith) (omega arith)
      (omega arith)

walk_root-revive_example :
    (b : RwBuffer) × (walk_root 2 context 64 out ≡ ok (52, b))
    × (revive 2 env 500 b
        ≡ ok (
          1000,
          record {
            b = record b { off = 52 };
            calls = (rebuild env tree 0).1;
            allocated = 2;
            root = 1000;
          },
        ))
unfolding end_of depth root_of rebuild get_class_info
walk_root-revive_example =
    walk_root-revive context env tree node 2 64 500 out refl env-IsWorking refl tree-Stands
      (refl, (tt, tt)) (omega arith) (omega arith) (omega arith) (omega arith)

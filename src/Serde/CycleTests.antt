-- ===== src/Serde/CycleTests.antt =====
-- An object whose one field refers to the object, and what the walker does on it.
use dshuffle.Prelude.{◌≢◌, refl, false, [], ◌∷◌, ◌++◌, arith}
use dshuffle.Prelude.Outcome.{ok}
use dshuffle.Prelude.Bytes.{write_at}
use dshuffle.Prelude.Words.{bytes_of, word}
use dshuffle.Serde.Pointer.{parse_cptr}
use dshuffle.Serde.Types.{is_primitive_type, t_object}
use dshuffle.Serde.Classes.{FieldInfo, ClassInfo, get_class_info}
use dshuffle.Serde.Info.{is_enum, object_body_size}
use dshuffle.Serde.FakeObject.{klass_pointer, parse_heap_cptr, parse_at, raw, parse_metaspace_cptr}
use dshuffle.Serde.Walker.{Context, class_of, walk_root}
use dshuffle.Serde.StreamTests.{out}
use dshuffle.Serde.Cycle.{IsCyclic, walk_root-never}

abbrev self_field : FieldInfo
self_field = record { id = 30; offset = 0; type = t_object; j_field_id = 1 }

abbrev cell : ClassInfo
cell = record {
  klass = 800;
  id = 30;
  enum_ref_arr_off = 0;
  obj_size = 16;
  header_size = 12;
  dim = 0;
  fields = self_field ∷ [];
  enum_refs = [];
}

-- The cell at 64: 8 is its compressed address.
abbrev loop : Context
loop = record {
  jvm = record {
    mem = write_at (λ a. 0) 72 (bytes_of 4 800 ++ bytes_of 4 8);
    h_heap_base = 0;
    heap_compress_ptr_mode = 2;
    heap_compress_ptr_shift = 3;
    h_compressed_class_space_base = 0;
    metaspace_compress_ptr_mode = 1;
    metaspace_compress_ptr_shift = 0;
  };
  resolver = record { info_by_id = cell ∷ []; info_by_klass = cell ∷ [] };
  enable_utf16_to_utf8 = false;
  convert_utf16le_to_utf8 = λ xs. xs;
}

cell-IsCyclic : IsCyclic loop cell self_field [] 64
unfolding class_of klass_pointer parse_at raw word parse_heap_cptr parse_metaspace_cptr parse_cptr
    get_class_info is_enum object_body_size is_primitive_type
cell-IsCyclic = record {
  there = omega arith;
  class = refl;
  instance_class = refl;
  dim = refl;
  fields = refl;
  reference = refl;
  inside = omega arith;
  itself = refl;
}

walk_root-never_example : walk_root 9 loop 64 out ≢ ok (152, out)
walk_root-never_example = walk_root-never loop cell self_field [] 64 cell-IsCyclic 9 out (152, out)

-- ===== src/Serde/KernelTests.antt =====
-- Runs of the kernel's serializer on the heap of `Serde.StreamTests`, and the theorems about it there.
use dshuffle.Prelude.{
  ℕ, ◌+◌, ◌-◌, ◌*◌, ◌%◌, ◌^◌, ◌≤◌, ◌<◌, ◌≡◌, refl, ap, ◌∙◌, true, false, inr, leb, if◌then◌else◌,
  [], ◌∷◌, some, arith,
}
use dshuffle.Prelude.Outcome.{ok, ◌>>=◌}
use dshuffle.Prelude.Bytes.{read_at}
use dshuffle.Prelude.Words.{word}
use dshuffle.Memory.Align.{align_up_8}
use dshuffle.Kernel.Copy.{d_memcpy, d_memcpy_u64, d_memcpy_u32, fall_through, rounds}
use dshuffle.Kernel.Copy as Copy
use dshuffle.Serde.Pointer.{parse_cptr}
use dshuffle.Serde.Info.{is_enum, is_object, is_array, get_field}
use dshuffle.Serde.Types.{type_size, is_primitive_type, is_reference_type}
use dshuffle.Serde.Classes.{ClassInfo, get_class_info, get_class_info_by_klass}
use dshuffle.Serde.FakeObject.{parse_heap_cptr, parse_metaspace_cptr}
use dshuffle.Serde.RwBuffer.{RwBuffer}
use dshuffle.Serde.Value.{end_of, depth}
use dshuffle.Serde.Reviver.{revive}
use dshuffle.Serde.Rebuild.{rebuild, root_of}
use dshuffle.Serde.DeviceBuffer.{
  h2d, cur_off, put_word, put_word_at, get_word_at, put, fill_next_align_8,
}
use dshuffle.Serde.Serialize.{
  parse_u32_at, get_klass_pointer, get_enum_ordinal, get_array_length, get_array_elem_cptr,
  do_serialize,
}
use dshuffle.Serde.MirrorWalk.{IsShared, globals}
use dshuffle.Serde.ClassLaws.{get_class_info-All}
use dshuffle.Serde.MirrorObject.{IsHeader}
use dshuffle.Serde.RoundTrip.{walk_root-Wire}
use dshuffle.Serde.MirrorRun.{do_serialize-walk_root}
use dshuffle.Serde.KernelToHost.{do_serialize-revive}
use dshuffle.Serde.StreamTests.{
  context, heap, resolver, node, tree, env, tree-Stands, out, env-IsWorking,
}

-- The kernel's memory: the heap in the upper half, and everything else set to 99.
abbrev memory : ℕ → ℕ
memory a = if leb (2 ^ 63) a then heap (a - 2 ^ 63) else 99

-- The node is read through the window and written as the host writes it.
serialized :
    (do_serialize 2 (globals context) memory 1024 128 4096 64 >>= λ r.
    ok (r.0 ∷ read_at (r.1) 4096 52))
    ≡ ok (
        52 ∷ 52 ∷ 0 ∷ 0 ∷ 0 ∷ 0 ∷ 0 ∷ 0 ∷ 0 ∷ 20 ∷ 0 ∷ 16 ∷ 0 ∷ 0 ∷ 0 ∷ 0 ∷ 0 ∷ 7 ∷ 0 ∷ 0 ∷ 0 ∷ 32
        ∷ 0 ∷ 0 ∷ 0 ∷ 48 ∷ 0 ∷ 0 ∷ 0 ∷ 0 ∷ 0 ∷ 0 ∷ 0 ∷ 21 ∷ 0 ∷ 32 ∷ 0 ∷ 3 ∷ 0 ∷ 0 ∷ 0 ∷ 11 ∷ 22
        ∷ 33 ∷ 0 ∷ 0 ∷ 0 ∷ 0 ∷ 0 ∷ 20 ∷ 0 ∷ 1 ∷ 0 ∷ [])
unfolding do_serialize fill_next_align_8 align_up_8 put_word put_word_at get_word_at put d_memcpy
    h2d cur_off parse_u32_at get_klass_pointer get_enum_ordinal get_array_length get_array_elem_cptr
    get_class_info_by_klass parse_heap_cptr parse_metaspace_cptr parse_cptr word is_enum is_object
    is_array get_field type_size is_primitive_type is_reference_type d_memcpy_u32 d_memcpy_u64
    fall_through rounds Copy.word
serialized = refl

window : (a : ℕ) → a < 2 ^ 63 → memory (2 ^ 63 + a) ≡ heap a
window a h =
    let up : leb (2 ^ 63) (2 ^ 63 + a) ≡ true = ground arith in
    let back : 2 ^ 63 + a - 2 ^ 63 ≡ a = omega arith in
    ap (λ t. if t then heap (2 ^ 63 + a - 2 ^ 63) else 99) up ∙ ap heap back

low : (i : ℕ) → i < 128 → memory (1024 + i) ≡ 99
low i h =
    let below : leb (2 ^ 63) (1024 + i) ≡ false = ground arith in
    ap (λ t. if t then heap (1024 + i - 2 ^ 63) else 99) below

heap_aligned : (cptr q : ℕ) → parse_heap_cptr context.jvm cptr ≡ ok q → (q % 8 ≡ 0) × (q < 2 ^ 62)
unfolding parse_heap_cptr parse_cptr
heap_aligned cptr q e =
    let at : cptr % 2 ^ 32 * 2 ^ 3 % 2 ^ 64 ≡ q = ground (arith, e) in
    (omega (arith, at), omega (arith, at))

headers :
    (klass : ℕ) (info : ClassInfo)
    → get_class_info resolver.info_by_klass klass ≡ some info
    → (info.header_size % 4 ≡ 0) × (4 ≤ info.header_size) × (info.header_size < 2 ^ 8)
headers klass info e =
    get_class_info-All IsHeader resolver.info_by_klass klass info
      (
        (refl, omega arith, omega arith),
        ((refl, omega arith, omega arith), ((refl, omega arith, omega arith), tt)),
      )
      e

context-IsShared : IsShared context
context-IsShared = record {
  plain = refl;
  sorted = ((omega arith, (omega arith, tt)), ((omega arith, tt), (tt, tt)));
  heap = heap_aligned;
  headers = headers;
}

do_serialize-walk_root_example :
    (b : RwBuffer) × ((mem' : ℕ → ℕ) × (do_serialize 2 (globals context) memory 1024 128 4096 64
        ≡ ok (52, mem'))
      × ((i : ℕ) → i < 52 → mem' (4096 + i) ≡ b.bytes i))
unfolding end_of depth
do_serialize-walk_root_example =
    let w =
      walk_root-Wire context tree 2 64 out tree-Stands (omega arith) (omega arith) (omega arith)
        (omega arith) in
    (
      w.0,
      do_serialize-walk_root context context-IsShared 2 memory 1024 128 4096 64 52 out (w.0) window
          low refl (omega arith) refl (inr (omega arith)) (omega arith) (omega arith)
          (refl, omega arith) (w.1),
    )

do_serialize-revive_example :
    (mem' : ℕ → ℕ) × (do_serialize 2 (globals context) memory 1024 128 4096 64 ≡ ok (52, mem'))
    × (let input : RwBuffer = record { bytes = λ i. mem' (4096 + i); size = 52; off = 0 } in
        revive 2 env 500 input
        ≡ ok (
          1000,
          record {
            b = record input { off = 52 };
            calls = (rebuild env tree 0).1;
            allocated = 2;
            root = 1000;
          },
        ))
unfolding end_of depth root_of rebuild get_class_info
do_serialize-revive_example =
    do_serialize-revive context context-IsShared env tree node 2 memory 1024 128 4096 64 500 refl
      env-IsWorking refl tree-Stands (refl, (tt, tt)) (omega arith) (refl, omega arith)
      (omega arith) window refl (omega arith) refl (inr (omega arith)) (omega arith)

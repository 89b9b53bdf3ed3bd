-- ===== src/Serde/ParseNodes.antt =====
-- The steps of ObjectReviver on an object and on an array.
use dshuffle.Prelude.{
  ℕ, suc, ◌+◌, ◌*◌, ◌/◌, ◌%◌, ◌^◌, ◌≤◌, ◌<◌, ◌≡◌, refl, ap, ◌∙◌, true, false, not, ◌&&◌, ◌⊎◌, inl,
  inr, leb, ◌==◌, if◌then◌else◌, List, [], ◌∷◌, ◌++◌, some, length, take, arith,
}
use dshuffle.Prelude.Outcome.{ok}
use dshuffle.Prelude.Bytes.{read_at}
use dshuffle.Prelude.Words.{word}
use dshuffle.Serde.Types.{
  t_char, is_object_f, is_array_f, is_primitive_type, is_reference_type, object_flag, array_flag,
}
use dshuffle.Serde.Classes.{FieldInfo, ClassInfo, get_class_info_by_id}
use dshuffle.Serde.Info.{is_enum, is_object, is_array}
use dshuffle.Serde.RwBuffer.{RwBuffer, get, bytes_at, skip_next_align_8}
use dshuffle.Serde.Reviver.{
  Call, Env, Reviver, Parse, parse_class, do_parse_object, do_parse_array, parse_fields,
  parse_elems, parse_scalars, cvt_utf8_to_utf16, array_call, allocate_jni, no_exception,
  alloc_object, new_type_array, new_object_array, set_byte_array_region, write_chars,
}
use dshuffle.Serde.Value.{align, body_size}
use dshuffle.Serde.Wire.{width, IsSound}
use dshuffle.Serde.WalkLaws.{array_body_size_lem}
use dshuffle.Serde.WalkArrays.{get_field_lem}
use dshuffle.Serde.WalkObject.{object_body_size_lem}
use dshuffle.Serde.Rebuild.{IsWorking}
use dshuffle.Serde.ParseLaws.{moved, get_lem, skip_lem, skip_next_align_8_lem, read_at-take}

-- The reviver after an allocation, at an offset.
abbrev pub opened : Env → Reviver → Call → ℕ → Reviver
opened e r call off = record {
  b = record r.b { off = off };
  calls = r.calls ++ call ∷ [];
  allocated = suc r.allocated;
  root = if r.root == 0 then e.handle_of r.allocated else r.root;
}

allocate_jni_lem :
    (e : Env) (r : Reviver) (call : Call) (off : ℕ)
    → IsWorking e
    → allocate_jni e (moved r off) call ≡ ok (e.handle_of r.allocated, opened e r call off)
unfolding allocate_jni
allocate_jni_lem e r call off works = rw (works.allocates r.allocated)

no_exception_lem : (e : Env) (r : Reviver) (h : ℕ) → IsWorking e → no_exception e r h ≡ ok (h, r)
unfolding no_exception
no_exception_lem e r h works = rw (works.quiet (length r.calls))

pub parse_class-object :
    (inner : Parse) (e : Env) (info : ClassInfo) (r done : Reviver) (base : ℕ)
    → IsWorking e
    → IsSound e.resolver info
    → is_enum info ≡ false
    → info.dim ≡ 0
    → base % 8 ≡ 0
    → base + 8 + body_size info ≤ r.b.size
    → r.b.size < 2 ^ 32
    → parse_fields inner
        (e.handle_of r.allocated)
        (base + 8)
        info.fields
        (opened e r (alloc_object info) (base + 8 + body_size info))
      ≡ ok done
    → parse_class inner e info object_flag (moved r (base + 4)) ≡ ok (e.handle_of r.allocated, done)
unfolding parse_class do_parse_object is_object is_object_f
parse_class-object inner e info r done base works sound enum dim aligned fits small run =
    let object : (info.dim == 0) ≡ true = ground (arith, dim) in
    let up : align (base + 4) ≡ base + 8 = omega arith in
    let there : skip_next_align_8 (record r.b { off = base + 4 }) ≡ record r.b { off = base + 8 } =
      skip_next_align_8_lem (record r.b { off = base + 4 }) (omega arith)
      ∙ ap (λ k. record r.b { off = k }) up in
    let body = object_body_size_lem info (sound.header) (sound.small) in
    rw
      (
        enum,
        object,
        there,
        allocate_jni_lem e r (alloc_object info) (base + 8) works,
        body,
        skip_lem (record r.b { off = base + 8 }) (body_size info) (omega arith),
        run,
      )
      (no_exception_lem e done (e.handle_of r.allocated) works)

pub parse_class-array :
    (inner : Parse) (e : Env) (info : ClassInfo) (f : FieldInfo) (n : ℕ) (call : Call)
    (r done : Reviver) (base : ℕ)
    → IsWorking e
    → is_enum info ≡ false
    → 1 ≤ info.dim
    → info.fields ≡ f ∷ []
    → base % 8 ≡ 0
    → base + 8 ≤ r.b.size
    → r.b.size < 2 ^ 32
    → word r.b.bytes 4 (base + 4) ≡ n
    → array_call e f n ≡ ok call
    → ((is_primitive_type f.type ≡ true)
        × (parse_scalars e info f (e.handle_of r.allocated) n (opened e r call (base + 8))
            ≡ ok done))
      ⊎ ((is_primitive_type f.type ≡ false)
          × (is_reference_type f.type ≡ true)
          × (parse_elems inner (e.handle_of r.allocated) n 0 (opened e r call (base + 8))
              ≡ ok done))
    → parse_class inner e info array_flag (moved r (base + 4)) ≡ ok (e.handle_of r.allocated, done)
unfolding parse_class do_parse_array is_object is_array is_array_f
parse_class-array inner e info f n call r done base works enum dim fields aligned fits small size
      made branch =
    let not_object : (info.dim == 0) ≡ false = ground (arith, dim) in
    let array : leb 1 info.dim ≡ true = ground (arith, dim) in
    let eight : base + 4 + 4 ≡ base + 8 = omega arith in
    let up : align (base + 8) ≡ base + 8 = omega arith in
    let read : get 4 (record r.b { off = base + 4 }) ≡ ok (n, record r.b { off = base + 8 }) =
      get_lem 4 (record r.b { off = base + 4 }) n (omega arith) size
      ∙ ap (λ k. ok (n, record r.b { off = k })) eight in
    let there : skip_next_align_8 (record r.b { off = base + 8 }) ≡ record r.b { off = base + 8 } =
      skip_next_align_8_lem (record r.b { off = base + 8 }) (omega arith)
      ∙ ap (λ k. record r.b { off = k }) up in
    let elem = get_field_lem info f fields in
    let alloc = allocate_jni_lem e r call (base + 8) works in
    let fine = no_exception_lem e done (e.handle_of r.allocated) works in
    elim branch [
      | inl (prim, run) ↦
          rw (enum, not_object, array, read, elem, made, there, alloc, prim, run) fine
      | inr (prim, ref, run) ↦
          rw (enum, not_object, array, read, elem, made, there, alloc, prim, ref, run) fine
    ]

pub array_call-type :
    (e : Env) (f : FieldInfo) (n : ℕ)
    → is_primitive_type f.type ≡ true
    → array_call e f n ≡ ok (new_type_array f.type n)
unfolding array_call
array_call-type e f n prim = rw prim

pub array_call-object :
    (e : Env) (f : FieldInfo) (elem : ClassInfo) (n : ℕ)
    → is_primitive_type f.type ≡ false
    → get_class_info_by_id e.resolver f.id ≡ ok (some elem)
    → array_call e f n ≡ ok (new_object_array elem n)
unfolding array_call
array_call-object e f elem n prim found = rw (prim, found)

bytes_at_lem :
    (b : RwBuffer) (off n : ℕ) → off + n ≤ b.size → bytes_at b off n ≡ ok (read_at b.bytes off n)
unfolding bytes_at
bytes_at_lem b off n fits = let test : leb (off + n) b.size ≡ true = ground arith in rw test

-- The first bytes of the contents go into the array, and the buffer moves past all of them.
pub parse_scalars-plain :
    (e : Env) (info : ClassInfo) (f : FieldInfo) (h n : ℕ) (content : List ℕ) (r : Reviver)
    → IsWorking e
    → info.dim ≡ 1
    → info.fields ≡ f ∷ []
    → is_primitive_type f.type ≡ true
    → ((f.type == t_char) && e.enable_utf16_to_utf8) ≡ false
    → n * width f.type < 2 ^ 32
    → n ≤ n * width f.type
    → r.b.off + n * width f.type ≤ r.b.size
    → r.b.size < 2 ^ 32
    → read_at r.b.bytes r.b.off (n * width f.type) ≡ content
    → parse_scalars e info f h n r
      ≡ ok (record (moved r (r.b.off + n * width f.type)) {
        calls = r.calls ++ set_byte_array_region h (take n content) ∷ [];
      })
unfolding parse_scalars
parse_scalars-plain e info f h n content r works dim fields prim plain small most fits limit held =
    let total = n * width f.type in
    let one : (info.dim == 1) ≡ true = ground (arith, dim) in
    let long : not (n == e.length_of_new n) ≡ false = ground (arith, works.long n) in
    let first : read_at r.b.bytes r.b.off n ≡ take n content =
      read_at-take r.b.bytes r.b.off n total most ∙ ap (take n) held in
    rw (
      one,
      plain,
      long,
      bytes_at_lem r.b r.b.off n (omega arith),
      array_body_size_lem info f n fields prim small,
      skip_lem r.b total (omega arith),
      first,
    )

pub parse_scalars-chars :
    (e : Env) (info : ClassInfo) (f : FieldInfo) (h n : ℕ) (utf16 utf8 : List ℕ) (r : Reviver)
    → info.dim ≡ 1
    → f.type ≡ t_char
    → e.enable_utf16_to_utf8 ≡ true
    → e.convert_utf8_to_utf16le utf8 ≡ utf16
    → length utf16 ≡ 2 * n
    → r.b.off + 8 + length utf8 ≤ r.b.size
    → r.b.size < 2 ^ 32
    → word r.b.bytes 4 (r.b.off + 4) ≡ length utf8
    → read_at r.b.bytes (r.b.off + 8) (length utf8) ≡ utf8
    → parse_scalars e info f h n r
      ≡ ok (record (moved r (r.b.off + 8 + length utf8)) {
        calls = r.calls ++ write_chars h utf16 ∷ [];
      })
unfolding parse_scalars cvt_utf8_to_utf16
parse_scalars-chars e info f h n utf16 utf8 r dim type converts back units fits limit size held =
    let one : (info.dim == 1) ≡ true = ground (arith, dim) in
    let is_char : ((f.type == t_char) && e.enable_utf16_to_utf8) ≡ true =
      ground (arith, type, converts) in
    let eight : r.b.off + 4 + 4 ≡ r.b.off + 8 = omega arith in
    let second : get 4 (record r.b { off = r.b.off + 4 })
        ≡ ok (length utf8, record r.b { off = r.b.off + 8 }) =
      get_lem 4 (record r.b { off = r.b.off + 4 }) (length utf8) (omega arith) size
      ∙ ap (λ k. ok (length utf8, record r.b { off = k })) eight in
    let half : (length utf16 / 2 == n) ≡ true = ground (arith, units) in
    rw (
      one,
      is_char,
      get_lem 4 r.b (word r.b.bytes 4 r.b.off) (omega arith) refl,
      second,
      bytes_at_lem (record r.b { off = r.b.off + 8 }) (r.b.off + 8) (length utf8) fits,
      held,
      back,
      half,
      skip_lem (record r.b { off = r.b.off + 8 }) (length utf8) (omega arith),
    )

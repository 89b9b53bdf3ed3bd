-- ===== src/Serde/Reviver.antt =====
-- lib/sd/native/object_reviver.cxx: ObjectReviver builds objects from what a walker wrote, by calls of
-- JNI. The calls are recorded in order; the handles that the allocations return, the exceptions that are
-- found pending, and the conversion of simdutf are parameters.
use dshuffle.Prelude.{
  ℕ, zero, suc, ◌+◌, ◌/◌, Bool, true, false, not, ◌&&◌, ◌==◌, if◌then◌else◌, List, [], ◌∷◌, ◌++◌,
  Option, none, some, length,
}
use dshuffle.Prelude.Outcome.{
  Outcome, ok, died, undefined, out_of_fuel, assert_failed, ◌>>=◌, ◌>>◌, check, die_if,
}
use dshuffle.Serde.Types.{
  t_char, is_primitive_type, is_reference_type, type_size, is_null_f, is_redirect_f, is_enum_f,
  is_object_f, is_array_f,
}
use dshuffle.Serde.Classes.{
  FieldInfo, ClassInfo, ClassResolver, get_class_info_by_id, get_class_info,
}
use dshuffle.Serde.Info.{
  is_enum, is_array, is_object, get_field, object_body_size, array_body_size, get_enum,
}
use dshuffle.Serde.RwBuffer.{RwBuffer, get_at, get, bytes_at, skip, skip_next_align_8}

-- The calls of JNI that make or change an object. The type of a field tells Set<type>Field apart, and an
-- array of references is made for the class of its elements.
pub data Call : Type 0 where
  alloc_object : ClassInfo → Call
  new_type_array : ℕ → ℕ → Call
  new_object_array : ClassInfo → ℕ → Call
  set_field : ℕ → FieldInfo → ℕ → Call
  set_object_field : ℕ → FieldInfo → ℕ → Call
  set_array_element : ℕ → ℕ → ℕ → Call
  set_byte_array_region : ℕ → List ℕ → Call
  write_chars : ℕ → List ℕ → Call
  delete_local_ref : ℕ → Call

pub record Env : Type 0 where
  pub resolver : ClassResolver
  pub enable_utf16_to_utf8 : Bool
  pub convert_utf8_to_utf16le : List ℕ → List ℕ
  -- what the nth allocation returns; 0 is `nullptr`
  pub handle_of : ℕ → ℕ
  -- what `GetArrayLength` says of a new array of so many elements
  pub length_of_new : ℕ → ℕ
  -- `ExceptionCheck()` after so many calls
  pub exception : ℕ → Bool

-- the buffer, the calls so far, the number of allocations among them, and `root`
pub record Reviver : Type 0 where
  pub b : RwBuffer
  pub calls : List Call
  pub allocated : ℕ
  pub root : ℕ

unfoldable pub jni : Reviver → Call → Reviver
jni r call = record r { calls = r.calls ++ call ∷ [] }

-- A call that allocates, the check of its result, and `root`.
unfoldable pub allocate_jni : Env → Reviver → Call → Outcome (ℕ × Reviver)
allocate_jni e r call =
    let handle = e.handle_of r.allocated in
    if handle == 0
    then died
    else ok (
      handle,
      record r {
        calls = r.calls ++ call ∷ [];
        allocated = suc r.allocated;
        root = if r.root == 0 then handle else r.root;
      },
    )

-- The last lines of `do_parse_object` and `do_parse_array`.
unfoldable pub no_exception : Env → Reviver → ℕ → Outcome (ℕ × Reviver)
no_exception e r handle = if e.exception (length r.calls) then died else ok (handle, r)

-- `parse` on the expected id, which it does not look at: a handle, 0 for null
abbrev pub Parse : Type 0
Parse = Reviver → Outcome (ℕ × Reviver)

unfoldable pub parse_scalar : ℕ → ℕ → FieldInfo → Reviver → Outcome Reviver
unfolding jni
parse_scalar handle field_base f r = do
  w ← type_size f.type
  v ← get_at w r.b (field_base + f.offset)
  ok (jni r (set_field handle f v))

unfoldable pub parse_member : Parse → ℕ → FieldInfo → Reviver → Outcome Reviver
unfolding jni
parse_member parse handle f r = do
  m ← parse r
  ok (jni (jni m.1 (set_object_field handle f m.0)) (delete_local_ref m.0))

unfoldable pub parse_field : Parse → ℕ → ℕ → FieldInfo → Reviver → Outcome Reviver
unfolding parse_scalar parse_member
parse_field parse handle field_base f r =
    if is_primitive_type f.type
    then parse_scalar handle field_base f r
    else if is_reference_type f.type
    then parse_member parse handle f r
    else ok r

unfoldable pub parse_fields : Parse → ℕ → ℕ → List FieldInfo → Reviver → Outcome Reviver
unfolding parse_field
parse_fields parse handle field_base [] r = ok r
parse_fields parse handle field_base (f ∷ fs) r =
    parse_field parse handle field_base f r >>= parse_fields parse handle field_base fs

unfoldable pub do_parse_object : Parse → Env → ClassInfo → Reviver → Outcome (ℕ × Reviver)
unfolding parse_fields no_exception allocate_jni
do_parse_object parse e info r = do
  let aligned = skip_next_align_8 r.b
  a ← allocate_jni e (record r { b = aligned }) (alloc_object info)
  let filled = record a.1 { b = skip aligned (object_body_size info) }
  done ← parse_fields parse a.0 aligned.off info.fields filled
  no_exception e done a.0

unfoldable pub parse_elems : Parse → ℕ → ℕ → ℕ → Reviver → Outcome Reviver
unfolding jni
parse_elems parse handle zero i r = ok r
parse_elems parse handle (suc n) i r = do
  m ← parse r
  parse_elems parse handle n (suc i)
      (jni (jni m.1 (set_array_element handle i m.0)) (delete_local_ref m.0))

unfoldable pub cvt_utf8_to_utf16 : Env → ℕ → ℕ → Reviver → Outcome Reviver
unfolding jni
cvt_utf8_to_utf16 e handle n r = do
  origin ← get 4 r.b
  actual ← get 4 origin.1
  utf8 ← bytes_at actual.1 actual.1.off actual.0
  let utf16 = e.convert_utf8_to_utf16le utf8
  check (length utf16 / 2 == n)
  ok (record (jni r (write_chars handle utf16)) { b = skip actual.1 actual.0 })

-- SetByteArrayRegion, on whatever type of elements, with as many bytes as the array has elements.
unfoldable pub parse_scalars : Env → ClassInfo → FieldInfo → ℕ → ℕ → Reviver → Outcome Reviver
unfolding jni cvt_utf8_to_utf16
parse_scalars e info elem handle n r = do
  check (info.dim == 1)
  if (elem.type == t_char) && e.enable_utf16_to_utf8 then cvt_utf8_to_utf16 e handle n r else do
    die_if (not (n == e.length_of_new n))
    content ← bytes_at r.b r.b.off n
    size ← array_body_size info n
    ok (record (jni r (set_byte_array_region handle content)) { b = skip r.b size })

unfoldable pub array_call : Env → FieldInfo → ℕ → Outcome Call
array_call e elem n =
    if is_primitive_type elem.type
    then ok (new_type_array elem.type n)
    else get_class_info_by_id e.resolver elem.id >>= λ found. elim found [
      | none ↦ undefined
      | some info ↦ ok (new_object_array info n)
    ]

unfoldable pub do_parse_array : Parse → Env → ClassInfo → Reviver → Outcome (ℕ × Reviver)
unfolding parse_scalars parse_elems no_exception allocate_jni array_call
do_parse_array parse e info r = do
  n ← get 4 r.b
  elem ← get_field info 0
  call ← array_call e elem n.0
  a ← allocate_jni e (record r { b = skip_next_align_8 n.1 }) call
  done ←
      if is_primitive_type elem.type
      then parse_scalars e info elem a.0 n.0 a.1
      else if is_reference_type elem.type
      then parse_elems parse a.0 n.0 0 a.1
      else undefined
  no_exception e done a.0

unfoldable pub parse_enum : ClassInfo → ℕ → Reviver → Outcome (ℕ × Reviver)
parse_enum info flag r = do
  check (is_enum_f flag)
  ordinal ← get 4 r.b
  handle ← get_enum info ordinal.0
  ok (handle, record r { b = ordinal.1 })

unfoldable pub parse_class : Parse → Env → ClassInfo → ℕ → Reviver → Outcome (ℕ × Reviver)
unfolding parse_enum do_parse_object do_parse_array
parse_class parse e info flag r =
    if is_enum info
    then parse_enum info flag r
    else if is_object info
    then check (is_object_f flag) >> do_parse_object parse e info r
    else if is_array info
    then check (is_array_f flag) >> do_parse_array parse e info r
    else undefined

-- Each level of references takes one of the fuel.
unfoldable pub parse : ℕ → Env → Parse
unfolding parse_class
parse zero e r = out_of_fuel
parse (suc fuel) e r = do
  id ← get 2 (skip_next_align_8 r.b)
  flag ← get 2 id.1
  let here = record r { b = flag.1 }
  if is_null_f flag.0
      then ok (0, here)
      else if is_redirect_f flag.0
      then died
      else get_class_info_by_id e.resolver id.0 >>= λ found. elim found [
        | none ↦ assert_failed
        | some info ↦ parse_class (parse fuel e) e info flag.0 here
      ]

is_some : Option ClassInfo → Bool
is_some none = false
is_some (some info) = true

-- The static `revive` on the class that is asked for: `root`, which an enum constant or null leaves at 0.
unfoldable pub revive : ℕ → Env → ℕ → RwBuffer → Outcome (ℕ × Reviver)
unfolding parse is_some
revive fuel e klass input = do
  check (is_some (get_class_info e.resolver.info_by_klass klass))
  r ←
      parse fuel e
        (record { b = skip (record input { off = 0 }) 8; calls = []; allocated = 0; root = 0 })
  ok (r.1.root, r.1)

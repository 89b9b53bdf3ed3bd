-- ===== src/Serde/SerializeRuns.antt =====
-- lib/sd/kernel/sd.c: how a run of the serializer goes on from its parts.
use dshuffle.Prelude.{
  ℕ, suc, ◌+◌, ◌*◌, ◌%◌, ◌^◌, ◌≡◌, Bool, true, false, ◌&&◌, if◌then◌else◌, arith,
}
use dshuffle.Prelude.Outcome.{Outcome, ok, ◌>>=◌}
use dshuffle.Serde.Types.{is_primitive_type, is_reference_type, type_size, array_flag}
use dshuffle.Serde.Classes.{FieldInfo, ClassInfo}
use dshuffle.Serde.Info.{get_field}
use dshuffle.Serde.FakeObject.{parse_heap_cptr}
use dshuffle.Serde.RwBuffer.{RwBuffer}
use dshuffle.Serde.DeviceBuffer.{Buffer, h2d, put_word, fill_next_align_8}
use dshuffle.Serde.Serialize.{
  Globals, Recur, serialize_elems, serialize_scalars, serialize_array, get_array_length,
  get_array_elem_cptr,
}
use dshuffle.Serde.MirrorWalk.{IsObject}
use dshuffle.Serde.MirrorObject.{IsHeader}

pub h2d-upper :
    (o : ℕ) (i : ClassInfo)
    → IsObject o
    → IsHeader i
    → h2d (o + i.header_size) ≡ 2 ^ 63 + (o + i.header_size)
unfolding h2d
h2d-upper o i (_, low) (_, _, small) = omega arith

pub h2d-beside :
    (o : ℕ) (i : ClassInfo) → IsObject o → h2d o + i.header_size ≡ 2 ^ 63 + (o + i.header_size)
unfolding h2d
h2d-beside o i (_, low) = omega arith

pub elems-run :
    (recur : Recur) (g : Globals) (d header id n i : ℕ) (k k₁ : Buffer) (q at : ℕ)
    (last : Outcome Buffer)
    → parse_heap_cptr g.jvm_args (get_array_elem_cptr k d header i) ≡ ok q
    → recur k q id ≡ ok (at, k₁)
    → serialize_elems recur g d header id n (suc i) k₁ ≡ last
    → serialize_elems recur g d header id (suc n) i k ≡ last
unfolding serialize_elems
elems-run recur g d header id n i k k₁ q at last got run rest = rw (got, run) rest

pub scalars-run :
    (t s n size : ℕ) (f : ℕ → Outcome Buffer) (last : Outcome Buffer)
    → type_size t ≡ ok s
    → n * s % 2 ^ 32 ≡ size
    → f size ≡ last
    → (type_size t >>= λ x. f (n * x % 2 ^ 32)) ≡ last
scalars-run t s n size f last width len e = rw (width, len) e

pub array-run :
    (recur : Recur) (g : Globals) (obj : ℕ) (info : ClassInfo) (k : Buffer) (n : ℕ)
    (elem : FieldInfo) (last : Outcome Buffer)
    → get_array_length k (h2d obj) info.header_size ≡ n
    → get_field info 0 ≡ ok elem
    → (let k₁ = fill_next_align_8 (put_word 4 (put_word 2 (put_word 2 k info.id) array_flag) n) in
        if is_reference_type elem.type
        then serialize_elems recur g (h2d obj) info.header_size elem.id n 0 k₁
        else if is_primitive_type elem.type
        then serialize_scalars (h2d obj) info elem n k₁
        else ok k₁)
      ≡ last
    → serialize_array recur g obj info k ≡ last
unfolding serialize_array
array-run recur g obj info k n elem last counted first e = rw (counted, first) e

-- A choice that is never taken.
pub plain_run :
    (t o : Bool) (x y : Outcome RwBuffer) {r : Outcome RwBuffer}
    → o ≡ false
    → (if t && o then x else y) ≡ r
    → y ≡ r
plain_run true true x y off e = absurd (ground arith)
plain_run true false x y off e = e
plain_run false o x y off e = e

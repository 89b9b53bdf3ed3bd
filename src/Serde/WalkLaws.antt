-- ===== src/Serde/WalkLaws.antt =====
-- The parts of ObjectWalker that write one node: null, an enum constant, an array of scalars, and the
-- slot of a member.
use dshuffle.Prelude.{
  ℕ, ◌+◌, ◌*◌, ◌%◌, ◌^◌, ◌≤◌, ◌<◌, ◌≡◌, sym, ap, ◌∙◌, true, false, leb, ◌==◌, not, [], ◌∷◌, arith,
}
use dshuffle.Prelude.Outcome.{Outcome, ok}
use dshuffle.Prelude.Bytes.{write_at}
use dshuffle.Prelude.Words.{bytes_of, word}
use dshuffle.Serde.Types.{
  is_primitive_type, is_reference_type, type_size, null_flag, enum_flag, object_flag, array_flag,
}
use dshuffle.Serde.Classes.{FieldInfo, ClassInfo, unregistered_class_id}
use dshuffle.Serde.Info.{array_body_size}
use dshuffle.Serde.FakeObject.{parse_heap_cptr}
use dshuffle.Serde.RwBuffer.{RwBuffer, put_at, put_value, get_at, fill_next_align_8}
use dshuffle.Serde.RwBufferLaws.{
  Extends, Extends-trans, Extends-word, put_value32, put_header, fill_next_align_8_lem,
}
use dshuffle.Serde.Walker.{Context, Walk, walk_null, walk_enum, walk_member, walk_field}
use dshuffle.Serde.Value.{Value, null, constant, end_of}
use dshuffle.Serde.Wire.{width, Stands, Wire}

-- One node at a multiple of 8.
abbrev pub Writes : Context → ℕ → Value → RwBuffer → Outcome RwBuffer → Type 0
Writes c id v b run =
    (b' : RwBuffer) × (run ≡ ok b')
    × Extends b (end_of v b.off) b'
    × Wire c.resolver b'.bytes id v b.off

pub walk_null-Writes :
    (c : Context) (id : ℕ) (b : RwBuffer)
    → id < unregistered_class_id
    → b.off + 4 ≤ b.size
    → Writes c id null b (walk_null id b)
unfolding walk_null end_of
walk_null-Writes c id b registered fits =
    let (b₁, b₂, run₁, run₂, x, named, flag) =
      put_header b id null_flag fits (omega arith) (omega arith) in
    let test : not (id == unregistered_class_id) ≡ true = ground arith in
    (b₂, rw (test, run₁) run₂, x, (named, flag))

pub walk_enum-Writes :
    (c : Context) (info : ClassInfo) (n p : ℕ) (b : RwBuffer)
    → Stands c (constant info n) p
    → b.off % 8 ≡ 0
    → b.off + 8 ≤ b.size
    → Writes c 0 (constant info n) b (walk_enum c p info b)
unfolding walk_enum end_of
walk_enum-Writes c info n p b (here, enum, ordinal, small) aligned fits =
    let flag = enum_flag + object_flag in
    let (b₁, b₂, run₁, run₂, x₂, id, f) =
      put_header b info.id flag (omega arith) (here.sound.small_id) (omega arith) in
    let (b₃, run₃, x₃, w) = put_value32 b₂ n (omega (arith, x₂.off, x₂.size)) small in
    let x = Extends-trans x₂ x₃ (omega (arith, x₂.off)) in
    let test : (b₃.off % 8 == 0) ≡ true = ground (arith, x₃.off, x₂.off) in
    (
      b₃,
      rw (ordinal, run₁, run₂, run₃, test),
      record { off = omega (arith, x₃.off, x₂.off); size = x.size; below = x.below },
      (
        here.sound,
        enum,
        (
          Extends-word 2 b.off x₃ (omega (arith, x₂.off)) ∙ id,
          Extends-word 2 (b.off + 2) x₃ (omega (arith, x₂.off)) ∙ f,
        ),
        ap (word b₃.bytes 4) (sym (x₂.off)) ∙ w,
      ),
    )

-- The slot of a member, once the member is walked.
pub walk_field-member :
    (walk : Walk) (c : Context) (obj_base : ℕ) (f : FieldInfo) (b b₁ : RwBuffer) (q m : ℕ)
    → is_primitive_type f.type ≡ false
    → is_reference_type f.type ≡ true
    → obj_base + f.offset + 4 ≤ b.size
    → b₁.size ≡ b.size
    → parse_heap_cptr c.jvm (word b.bytes 4 (obj_base + f.offset)) ≡ ok q
    → walk b q f.id ≡ ok (m, b₁)
    → walk_field walk c obj_base f b
      ≡ ok (record b₁ { bytes = write_at b₁.bytes (obj_base + f.offset) (bytes_of 4 m) })
unfolding walk_field walk_member get_at put_at
walk_field-member walk c obj_base f b b₁ q m prim ref fits size ptr run =
    let read : leb (obj_base + f.offset + 4) b.size ≡ true = ground arith in
    let written : leb (obj_base + f.offset + 4) b₁.size ≡ true = ground (arith, size) in
    rw (prim, ref, read, ptr, run, written)

-- The header of an array and the padding behind it, of which there is none.
pub array_header :
    (b : RwBuffer) (id n : ℕ)
    → b.off % 8 ≡ 0
    → b.off + 8 ≤ b.size
    → b.size < 2 ^ 32
    → id < 2 ^ 16
    → n < 2 ^ 32
    → (b₁ : RwBuffer) × (b₂ : RwBuffer) × (b₃ : RwBuffer) × (b₄ : RwBuffer) × (put_value 2 b id
        ≡ ok b₁)
      × (put_value 2 b₁ array_flag ≡ ok b₂)
      × (put_value 4 b₂ n ≡ ok b₃)
      × (fill_next_align_8 b₃ ≡ ok b₄)
      × Extends b (b.off + 8) b₄
      × (word b₄.bytes 2 b.off ≡ id)
      × (word b₄.bytes 2 (b.off + 2) ≡ array_flag)
      × (word b₄.bytes 4 (b.off + 4) ≡ n)
array_header b id n aligned fits small small_id small_n =
    let (b₁, b₂, run₁, run₂, x₂, i, f) =
      put_header b id array_flag (omega arith) small_id (omega arith) in
    let (b₃, run₃, x₃, w) = put_value32 b₂ n (omega (arith, x₂.off, x₂.size)) small_n in
    let (b₄, run₄, x₄) =
      fill_next_align_8_lem b₃ (omega (arith, x₃.off, x₂.off, x₃.size, x₂.size))
        (omega (arith, x₃.size, x₂.size)) in
    let y = Extends-trans x₃ x₄ (omega (arith, x₃.off)) in
    let x = Extends-trans x₂ y (omega (arith, x₂.off)) in
    (
      b₁,
      b₂,
      b₃,
      b₄,
      run₁,
      run₂,
      run₃,
      run₄,
      record { off = omega (arith, x₄.off, x₃.off, x₂.off); size = x.size; below = x.below },
      Extends-word 2 b.off y (omega (arith, x₂.off)) ∙ i,
      Extends-word 2 (b.off + 2) y (omega (arith, x₂.off)) ∙ f,
      Extends-word 4 (b.off + 4) x₄ (omega (arith, x₃.off, x₂.off))
          ∙ ap (word b₃.bytes 4) (sym (x₂.off))
          ∙ w,
    )

pub type_size-primitive : (t : ℕ) → is_primitive_type t ≡ true → type_size t ≡ ok (width t)
unfolding is_primitive_type type_size width
type_size-primitive t h = ground arith

pub array_body_size_lem :
    (info : ClassInfo) (f : FieldInfo) (n : ℕ)
    → info.fields ≡ f ∷ []
    → is_primitive_type f.type ≡ true
    → n * width f.type < 2 ^ 32
    → array_body_size info n ≡ ok (n * width f.type)
unfolding array_body_size
array_body_size_lem info f n fields prim small =
    rw (fields, type_size-primitive f.type prim) (ap ok (omega arith))

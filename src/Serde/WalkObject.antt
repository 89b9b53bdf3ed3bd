-- ===== src/Serde/WalkObject.antt =====
-- The steps of ObjectWalker on an object: its header and body, and one field after the other.
use dshuffle.Prelude.{
  ℕ, ◌+◌, ◌%◌, ◌^◌, ◌≤◌, ◌<◌, ◌≡◌, sym, ap, ◌∙◌, subst, true, false, ◌==◌, List, ◌∷◌, length, arith,
}
use dshuffle.Prelude.Outcome.{ok}
use dshuffle.Prelude.Bytes.{write_at, read_at, length-read_at}
use dshuffle.Prelude.Words.{
  bytes_of, word, word-ext, word-shift, length-bytes_of, read_at-pointwise, word-write_at32,
}
use dshuffle.Serde.Types.{object_flag, is_primitive_type, is_reference_type}
use dshuffle.Serde.Classes.{FieldInfo, ClassInfo}
use dshuffle.Serde.Info.{is_enum, is_object, object_body_size}
use dshuffle.Serde.FakeObject.{raw}
use dshuffle.Serde.RwBuffer.{RwBuffer, put_value, put, fill_next_align_8}
use dshuffle.Serde.RwBufferLaws.{
  Extends, Extends-trans, Extends-word, put_lem, put_header, fill_next_align_8_lem, write_at-other,
  write_at-after,
}
use dshuffle.Serde.Walker.{Context, Walk, walk, walk_fields, walk_class, do_walk_object}
use dshuffle.Serde.Value.{
  Value, Values, scalar, member, align, body_size, end_of, end_of_all, end_of-le,
}
use dshuffle.Serde.Wire.{width, IsLaidOut, HasClass, Wire, WireFields}
use dshuffle.Serde.WireFrame.{Wire-same, reference_width, IsLaidOut-le}

-- What the loop over the fields leaves: the members behind the buffer's old end, and below it only the
-- slots between `lo` and the end of the body changed.
pub record FieldsWalked (c : Context) (vs : Values) (fs : List FieldInfo) (base lo size : ℕ)
    (b b' : RwBuffer) : Type 0 where
  pub off : b'.off ≡ end_of_all vs b.off
  pub size_kept : b'.size ≡ b.size
  pub front : (a : ℕ) → a < base + lo → b'.bytes a ≡ b.bytes a
  pub between : (a : ℕ) → base + size ≤ a → a < b.off → b'.bytes a ≡ b.bytes a
  pub wire : WireFields c.resolver b'.bytes vs fs base b.off

-- The buffer after a member is walked and its slot is written.
pub member_patched :
    (b b₁ : RwBuffer) (slot m n : ℕ)
    → Extends b n b₁
    → slot + 4 ≤ b.off
    → b.off ≤ n
    → m < 2 ^ 32
    → let b₂ : RwBuffer = record b₁ { bytes = write_at b₁.bytes slot (bytes_of 4 m) } in
      (word b₂.bytes 4 slot ≡ m)
      × ((a : ℕ) → slot + 4 ≤ a → b₂.bytes a ≡ b₁.bytes a)
      × ((a : ℕ) → a < slot → b₂.bytes a ≡ b.bytes a)
      × ((a : ℕ) → slot + 4 ≤ a → a < b.off → b₂.bytes a ≡ b.bytes a)
member_patched b b₁ slot m n x below grows small =
    let four = length-bytes_of 4 m in
    (
      word-write_at32 b₁.bytes slot m small,
      λ a h. write_at-after b₁.bytes slot (bytes_of 4 m) a (omega (arith, four)),
      λ a h. write_at-other b₁.bytes slot (bytes_of 4 m) a h ∙ x.below a (omega arith),
      λ a h h'. write_at-after b₁.bytes slot (bytes_of 4 m) a (omega (arith, four)) ∙ x.below a h',
    )

pub object_body_size_lem :
    (info : ClassInfo)
    → info.header_size ≤ info.obj_size
    → info.obj_size < 2 ^ 16
    → object_body_size info ≡ body_size info
unfolding object_body_size
object_body_size_lem info h small = omega arith

-- The header and the body of an object, before its fields are walked.
pub object_start :
    (c : Context) (info : ClassInfo) (p : ℕ) (b : RwBuffer)
    → HasClass c info p
    → b.off % 8 ≡ 0
    → b.off + 8 + body_size info ≤ b.size
    → b.size < 2 ^ 32
    → (b₁ : RwBuffer) × (b₂ : RwBuffer) × (b₃ : RwBuffer) × (b₄ : RwBuffer) × (put_value 2 b info.id
        ≡ ok b₁)
      × (put_value 2 b₁ object_flag ≡ ok b₂)
      × (fill_next_align_8 b₂ ≡ ok b₃)
      × (put b₃ (read_at c.jvm.mem (raw p info.header_size) (object_body_size info)) ≡ ok b₄)
      × (b₃.off ≡ b.off + 8)
      × Extends b (b.off + 8 + body_size info) b₄
      × (word b₄.bytes 2 b.off ≡ info.id)
      × (word b₄.bytes 2 (b.off + 2) ≡ object_flag)
      × ((i : ℕ)
          → i < body_size info
          → b₄.bytes (b.off + 8 + i) ≡ c.jvm.mem (raw p info.header_size + i))
object_start c info p b here aligned fits limit =
    let addr = raw p info.header_size in
    let n = object_body_size_lem info (here.sound.header) (here.sound.small) in
    let (b₁, b₂, run₁, run₂, x₂, i, f) =
      put_header b info.id object_flag (omega arith) (here.sound.small_id) (omega arith) in
    let (b₃, run₃, x₃) =
      fill_next_align_8_lem b₂ (omega (arith, x₂.off, x₂.size)) (omega (arith, x₂.size)) in
    let src = read_at c.jvm.mem addr (object_body_size info) in
    let len : length src ≡ body_size info =
      length-read_at c.jvm.mem addr (object_body_size info) ∙ n in
    let at : b₃.off ≡ b.off + 8 = omega (arith, x₃.off, x₂.off) in
    let (b₄, run₄, x₄, body) = put_lem b₃ src (omega (arith, at, len, x₃.size, x₂.size)) in
    let y = Extends-trans x₃ x₄ (omega (arith, x₂.off, at)) in
    let x = Extends-trans x₂ y (omega (arith, x₂.off)) in
    let same : read_at b₄.bytes b₃.off (body_size info) ≡ read_at c.jvm.mem addr (body_size info) =
      ap (read_at b₄.bytes b₃.off) (sym len) ∙ body ∙ ap (read_at c.jvm.mem addr) n in
    (
      b₁,
      b₂,
      b₃,
      b₄,
      run₁,
      run₂,
      run₃,
      run₄,
      at,
      record { off = omega (arith, x₄.off, at, len); size = x.size; below = x.below },
      Extends-word 2 b.off y (omega (arith, x₂.off)) ∙ i,
      Extends-word 2 (b.off + 2) y (omega (arith, x₂.off)) ∙ f,
      λ i h.
          ap (λ k. b₄.bytes (k + i)) (sym at)
          ∙ read_at-pointwise b₄.bytes c.jvm.mem b₃.off addr (body_size info) i same h,
    )

pub walk_class-object :
    (walk : Walk) (c : Context) (info : ClassInfo) (p : ℕ) (b b₁ b₂ b₃ b₄ b₅ : RwBuffer)
    → is_enum info ≡ false
    → info.dim ≡ 0
    → b.off % 8 ≡ 0
    → put_value 2 b info.id ≡ ok b₁
    → put_value 2 b₁ object_flag ≡ ok b₂
    → fill_next_align_8 b₂ ≡ ok b₃
    → put b₃ (read_at c.jvm.mem (raw p info.header_size) (object_body_size info)) ≡ ok b₄
    → walk_fields walk c b₃.off info.fields b₄ ≡ ok b₅
    → walk_class walk c p info b ≡ ok b₅
unfolding walk_class do_walk_object is_object
walk_class-object walk c info p b b₁ b₂ b₃ b₄ b₅ enum dim aligned run₁ run₂ run₃ run₄ run₅ =
    let object : (info.dim == 0) ≡ true = ground (arith, dim) in
    rw (enum, object, aligned, run₁, run₂, run₃, run₄) run₅

-- A primitive field is left as the body has it.
pub FieldsWalked-scalar :
    (c : Context) (vs : Values) (f : FieldInfo) (fs : List FieldInfo) (n base addr lo size : ℕ)
    (b b' : RwBuffer)
    → IsLaidOut lo size (f ∷ fs)
    → is_primitive_type f.type ≡ true
    → word c.jvm.mem (width f.type) (addr + f.offset) ≡ n
    → ((i : ℕ) → lo ≤ i → i < size → b.bytes (base + i) ≡ c.jvm.mem (addr + i))
    → FieldsWalked c vs fs base (f.offset + width f.type) size b b'
    → FieldsWalked c (scalar n vs) (f ∷ fs) base lo size b b'
unfolding end_of_all
FieldsWalked-scalar c vs f fs n base addr lo size b b' laid prim held body done =
    let w = width f.type in
    let within = IsLaidOut-le (f.offset + w) size fs (laid.2) in
    let kept : word b'.bytes w (base + f.offset) ≡ word b.bytes w (base + f.offset) =
      word-ext b'.bytes b.bytes w (base + f.offset) (λ a l h. done.front a (omega arith)) in
    let copied : word b.bytes w (base + f.offset) ≡ word c.jvm.mem w (addr + f.offset) =
      word-shift b.bytes c.jvm.mem w (base + f.offset) (addr + f.offset) (λ i h.
        let l : base + f.offset + i ≡ base + (f.offset + i) = omega arith in
        let r : addr + (f.offset + i) ≡ addr + f.offset + i = omega arith in
        ap b.bytes l
        ∙ body (f.offset + i) (omega (arith, laid.0)) (omega (arith, within))
        ∙ ap c.jvm.mem r) in
    record {
      off = done.off;
      size_kept = done.size_kept;
      front = λ a h. done.front a (omega (arith, laid.0));
      between = done.between;
      wire = (prim, kept ∙ copied ∙ held, done.wire);
    }

-- A member stands behind what is written so far, and its slot says where.
pub FieldsWalked-member :
    (c : Context) (v : Value) (vs : Values) (f : FieldInfo) (fs : List FieldInfo) (base lo size : ℕ)
    (b b₁ b₃ : RwBuffer)
    → IsLaidOut lo size (f ∷ fs)
    → is_primitive_type f.type ≡ false
    → is_reference_type f.type ≡ true
    → base + size ≤ b.off
    → align b.off < 2 ^ 32
    → Extends b (end_of v (align b.off)) b₁
    → Wire c.resolver b₁.bytes f.id v (align b.off)
    → FieldsWalked c vs fs base
        (f.offset + width f.type)
        size
        (record b₁ { bytes = write_at b₁.bytes (base + f.offset) (bytes_of 4 (align b.off)) })
        b₃
    → FieldsWalked c (member v vs) (f ∷ fs) base lo size b b₃
unfolding end_of_all
FieldsWalked-member c v vs f fs base lo size b b₁ b₃ laid prim ref behind small x wire done =
    let slot = base + f.offset in
    let four = reference_width f.type ref in
    let within = IsLaidOut-le (f.offset + width f.type) size fs (laid.2) in
    let grows = end_of-le v (align b.off) in
    let (written, after, low, mid) =
      member_patched b b₁ slot (align b.off) (end_of v (align b.off)) x
        (omega (arith, four, within)) (omega (arith, grows)) small in
    record {
      off = done.off ∙ ap (end_of_all vs) (x.off);
      size_kept = done.size_kept ∙ x.size;
      front = λ a h. done.front a (omega (arith, laid.0)) ∙ low a (omega (arith, laid.0));
      between = λ a h h'.
          done.between a h (omega (arith, grows, x.off)) ∙ mid a (omega (arith, four, within)) h';
      wire = (
        prim,
        ref,
        word-ext b₃.bytes (write_at b₁.bytes slot (bytes_of 4 (align b.off))) 4 slot
              (λ a l h. done.front a (omega (arith, four)))
            ∙ written,
        Wire-same c.resolver b₁.bytes b₃.bytes f.id v (align b.off)
            (λ a l h.
              done.between a (omega arith) (omega (arith, x.off))
              ∙ after a (omega (arith, four, within)))
            wire,
        subst (WireFields c.resolver b₃.bytes vs fs base) (x.off) (done.wire),
      );
    }

-- ===== src/Serde/WalkNodes.antt =====
-- The nodes that ObjectWalker writes, put together from their parts.
use dshuffle.Prelude.{
  ℕ, suc, ◌+◌, ◌%◌, ◌^◌, ◌≤◌, ◌<◌, ◌≡◌, ap, ◌∙◌, subst, true, false, inl, ◌==◌, List, ◌∷◌, arith,
}
use dshuffle.Prelude.Outcome.{Outcome, ok, ◌>>=◌}
use dshuffle.Prelude.Words.{word-ext}
use dshuffle.Serde.Types.{is_primitive_type}
use dshuffle.Serde.Classes.{FieldInfo, ClassInfo}
use dshuffle.Serde.Info.{is_enum}
use dshuffle.Serde.FakeObject.{raw, array_elem_ref}
use dshuffle.Serde.RwBuffer.{RwBuffer, fill_next_align_8}
use dshuffle.Serde.RwBufferLaws.{Extends, Extends-trans, Extends-word}
use dshuffle.Serde.Walker.{
  Context, walk, walk_fields, walk_field, walk_elems, walk_null, walk_enum, walk_class, class_of,
}
use dshuffle.Serde.Value.{
  Value, Values, null, instance_of, array_of, align, body_size, end_of, end_of_all, end_of_all-le,
  depth, count,
}
use dshuffle.Serde.Wire.{HasClass, Stands, Wire, WireFields, WireElems}
use dshuffle.Serde.WalkLaws.{Writes, array_header}
use dshuffle.Serde.WalkArrays.{walk_class-array}
use dshuffle.Serde.WalkObject.{FieldsWalked, object_start, walk_class-object}

-- `walk` on a value that stands in the memory.
abbrev pub Walks : Context → ℕ → Value → RwBuffer → Outcome (ℕ × RwBuffer) → Type 0
Walks c id v b run =
    (b' : RwBuffer) × (run ≡ ok (align b.off, b'))
    × Extends b (end_of v (align b.off)) b'
    × Wire c.resolver b'.bytes id v (align b.off)

class_of_lem : (c : Context) (info : ClassInfo) (p : ℕ) → HasClass c info p → class_of c p ≡ ok info
unfolding class_of
class_of_lem c info p here = rw (here.klass, ◌>>=◌, here.sound.by_klass)

-- The padding in front of a node.
padded :
    (c : Context) (id : ℕ) (v : Value) (b b₁ b₂ : RwBuffer)
    → Extends b (align b.off) b₁
    → Extends b₁ (end_of v b₁.off) b₂
    → Wire c.resolver b₂.bytes id v b₁.off
    → Extends b (end_of v (align b.off)) b₂ × Wire c.resolver b₂.bytes id v (align b.off)
padded c id v b b₁ b₂ x y wire = (
  Extends-trans x (subst (λ k. Extends b₁ (end_of v k) b₂) (x.off) y) (omega (arith, x.off)),
  subst (Wire c.resolver b₂.bytes id v) (x.off) wire,
)

pub walk-of_class :
    (fuel : ℕ) (c : Context) (v : Value) (info : ClassInfo) (p id : ℕ) (b b₁ : RwBuffer)
    → HasClass c info p
    → fill_next_align_8 b ≡ ok b₁
    → Extends b (align b.off) b₁
    → align b.off < 2 ^ 32
    → Writes c id v b₁ (walk_class (walk fuel c) c p info b₁)
    → Walks c id v b (walk (suc fuel) c b p id)
unfolding walk
walk-of_class fuel c v info p id b b₁ here fill x small (b₂, run, y, wire) =
    let there : (p == 0) ≡ false = ground (arith, here.there) in
    let base : b₁.off % 2 ^ 32 ≡ align b.off = omega (arith, x.off) in
    let (z, held) = padded c id v b b₁ b₂ x y wire in
    (b₂, rw (fill, there, class_of_lem c info p here, run, base), z, held)

pub walk-of_null :
    (fuel : ℕ) (c : Context) (p id : ℕ) (b b₁ : RwBuffer)
    → p ≡ 0
    → fill_next_align_8 b ≡ ok b₁
    → Extends b (align b.off) b₁
    → align b.off < 2 ^ 32
    → Writes c id null b₁ (walk_null id b₁)
    → Walks c id null b (walk (suc fuel) c b p id)
unfolding walk
walk-of_null fuel c p id b b₁ none fill x small (b₂, run, y, wire) =
    let absent : (p == 0) ≡ true = ground (arith, none) in
    let base : b₁.off % 2 ^ 32 ≡ align b.off = omega (arith, x.off) in
    let (z, held) = padded c id null b b₁ b₂ x y wire in (b₂, rw (fill, absent, run, base), z, held)

pub walk_class-enum :
    (fuel : ℕ) (c : Context) (info : ClassInfo) (p : ℕ) (b : RwBuffer)
    → is_enum info ≡ true
    → walk_class (walk fuel c) c p info b ≡ walk_enum c p info b
unfolding walk_class
walk_class-enum fuel c info p b enum = rw enum

pub depth_pos : (v : Value) → 0 < depth v
unfolding depth
depth_pos null = omega arith
depth_pos v = omega arith

pub walk_fields-cons :
    (fuel : ℕ) (c : Context) (base : ℕ) (f : FieldInfo) (fs : List FieldInfo) (b b₁ b₂ : RwBuffer)
    → walk_field (walk fuel c) c base f b ≡ ok b₁
    → walk_fields (walk fuel c) c base fs b₁ ≡ ok b₂
    → walk_fields (walk fuel c) c base (f ∷ fs) b ≡ ok b₂
unfolding walk_fields
walk_fields-cons fuel c base f fs b b₁ b₂ run rest = rw run rest

pub walk_field-scalar :
    (fuel : ℕ) (c : Context) (base : ℕ) (f : FieldInfo) (b : RwBuffer)
    → is_primitive_type f.type ≡ true
    → walk_field (walk fuel c) c base f b ≡ ok b
unfolding walk_field
walk_field-scalar fuel c base f b prim = rw prim

pub walk_elems-cons :
    (fuel : ℕ) (c : Context) (p header id n i q m : ℕ) (b b₁ b₂ : RwBuffer)
    → array_elem_ref c.jvm p header i ≡ ok q
    → walk fuel c b q id ≡ ok (m, b₁)
    → walk_elems (walk fuel c) c p header id n (suc i) b₁ ≡ ok b₂
    → walk_elems (walk fuel c) c p header id (suc n) i b ≡ ok b₂
unfolding walk_elems
walk_elems-cons fuel c p header id n i q m b b₁ b₂ ref run rest = rw (ref, run) rest

pub array_of-Writes :
    (fuel : ℕ) (c : Context) (info elem : ClassInfo) (vs : Values) (p : ℕ) (b : RwBuffer)
    → (stands : Stands c (array_of info elem vs) p) → b.off % 8 ≡ 0
    → end_of_all vs (b.off + 8) ≤ b.size
    → b.size < 2 ^ 32
    → ((b₄ : RwBuffer)
        → b₄.off ≡ b.off + 8
        → b₄.size ≡ b.size
        → (b₅ : RwBuffer) × (walk_elems
              (walk fuel c)
              c
              p
              info.header_size
              (stands.0.id)
              (count vs)
              0
              b₄
            ≡ ok b₅)
          × Extends b₄ (end_of_all vs b₄.off) b₅
          × WireElems c.resolver b₅.bytes (stands.0.id) vs b₄.off)
    → Writes c 0 (array_of info elem vs) b (walk_class (walk fuel c) c p info b)
unfolding end_of
array_of-Writes fuel c info elem vs p b (f, array, prim, ref, named, found, _) aligned fits limit
      elems =
    let (here, enum, dims, fields, size, small_n) = array in
    let more = end_of_all-le vs (b.off + 8) in
    let (b₁, b₂, b₃, b₄, run₁, run₂, run₃, run₄, x, w₁, w₂, w₃) =
      array_header b info.id (count vs) aligned (omega (arith, more)) limit (here.sound.small_id)
        small_n in
    let (b₅, run₅, y, wire) = elems b₄ (x.off) (x.size) in
    let z = Extends-trans x y (omega (arith, x.off)) in
    (
      b₅,
      walk_class-array (walk fuel c) c p (count vs) info f b b₁ b₂ b₃ b₄ (ok b₅) array aligned run₁
          run₂ run₃ run₄ (inl (ref, run₅)),
      record { off = z.off ∙ ap (end_of_all vs) (x.off); size = z.size; below = z.below },
      (
        f,
        (
          here.sound,
          enum,
          dims,
          fields,
          (
            Extends-word 2 b.off y (omega (arith, x.off)) ∙ w₁,
            Extends-word 2 (b.off + 2) y (omega (arith, x.off)) ∙ w₂,
          ),
          Extends-word 4 (b.off + 4) y (omega (arith, x.off)) ∙ w₃,
        ),
        prim,
        ref,
        found,
        subst (WireElems c.resolver b₅.bytes f.id vs) (x.off) wire,
      ),
    )

pub instance_of-Writes :
    (fuel : ℕ) (c : Context) (info : ClassInfo) (vs : Values) (p : ℕ) (b : RwBuffer)
    → Stands c (instance_of info vs) p
    → b.off % 8 ≡ 0
    → end_of_all vs (b.off + 8 + body_size info) ≤ b.size
    → b.size < 2 ^ 32
    → ((base : ℕ) (b₄ : RwBuffer)
        → base ≡ b.off + 8
        → b₄.off ≡ b.off + 8 + body_size info
        → b₄.size ≡ b.size
        → ((i : ℕ)
            → 0 ≤ i
            → i < body_size info
            → b₄.bytes (base + i) ≡ c.jvm.mem (raw p info.header_size + i))
        → (b₅ : RwBuffer) × (walk_fields (walk fuel c) c base info.fields b₄ ≡ ok b₅)
          × FieldsWalked c vs info.fields base 0 (body_size info) b₄ b₅)
    → Writes c 0 (instance_of info vs) b (walk_class (walk fuel c) c p info b)
unfolding end_of
instance_of-Writes fuel c info vs p b (here, enum, dim, laid, _) aligned fits limit fields =
    let more = end_of_all-le vs (b.off + 8 + body_size info) in
    let (b₁, b₂, b₃, b₄, run₁, run₂, run₃, run₄, at, x, w₁, w₂, body) =
      object_start c info p b here aligned (omega (arith, more)) limit in
    let (b₅, run₅, done) =
      fields b₃.off b₄ at (x.off) (x.size) (λ i lo h. ap (λ k. b₄.bytes (k + i)) at ∙ body i h) in
    let kept : (a : ℕ) → a < b₃.off → b₅.bytes a ≡ b₄.bytes a = λ a h. done.front a (omega arith) in
    (
      b₅,
      walk_class-object (walk fuel c) c info p b b₁ b₂ b₃ b₄ b₅ enum dim aligned run₁ run₂ run₃ run₄
          run₅,
      record {
        off = done.off ∙ ap (end_of_all vs) (x.off);
        size = done.size_kept ∙ x.size;
        below = λ a h. kept a (omega (arith, at)) ∙ x.below a h;
      },
      (
        here.sound,
        enum,
        dim,
        laid,
        (
          word-ext b₅.bytes b₄.bytes 2 b.off (λ a l h. kept a (omega (arith, at))) ∙ w₁,
          word-ext b₅.bytes b₄.bytes 2 (b.off + 2) (λ a l h. kept a (omega (arith, at))) ∙ w₂,
        ),
        subst (λ k. WireFields c.resolver b₅.bytes vs info.fields k (b.off + 8 + body_size info)) at
            (subst (WireFields c.resolver b₅.bytes vs info.fields b₃.off) (x.off) (done.wire)),
      ),
    )

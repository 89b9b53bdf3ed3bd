-- ===== src/Serde/WalkWire.antt =====
-- ObjectWalker on a whole value, and what it leaves in the buffer.
use dshuffle.Prelude.{
  ℕ, zero, suc, ◌+◌, ◌%◌, ◌^◌, ◌≤◌, ◌<◌, ◌≡◌, refl, sym, ap, ◌∙◌, subst, List, [], ◌∷◌, arith,
}
use dshuffle.Prelude.Outcome.{ok}
use dshuffle.Prelude.Bytes.{write_at}
use dshuffle.Prelude.Words.{bytes_of, word, word-shift}
use dshuffle.Serde.Classes.{FieldInfo, unregistered_class_id}
use dshuffle.Serde.FakeObject.{raw, parse_heap_cptr}
use dshuffle.Serde.RwBuffer.{RwBuffer, fill_next_align_8}
use dshuffle.Serde.RwBufferLaws.{Extends, Extends-trans, fill_next_align_8_lem}
use dshuffle.Serde.Walker.{Context, walk, walk_fields, walk_elems}
use dshuffle.Serde.Value.{
  Value, Values, null, constant, instance_of, array_of, scalars, chars, end, scalar, member, align,
  body_size, end_of, end_of_all, end_of-le, end_of_all-le, depth, depth_all, count,
}
use dshuffle.Serde.Wire.{width, IsLaidOut, Stands, StandFields, StandElems, WireElems}
use dshuffle.Serde.WireFrame.{Wire-same, reference_width, IsLaidOut-le}
use dshuffle.Serde.WalkLaws.{Writes, walk_null-Writes, walk_enum-Writes, walk_field-member}
use dshuffle.Serde.WalkArrays.{walk_class-scalars, walk_class-chars}
use dshuffle.Serde.WalkObject.{
  FieldsWalked, FieldsWalked-scalar, FieldsWalked-member, member_patched,
}
use dshuffle.Serde.WalkNodes.{
  Walks, walk-of_class, walk-of_null, walk_class-enum, depth_pos, walk_fields-cons,
  walk_field-scalar, walk_elems-cons, array_of-Writes, instance_of-Writes,
}

-- The padding in front of a node, and the offset that `walk` then has.
start :
    (v : Value) (b : RwBuffer)
    → end_of v (align b.off) ≤ b.size
    → b.size < 2 ^ 32
    → (b₁ : RwBuffer) × (fill_next_align_8 b ≡ ok b₁)
      × Extends b (align b.off) b₁
      × (align b.off < 2 ^ 32)
      × (b₁.off % 8 ≡ 0)
      × (end_of v b₁.off ≤ b₁.size)
      × (b₁.size < 2 ^ 32)
start v b fits limit =
    let more = end_of-le v (align b.off) in
    let (b₁, run, x) = fill_next_align_8_lem b (omega (arith, more)) limit in
    (
      b₁,
      run,
      x,
      omega (arith, more),
      omega (arith, x.off),
      omega (arith, ap (end_of v) (x.off), x.size),
      omega (arith, x.size),
    )

-- The state of the loop after a member, for the rest of the fields.
next_body :
    (c : Context) (b b₁ : RwBuffer) (v : Value) (f : FieldInfo) (base addr lo size : ℕ)
    → Extends b (end_of v (align b.off)) b₁
    → base + size ≤ b.off
    → lo ≤ f.offset
    → f.offset + 4 ≤ size
    → width f.type ≡ 4
    → align b.off < 2 ^ 32
    → ((i : ℕ) → lo ≤ i → i < size → b.bytes (base + i) ≡ c.jvm.mem (addr + i))
    → (i : ℕ) → f.offset + width f.type ≤ i
    → i < size
    → write_at b₁.bytes (base + f.offset) (bytes_of 4 (align b.off)) (base + i)
      ≡ c.jvm.mem (addr + i)
next_body c b b₁ v f base addr lo size x behind low room four small body i from to =
    let (written, after, below, mid) =
      member_patched b b₁ (base + f.offset) (align b.off) (end_of v (align b.off)) x (omega arith)
        (omega (arith, end_of-le v (align b.off))) small in
    mid (base + i) (omega (arith, four)) (omega arith) ∙ body i (omega arith) to

slot_read :
    (c : Context) (b : RwBuffer) (f : FieldInfo) (base addr lo size : ℕ)
    → lo ≤ f.offset
    → f.offset + 4 ≤ size
    → ((i : ℕ) → lo ≤ i → i < size → b.bytes (base + i) ≡ c.jvm.mem (addr + i))
    → word b.bytes 4 (base + f.offset) ≡ word c.jvm.mem 4 (addr + f.offset)
slot_read c b f base addr lo size low room body =
    word-shift b.bytes c.jvm.mem 4 (base + f.offset) (addr + f.offset) (λ i h.
      let l : base + f.offset + i ≡ base + (f.offset + i) = omega arith in
      let r : addr + (f.offset + i) ≡ addr + f.offset + i = omega arith in
      ap b.bytes l ∙ body (f.offset + i) (omega arith) (omega arith) ∙ ap c.jvm.mem r)

module _ (c : Context) where
  mutual
    unfolding end_of end_of_all depth depth_all count walk_fields walk_elems

    pub walk-Walks :
        (v : Value) (fuel p id : ℕ) (b : RwBuffer)
        → Stands c v p
        → (p ≡ 0 → id < unregistered_class_id)
        → depth v ≤ fuel
        → end_of v (align b.off) ≤ b.size
        → b.size < 2 ^ 32
        → Walks c id v b (walk fuel c b p id)
    walk-Walks v zero p id b stands named enough fits limit = absurd (omega (arith, depth_pos v))
    walk-Walks null (suc fuel) p id b stands named enough fits limit =
        let (b₁, run, x, small, aligned, room, limit₁) = start null b fits limit in
        walk-of_null fuel c p id b b₁ stands run x small
          (walk_null-Writes c id b₁ (named stands) room)
    walk-Walks (constant info n) (suc fuel) p id b stands named enough fits limit =
        let (b₁, run, x, small, aligned, room, limit₁) = start (constant info n) b fits limit in
        walk-of_class fuel c (constant info n) info p id b b₁ (stands.0) run x small (
          subst (Writes c 0 (constant info n) b₁)
            (sym (walk_class-enum fuel c info p b₁ (stands.1)))
            (walk_enum-Writes c info n p b₁ stands aligned room))
    walk-Walks (instance_of info vs) (suc fuel) p id b stands named enough fits limit =
        let (b₁, run, x, small, aligned, room, limit₁) = start (instance_of info vs) b fits limit in
        walk-of_class fuel c (instance_of info vs) info p id b b₁ (stands.0) run x small (
          instance_of-Writes fuel c info vs p b₁ stands aligned room limit₁
            (λ base b₄ at off size body.
              fields-Walked vs info.fields fuel base (raw p info.header_size) 0 (body_size info) b₄
                (stands.3) (stands.4) (omega arith) (omega arith)
                (omega (arith, room, ap (end_of_all vs) off)) (omega arith) body))
    walk-Walks (array_of info elem vs) (suc fuel) p id b stands named enough fits limit =
        let (b₁, run, x, small, aligned, room, limit₁) =
          start (array_of info elem vs) b fits limit in
        walk-of_class fuel c (array_of info elem vs) info p id b b₁ (stands.1.0) run x small (
          array_of-Writes fuel c info elem vs p b₁ stands aligned room limit₁ (λ b₄ off size.
            elems-Walked vs fuel p info.header_size (stands.0.id) 0 b₄ (stands.6) (stands.4)
              (omega arith) (omega (arith, room, ap (end_of_all vs) off)) (omega arith)))
    walk-Walks (scalars info n content) (suc fuel) p id b stands named enough fits limit =
        let (b₁, run, x, small, aligned, room, limit₁) =
          start (scalars info n content) b fits limit in
        walk-of_class fuel c (scalars info n content) info p id b b₁ (stands.1.0) run x small
          (walk_class-scalars (walk fuel c) c info n p content b₁ stands aligned room limit₁)
    walk-Walks (chars info n utf16 utf8) (suc fuel) p id b stands named enough fits limit =
        let (b₁, run, x, small, aligned, room, limit₁) =
          start (chars info n utf16 utf8) b fits limit in
        walk-of_class fuel c (chars info n utf16 utf8) info p id b b₁ (stands.1.0) run x small
          (walk_class-chars (walk fuel c) c info n p utf16 utf8 b₁ stands aligned room limit₁)

    fields-Walked :
        (vs : Values) (fs : List FieldInfo) (fuel base addr lo size : ℕ) (b : RwBuffer)
        → IsLaidOut lo size fs
        → StandFields c vs fs addr
        → depth_all vs ≤ fuel
        → base + size ≤ b.off
        → end_of_all vs b.off ≤ b.size
        → b.size < 2 ^ 32
        → ((i : ℕ) → lo ≤ i → i < size → b.bytes (base + i) ≡ c.jvm.mem (addr + i))
        → (b' : RwBuffer) × (walk_fields (walk fuel c) c base fs b ≡ ok b')
          × FieldsWalked c vs fs base lo size b b'
    fields-Walked end [] fuel base addr lo size b laid stand enough behind fits limit body = (
      b,
      refl,
      record {
        off = refl;
        size_kept = refl;
        front = λ a h. refl;
        between = λ a h h'. refl;
        wire = tt;
      },
    )
    fields-Walked end (f ∷ fs) fuel base addr lo size b laid stand enough behind fits limit body =
        elim stand [ ]
    fields-Walked (scalar n vs) [] fuel base addr lo size b laid stand enough behind fits limit
          body =
        elim stand [ ]
    fields-Walked (scalar n vs) (f ∷ fs) fuel base addr lo size b laid (prim, held, stand) enough
          behind fits limit body =
        let (b', run, done) =
          fields-Walked vs fs fuel base addr (f.offset + width f.type) size b (laid.2) stand enough
            behind fits limit (λ i l h. body i (omega (arith, laid.0)) h) in
        (
          b',
          walk_fields-cons fuel c base f fs b b b' (walk_field-scalar fuel c base f b prim) run,
          FieldsWalked-scalar c vs f fs n base addr lo size b b' laid prim held body done,
        )
    fields-Walked (member v vs) [] fuel base addr lo size b laid stand enough behind fits limit
          body =
        elim stand [ ]
    fields-Walked (member v vs) (f ∷ fs) fuel base addr lo size b laid
          (prim, ref, (q, ptr, there), stand) enough behind fits limit body =
        let four = reference_width f.type ref in
        let room : f.offset + 4 ≤ size =
          omega (arith, four, IsLaidOut-le (f.offset + width f.type) size fs (laid.2)) in
        let grows = end_of-le v (align b.off) in
        let more = end_of_all-le vs (end_of v (align b.off)) in
        let (b₁, run, x, wire) =
          walk-Walks v fuel q f.id b there (λ e. laid.1 ref) (omega arith) (omega (arith, more))
            limit in
        let b₂ : RwBuffer = record b₁ {
          bytes = write_at b₁.bytes (base + f.offset) (bytes_of 4 (align b.off));
        } in
        let slot = slot_read c b f base addr lo size (laid.0) room body in
        let (b₃, run₃, done) =
          fields-Walked vs fs fuel base addr (f.offset + width f.type) size b₂ (laid.2) stand
            (omega arith) (omega (arith, x.off, grows))
            (omega (arith, fits, ap (end_of_all vs) (x.off), x.size)) (omega (arith, x.size))
            (next_body c b b₁ v f base addr lo size x behind (laid.0) room four
              (omega (arith, grows, more)) body) in
        (
          b₃,
          walk_fields-cons fuel c base f fs b b₂ b₃
              (walk_field-member (walk fuel c) c base f b b₁ q (align b.off) prim ref
                (omega (arith, grows, more)) (x.size) (ap (parse_heap_cptr c.jvm) slot ∙ ptr) run)
              run₃,
          FieldsWalked-member c v vs f fs base lo size b b₁ b₃ laid prim ref behind
              (omega (arith, grows, more)) x wire done,
        )

    elems-Walked :
        (vs : Values) (fuel p header id i : ℕ) (b : RwBuffer)
        → StandElems c vs p header i
        → id < unregistered_class_id
        → depth_all vs ≤ fuel
        → end_of_all vs b.off ≤ b.size
        → b.size < 2 ^ 32
        → (b' : RwBuffer) × (walk_elems (walk fuel c) c p header id (count vs) i b ≡ ok b')
          × Extends b (end_of_all vs b.off) b'
          × WireElems c.resolver b'.bytes id vs b.off
    elems-Walked end fuel p header id i b stand named enough fits limit =
        (b, refl, record { off = refl; size = refl; below = λ a h. refl }, tt)
    elems-Walked (scalar n vs) fuel p header id i b stand named enough fits limit = elim stand [ ]
    elems-Walked (member v vs) fuel p header id i b ((q, ref, there), stand) named enough fits
          limit =
        let grows = end_of-le v (align b.off) in
        let more = end_of_all-le vs (end_of v (align b.off)) in
        let (b₁, run, x, wire) =
          walk-Walks v fuel q id b there (λ e. named) (omega arith) (omega (arith, more)) limit in
        let (b₂, run₂, y, rest) =
          elems-Walked vs fuel p header id (suc i) b₁ stand named (omega arith)
            (omega (arith, fits, ap (end_of_all vs) (x.off), x.size)) (omega (arith, x.size)) in
        let z = Extends-trans x y (omega (arith, x.off, grows)) in
        (
          b₂,
          walk_elems-cons fuel c p header id (count vs) i q (align b.off) b b₁ b₂ ref run run₂,
          record { off = z.off ∙ ap (end_of_all vs) (x.off); size = z.size; below = z.below },
          (
            Wire-same c.resolver b₁.bytes b₂.bytes id v (align b.off)
                (λ a l h. y.below a (omega (arith, x.off))) wire,
            subst (WireElems c.resolver b₂.bytes id vs) (x.off) rest,
          ),
        )

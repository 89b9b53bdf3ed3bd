-- ===== src/Serde/Cycle.antt =====
-- lib/sd/native/object_walker.cxx on an object that refers to itself: the map of visited objects is
-- commented out.
use dshuffle.Prelude.{
  ℕ, zero, suc, ◌+◌, ◌-◌, ◌%◌, ◌≤◌, ◌≡◌, ◌≢◌, sym, ap, ◌∙◌, subst, true, false, inl, inr,
  Bool-cases, ◌==◌, ◌&&◌, leb, ltb, if◌then◌else◌, List, ◌∷◌, length, get_or, arith,
}
use dshuffle.Prelude.Outcome.{ok, ◌>>=◌, check-ok, bind-ok}
use dshuffle.Prelude.Bytes.{read_at, write_at, length-read_at}
use dshuffle.Prelude.Words.{word, word-shift}
use dshuffle.Serde.Types.{is_primitive_type, is_reference_type, object_flag}
use dshuffle.Serde.Classes.{FieldInfo, ClassInfo, unregistered_class_id}
use dshuffle.Serde.Info.{is_enum, is_object, object_body_size}
use dshuffle.Serde.FakeObject.{parse_heap_cptr, raw}
use dshuffle.Serde.RwBuffer.{RwBuffer, put, put_value, get_at, fill_next_align_8, skip}
use dshuffle.Serde.Walker.{
  Context, walk, walk_member, walk_field, walk_fields, do_walk_object, walk_class, walk_null,
  class_of, walk_root,
}
use dshuffle.Serde.Mirror.{put-ok, read_at-get_or}

-- The object at the address is no enum constant, and its first field refers to the object.
pub record IsCyclic (c : Context) (info : ClassInfo) (f : FieldInfo) (fs : List FieldInfo) (p : ℕ)
    : Type 0 where
  pub there : p ≢ 0
  pub class : class_of c p ≡ ok info
  pub instance_class : is_enum info ≡ false
  pub dim : info.dim ≡ 0
  pub fields : info.fields ≡ f ∷ fs
  pub reference : is_primitive_type f.type ≡ false
  pub inside : f.offset + 4 ≤ object_body_size info
  pub itself : parse_heap_cptr c.jvm (word c.jvm.mem 4 (raw p info.header_size + f.offset)) ≡ ok p

-- A slot of the body that was copied.
body-slot :
    (heap : ℕ → ℕ) (b b' : RwBuffer) (addr n o : ℕ)
    → put b (read_at heap addr n) ≡ ok b'
    → o + 4 ≤ n
    → word b'.bytes 4 (b.off + o) ≡ word heap 4 (addr + o)
body-slot heap b b' addr n o run fits =
    let src = read_at heap addr n in
    let (_, made) = put-ok b b' src run in
    let len = length-read_at heap addr n in
    ap (λ (x : RwBuffer). word x.bytes 4 (b.off + o)) made
    ∙ word-shift (write_at b.bytes b.off src) heap 4 (b.off + o) (addr + o) (λ i h.
      let a = b.off + o + i in
      let within : leb b.off a && ltb a (b.off + length src) ≡ true = ground (arith, len) in
      let index : a - b.off ≡ o + i = omega arith in
      let place : addr + (o + i) ≡ addr + o + i = omega arith in
      ap (λ t. if t then get_or src (a - b.off) 0 else b.bytes a) within
      ∙ ap (λ j. get_or src j 0) index
      ∙ read_at-get_or heap addr n (o + i) (omega arith)
      ∙ ap heap place)

get_at-word : (b : RwBuffer) (v at : ℕ) → get_at 4 b at ≡ ok v → word b.bytes 4 at ≡ v
unfolding get_at
get_at-word b v at run = elim (Bool-cases (leb (at + 4) b.size)) [
  | inl fits ↦ (let e = rw fits at run in ground arith)
  | inr over ↦ absurd (let e = rw over at run in ground arith)
]

ok-same : (q p : ℕ) → ok q ≡ ok p → q ≡ p
ok-same q p e = ground (arith, e)

module _ (c : Context) (info : ClassInfo) (f : FieldInfo) (fs : List FieldInfo) (p : ℕ)
    (cyclic : IsCyclic c info f fs p) where
  -- The first field is found in the copied body, and the walk starts again with less fuel.
  field-again :
      (fuel base : ℕ) (b b' : RwBuffer)
      → word b.bytes 4 (base + f.offset) ≡ word c.jvm.mem 4 (raw p info.header_size + f.offset)
      → walk_field (walk fuel c) c base f b ≡ ok b'
      → (r : ℕ × RwBuffer) × (walk fuel c b p f.id ≡ ok r)
  unfolding walk_field walk_member
  field-again fuel base b b' slot run =
      let member = rw cyclic.reference at run in
      let member' = check-ok (is_reference_type f.type) _ b' member in
      let (cptr, got, run₁) = bind-ok _ _ b' member' in
      let (q, parsed, run₂) = bind-ok _ _ b' run₁ in
      let (r, again, _) = bind-ok _ _ b' run₂ in
      let read = sym (get_at-word b cptr (base + f.offset) got) ∙ slot in
      let same = sym parsed ∙ ap (parse_heap_cptr c.jvm) read ∙ cyclic.itself in
      (r, subst (λ x. walk fuel c b x f.id ≡ ok r) (ok-same q p same) again)

  fields-again :
      (fuel base : ℕ) (b b' : RwBuffer)
      → word b.bytes 4 (base + f.offset) ≡ word c.jvm.mem 4 (raw p info.header_size + f.offset)
      → walk_fields (walk fuel c) c base info.fields b ≡ ok b'
      → (r : ℕ × RwBuffer) × (walk fuel c b p f.id ≡ ok r)
  unfolding walk_fields
  fields-again fuel base b b' slot run =
      let walked = ap (λ xs. walk_fields (walk fuel c) c base xs b) (sym (cyclic.fields)) ∙ run in
      let (b₁, first, _) =
        bind-ok (walk_field (walk fuel c) c base f b) (walk_fields (walk fuel c) c base fs) b'
          walked in
      field-again fuel base b b₁ slot first

  object-again :
      (fuel : ℕ) (b b' : RwBuffer)
      → do_walk_object (walk fuel c) c p info b ≡ ok b'
      → (b₄ : RwBuffer) × (r : ℕ × RwBuffer) × (walk fuel c b₄ p f.id ≡ ok r)
  unfolding do_walk_object
  object-again fuel b b' run =
      let run₀ = check-ok (b.off % 8 == 0) _ b' run in
      let (b₁, _, rest₁) = bind-ok (put_value 2 b info.id) _ b' run₀ in
      let (b₂, _, rest₂) = bind-ok (put_value 2 b₁ object_flag) _ b' rest₁ in
      let (b₃, _, rest₃) = bind-ok (fill_next_align_8 b₂) _ b' rest₂ in
      let (b₄, copied, rest₄) = bind-ok _ _ b' rest₃ in
      let slot =
        body-slot c.jvm.mem b₃ b₄ (raw p info.header_size) (object_body_size info) f.offset copied
          (cyclic.inside) in
      let (r, again) = fields-again fuel b₃.off b₄ b' slot rest₄ in (b₄, r, again)

  class-again :
      (fuel id : ℕ) (b b' : RwBuffer)
      → (if p == 0 then walk_null id b else class_of c p >>= λ i. walk_class (walk fuel c) c p i b)
        ≡ ok b'
      → do_walk_object (walk fuel c) c p info b ≡ ok b'
  unfolding walk_class is_object
  class-again fuel id b b' run =
      let some_object : (p == 0) ≡ false = (let t = cyclic.there in ground (arith, t)) in
      let object : (info.dim == 0) ≡ true = (let d = cyclic.dim in ground (arith, d)) in
      rw (some_object, cyclic.class, cyclic.instance_class, object) at run

  walk-never : (fuel : ℕ) (b : RwBuffer) (id : ℕ) (r : ℕ × RwBuffer) → walk fuel c b p id ≢ ok r
  unfolding walk
  walk-never zero b id r run = absurd (ground arith)
  walk-never (suc fuel) b id r run =
      let (b₁, _, rest) = bind-ok (fill_next_align_8 b) _ r run in
      let (b₂, found, _) =
        bind-ok
          (if p == 0
            then walk_null id b₁
            else class_of c p >>= λ i. walk_class (walk fuel c) c p i b₁)
          _ r rest in
      let (b₄, r', again) = object-again fuel b₁ b₂ (class-again fuel id b₁ b₂ found) in
      walk-never fuel b₄ f.id r' again

  -- For an instance of a class that is no enum whose first field is a reference, read from its body,
  -- to the object itself: with no fuel and into no buffer does the walker end in a result, since the
  -- map of visited objects is not consulted.
  pub walk_root-never :
      (fuel : ℕ) (out : RwBuffer) (r : ℕ × RwBuffer) → walk_root fuel c p out ≢ ok r
  unfolding walk_root
  walk_root-never fuel out r run =
      let (r', walked, _) = bind-ok _ _ r run in
      walk-never fuel (skip (record out { off = 0 }) 8) unregistered_class_id r' walked

-- ===== src/Serde/MirrorWalk.antt =====
-- The kernel's serializer beside the host's walker: where the walker ends, the serializer ends with the
-- same bytes.
use dshuffle.Prelude.{
  ℕ, ◌+◌, ◌%◌, ◌^◌, ◌≤◌, ◌<◌, ◌≡◌, refl, ap, ◌∙◌, subst, false, inl, inr, Bool-cases, List, [], ◌∷◌,
  some, arith,
}
use dshuffle.Prelude.Outcome.{Outcome, ok, ◌>>=◌, check-ok, bind-ok}
use dshuffle.Serde.Types.{is_primitive_type, is_reference_type}
use dshuffle.Serde.Classes.{FieldInfo, ClassInfo, get_class_info}
use dshuffle.Serde.ClassLaws.{IsSorted}
use dshuffle.Serde.FakeObject.{parse_heap_cptr}
use dshuffle.Serde.RwBuffer.{RwBuffer}
use dshuffle.Serde.Walker.{Context, Walk, walk_member, walk_field, walk_fields}
use dshuffle.Serde.DeviceBuffer.{Buffer, put_word_at, get_word_at}
use dshuffle.Serde.Serialize.{Globals, Recur, serialize_member, serialize_field, serialize_fields}
use dshuffle.Serde.Mirror.{Mirrors, Mirrors-put_word_at, Mirrors-get_at, get_at-inside}

-- The heap as the kernel takes it to be: objects on multiples of 8, headers on multiples of 4, and the
-- classes in the order of their pointers; no conversion of characters is asked for.
pub record IsShared (c : Context) : Type 0 where
  pub plain : c.enable_utf16_to_utf8 ≡ false
  pub sorted : IsSorted c.resolver.info_by_klass
  pub heap : (cptr q : ℕ) → parse_heap_cptr c.jvm cptr ≡ ok q → (q % 8 ≡ 0) × (q < 2 ^ 62)
  pub headers :
      (klass : ℕ) (info : ClassInfo)
      → get_class_info c.resolver.info_by_klass klass ≡ some info
      → (info.header_size % 4 ≡ 0) × (4 ≤ info.header_size) × (info.header_size < 2 ^ 8)

-- `meta_idx` and `jvm_args` as the host sends them
abbrev pub globals : Context → Globals
globals c = record { jvm_args = c.jvm; class_infos_by_klass = c.resolver.info_by_klass }

abbrev pub Follows : Context → RwBuffer → ℕ → Outcome Buffer → Type 0
Follows c b' p run = (k' : Buffer) × (run ≡ ok k') × Mirrors c.jvm.mem b' k' × (k'.p ≡ p)

abbrev pub IsObject : ℕ → Type 0
IsObject obj = (obj % 8 ≡ 0) × (obj < 2 ^ 62)

-- The serializer follows the walker on every object.
abbrev pub FollowsWalk : Context → Walk → Recur → Type 0
FollowsWalk c host recur =
    (b b' : RwBuffer) (k : Buffer) (obj id m : ℕ)
    → Mirrors c.jvm.mem b k
    → IsObject obj
    → host b obj id ≡ ok (m, b')
    → (k' : Buffer) × (recur k obj id ≡ ok (m, k')) × Mirrors c.jvm.mem b' k' × (k'.p ≡ k.p)

member-run :
    (recur : Recur) (g : Globals) (base : ℕ) (f : FieldInfo) (k k₁ : Buffer) (cptr q at : ℕ)
    → (base + f.offset) % 2 ^ 32 ≡ base + f.offset
    → get_word_at 4 k (base + f.offset) ≡ cptr
    → parse_heap_cptr g.jvm_args cptr ≡ ok q
    → recur k q f.id ≡ ok (at, k₁)
    → serialize_member recur g base f k ≡ ok (put_word_at 4 k₁ at (base + f.offset))
unfolding serialize_member
member-run recur g base f k k₁ cptr q at short slot parsed run = rw (short, slot, parsed, run)

module _ (c : Context) (shared : IsShared c) (host : Walk) (recur : Recur)
    (ih : FollowsWalk c host recur) where
  member-Follows :
      (base : ℕ) (f : FieldInfo) (b b' : RwBuffer) (k : Buffer)
      → Mirrors c.jvm.mem b k
      → walk_member host c base f b ≡ ok b'
      → Follows c b' k.p (serialize_member recur (globals c) base f k)
  unfolding walk_member put_word_at
  member-Follows base f b b' k m run =
      let run₁ = check-ok (is_reference_type f.type) _ b' run in
      let (cptr, got, run₂) = bind-ok _ _ b' run₁ in
      let (q, parsed, run₃) = bind-ok _ _ b' run₂ in
      let (r, walked, patched) = bind-ok _ _ b' run₃ in
      let (k₁, run_k, m₁, p₁) = ih b (r.1) k q f.id (r.0) m (shared.heap cptr q parsed) walked in
      let inside = get_at-inside b 4 cptr (base + f.offset) got in
      let short : (base + f.offset) % 2 ^ 32 ≡ base + f.offset = omega (arith, inside, m.small) in
      let slot = Mirrors-get_at c.jvm.mem b k cptr (base + f.offset) m got in
      (
        put_word_at 4 k₁ (r.0) (base + f.offset),
        member-run recur (globals c) base f k k₁ cptr q (r.0) short slot parsed run_k,
        Mirrors-put_word_at c.jvm.mem 4 (r.1) b' k₁ (r.0) (base + f.offset) m₁ patched,
        p₁,
      )

  field-Follows :
      (base : ℕ) (f : FieldInfo) (b b' : RwBuffer) (k : Buffer)
      → Mirrors c.jvm.mem b k
      → walk_field host c base f b ≡ ok b'
      → Follows c b' k.p (serialize_field recur (globals c) base f k)
  unfolding walk_field serialize_field
  field-Follows base f b b' k m run = elim (Bool-cases (is_primitive_type f.type)) [
    | inl prim ↦
        let same : b ≡ b' = (let e = rw prim at run in ground arith) in
        rw prim (k, refl, subst (λ (x : RwBuffer). Mirrors c.jvm.mem x k) same m, refl)
    | inr other ↦ rw other (member-Follows base f b b' k m (rw other at run))
  ]

  pub fields-Follows :
      (fs : List FieldInfo) (base : ℕ) (b b' : RwBuffer) (k : Buffer)
      → Mirrors c.jvm.mem b k
      → walk_fields host c base fs b ≡ ok b'
      → Follows c b' k.p (serialize_fields recur (globals c) base fs k)
  unfolding walk_fields serialize_fields
  fields-Follows [] base b b' k m run =
      let same : b ≡ b' = ground arith in
      (k, refl, subst (λ (x : RwBuffer). Mirrors c.jvm.mem x k) same m, refl)
  fields-Follows (f ∷ fs) base b b' k m run =
      let (b₁, first, rest) = bind-ok _ _ b' run in
      let (k₁, run₁, m₁, p₁) = field-Follows base f b b₁ k m first in
      let (k₂, run₂, m₂, p₂) = fields-Follows fs base b₁ b' k₁ m₁ rest in
      (k₂, ap (λ x. x >>= serialize_fields recur (globals c) base fs) run₁ ∙ run₂, m₂, p₂ ∙ p₁)

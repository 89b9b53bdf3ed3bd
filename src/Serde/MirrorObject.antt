-- ===== src/Serde/MirrorObject.antt =====
-- The kernel's serializer beside the host's walker on a whole object.
use dshuffle.Prelude.{
  ℕ, ◌+◌, ◌%◌, ◌^◌, ◌≤◌, ◌<◌, ◌≡◌, ◌≢◌, refl, sym, ap, ◌∙◌, subst, inl, inr, Bool-cases, ◌==◌, not,
  arith,
}
use dshuffle.Prelude.Outcome.{ok, check-ok, bind-ok}
use dshuffle.Prelude.Bytes.{read_at}
use dshuffle.Prelude.Words.{word}
use dshuffle.Kernel.CopyLaws.{IsWordAligned}
use dshuffle.Serde.Types.{null_flag, enum_flag, object_flag}
use dshuffle.Serde.Classes.{ClassInfo, unregistered_class_id}
use dshuffle.Serde.FakeObject.{raw, klass_pointer, enum_ordinal, parse_at, parse_metaspace_cptr}
use dshuffle.Serde.RwBuffer.{RwBuffer}
use dshuffle.Serde.RwBuffer as Host
use dshuffle.Serde.Walker.{Context, walk_null, walk_enum}
use dshuffle.Serde.DeviceBuffer.{Buffer, h2d, put_word, put}
use dshuffle.Serde.Serialize.{serialize_enum, parse_u32_at, get_klass_pointer, get_enum_ordinal}
use dshuffle.Serde.Mirror.{Mirrors, Mirrors-put_word, Mirrors-copy, window-word}
use dshuffle.Serde.MirrorWalk.{globals, Follows, IsObject}

-- The same word of an object through the window and in the JVM.
pub window_u32 :
    (c : Context) (b : RwBuffer) (k : Buffer) (obj offset : ℕ)
    → Mirrors c.jvm.mem b k
    → IsObject obj
    → parse_u32_at k (h2d obj) offset ≡ parse_at 4 c.jvm obj offset
unfolding parse_u32_at h2d parse_at raw
window_u32 c b k obj offset m (_, low) =
    let l : obj % 2 ^ 63 + 2 ^ 63 + offset % 2 ^ 32 ≡ 2 ^ 63 + (obj + offset % 2 ^ 32) =
      omega arith in
    let r : obj + offset % 2 ^ 32 ≡ (obj + offset % 2 ^ 32) % 2 ^ 64 = omega arith in
    ap (word k.mem 4) l
    ∙ window-word c.jvm.mem b k 4 (obj + offset % 2 ^ 32) m (omega arith)
    ∙ ap (word c.jvm.mem 4) r

pub klass_pointer-window :
    (c : Context) (b : RwBuffer) (k : Buffer) (obj : ℕ)
    → Mirrors c.jvm.mem b k
    → IsObject obj
    → get_klass_pointer (globals c) k (h2d obj) ≡ klass_pointer c.jvm obj
unfolding get_klass_pointer klass_pointer
klass_pointer-window c b k obj m is = ap (parse_metaspace_cptr c.jvm) (window_u32 c b k obj 8 m is)

abbrev pub IsHeader : ClassInfo → Type 0
IsHeader info = (info.header_size % 4 ≡ 0) × (4 ≤ info.header_size) × (info.header_size < 2 ^ 8)

-- The copy of `n` bytes behind the header of an object.
pub body-Follows :
    (c : Context) (info : ClassInfo) (b b' : RwBuffer) (k : Buffer) (obj n d_src : ℕ)
    → Mirrors c.jvm.mem b k
    → IsObject obj
    → IsHeader info
    → b.off % 8 ≡ 0
    → n < 2 ^ 32
    → d_src ≡ 2 ^ 63 + (obj + info.header_size)
    → Host.put b (read_at c.jvm.mem (raw obj info.header_size) n) ≡ ok b'
    → Follows c b' k.p (put k d_src n)
unfolding raw
body-Follows c info b b' k obj n d_src m (aligned, low) (four, _, small) at_8 short src run =
    let addr : (obj + info.header_size % 2 ^ 32) % 2 ^ 64 ≡ obj + info.header_size = omega arith in
    let words : IsWordAligned (obj + info.header_size) =
      word_aligned obj info.header_size aligned four in
    subst (λ s. Follows c b' k.p (put k s n)) (sym src)
      (Mirrors-copy c.jvm.mem b b' k (obj + info.header_size) n m
        (ap (λ a. Host.put b (read_at c.jvm.mem a n)) (sym addr) ∙ run) (omega arith) words at_8)
  where
    word_aligned : (o h : ℕ) → o % 8 ≡ 0 → h % 4 ≡ 0 → IsWordAligned (o + h)
    word_aligned o h a f = elim (Bool-cases (h % 8 == 0)) [
      | inl e ↦ inl (let z : h % 8 ≡ 0 = ground arith in omega (arith, z))
      | inr e ↦ inr (let z : h % 8 ≢ 0 = ground arith in ground (arith, z))
    ]

pub enum-Follows :
    (c : Context) (info : ClassInfo) (b b' : RwBuffer) (k : Buffer) (obj : ℕ)
    → Mirrors c.jvm.mem b k
    → IsObject obj
    → walk_enum c obj info b ≡ ok b'
    → Follows c b' k.p (ok (serialize_enum obj info k))
unfolding walk_enum serialize_enum get_enum_ordinal enum_ordinal put_word
enum-Follows c info b b' k obj m is run =
    let heap = c.jvm.mem in
    let (b₁, run₁, rest₁) = bind-ok _ _ b' run in
    let (b₂, run₂, rest₂) = bind-ok _ _ b' rest₁ in
    let (b₃, run₃, rest₃) = bind-ok _ _ b' rest₂ in
    let e = check-ok (b₃.off % 8 == 0) (ok b₃) b' rest₃ in
    let same : b₃ ≡ b' = ground (arith, e) in
    let m₁ = Mirrors-put_word heap 2 b b₁ k info.id m run₁ in
    let k₁ = put_word 2 k info.id in
    let m₂ = Mirrors-put_word heap 2 b₁ b₂ k₁ (enum_flag + object_flag) m₁ run₂ in
    let k₂ = put_word 2 k₁ (enum_flag + object_flag) in
    let m₃ = Mirrors-put_word heap 4 b₂ b₃ k₂ (parse_at 4 c.jvm obj 12) m₂ run₃ in
    let ordinal = window_u32 c b₂ k₂ obj 12 m₂ is in
    (
      put_word 4 k₂ (parse_u32_at k₂ (h2d obj) 12),
      refl,
      subst (λ v. Mirrors heap b' (put_word 4 k₂ v)) (sym ordinal)
          (subst (λ (x : RwBuffer). Mirrors heap x (put_word 4 k₂ (parse_at 4 c.jvm obj 12))) same
            m₃),
      refl,
    )

pub null-Follows :
    (c : Context) (id : ℕ) (b b' : RwBuffer) (k : Buffer)
    → Mirrors c.jvm.mem b k
    → walk_null id b ≡ ok b'
    → Follows c b' k.p (ok (put_word 2 (put_word 2 k id) null_flag))
unfolding walk_null put_word
null-Follows c id b b' k m run =
    let rest = check-ok (not (id == unregistered_class_id)) _ b' run in
    let (b₁, run₁, run₂) = bind-ok _ _ b' rest in
    (
      put_word 2 (put_word 2 k id) null_flag,
      refl,
      Mirrors-put_word c.jvm.mem 2 b₁ b' (put_word 2 k id) null_flag
          (Mirrors-put_word c.jvm.mem 2 b b₁ k id m run₁) run₂,
      refl,
    )

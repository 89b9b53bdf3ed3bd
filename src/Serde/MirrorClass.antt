-- ===== src/Serde/MirrorClass.antt =====
-- The kernel's serializer beside the host's walker on the objects and arrays of a class.
use dshuffle.Prelude.{
  ℕ, zero, suc, ◌+◌, ◌-◌, ◌*◌, ◌%◌, ◌^◌, ◌≡◌, refl, ap, ◌∙◌, subst, inl, inr, Bool-cases, ◌==◌,
  if◌then◌else◌, arith,
}
use dshuffle.Prelude.Outcome.{ok, undefined, ◌>>=◌, check-ok, bind-ok}
use dshuffle.Serde.Types.{
  t_char, is_primitive_type, is_reference_type, type_size, object_flag, array_flag,
}
use dshuffle.Serde.Classes.{FieldInfo, ClassInfo}
use dshuffle.Serde.Info.{is_enum, is_array, is_object, get_field, object_body_size, array_body_size}
use dshuffle.Serde.FakeObject.{parse_heap_cptr, array_length, array_elem_ref, parse_at}
use dshuffle.Serde.RwBuffer.{RwBuffer}
use dshuffle.Serde.Walker.{
  Context, Walk, do_walk_object, walk_elems, walk_scalars, do_walk_array, walk_class,
}
use dshuffle.Serde.DeviceBuffer.{Buffer, h2d, cur_off, put_word, put, fill_next_align_8}
use dshuffle.Serde.Serialize.{
  Recur, serialize_fields, serialize_object, serialize_elems, serialize_scalars, serialize_array,
  serialize_class, get_array_length, get_array_elem_cptr,
}
use dshuffle.Serde.Mirror.{Mirrors, Mirrors-put_word, cur_off_lem}
use dshuffle.Serde.MirrorFill.{Mirrors-fill}
use dshuffle.Serde.MirrorWalk.{IsShared, globals, Follows, IsObject, FollowsWalk, fields-Follows}
use dshuffle.Serde.MirrorObject.{window_u32, IsHeader, body-Follows, enum-Follows}
use dshuffle.Serde.SerializeRuns.{
  h2d-upper, h2d-beside, elems-run, scalars-run, array-run, plain_run,
}

module _ (c : Context) (shared : IsShared c) (host : Walk) (recur : Recur)
    (ih : FollowsWalk c host recur) where
  -- The head of an object or an array: the id, the flag, and for an array the length.
  object-Follows :
      (info : ClassInfo) (b b' : RwBuffer) (k : Buffer) (obj : ℕ)
      → Mirrors c.jvm.mem b k
      → IsObject obj
      → IsHeader info
      → do_walk_object host c obj info b ≡ ok b'
      → Follows c b' k.p (serialize_object recur (globals c) obj info k)
  unfolding do_walk_object serialize_object object_body_size put_word
  object-Follows info b b' k obj m is header run =
      let heap = c.jvm.mem in
      let n = (info.obj_size + 2 ^ 32 - info.header_size) % 2 ^ 32 in
      let run₀ = check-ok (b.off % 8 == 0) _ b' run in
      let (b₁, run₁, rest₁) = bind-ok _ _ b' run₀ in
      let (b₂, run₂, rest₂) = bind-ok _ _ b' rest₁ in
      let (b₃, run₃, rest₃) = bind-ok _ _ b' rest₂ in
      let (b₄, run₄, rest₄) = bind-ok _ _ b' rest₃ in
      let k₂ = put_word 2 (put_word 2 k info.id) object_flag in
      let m₂ =
        Mirrors-put_word heap 2 b₁ b₂ (put_word 2 k info.id) object_flag
          (Mirrors-put_word heap 2 b b₁ k info.id m run₁) run₂ in
      let (m₃, p₃, at_8) = Mirrors-fill heap b₂ b₃ k₂ m₂ run₃ in
      let (k₄, copy, m₄, p₄) =
        body-Follows c info b₃ b₄ (fill_next_align_8 k₂) obj n (h2d (obj + info.header_size)) m₃ is
          header at_8 (omega arith) (h2d-upper obj info is header) run₄ in
      let (k₅, last, m₅, p₅) =
        fields-Follows c shared host recur ih info.fields (b₃.off) b₄ b' k₄ m₄ rest₄ in
      let base = cur_off_lem heap b₃ (fill_next_align_8 k₂) m₃ in
      (
        k₅,
        ap
              (λ x.
                x
                >>= serialize_fields recur (globals c) (cur_off (fill_next_align_8 k₂)) info.fields)
              copy
            ∙ ap (λ o. serialize_fields recur (globals c) o info.fields k₄) base
            ∙ last,
        m₅,
        p₅ ∙ p₄ ∙ p₃,
      )

  elem-window :
      (obj header i : ℕ) (b : RwBuffer) (k : Buffer)
      → Mirrors c.jvm.mem b k
      → IsObject obj
      → parse_heap_cptr c.jvm (get_array_elem_cptr k (h2d obj) header i)
        ≡ array_elem_ref c.jvm obj header i
  unfolding get_array_elem_cptr array_elem_ref
  elem-window obj header i b k m is =
      ap (parse_heap_cptr c.jvm) (window_u32 c b k obj (header + i * 4) m is)

  elem_ref :
      (obj header i q : ℕ)
      → array_elem_ref c.jvm obj header i ≡ ok q
      → parse_heap_cptr c.jvm (parse_at 4 c.jvm obj (header + i * 4)) ≡ ok q
  unfolding array_elem_ref
  elem_ref obj header i q e = e

  elems-Follows :
      (n i obj header id : ℕ) (b b' : RwBuffer) (k : Buffer)
      → Mirrors c.jvm.mem b k
      → IsObject obj
      → walk_elems host c obj header id n i b ≡ ok b'
      → Follows c b' k.p (serialize_elems recur (globals c) (h2d obj) header id n i k)
  unfolding walk_elems serialize_elems
  elems-Follows zero i obj header id b b' k m is run =
      let same : b ≡ b' = ground arith in
      (k, refl, subst (λ (x : RwBuffer). Mirrors c.jvm.mem x k) same m, refl)
  elems-Follows (suc n) i obj header id b b' k m is run =
      let (q, got, rest) = bind-ok _ _ b' run in
      let (r, walked, rest₁) = bind-ok _ _ b' rest in
      let read = elem-window obj header i b k m is ∙ got in
      let (k₁, run₁, m₁, p₁) =
        ih b (r.1) k q id (r.0) m
          (shared.heap (parse_at 4 c.jvm obj (header + i * 4)) q (elem_ref obj header i q got))
          walked in
      let (k₂, run₂, m₂, p₂) = elems-Follows n (suc i) obj header id (r.1) b' k₁ m₁ is rest₁ in
      (
        k₂,
        elems-run recur (globals c) (h2d obj) header id n i k k₁ q (r.0) (ok k₂) read run₁ run₂,
        m₂,
        p₂ ∙ p₁,
      )

  scalars-Follows :
      (info : ClassInfo) (elem : FieldInfo) (n obj : ℕ) (b b' : RwBuffer) (k : Buffer)
      → Mirrors c.jvm.mem b k
      → IsObject obj
      → IsHeader info
      → b.off % 8 ≡ 0
      → get_field info 0 ≡ ok elem
      → walk_scalars c obj info elem n b ≡ ok b'
      → Follows c b' k.p (serialize_scalars (h2d obj) info elem n k)
  unfolding walk_scalars serialize_scalars array_body_size
  scalars-Follows info elem n obj b b' k m is header at_8 first run =
      let run₁ = check-ok (info.dim == 1) _ b' run in
      let run₂ = plain_run (elem.type == t_char) c.enable_utf16_to_utf8 _ _ (shared.plain) run₁ in
      let run₃ = rw first at run₂ in
      let (size, sized, run₄) = bind-ok _ _ b' run₃ in
      let (s, width, run₅) = bind-ok (type_size elem.type) (λ s. ok (n * s % 2 ^ 32)) size sized in
      let len : n * s % 2 ^ 32 ≡ size = ground (arith, run₅) in
      let (k₁, run_k, m₁, p₁) =
        body-Follows c info b b' k obj size (h2d obj + info.header_size) m is header at_8
          (omega (arith, len)) (h2d-beside obj info is) run₄ in
      (
        k₁,
        scalars-run elem.type s n size (λ x. put k (h2d obj + info.header_size) x) (ok k₁) width len
            run_k,
        m₁,
        p₁,
      )

  contents-Follows :
      (info : ClassInfo) (elem : FieldInfo) (n obj : ℕ) (b b' : RwBuffer) (k : Buffer)
      → Mirrors c.jvm.mem b k
      → IsObject obj
      → IsHeader info
      → b.off % 8 ≡ 0
      → get_field info 0 ≡ ok elem
      → (if is_reference_type elem.type
          then walk_elems host c obj info.header_size elem.id n 0 b
          else if is_primitive_type elem.type
          then walk_scalars c obj info elem n b
          else undefined)
        ≡ ok b'
      → Follows c b' k.p (
          if is_reference_type elem.type
          then serialize_elems recur (globals c) (h2d obj) info.header_size elem.id n 0 k
          else if is_primitive_type elem.type
          then serialize_scalars (h2d obj) info elem n k
          else ok k)
  contents-Follows info elem n obj b b' k m is header at_8 first run =
      elim (Bool-cases (is_reference_type elem.type)) [
        | inl holds ↦
            rw holds (elems-Follows n 0 obj info.header_size elem.id b b' k m is (rw holds at run))
        | inr fails ↦
            let run' = rw fails at run in
            rw fails (elim (Bool-cases (is_primitive_type elem.type)) [
              | inl prim ↦
                  rw prim (
                    scalars-Follows info elem n obj b b' k m is header at_8 first (rw prim at run'))
              | inr other ↦ absurd (let e = rw other at run' in ground arith)
            ])
      ]

  array-Follows :
      (info : ClassInfo) (b b' : RwBuffer) (k : Buffer) (obj : ℕ)
      → Mirrors c.jvm.mem b k
      → IsObject obj
      → IsHeader info
      → do_walk_array host c obj info b ≡ ok b'
      → Follows c b' k.p (serialize_array recur (globals c) obj info k)
  unfolding do_walk_array put_word array_length get_array_length
  array-Follows info b b' k obj m is header run =
      let heap = c.jvm.mem in
      let n = parse_at 4 c.jvm obj (info.header_size + 2 ^ 32 - 4) in
      let run₀ = check-ok (b.off % 8 == 0) _ b' run in
      let (b₁, run₁, rest₁) = bind-ok _ _ b' run₀ in
      let (b₂, run₂, rest₂) = bind-ok _ _ b' rest₁ in
      let (b₃, run₃, rest₃) = bind-ok _ _ b' rest₂ in
      let (b₄, run₄, rest₄) = bind-ok _ _ b' rest₃ in
      let (elem, first, rest₅) = bind-ok _ _ b' rest₄ in
      let k₂ = put_word 2 (put_word 2 k info.id) array_flag in
      let m₂ =
        Mirrors-put_word heap 2 b₁ b₂ (put_word 2 k info.id) array_flag
          (Mirrors-put_word heap 2 b b₁ k info.id m run₁) run₂ in
      let m₃ = Mirrors-put_word heap 4 b₂ b₃ k₂ n m₂ run₃ in
      let (m₄, p₄, at_8) = Mirrors-fill heap b₃ b₄ (put_word 4 k₂ n) m₃ run₄ in
      let length_k = window_u32 c b k obj (info.header_size + 2 ^ 32 - 4) m is in
      let (k₅, last, m₅, p₅) =
        contents-Follows info elem n obj b₄ b' (fill_next_align_8 (put_word 4 k₂ n)) m₄ is header
          at_8 first rest₅ in
      (k₅, array-run recur (globals c) obj info k n elem (ok k₅) length_k first last, m₅, p₅ ∙ p₄)

  pub class-Follows :
      (info : ClassInfo) (b b' : RwBuffer) (k : Buffer) (obj : ℕ)
      → Mirrors c.jvm.mem b k
      → IsObject obj
      → IsHeader info
      → walk_class host c obj info b ≡ ok b'
      → Follows c b' k.p (serialize_class recur (globals c) obj info k)
  unfolding walk_class serialize_class
  class-Follows info b b' k obj m is header run = elim (Bool-cases (is_enum info)) [
    | inl holds ↦ rw holds (enum-Follows c info b b' k obj m is (rw holds at run))
    | inr fails ↦
        let run₁ = rw fails at run in
        rw fails (elim (Bool-cases (is_object info)) [
          | inl holds ↦ rw holds (object-Follows info b b' k obj m is header (rw holds at run₁))
          | inr other ↦
              let run₂ = rw other at run₁ in
              rw other (elim (Bool-cases (is_array info)) [
                | inl holds ↦
                    rw holds (array-Follows info b b' k obj m is header (rw holds at run₂))
                | inr never ↦ absurd (let e = rw never at run₂ in ground arith)
              ])
        ])
  ]

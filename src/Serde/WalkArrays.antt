-- ===== src/Serde/WalkArrays.antt =====
-- Arrays in ObjectWalker: scalars as they are, characters converted, and the elements of the others.
use dshuffle.Prelude.{
  ℕ, ◌+◌, ◌*◌, ◌%◌, ◌^◌, ◌≤◌, ◌<◌, ◌≡◌, sym, ap, ◌∙◌, true, false, inl, inr, ◌⊎◌, ◌&&◌, leb, ◌==◌,
  List, [], ◌∷◌, length, arith,
}
use dshuffle.Prelude.Outcome.{Outcome, ok}
use dshuffle.Prelude.Bytes.{write_at, read_at, read_at-ext, length-read_at, read_at-write_at_self}
use dshuffle.Prelude.Words.{word}
use dshuffle.Serde.Types.{t_char, is_primitive_type, is_reference_type, array_flag}
use dshuffle.Serde.Classes.{FieldInfo, ClassInfo}
use dshuffle.Serde.Info.{is_array, is_object, get_field, array_body_size}
use dshuffle.Serde.FakeObject.{raw}
use dshuffle.Serde.RwBuffer.{RwBuffer, put_at, put_value, skip, fill_next_align_8}
use dshuffle.Serde.RwBufferLaws.{
  Extends, Extends-trans, Extends-word, put_lem, put_value32, write_at-other, put_value32_above,
}
use dshuffle.Serde.Walker.{
  Context, Walk, walk_scalars, cvt_utf16_to_utf8, walk_elems, do_walk_array, walk_class,
}
use dshuffle.Serde.Value.{scalars, chars, end_of}
use dshuffle.Serde.Wire.{width, IsArray, Stands}
use dshuffle.Serde.WalkLaws.{Writes, array_header, array_body_size_lem}

pub get_field_lem :
    (info : ClassInfo) (f : FieldInfo) → info.fields ≡ f ∷ [] → get_field info 0 ≡ ok f
unfolding get_field
get_field_lem info f fields = rw fields

-- What follows the header of an array.
pub walk_class-array :
    (walk : Walk) (c : Context) (p n : ℕ) (info : ClassInfo) (f : FieldInfo)
    (b b₁ b₂ b₃ b₄ : RwBuffer) (rest : Outcome RwBuffer)
    → IsArray c info f n p
    → b.off % 8 ≡ 0
    → put_value 2 b info.id ≡ ok b₁
    → put_value 2 b₁ array_flag ≡ ok b₂
    → put_value 4 b₂ n ≡ ok b₃
    → fill_next_align_8 b₃ ≡ ok b₄
    → ((is_reference_type f.type ≡ true)
        × (walk_elems walk c p info.header_size f.id n 0 b₄ ≡ rest))
      ⊎ ((is_reference_type f.type ≡ false)
          × (is_primitive_type f.type ≡ true)
          × (walk_scalars c p info f n b₄ ≡ rest))
    → walk_class walk c p info b ≡ rest
unfolding walk_class do_walk_array is_object is_array
walk_class-array walk c p n info f b b₁ b₂ b₃ b₄ rest (here, enum, dim, fields, size, small) aligned
      run₁ run₂ run₃ run₄ branch =
    let not_object : (info.dim == 0) ≡ false = ground (arith, dim) in
    let array : leb 1 info.dim ≡ true = ground (arith, dim) in
    elim branch [
      | inl (ref, run) ↦
          rw
            (
              enum,
              not_object,
              array,
              size,
              aligned,
              run₁,
              run₂,
              run₃,
              run₄,
              get_field_lem info f fields,
              ref,
            )
            run
      | inr (ref, prim, run) ↦
          rw
            (
              enum,
              not_object,
              array,
              size,
              aligned,
              run₁,
              run₂,
              run₃,
              run₄,
              get_field_lem info f fields,
              ref,
              prim,
            )
            run
    ]

primitive_not_reference : (t : ℕ) → is_primitive_type t ≡ true → is_reference_type t ≡ false
unfolding is_primitive_type is_reference_type
primitive_not_reference t h = ground arith

char_primitive : (t : ℕ) → t ≡ t_char → is_primitive_type t ≡ true
unfolding is_primitive_type
char_primitive t e = rw e

char_width : (t : ℕ) → t ≡ t_char → width t ≡ 2
unfolding width
char_width t e = rw e

pub walk_class-scalars :
    (walk : Walk) (c : Context) (info : ClassInfo) (n p : ℕ) (content : List ℕ) (b : RwBuffer)
    → Stands c (scalars info n content) p
    → b.off % 8 ≡ 0
    → b.off + 8 + length content ≤ b.size
    → b.size < 2 ^ 32
    → Writes c 0 (scalars info n content) b (walk_class walk c p info b)
unfolding walk_scalars end_of
walk_class-scalars walk c info n p content b (f, array, dim, prim, plain, small, held) aligned fits
      limit =
    let (here, enum, dims, fields, size, small_n) = array in
    let total = n * width f.type in
    let len : length content ≡ total =
      ap length held ∙ length-read_at c.jvm.mem (raw p info.header_size) total in
    let (b₁, b₂, b₃, b₄, run₁, run₂, run₃, run₄, x, w₁, w₂, w₃) =
      array_header b info.id n aligned (omega arith) limit (here.sound.small_id) small_n in
    let (b₅, run₅, y, same) = put_lem b₄ content (omega (arith, x.off, x.size)) in
    let z = Extends-trans x y (omega (arith, x.off)) in
    let one : (info.dim == 1) ≡ true = ground (arith, dim) in
    let body : walk_scalars c p info f n b₄ ≡ ok b₅ =
      rw (one, plain, array_body_size_lem info f n fields prim small, ← held) run₅ in
    (
      b₅,
      walk_class-array walk c p n info f b b₁ b₂ b₃ b₄ (ok b₅) array aligned run₁ run₂ run₃ run₄
          (inr (primitive_not_reference f.type prim, prim, body)),
      record { off = omega (arith, y.off, x.off); size = z.size; below = z.below },
      (
        f,
        (
          here.sound,
          enum,
          dims,
          fields,
          (
            Extends-word 2 b.off y (omega (arith, x.off)) ∙ w₁,
            Extends-word 2 (b.off + 2) y (omega (arith, x.off)) ∙ w₂,
          ),
          Extends-word 4 (b.off + 4) y (omega (arith, x.off)) ∙ w₃,
        ),
        dim,
        prim,
        small,
        len,
        ap (λ k. read_at b₅.bytes k total) (sym (x.off))
            ∙ ap (read_at b₅.bytes b₄.off) (sym len)
            ∙ same,
      ),
    )

pub walk_class-chars :
    (walk : Walk) (c : Context) (info : ClassInfo) (n p : ℕ) (utf16 utf8 : List ℕ) (b : RwBuffer)
    → Stands c (chars info n utf16 utf8) p
    → b.off % 8 ≡ 0
    → b.off + 16 + length utf8 ≤ b.size
    → b.size < 2 ^ 32
    → Writes c 0 (chars info n utf16 utf8) b (walk_class walk c p info b)
unfolding walk_scalars cvt_utf16_to_utf8 end_of put_at skip
walk_class-chars walk c info n p utf16 utf8 b
      (f, array, dim, type, converts, small, from, to, short) aligned fits limit =
    let (here, enum, dims, fields, size, small_n) = array in
    let len = length utf8 in
    let prim : is_primitive_type f.type ≡ true = char_primitive f.type type in
    let wide : width f.type ≡ 2 = char_width f.type type in
    let total : n * width f.type ≡ n * 2 = ap (λ w. n * w) wide in
    let (b₁, b₂, b₃, b₄, run₁, run₂, run₃, run₄, x, w₁, w₂, w₃) =
      array_header b info.id n aligned (omega arith) limit (here.sound.small_id) small_n in
    let (b₅, run₅, y, origin) = put_value32 b₄ (n * 2) (omega (arith, x.off, x.size)) small in
    let (b₇, run₇, z, actual) =
      put_value32 (record b₅ { bytes = write_at b₅.bytes (b₅.off + 4) utf8 }) len
        (omega (arith, x.off, x.size, y.off, y.size)) short in
    let after : Extends b₅ (b₅.off + 4) b₇ = record {
      off = z.off;
      size = z.size;
      below = λ a h. z.below a h ∙ write_at-other b₅.bytes (b₅.off + 4) utf8 a (omega arith);
    } in
    let b₈ = record b₇ { off = (b₇.off + len) % 2 ^ 64 } in
    let y_after = Extends-trans y after (omega (arith, y.off)) in
    let all = Extends-trans x y_after (omega (arith, x.off)) in
    let one : (info.dim == 1) ≡ true = ground (arith, dim) in
    let is_char : ((f.type == t_char) && c.enable_utf16_to_utf8) ≡ true =
      ground (arith, type, converts) in
    let space : leb (b₅.off + 4 + len) b₅.size ≡ true =
      ground (arith, x.off, x.size, y.off, y.size) in
    let len_word : len % 2 ^ 32 ≡ len = omega arith in
    let bytes_in : array_body_size info n ≡ ok (n * 2) =
      array_body_size_lem info f n fields prim (omega (arith, total)) ∙ ap ok total in
    let body : walk_scalars c p info f n b₄ ≡ ok b₈ =
      rw (one, is_char, bytes_in, run₅, ← from, ← to, space, len_word, run₇) in
    (
      b₈,
      walk_class-array walk c p n info f b b₁ b₂ b₃ b₄ (ok b₈) array aligned run₁ run₂ run₃ run₄
          (inr (primitive_not_reference f.type prim, prim, body)),
      record {
        off = omega (arith, z.off, y.off, x.off, z.size, y.size, x.size);
        size = all.size;
        below = all.below;
      },
      (
        f,
        (
          here.sound,
          enum,
          dims,
          fields,
          (
            Extends-word 2 b.off y_after (omega (arith, x.off)) ∙ w₁,
            Extends-word 2 (b.off + 2) y_after (omega (arith, x.off)) ∙ w₂,
          ),
          Extends-word 4 (b.off + 4) y_after (omega (arith, x.off)) ∙ w₃,
        ),
        dim,
        type,
        let at : b.off + 8 ≡ b₄.off = omega (arith, x.off) in
            ap (word b₇.bytes 4) at ∙ Extends-word 4 b₄.off after (omega (arith, y.off)) ∙ origin,
        let at : b.off + 12 ≡ b₅.off = omega (arith, x.off, y.off) in
            ap (word b₇.bytes 4) at ∙ actual,
        let at : b.off + 16 ≡ b₅.off + 4 = omega (arith, x.off, y.off) in
            ap (λ k. read_at b₇.bytes k len) at
            ∙ read_at-ext b₇.bytes (write_at b₅.bytes (b₅.off + 4) utf8) (b₅.off + 4) len
                (λ a lo hi.
                  put_value32_above (record b₅ { bytes = write_at b₅.bytes (b₅.off + 4) utf8 }) b₇
                    len a run₇ (omega (arith, x.off, x.size, y.off, y.size)) lo)
            ∙ read_at-write_at_self b₅.bytes (b₅.off + 4) utf8,
      ),
    )

-- ===== src/Serde/WireFrame.antt =====
-- A value that is written survives changes outside of its place in the buffer.
use dshuffle.Prelude.{ℕ, ◌+◌, ◌*◌, ◌≤◌, ◌<◌, ◌≡◌, ◌∙◌, true, List, [], ◌∷◌, length, arith}
use dshuffle.Prelude.Bytes.{read_at-ext}
use dshuffle.Prelude.Words.{word, word-ext}
use dshuffle.Serde.Types.{is_reference_type}
use dshuffle.Serde.Classes.{FieldInfo, ClassInfo, ClassResolver}
use dshuffle.Serde.Value.{
  Value, Values, null, constant, instance_of, array_of, scalars, chars, end, scalar, member, align,
  body_size, end_of, end_of_all, end_of-le, end_of_all-le,
}
use dshuffle.Serde.Wire.{width, IsLaidOut, HasHeader, IsWireArray, Wire, WireFields, WireElems}

abbrev pub SameIn : (ℕ → ℕ) → (ℕ → ℕ) → ℕ → ℕ → Type 0
SameIn b c lo hi = (a : ℕ) → lo ≤ a → a < hi → c a ≡ b a

pub reference_width : (t : ℕ) → is_reference_type t ≡ true → width t ≡ 4
unfolding width is_reference_type
reference_width t h = ground arith

pub IsLaidOut-le : (lo size : ℕ) (fs : List FieldInfo) → IsLaidOut lo size fs → lo ≤ size
IsLaidOut-le lo size [] h = h
IsLaidOut-le lo size (f ∷ fs) h =
    let rest = IsLaidOut-le (f.offset + width f.type) size fs (h.2) in omega (arith, h.0, rest)

word-same :
    {b c : ℕ → ℕ} {lo hi : ℕ} (w at : ℕ)
    → SameIn b c lo hi
    → lo ≤ at
    → at + w ≤ hi
    → word c w at ≡ word b w at
word-same {b} {c} w at same low high =
    word-ext c b w at (λ a l h. same a (omega arith) (omega arith))

HasHeader-same :
    {b c : ℕ → ℕ} {hi : ℕ} (info : ClassInfo) (flag base : ℕ)
    → SameIn b c base hi
    → base + 4 ≤ hi
    → HasHeader b info flag base
    → HasHeader c info flag base
HasHeader-same info flag base same fits h = (
  word-same 2 base same (omega arith) (omega arith) ∙ h.0,
  word-same 2 (base + 2) same (omega arith) (omega arith) ∙ h.1,
)

IsWireArray-same :
    {r : ClassResolver} {b c : ℕ → ℕ} {hi : ℕ} (info : ClassInfo) (f : FieldInfo) (n base : ℕ)
    → SameIn b c base hi
    → base + 8 ≤ hi
    → IsWireArray r b info f n base
    → IsWireArray r c info f n base
IsWireArray-same info f n base same fits (sound, not_enum, dim, fields, header, size) = (
  sound,
  not_enum,
  dim,
  fields,
  HasHeader-same info _ base same (omega arith) header,
  word-same 4 (base + 4) same (omega arith) (omega arith) ∙ size,
)

module _ (r : ClassResolver) (b c : ℕ → ℕ) where
  mutual
    unfolding end_of end_of_all

    pub Wire-same :
        (id : ℕ) (v : Value) (base : ℕ)
        → SameIn b c base (end_of v base)
        → Wire r b id v base
        → Wire r c id v base
    Wire-same id null base same h = (
      word-same 2 base same (omega arith) (omega arith) ∙ h.0,
      word-same 2 (base + 2) same (omega arith) (omega arith) ∙ h.1,
    )
    Wire-same id (constant info n) base same (sound, en, header, ordinal) = (
      sound,
      en,
      HasHeader-same info _ base same (omega arith) header,
      word-same 4 (base + 4) same (omega arith) (omega arith) ∙ ordinal,
    )
    Wire-same id (instance_of info vs) base same (sound, en, dim, laid, header, fields) =
        let at = base + 8 + body_size info in
        let more = end_of_all-le vs at in
        (
          sound,
          en,
          dim,
          laid,
          HasHeader-same info _ base same (omega (arith, more)) header,
          WireFields-same vs info.fields (base + 8) at 0 (body_size info) laid
              (λ a l h. same a (omega arith) (omega (arith, more)))
              (λ a l h. same a (omega arith) h) fields,
        )
    Wire-same id (array_of info elem vs) base same (f, array, prim, ref, found, elems) =
        let more = end_of_all-le vs (base + 8) in
        (
          f,
          IsWireArray-same info f _ base same (omega (arith, more)) array,
          prim,
          ref,
          found,
          WireElems-same f.id vs (base + 8) (λ a l h. same a (omega arith) h) elems,
        )
    Wire-same id (scalars info n content) base same (f, array, dim, prim, small, size, held) = (
      f,
      IsWireArray-same info f n base same (omega arith) array,
      dim,
      prim,
      small,
      size,
      read_at-ext c b (base + 8) (n * width f.type)
            (λ a l h. same a (omega arith) (omega (arith, size)))
          ∙ held,
    )
    Wire-same id (chars info n utf16 utf8) base same (f, array, dim, type, origin, actual, held) = (
      f,
      IsWireArray-same info f n base same (omega arith) array,
      dim,
      type,
      word-same 4 (base + 8) same (omega arith) (omega arith) ∙ origin,
      word-same 4 (base + 12) same (omega arith) (omega arith) ∙ actual,
      read_at-ext c b (base + 16) (length utf8) (λ a l h. same a (omega arith) (omega arith))
          ∙ held,
    )

    pub WireFields-same :
        (vs : Values) (fs : List FieldInfo) (body at lo size : ℕ)
        → IsLaidOut lo size fs
        → SameIn b c (body + lo) (body + size)
        → SameIn b c at (end_of_all vs at)
        → WireFields r b vs fs body at
        → WireFields r c vs fs body at
    WireFields-same end [] body at lo size laid slots members h = tt
    WireFields-same end (f ∷ fs) body at lo size laid slots members h = h
    WireFields-same (scalar n vs) [] body at lo size laid slots members h = h
    WireFields-same (scalar n vs) (f ∷ fs) body at lo size laid slots members (prim, held, rest) =
        let next = f.offset + width f.type in
        let within = IsLaidOut-le next size fs (laid.2) in
        (
          prim,
          word-same (width f.type) (body + f.offset) slots (omega (arith, laid.0))
                (omega (arith, within))
              ∙ held,
          WireFields-same vs fs body at next size (laid.2)
              (λ a l h. slots a (omega (arith, laid.0)) h) members rest,
        )
    WireFields-same (member v vs) [] body at lo size laid slots members h = h
    WireFields-same (member v vs) (f ∷ fs) body at lo size laid slots members
          (prim, ref, slot, held, rest) =
        let next = f.offset + width f.type in
        let within = IsLaidOut-le next size fs (laid.2) in
        let w = reference_width f.type ref in
        let m = end_of-le v (align at) in
        let more = end_of_all-le vs (end_of v (align at)) in
        (
          prim,
          ref,
          word-same 4 (body + f.offset) slots (omega (arith, laid.0)) (omega (arith, within, w))
              ∙ slot,
          Wire-same f.id v (align at) (λ a l h. members a (omega arith) (omega (arith, more))) held,
          WireFields-same vs fs body (end_of v (align at)) next size (laid.2)
              (λ a l h. slots a (omega (arith, laid.0)) h) (λ a l h. members a (omega (arith, m)) h)
              rest,
        )

    pub WireElems-same :
        (id : ℕ) (vs : Values) (at : ℕ)
        → SameIn b c at (end_of_all vs at)
        → WireElems r b id vs at
        → WireElems r c id vs at
    WireElems-same id end at same h = tt
    WireElems-same id (scalar n vs) at same h = h
    WireElems-same id (member v vs) at same (held, rest) =
        let m = end_of-le v (align at) in
        let more = end_of_all-le vs (end_of v (align at)) in
        (
          Wire-same id v (align at) (λ a l h. same a (omega arith) (omega (arith, more))) held,
          WireElems-same id vs (end_of v (align at)) (λ a l h. same a (omega (arith, m)) h) rest,
        )

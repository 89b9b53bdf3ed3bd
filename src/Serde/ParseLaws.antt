-- ===== src/Serde/ParseLaws.antt =====
-- The steps of ObjectReviver on one node.
use dshuffle.Prelude.{
  ℕ, zero, suc, ◌+◌, ◌%◌, ◌^◌, ◌≤◌, ◌<◌, ◌≡◌, refl, ap, true, false, leb, List, [], ◌∷◌, ◌++◌, none,
  some, length, take, get_elem?, get_or, arith,
}
use dshuffle.Prelude.Outcome.{Outcome, ok, undefined}
use dshuffle.Prelude.Bytes.{read_at}
use dshuffle.Prelude.Words.{word}
use dshuffle.Serde.Types.{
  is_null_f, is_redirect_f, is_enum_f, null_flag, enum_flag, object_flag, is_primitive_type,
  is_reference_type,
}
use dshuffle.Serde.Classes.{FieldInfo, ClassInfo, get_class_info_by_id}
use dshuffle.Serde.Info.{get_enum}
use dshuffle.Serde.RwBuffer.{RwBuffer, get, get_at, skip, skip_next_align_8}
use dshuffle.Serde.RwBufferLaws.{upper_align-align}
use dshuffle.Serde.Reviver.{
  Env, Reviver, Parse, parse, parse_class, parse_enum, set_field, parse_field, parse_scalar,
  parse_member, set_object_field, delete_local_ref,
}
use dshuffle.Serde.Value.{align}
use dshuffle.Serde.Wire.{width}
use dshuffle.Serde.WalkLaws.{type_size-primitive}

-- The reviver with another offset.
abbrev pub moved : Reviver → ℕ → Reviver
moved r off = record r { b = record r.b { off = off } }

pub get_lem :
    (w : ℕ) (b : RwBuffer) (v : ℕ)
    → b.off + w ≤ b.size
    → word b.bytes w b.off ≡ v
    → get w b ≡ ok (v, record b { off = b.off + w })
unfolding get get_at
get_lem w b v fits held = let test : leb (b.off + w) b.size ≡ true = ground arith in rw (test, held)

pub skip_next_align_8_lem :
    (b : RwBuffer) → b.off + 8 < 2 ^ 64 → skip_next_align_8 b ≡ record b { off = align b.off }
unfolding skip_next_align_8
skip_next_align_8_lem b small = rw (upper_align-align b.off small)

pub skip_lem : (b : RwBuffer) (n : ℕ) → b.off + n < 2 ^ 64 → skip b n ≡ record b { off = b.off + n }
unfolding skip
skip_lem b n small = let same : (b.off + n) % 2 ^ 64 ≡ b.off + n = omega arith in rw same

pub parse-null :
    (fuel : ℕ) (e : Env) (r : Reviver)
    → align r.b.off + 4 ≤ r.b.size
    → r.b.size < 2 ^ 32
    → word r.b.bytes 2 (align r.b.off + 2) ≡ null_flag
    → parse (suc fuel) e r ≡ ok (0, moved r (align r.b.off + 4))
unfolding parse is_null_f
parse-null fuel e r fits small flag =
    let b₁ : RwBuffer = record r.b { off = align r.b.off } in
    let b₂ : RwBuffer = record r.b { off = align r.b.off + 2 } in
    let four : align r.b.off + 2 + 2 ≡ align r.b.off + 4 = omega arith in
    rw
      (
        skip_next_align_8_lem r.b (omega arith),
        get_lem 2 b₁ (word r.b.bytes 2 (align r.b.off)) (omega arith) refl,
        get_lem 2 b₂ null_flag (omega arith) flag,
      )
      (ap (λ k. ok (0, moved r k)) four)

pub parse-class :
    (fuel : ℕ) (e : Env) (r : Reviver) (info : ClassInfo) (flag : ℕ)
    → align r.b.off + 4 ≤ r.b.size
    → r.b.size < 2 ^ 32
    → word r.b.bytes 2 (align r.b.off) ≡ info.id
    → word r.b.bytes 2 (align r.b.off + 2) ≡ flag
    → is_null_f flag ≡ false
    → is_redirect_f flag ≡ false
    → get_class_info_by_id e.resolver info.id ≡ ok (some info)
    → parse (suc fuel) e r ≡ parse_class (parse fuel e) e info flag (moved r (align r.b.off + 4))
unfolding parse
parse-class fuel e r info flag fits small id held not_null not_redirect found =
    let b₁ : RwBuffer = record r.b { off = align r.b.off } in
    let b₂ : RwBuffer = record r.b { off = align r.b.off + 2 } in
    let four : align r.b.off + 2 + 2 ≡ align r.b.off + 4 = omega arith in
    rw
      (
        skip_next_align_8_lem r.b (omega arith),
        get_lem 2 b₁ info.id (omega arith) id,
        get_lem 2 b₂ flag (omega arith) held,
        not_null,
        not_redirect,
        found,
      )
      (ap (λ k. parse_class (parse fuel e) e info flag (moved r k)) four)

get_enum_lem :
    (info : ClassInfo) (k : ℕ)
    → suc k ≤ length info.enum_refs
    → get_enum info k ≡ ok (get_or info.enum_refs k 0)
unfolding get_enum
get_enum_lem info k h = go info.enum_refs k h
  where
    go :
        (xs : List ℕ) (k : ℕ)
        → suc k ≤ length xs
        → (elim (get_elem? xs k) as (λ x. Outcome ℕ) [ none ↦ undefined | some h ↦ ok h ])
          ≡ ok (get_or xs k 0)
    go [] k h = elim h [ ]
    go (x ∷ xs) zero h = refl
    go (x ∷ xs) (suc k) h = go xs k (omega arith)

pub parse_enum_lem :
    (info : ClassInfo) (k : ℕ) (r : Reviver)
    → suc k ≤ length info.enum_refs
    → r.b.off + 4 ≤ r.b.size
    → word r.b.bytes 4 r.b.off ≡ k
    → parse_enum info (enum_flag + object_flag) r
      ≡ ok (get_or info.enum_refs k 0, moved r (r.b.off + 4))
unfolding parse_enum is_enum_f
parse_enum_lem info k r known fits held = rw (get_lem 4 r.b k fits held, get_enum_lem info k known)

-- A primitive field
pub parse_field-scalar :
    (inner : Parse) (h base : ℕ) (f : FieldInfo) (r : Reviver) (n : ℕ)
    → is_primitive_type f.type ≡ true
    → base + f.offset + width f.type ≤ r.b.size
    → word r.b.bytes (width f.type) (base + f.offset) ≡ n
    → parse_field inner h base f r ≡ ok (record r { calls = r.calls ++ set_field h f n ∷ [] })
unfolding parse_field parse_scalar get_at
parse_field-scalar inner h base f r n prim fits held =
    let test : leb (base + f.offset + width f.type) r.b.size ≡ true = ground arith in
    rw (prim, type_size-primitive f.type prim, test, held)

pub parse_field-member :
    (inner : Parse) (h base : ℕ) (f : FieldInfo) (r r' : Reviver) (m : ℕ)
    → is_primitive_type f.type ≡ false
    → is_reference_type f.type ≡ true
    → inner r ≡ ok (m, r')
    → parse_field inner h base f r
      ≡ ok (record r' {
        calls = (r'.calls ++ set_object_field h f m ∷ []) ++ delete_local_ref m ∷ [];
      })
unfolding parse_field parse_member
parse_field-member inner h base f r r' m prim ref run = rw (prim, ref, run)

-- The first bytes of an array's contents.
pub read_at-take : (b : ℕ → ℕ) (at n m : ℕ) → n ≤ m → read_at b at n ≡ take n (read_at b at m)
read_at-take b at zero m h = refl
read_at-take b at (suc n) zero h = elim h [ ]
read_at-take b at (suc n) (suc m) h =
    ap (λ xs. b at ∷ xs) (read_at-take b (suc at) n m (omega arith))

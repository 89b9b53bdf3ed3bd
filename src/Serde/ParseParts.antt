-- ===== src/Serde/ParseParts.antt =====
-- ObjectReviver on arrays of scalars, and the states between the members of a value.
use dshuffle.Prelude.{
  ℕ, suc, ◌+◌, ◌*◌, ◌^◌, ◌≤◌, ◌<◌, ◌≡◌, refl, sym, ap, ◌∙◌, subst, true, false, ◌&&◌, inl, ◌==◌,
  if◌then◌else◌, List, [], ◌∷◌, ◌++◌, append_assoc, length, take, arith,
}
use dshuffle.Prelude.Outcome.{ok}
use dshuffle.Prelude.Bytes.{read_at}
use dshuffle.Prelude.Words.{word}
use dshuffle.Serde.Types.{t_char, is_primitive_type, array_flag}
use dshuffle.Serde.Classes.{FieldInfo, ClassInfo}
use dshuffle.Serde.Reviver.{
  Call, Env, Reviver, Parse, parse, parse_class, parse_fields, parse_field, parse_elems,
  new_type_array, set_array_element, delete_local_ref, set_byte_array_region, write_chars,
}
use dshuffle.Serde.Value.{
  Value, Values, null, constant, instance_of, array_of, scalars, chars, align, end_of, end_of_all,
}
use dshuffle.Serde.Wire.{width, Wire}
use dshuffle.Serde.Rebuild.{
  rebuild, rebuild_fields, rebuild_elems, root_of, revived, IsWorking, Converts, elem_type_lem,
}
use dshuffle.Serde.ParseLaws.{moved}
use dshuffle.Serde.ParseNodes.{
  opened, parse_class-array, array_call-type, parse_scalars-plain, parse_scalars-chars,
}

pub root_kept : (e : Env) (v : Value) (n root : ℕ) → (root == 0) ≡ false → root_of e v n root ≡ root
unfolding root_of
root_kept e null n root h = refl
root_kept e (constant info k) n root h = refl
root_kept e (instance_of info vs) n root h = rw h
root_kept e (array_of info elem vs) n root h = rw h
root_kept e (scalars info k content) n root h = rw h
root_kept e (chars info k utf16 utf8) n root h = rw h

pub opened_root :
    (e : Env) (root n : ℕ)
    → IsWorking e
    → ((if root == 0 then e.handle_of n else root) == 0) ≡ false
opened_root e root n works = ground (arith, works.allocates n)

-- The reviver behind the fields of an instance, and behind the elements of an array.
abbrev pub behind_fields : Env → ℕ → Values → List FieldInfo → Reviver → Reviver
behind_fields e h vs fs r =
    let done = rebuild_fields e h vs fs r.allocated in
    record {
      b = record r.b { off = end_of_all vs r.b.off };
      calls = r.calls ++ done.0;
      allocated = done.1;
      root = r.root;
    }

abbrev pub behind_elems : Env → ℕ → Values → ℕ → Reviver → Reviver
behind_elems e h vs i r =
    let done = rebuild_elems e h vs i r.allocated in
    record {
      b = record r.b { off = end_of_all vs r.b.off };
      calls = r.calls ++ done.0;
      allocated = done.1;
      root = r.root;
    }

pub with_calls :
    (r r' : Reviver)
    → r.b ≡ r'.b
    → r.calls ≡ r'.calls
    → r.allocated ≡ r'.allocated
    → r.root ≡ r'.root
    → r ≡ r'
with_calls r r' b calls n root =
    λ i. record { b = b i; calls = calls i; allocated = n i; root = root i }

pub calls_joined :
    (old first rest : List Call) (s d : Call)
    → ((old ++ first) ++ s ∷ []) ++ d ∷ [] ++ rest ≡ old ++ (first ++ (s ∷ d ∷ rest))
calls_joined old first rest s d = simp append_assoc

pub parse_fields-nil :
    (inner : Parse) (h base : ℕ) (r : Reviver) → parse_fields inner h base [] r ≡ ok r
unfolding parse_fields
parse_fields-nil inner h base r = refl

pub parse_elems-nil : (inner : Parse) (h i : ℕ) (r : Reviver) → parse_elems inner h 0 i r ≡ ok r
unfolding parse_elems
parse_elems-nil inner h i r = refl

pub parse_fields-cons :
    (inner : Parse) (h base : ℕ) (f : FieldInfo) (fs : List FieldInfo) (r r₁ r₂ : Reviver)
    → parse_field inner h base f r ≡ ok r₁
    → parse_fields inner h base fs r₁ ≡ ok r₂
    → parse_fields inner h base (f ∷ fs) r ≡ ok r₂
unfolding parse_fields
parse_fields-cons inner h base f fs r r₁ r₂ run rest = rw run rest

pub parse_elems-cons :
    (inner : Parse) (h n i m : ℕ) (r r₁ r₂ : Reviver)
    → inner r ≡ ok (m, r₁)
    → parse_elems inner h n (suc i) (record r₁ {
      calls = (r₁.calls ++ set_array_element h i m ∷ []) ++ delete_local_ref m ∷ [];
    })
      ≡ ok r₂
    → parse_elems inner h (suc n) i r ≡ ok r₂
unfolding parse_elems
parse_elems-cons inner h n i m r r₁ r₂ run rest = rw run rest

width_pos : (t : ℕ) → is_primitive_type t ≡ true → 0 < width t
unfolding is_primitive_type width
width_pos t h = ground arith

le_scaled : (n w : ℕ) → 0 < w → n ≤ n * w
le_scaled n w h = grind arith

char_primitive : (t : ℕ) → t ≡ t_char → is_primitive_type t ≡ true
unfolding is_primitive_type
char_primitive t type = rw type

module _ (e : Env) (works : IsWorking e) where
  pub parse_class-scalars :
      (fuel : ℕ) (info : ClassInfo) (n : ℕ) (content : List ℕ) (r : Reviver)
      → Converts e (scalars info n content)
      → Wire e.resolver r.b.bytes 0 (scalars info n content) (align r.b.off)
      → align r.b.off + 8 + length content ≤ r.b.size
      → r.b.size < 2 ^ 32
      → parse_class (parse fuel e) e info array_flag (moved r (align r.b.off + 4))
        ≡ ok (
          (rebuild e (scalars info n content) r.allocated).0,
          revived e (scalars info n content) r,
        )
  unfolding rebuild end_of root_of
  parse_class-scalars fuel info n content r plain
        (f, (sound, enum, dims, fields, header, size), dim, prim, small, len, held) fits limit =
      let base = align r.b.off in
      let total = n * width f.type in
      let type = elem_type_lem info f fields in
      let call = new_type_array f.type n in
      let plain_f : ((f.type == t_char) && e.enable_utf16_to_utf8) ≡ false =
        subst (λ t. ((t == t_char) && e.enable_utf16_to_utf8) ≡ false) type plain in
      let body =
        parse_scalars-plain e info f (e.handle_of r.allocated) n content
          (opened e r call (base + 8)) works dim fields prim plain_f small
          (le_scaled n (width f.type) (width_pos f.type prim)) (omega (arith, len)) limit held in
      parse_class-array (parse fuel e) e info f n call r _ base works enum dims fields (omega arith)
        (omega arith) limit size (array_call-type e f n prim) (inl (prim, body))
      ∙ ap (λ (x : Reviver). ok (e.handle_of r.allocated, x))
          (with_calls _ (revived e (scalars info n content) r)
            (ap (λ k. record r.b { off = k }) (omega (arith, len)))
            (append_assoc r.calls _ _
              ∙ ap
                  (λ t.
                    r.calls
                    ++ (new_type_array t n
                        ∷ set_byte_array_region (e.handle_of r.allocated) (take n content)
                        ∷ []))
                  (sym type))
            refl refl)

  pub parse_class-chars :
      (fuel : ℕ) (info : ClassInfo) (n : ℕ) (utf16 utf8 : List ℕ) (r : Reviver)
      → Converts e (chars info n utf16 utf8)
      → Wire e.resolver r.b.bytes 0 (chars info n utf16 utf8) (align r.b.off)
      → align r.b.off + 16 + length utf8 ≤ r.b.size
      → r.b.size < 2 ^ 32
      → parse_class (parse fuel e) e info array_flag (moved r (align r.b.off + 4))
        ≡ ok (
          (rebuild e (chars info n utf16 utf8) r.allocated).0,
          revived e (chars info n utf16 utf8) r,
        )
  unfolding rebuild end_of root_of
  parse_class-chars fuel info n utf16 utf8 r (converts, back, units)
        (f, (sound, enum, dims, fields, header, size), dim, type, origin, actual, held) fits limit =
      let base = align r.b.off in
      let prim = char_primitive f.type type in
      let call = new_type_array f.type n in
      let to_12 : base + 8 + 4 ≡ base + 12 = omega arith in
      let to_16 : base + 8 + 8 ≡ base + 16 = omega arith in
      let body =
        parse_scalars-chars e info f (e.handle_of r.allocated) n utf16 utf8
          (opened e r call (base + 8)) dim type converts back units (omega arith) limit
          (ap (word r.b.bytes 4) to_12 ∙ actual)
          (ap (λ k. read_at r.b.bytes k (length utf8)) to_16 ∙ held) in
      parse_class-array (parse fuel e) e info f n call r _ base works enum dims fields (omega arith)
        (omega arith) limit size (array_call-type e f n prim) (inl (prim, body))
      ∙ ap (λ (x : Reviver). ok (e.handle_of r.allocated, x))
          (with_calls _ (revived e (chars info n utf16 utf8) r)
            (ap (λ k. record r.b { off = k }) (omega arith))
            (append_assoc r.calls _ _
              ∙ ap
                  (λ t.
                    r.calls
                    ++ (new_type_array t n ∷ write_chars (e.handle_of r.allocated) utf16 ∷ []))
                  type)
            refl refl)

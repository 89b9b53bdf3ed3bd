-- ===== src/Serde/ParseWire.antt =====
-- ObjectReviver on a whole value that is written in its buffer.
use dshuffle.Prelude.{
  ℕ, zero, suc, ◌+◌, ◌^◌, ◌≤◌, ◌<◌, ◌≡◌, refl, sym, ap, ◌∙◌, true, false, inr, ◌==◌, List, [], ◌∷◌,
  ◌++◌, append-nil, append_assoc, arith,
}
use dshuffle.Prelude.Outcome.{ok}
use dshuffle.Serde.Types.{is_null_f, is_redirect_f, enum_flag, object_flag, array_flag}
use dshuffle.Serde.Classes.{FieldInfo, ClassInfo}
use dshuffle.Serde.Info.{is_enum}
use dshuffle.Serde.Reviver.{
  Env, Reviver, parse, parse_class, parse_enum, parse_fields, parse_elems, alloc_object,
  new_object_array, set_field, set_object_field, set_array_element, delete_local_ref,
}
use dshuffle.Serde.Value.{
  Value, Values, null, constant, instance_of, array_of, scalars, chars, end, scalar, member, align,
  body_size, end_of, end_of_all, end_of-le, end_of_all-le, depth, depth_all, count,
}
use dshuffle.Serde.Wire.{width, IsLaidOut, Wire, WireFields, WireElems}
use dshuffle.Serde.WireFrame.{IsLaidOut-le}
use dshuffle.Serde.WalkNodes.{depth_pos}
use dshuffle.Serde.Rebuild.{
  rebuild, rebuild_fields, rebuild_elems, root_of, revived, IsWorking, Converts, ConvertsAll,
}
use dshuffle.Serde.ParseLaws.{
  moved, parse-null, parse-class, parse_enum_lem, parse_field-scalar, parse_field-member,
}
use dshuffle.Serde.ParseNodes.{opened, parse_class-object, parse_class-array, array_call-object}
use dshuffle.Serde.ParseParts.{
  root_kept, opened_root, with_calls, calls_joined, parse_fields-cons, parse_elems-cons,
  parse_fields-nil, parse_elems-nil, behind_fields, behind_elems, parse_class-scalars,
  parse_class-chars,
}

parse_class-enum :
    (fuel : ℕ) (e : Env) (info : ClassInfo) (flag : ℕ) (r : Reviver)
    → is_enum info ≡ true
    → parse_class (parse fuel e) e info flag r ≡ parse_enum info flag r
unfolding parse_class
parse_class-enum fuel e info flag r enum = rw enum

module _ (e : Env) (works : IsWorking e) where
  mutual
    unfolding rebuild rebuild_fields rebuild_elems root_of end_of end_of_all depth depth_all count
        is_null_f is_redirect_f

    pub parse-revived :
        (id : ℕ) (v : Value) (fuel : ℕ) (r : Reviver)
        → Converts e v
        → Wire e.resolver r.b.bytes id v (align r.b.off)
        → depth v ≤ fuel
        → end_of v (align r.b.off) ≤ r.b.size
        → r.b.size < 2 ^ 32
        → parse fuel e r ≡ ok ((rebuild e v r.allocated).0, revived e v r)
    parse-revived id v zero r known wire enough fits limit = absurd (omega (arith, depth_pos v))
    parse-revived id null (suc fuel) r known wire enough fits limit =
        parse-null fuel e r fits limit (wire.1)
        ∙ ap (λ (x : Reviver). ok (0, x))
            (with_calls (moved r (align r.b.off + 4)) (revived e null r) refl
              (sym (append-nil r.calls)) refl refl)
    parse-revived id (constant info k) (suc fuel) r known (sound, enum, header, ordinal) enough fits
          limit =
        let base = align r.b.off in
        let eight : base + 4 + 4 ≡ base + 8 = omega arith in
        parse-class fuel e r info (enum_flag + object_flag) (omega arith) limit (header.0)
          (header.1) refl refl (sound.by_id)
        ∙ parse_class-enum fuel e info (enum_flag + object_flag) (moved r (base + 4)) enum
        ∙ parse_enum_lem info k (moved r (base + 4)) known (omega arith) ordinal
        ∙ ap (λ (x : Reviver). ok ((rebuild e (constant info k) r.allocated).0, x))
            (with_calls (moved r (base + 4 + 4)) (revived e (constant info k) r)
              (ap (λ m. record r.b { off = m }) eight) (sym (append-nil r.calls)) refl refl)
    parse-revived id (instance_of info vs) (suc fuel) r known
          (sound, enum, dim, laid, header, fields) enough fits limit =
        let base = align r.b.off in
        let more = end_of_all-le vs (base + 8 + body_size info) in
        let h = e.handle_of r.allocated in
        let start : Reviver = opened e r (alloc_object info) (base + 8 + body_size info) in
        let run =
          fields-behind vs info.fields fuel h (base + 8) 0 (body_size info) start laid known fields
            (omega arith) (omega arith) fits limit (opened_root e r.root r.allocated works) in
        parse-class fuel e r info object_flag (omega (arith, more)) limit (header.0) (header.1) refl
          refl (sound.by_id)
        ∙ parse_class-object (parse fuel e) e info r (behind_fields e h vs info.fields start) base
            works sound enum dim (omega arith) (omega (arith, more)) limit run
        ∙ ap (λ (x : Reviver). ok (h, x))
            (with_calls (behind_fields e h vs info.fields start) (revived e (instance_of info vs) r)
              refl (append_assoc r.calls _ _) refl refl)
    parse-revived id (array_of info elem vs) (suc fuel) r known
          (f, (sound, enum, dims, infos, header, size), prim, ref, found, elems) enough fits limit =
        let base = align r.b.off in
        let more = end_of_all-le vs (base + 8) in
        let h = e.handle_of r.allocated in
        let start : Reviver = opened e r (new_object_array elem (count vs)) (base + 8) in
        let run =
          elems-behind f.id vs fuel h 0 start known elems (omega arith) fits limit
            (opened_root e r.root r.allocated works) in
        parse-class fuel e r info array_flag (omega (arith, more)) limit (header.0) (header.1) refl
          refl (sound.by_id)
        ∙ parse_class-array (parse fuel e) e info f (count vs) (new_object_array elem (count vs)) r
            (behind_elems e h vs 0 start) base works enum dims infos (omega arith)
            (omega (arith, more)) limit size (array_call-object e f elem (count vs) prim found)
            (inr (prim, ref, run))
        ∙ ap (λ (x : Reviver). ok (h, x))
            (with_calls (behind_elems e h vs 0 start) (revived e (array_of info elem vs) r) refl
              (append_assoc r.calls _ _) refl refl)
    parse-revived id (scalars info n content) (suc fuel) r known wire enough fits limit =
        let (sound, enum, dims, infos, header, size) = wire.1 in
        parse-class fuel e r info array_flag (omega arith) limit (header.0) (header.1) refl refl
          (sound.by_id)
        ∙ parse_class-scalars e works fuel info n content r known wire fits limit
    parse-revived id (chars info n utf16 utf8) (suc fuel) r known wire enough fits limit =
        let (sound, enum, dims, infos, header, size) = wire.1 in
        parse-class fuel e r info array_flag (omega arith) limit (header.0) (header.1) refl refl
          (sound.by_id)
        ∙ parse_class-chars e works fuel info n utf16 utf8 r known wire fits limit

    fields-behind :
        (vs : Values) (fs : List FieldInfo) (fuel h base lo size : ℕ) (r : Reviver)
        → IsLaidOut lo size fs
        → ConvertsAll e vs
        → WireFields e.resolver r.b.bytes vs fs base r.b.off
        → depth_all vs ≤ fuel
        → base + size ≤ r.b.off
        → end_of_all vs r.b.off ≤ r.b.size
        → r.b.size < 2 ^ 32
        → (r.root == 0) ≡ false
        → parse_fields (parse fuel e) h base fs r ≡ ok (behind_fields e h vs fs r)
    fields-behind end [] fuel h base lo size r laid known wire enough room fits limit rooted =
        parse_fields-nil (parse fuel e) h base r
        ∙ ap (λ (x : Reviver). ok x)
            (with_calls r (behind_fields e h end [] r) refl (sym (append-nil r.calls)) refl refl)
    fields-behind end (f ∷ fs) fuel h base lo size r laid known wire enough room fits limit rooted =
        elim wire [ ]
    fields-behind (scalar n vs) [] fuel h base lo size r laid known wire enough room fits limit
          rooted =
        elim wire [ ]
    fields-behind (scalar n vs) (f ∷ fs) fuel h base lo size r laid known (prim, held, wire) enough
          room fits limit rooted =
        let next = f.offset + width f.type in
        let within = IsLaidOut-le next size fs (laid.2) in
        let more = end_of_all-le vs r.b.off in
        let r₁ : Reviver = record r { calls = r.calls ++ set_field h f n ∷ [] } in
        parse_fields-cons (parse fuel e) h base f fs r r₁ (behind_fields e h vs fs r₁)
          (parse_field-scalar (parse fuel e) h base f r n prim (omega (arith, within, more)) held)
          (fields-behind vs fs fuel h base next size r₁ (laid.2) known wire enough room fits limit
            rooted)
        ∙ ap (λ (x : Reviver). ok x)
            (with_calls (behind_fields e h vs fs r₁) (behind_fields e h (scalar n vs) (f ∷ fs) r)
              refl (append_assoc r.calls _ _) refl refl)
    fields-behind (member v vs) [] fuel h base lo size r laid known wire enough room fits limit
          rooted =
        elim wire [ ]
    fields-behind (member v vs) (f ∷ fs) fuel h base lo size r laid known
          (prim, ref, slot, held, wire) enough room fits limit rooted =
        let grows = end_of-le v (align r.b.off) in
        let more = end_of_all-le vs (end_of v (align r.b.off)) in
        let m = rebuild e v r.allocated in
        let kept = root_kept e v r.allocated r.root rooted in
        let r₁ : Reviver = revived e v r in
        let r₂ : Reviver = record r₁ {
          calls = (r₁.calls ++ set_object_field h f (m.0) ∷ []) ++ delete_local_ref (m.0) ∷ [];
        } in
        parse_fields-cons (parse fuel e) h base f fs r r₂ (behind_fields e h vs fs r₂)
          (parse_field-member (parse fuel e) h base f r r₁ (m.0) prim ref
            (parse-revived f.id v fuel r (known.0) held (omega arith) (omega (arith, more)) limit))
          (fields-behind vs fs fuel h base (f.offset + width f.type) size r₂ (laid.2) (known.1) wire
            (omega arith) (omega (arith, grows)) fits limit (ap (λ k. k == 0) kept ∙ rooted))
        ∙ ap (λ (x : Reviver). ok x)
            (with_calls (behind_fields e h vs fs r₂) (behind_fields e h (member v vs) (f ∷ fs) r)
              refl
              (calls_joined r.calls (m.1) _ (set_object_field h f (m.0)) (delete_local_ref (m.0)))
              refl kept)

    elems-behind :
        (id : ℕ) (vs : Values) (fuel h i : ℕ) (r : Reviver)
        → ConvertsAll e vs
        → WireElems e.resolver r.b.bytes id vs r.b.off
        → depth_all vs ≤ fuel
        → end_of_all vs r.b.off ≤ r.b.size
        → r.b.size < 2 ^ 32
        → (r.root == 0) ≡ false
        → parse_elems (parse fuel e) h (count vs) i r ≡ ok (behind_elems e h vs i r)
    elems-behind id end fuel h i r known wire enough fits limit rooted =
        parse_elems-nil (parse fuel e) h i r
        ∙ ap (λ (x : Reviver). ok x)
            (with_calls r (behind_elems e h end i r) refl (sym (append-nil r.calls)) refl refl)
    elems-behind id (scalar n vs) fuel h i r known wire enough fits limit rooted = elim wire [ ]
    elems-behind id (member v vs) fuel h i r known (held, wire) enough fits limit rooted =
        let grows = end_of-le v (align r.b.off) in
        let more = end_of_all-le vs (end_of v (align r.b.off)) in
        let m = rebuild e v r.allocated in
        let kept = root_kept e v r.allocated r.root rooted in
        let r₁ : Reviver = revived e v r in
        let r₂ : Reviver = record r₁ {
          calls = (r₁.calls ++ set_array_element h i (m.0) ∷ []) ++ delete_local_ref (m.0) ∷ [];
        } in
        parse_elems-cons (parse fuel e) h (count vs) i (m.0) r r₁ (behind_elems e h vs (suc i) r₂)
          (parse-revived id v fuel r (known.0) held (omega arith) (omega (arith, more)) limit)
          (elems-behind id vs fuel h (suc i) r₂ (known.1) wire (omega arith) fits limit
            (ap (λ k. k == 0) kept ∙ rooted))
        ∙ ap (λ (x : Reviver). ok x)
            (with_calls (behind_elems e h vs (suc i) r₂) (behind_elems e h (member v vs) i r) refl
              (calls_joined r.calls (m.1) _ (set_array_element h i (m.0)) (delete_local_ref (m.0)))
              refl kept)

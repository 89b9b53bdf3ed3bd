-- ===== src/Serde/Rebuild.antt =====
-- The calls of JNI that build a value anew, read off the value itself.
use dshuffle.Prelude.{
  ℕ, suc, ◌*◌, ◌≡◌, ap, ◌≤◌, true, false, ◌&&◌, ◌==◌, if◌then◌else◌, List, [], ◌∷◌, ◌++◌, length,
  take, get_or,
}
use dshuffle.Serde.Types.{t_char}
use dshuffle.Serde.Classes.{FieldInfo, ClassInfo}
use dshuffle.Serde.Reviver.{
  Call, alloc_object, new_type_array, new_object_array, set_field, set_object_field,
  set_array_element, set_byte_array_region, write_chars, delete_local_ref, Env, Reviver,
}
use dshuffle.Serde.Value.{
  Value, Values, null, constant, instance_of, array_of, scalars, chars, end, scalar, member, align,
  end_of, count,
}

abbrev type_of : List FieldInfo → ℕ
type_of [] = 0
type_of (f ∷ fs) = f.type

abbrev pub elem_type : ClassInfo → ℕ
elem_type info = type_of info.fields

unfoldable mutual
  -- The handle, the calls and the number of allocations after them, if `n` were made before.
  pub rebuild : Env → Value → ℕ → ℕ × List Call × ℕ
  rebuild e null n = (0, [], n)
  rebuild e (constant info k) n = (get_or info.enum_refs k 0, [], n)
  rebuild e (instance_of info vs) n =
      let rest = rebuild_fields e (e.handle_of n) vs info.fields (suc n) in
      (e.handle_of n, alloc_object info ∷ rest.0, rest.1)
  rebuild e (array_of info elem vs) n =
      let rest = rebuild_elems e (e.handle_of n) vs 0 (suc n) in
      (e.handle_of n, new_object_array elem (count vs) ∷ rest.0, rest.1)
  rebuild e (scalars info k content) n = (
    e.handle_of n,
    new_type_array (elem_type info) k ∷ set_byte_array_region (e.handle_of n) (take k content) ∷ [],
    suc n,
  )
  rebuild e (chars info k utf16 utf8) n =
      (e.handle_of n, new_type_array t_char k ∷ write_chars (e.handle_of n) utf16 ∷ [], suc n)

  pub rebuild_fields : Env → ℕ → Values → List FieldInfo → ℕ → List Call × ℕ
  rebuild_fields e h end fs n = ([], n)
  rebuild_fields e h (scalar v vs) [] n = ([], n)
  rebuild_fields e h (scalar v vs) (f ∷ fs) n =
      let rest = rebuild_fields e h vs fs n in (set_field h f v ∷ rest.0, rest.1)
  rebuild_fields e h (member v vs) [] n = ([], n)
  rebuild_fields e h (member v vs) (f ∷ fs) n =
      let m = rebuild e v n in
      let rest = rebuild_fields e h vs fs m.2 in
      (m.1 ++ (set_object_field h f m.0 ∷ delete_local_ref m.0 ∷ rest.0), rest.1)

  pub rebuild_elems : Env → ℕ → Values → ℕ → ℕ → List Call × ℕ
  rebuild_elems e h end i n = ([], n)
  rebuild_elems e h (scalar v vs) i n = ([], n)
  rebuild_elems e h (member v vs) i n =
      let m = rebuild e v n in
      let rest = rebuild_elems e h vs (suc i) m.2 in
      (m.1 ++ (set_array_element h i m.0 ∷ delete_local_ref m.0 ∷ rest.0), rest.1)

-- `root` is set by the first allocation.
unfoldable pub root_of : Env → Value → ℕ → ℕ → ℕ
root_of e null n root = root
root_of e (constant info k) n root = root
root_of e (instance_of info vs) n root = if root == 0 then e.handle_of n else root
root_of e (array_of info elem vs) n root = if root == 0 then e.handle_of n else root
root_of e (scalars info k content) n root = if root == 0 then e.handle_of n else root
root_of e (chars info k utf16 utf8) n root = if root == 0 then e.handle_of n else root

-- The reviver behind a value that it has read.
abbrev pub revived : Env → Value → Reviver → Reviver
revived e v r =
    let done = rebuild e v r.allocated in
    record {
      b = record r.b { off = end_of v (align r.b.off) };
      calls = r.calls ++ done.1;
      allocated = done.2;
      root = root_of e v r.allocated r.root;
    }

-- JNI allocates, raises nothing and gives the length that was asked for.
pub record IsWorking (e : Env) : Type 0 where
  pub allocates : (n : ℕ) → (e.handle_of n == 0) ≡ false
  pub quiet : (n : ℕ) → e.exception n ≡ false
  pub long : (n : ℕ) → e.length_of_new n ≡ n

-- The constants have handles, characters are converted where they were converted, and come back.
abbrev mutual
  pub Converts : Env → Value → Type 0
  Converts e null = Unit
  Converts e (constant info k) = (suc k ≤ length info.enum_refs)
  Converts e (instance_of info vs) = ConvertsAll e vs
  Converts e (array_of info elem vs) = ConvertsAll e vs
  Converts e (scalars info k content) =
      ((elem_type info == t_char) && e.enable_utf16_to_utf8) ≡ false
  Converts e (chars info k utf16 utf8) =
      (e.enable_utf16_to_utf8 ≡ true)
      × (e.convert_utf8_to_utf16le utf8 ≡ utf16)
      × (length utf16 ≡ 2 * k)

  pub ConvertsAll : Env → Values → Type 0
  ConvertsAll e end = Unit
  ConvertsAll e (scalar n vs) = ConvertsAll e vs
  ConvertsAll e (member v vs) = Converts e v × ConvertsAll e vs

pub elem_type_lem :
    (info : ClassInfo) (f : FieldInfo) → info.fields ≡ f ∷ [] → elem_type info ≡ f.type
elem_type_lem info f fields = ap type_of fields

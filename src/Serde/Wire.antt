-- ===== src/Serde/Wire.antt =====
-- What the buffer of a serialized value holds, after the layouts that object_walker.cxx describes, and
-- what the memory of the JVM holds for it.
use dshuffle.Prelude.{
  ℕ, suc, ◌+◌, ◌*◌, ◌^◌, ◌≤◌, ◌<◌, ◌≡◌, ◌≢◌, true, false, ◌&&◌, ◌==◌, List, [], ◌∷◌, some, length,
}
use dshuffle.Prelude.Outcome.{ok, died, assert_failed, undefined, out_of_fuel, blocked}
use dshuffle.Prelude.Bytes.{read_at}
use dshuffle.Prelude.Words.{word}
use dshuffle.Serde.Types.{
  t_char, is_primitive_type, is_reference_type, type_size, null_flag, enum_flag, object_flag,
  array_flag,
}
use dshuffle.Serde.Classes.{
  FieldInfo, ClassInfo, ClassResolver, get_class_info, get_class_info_by_id, unregistered_class_id,
}
use dshuffle.Serde.Info.{is_enum}
use dshuffle.Serde.FakeObject.{
  raw, klass_pointer, enum_ordinal, array_length, array_elem_ref, parse_heap_cptr,
}
use dshuffle.Serde.Walker.{Context}
use dshuffle.Serde.Value.{
  Value, Values, null, constant, instance_of, array_of, scalars, chars, end, scalar, member, align,
  body_size, end_of, count,
}

-- The size of a type, 0 for a code that has none.
unfoldable pub width : ℕ → ℕ
unfolding type_size
width t = elim (type_size t) [
  | ok w ↦ w
  | died ↦ 0
  | assert_failed ↦ 0
  | undefined ↦ 0
  | out_of_fuel ↦ 0
  | blocked ↦ 0
]

-- The fields ascend without overlap from `lo` on and end within the body, as the class walker sorts them,
-- and the class of each reference is registered.
abbrev pub IsLaidOut : ℕ → ℕ → List FieldInfo → Type 0
IsLaidOut lo size [] = lo ≤ size
IsLaidOut lo size (f ∷ fs) =
    (lo ≤ f.offset)
    × (is_reference_type f.type ≡ true → f.id < unregistered_class_id)
    × IsLaidOut (f.offset + width f.type) size fs

pub record IsSound (r : ClassResolver) (info : ClassInfo) : Type 0 where
  pub by_klass : get_class_info r.info_by_klass info.klass ≡ some info
  pub by_id : get_class_info_by_id r info.id ≡ ok (some info)
  pub small_id : info.id < 2 ^ 16
  pub header : info.header_size ≤ info.obj_size
  pub small : info.obj_size < 2 ^ 16

-- An object of the class is at the address.
pub record HasClass (c : Context) (info : ClassInfo) (p : ℕ) : Type 0 where
  pub there : p ≢ 0
  pub klass : klass_pointer c.jvm p ≡ ok info.klass
  pub sound : IsSound c.resolver info

abbrev pub IsArray : Context → ClassInfo → FieldInfo → ℕ → ℕ → Type 0
IsArray c info elem n p =
    HasClass c info p
    × (is_enum info ≡ false)
    × (1 ≤ info.dim)
    × (info.fields ≡ elem ∷ [])
    × (array_length c.jvm p info.header_size ≡ n)
    × (n < 2 ^ 32)

abbrev mutual
  -- The value is that of the object at the address, with all that it refers to.
  pub Stands : Context → Value → ℕ → Type 0
  Stands c null p = p ≡ 0
  Stands c (constant info n) p =
      HasClass c info p × (is_enum info ≡ true) × (enum_ordinal c.jvm p ≡ n) × (n < 2 ^ 32)
  Stands c (instance_of info vs) p =
      HasClass c info p
      × (is_enum info ≡ false)
      × (info.dim ≡ 0)
      × IsLaidOut 0 (body_size info) info.fields
      × StandFields c vs info.fields (raw p info.header_size)
  Stands c (array_of info elem vs) p =
      (f : FieldInfo) × IsArray c info f (count vs) p
      × (is_primitive_type f.type ≡ false)
      × (is_reference_type f.type ≡ true)
      × (f.id < unregistered_class_id)
      × (get_class_info_by_id c.resolver f.id ≡ ok (some elem))
      × StandElems c vs p info.header_size 0
  Stands c (scalars info n content) p =
      (f : FieldInfo) × IsArray c info f n p
      × (info.dim ≡ 1)
      × (is_primitive_type f.type ≡ true)
      × (((f.type == t_char) && c.enable_utf16_to_utf8) ≡ false)
      × (n * width f.type < 2 ^ 32)
      × (content ≡ read_at c.jvm.mem (raw p info.header_size) (n * width f.type))
  Stands c (chars info n utf16 utf8) p =
      (f : FieldInfo) × IsArray c info f n p
      × (info.dim ≡ 1)
      × (f.type ≡ t_char)
      × (c.enable_utf16_to_utf8 ≡ true)
      × (n * 2 < 2 ^ 32)
      × (utf16 ≡ read_at c.jvm.mem (raw p info.header_size) (2 * n))
      × (utf8 ≡ c.convert_utf16le_to_utf8 utf16)
      × (length utf8 < 2 ^ 32)

  pub StandFields : Context → Values → List FieldInfo → ℕ → Type 0
  StandFields c end [] body = Unit
  StandFields c end (f ∷ fs) body = ⊥
  StandFields c (scalar n vs) [] body = ⊥
  StandFields c (scalar n vs) (f ∷ fs) body =
      (is_primitive_type f.type ≡ true)
      × (word c.jvm.mem (width f.type) (body + f.offset) ≡ n)
      × StandFields c vs fs body
  StandFields c (member v vs) [] body = ⊥
  StandFields c (member v vs) (f ∷ fs) body =
      (is_primitive_type f.type ≡ false)
      × (is_reference_type f.type ≡ true)
      × ((q : ℕ) × (parse_heap_cptr c.jvm (word c.jvm.mem 4 (body + f.offset)) ≡ ok q)
          × Stands c v q)
      × StandFields c vs fs body

  pub StandElems : Context → Values → ℕ → ℕ → ℕ → Type 0
  StandElems c end p header i = Unit
  StandElems c (scalar n vs) p header i = ⊥
  StandElems c (member v vs) p header i =
      ((q : ℕ) × (array_elem_ref c.jvm p header i ≡ ok q) × Stands c v q)
      × StandElems c vs p header (suc i)

abbrev pub HasHeader : (ℕ → ℕ) → ClassInfo → ℕ → ℕ → Type 0
HasHeader b info flag base = (word b 2 base ≡ info.id) × (word b 2 (base + 2) ≡ flag)

abbrev pub IsWireArray : ClassResolver → (ℕ → ℕ) → ClassInfo → FieldInfo → ℕ → ℕ → Type 0
IsWireArray r b info f n base =
    IsSound r info
    × (is_enum info ≡ false)
    × (1 ≤ info.dim)
    × (info.fields ≡ f ∷ [])
    × HasHeader b info array_flag base
    × (word b 4 (base + 4) ≡ n)

abbrev mutual
  -- The value is written at the multiple of 8; null has the id that is expected there.
  pub Wire : ClassResolver → (ℕ → ℕ) → ℕ → Value → ℕ → Type 0
  Wire r b id null base = (word b 2 base ≡ id) × (word b 2 (base + 2) ≡ null_flag)
  Wire r b id (constant info n) base =
      IsSound r info
      × (is_enum info ≡ true)
      × HasHeader b info (enum_flag + object_flag) base
      × (word b 4 (base + 4) ≡ n)
  Wire r b id (instance_of info vs) base =
      IsSound r info
      × (is_enum info ≡ false)
      × (info.dim ≡ 0)
      × IsLaidOut 0 (body_size info) info.fields
      × HasHeader b info object_flag base
      × WireFields r b vs info.fields (base + 8) (base + 8 + body_size info)
  Wire r b id (array_of info elem vs) base =
      (f : FieldInfo) × IsWireArray r b info f (count vs) base
      × (is_primitive_type f.type ≡ false)
      × (is_reference_type f.type ≡ true)
      × (get_class_info_by_id r f.id ≡ ok (some elem))
      × WireElems r b f.id vs (base + 8)
  Wire r b id (scalars info n content) base =
      (f : FieldInfo) × IsWireArray r b info f n base
      × (info.dim ≡ 1)
      × (is_primitive_type f.type ≡ true)
      × (n * width f.type < 2 ^ 32)
      × (length content ≡ n * width f.type)
      × (read_at b (base + 8) (n * width f.type) ≡ content)
  Wire r b id (chars info n utf16 utf8) base =
      (f : FieldInfo) × IsWireArray r b info f n base
      × (info.dim ≡ 1)
      × (f.type ≡ t_char)
      × (word b 4 (base + 8) ≡ n * 2)
      × (word b 4 (base + 12) ≡ length utf8)
      × (read_at b (base + 16) (length utf8) ≡ utf8)

  -- The members of an instance follow its body; its slots hold where they start.
  pub WireFields : ClassResolver → (ℕ → ℕ) → Values → List FieldInfo → ℕ → ℕ → Type 0
  WireFields r b end [] body at = Unit
  WireFields r b end (f ∷ fs) body at = ⊥
  WireFields r b (scalar n vs) [] body at = ⊥
  WireFields r b (scalar n vs) (f ∷ fs) body at =
      (is_primitive_type f.type ≡ true)
      × (word b (width f.type) (body + f.offset) ≡ n)
      × WireFields r b vs fs body at
  WireFields r b (member v vs) [] body at = ⊥
  WireFields r b (member v vs) (f ∷ fs) body at =
      (is_primitive_type f.type ≡ false)
      × (is_reference_type f.type ≡ true)
      × (word b 4 (body + f.offset) ≡ align at)
      × Wire r b f.id v (align at)
      × WireFields r b vs fs body (end_of v (align at))

  pub WireElems : ClassResolver → (ℕ → ℕ) → ℕ → Values → ℕ → Type 0
  WireElems r b id end at = Unit
  WireElems r b id (scalar n vs) at = ⊥
  WireElems r b id (member v vs) at =
      Wire r b id v (align at) × WireElems r b id vs (end_of v (align at))

-- ===== src/Serde/Tests.antt =====
-- Types and pointers on small inputs.
use dshuffle.Prelude.{List, [], ◌∷◌, some, none, ℕ, ◌≡◌, refl, ◌==◌, if◌then◌else◌, arith}
use dshuffle.Prelude.Outcome.{ok, ◌>>=◌}
use dshuffle.Serde.Classes.{
  ClassInfo, ClassResolver, register_class_info, get_class_info, get_class_info_by_id,
  get_class_info_by_klass,
}
use dshuffle.Serde.ClassLaws.{get_class_info_by_klass-get_class_info}
use dshuffle.Serde.ClassTables.{IsValid, register_class_info-IsValid}
use dshuffle.Serde.Pointer.{parse_cptr, compress_ptr}
use dshuffle.Serde.PointerLaws.{compress_ptr-parse_cptr, parse_cptr-compress_ptr_non_zero}

compress_ptr-parse_cptr_example : (compress_ptr 98760 0 2 3 >>= λ c. parse_cptr c 0 2 3) ≡ ok 98760
compress_ptr-parse_cptr_example = compress_ptr-parse_cptr 98760 0 3 (omega arith) refl (omega arith)

-- The pointer 5 over the base 8000 comes back as another one.
parse_cptr-compress_ptr_non_zero_example :
    (parse_cptr 5 8000 3 3 >>= λ p. compress_ptr p 8000 3 3) ≡ ok 4294960301
parse_cptr-compress_ptr_non_zero_example = parse_cptr-compress_ptr_non_zero 5 1000 3 (omega arith)

-- A class without fields.
abbrev bare : ℕ → ℕ → ClassInfo
bare klass id = record {
  klass = klass;
  id = id;
  enum_ref_arr_off = 0;
  obj_size = 16;
  header_size = 16;
  dim = 0;
  fields = [];
  enum_refs = [];
}

-- Three registered classes, in ascending order of their pointers.
abbrev three : List ClassInfo
three = bare 10 21 ∷ bare 20 20 ∷ bare 30 22 ∷ []

get_class_info_by_klass-get_class_info_example :
    get_class_info_by_klass three 30 ≡ ok (get_class_info three 30)
get_class_info_by_klass-get_class_info_example =
    get_class_info_by_klass-get_class_info three 30
      ((omega arith, (omega arith, tt)), ((omega arith, tt), (tt, tt)))

-- The kernel's search on a class that is there and one that is not.
found_and_missing :
    (get_class_info_by_klass three 30 ≡ ok (some (bare 30 22)))
    × (get_class_info_by_klass three 25 ≡ ok none)
unfolding get_class_info_by_klass
found_and_missing = (refl, refl)

abbrev nothing : ClassResolver
nothing = record { info_by_id = []; info_by_klass = [] }

nothing-IsValid : IsValid nothing
unfolding get_class_info
nothing-IsValid = record {
  sorted = tt;
  numbered = λ i x e. absurd (ground (arith, e));
  listed = λ k x e. absurd (ground (arith, e));
}

register_class_info-IsValid_example :
    (r' : ClassResolver) × (x : ClassInfo) × (register_class_info (bare 77 0) nothing ≡ ok r')
    × (x ≡ bare 77 x.id)
    × IsValid r'
    × (get_class_info_by_id r' x.id ≡ ok (some x))
    × ((k : ℕ)
        → get_class_info r'.info_by_klass k ≡ (if 77 == k then some x else get_class_info [] k))
unfolding get_class_info
register_class_info-IsValid_example =
    register_class_info-IsValid nothing (bare 77 0) nothing-IsValid refl (omega arith)

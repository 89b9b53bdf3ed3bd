-- ===== src/Serde/Classes.antt =====
-- lib/sd/native/class_resolver.hxx, class_walker.cxx and lib/sd/kernel/sd.c: the registered classes by id
-- and by class pointer, and the search that the kernel makes in the second table.
use dshuffle.Prelude.{
  ℕ, zero, suc, ◌+◌, ◌-◌, ◌/◌, true, false, ltb, leb, ◌==◌, ◌&&◌, if◌then◌else◌, List, [], ◌∷◌,
  ◌++◌, Option, none, some, length, get_elem?,
}
use dshuffle.Prelude.Outcome.{Outcome, ok, undefined, out_of_fuel, ◌>>=◌, ◌>>◌, check}

-- `field_info_t`; the offset is counted from the end of the header.
pub record FieldInfo : Type 0 where
  pub id : ℕ
  pub offset : ℕ
  pub type : ℕ
  pub j_field_id : ℕ

-- `class_info_t`. A `class_id_t` is its bit pattern of 16 bits. The non-static fields and the handles of
-- the enum constants are lists, so their numbers are the lengths.
pub record ClassInfo : Type 0 where
  pub klass : ℕ
  pub id : ℕ
  pub enum_ref_arr_off : ℕ
  pub obj_size : ℕ
  pub header_size : ℕ
  pub dim : ℕ
  pub fields : List FieldInfo
  pub enum_refs : List ℕ

abbrev pub unregistered_class_id : ℕ
unregistered_class_id = 65535

abbrev pub min_class_id : ℕ
min_class_id = 20

abbrev pub max_class_id : ℕ
max_class_id = 32767

-- The comparison is signed: a pattern above the largest id is negative.
unfoldable pub id2index : ℕ → Outcome ℕ
id2index id = check (leb min_class_id id && leb id max_class_id) >> ok (id - min_class_id)

unfoldable pub index2id : ℕ → Outcome ℕ
index2id i = check (leb (i + min_class_id) max_class_id) >> ok (i + min_class_id)

pub record ClassResolver : Type 0 where
  pub info_by_id : List ClassInfo
  pub info_by_klass : List ClassInfo

-- `insert(lower_bound(...), info)`: in front of the first class that is not below.
unfoldable pub insert_info : ClassInfo → List ClassInfo → List ClassInfo
insert_info info [] = info ∷ []
insert_info info (i ∷ is) =
    let rest = insert_info info is in if ltb i.klass info.klass then i ∷ rest else info ∷ i ∷ is

unfoldable pub register_class_info : ClassInfo → ClassResolver → Outcome ClassResolver
register_class_info fresh r = do
  id ← index2id (length r.info_by_id)
  let info : ClassInfo = record fresh { id = id }
  ok (record {
    info_by_id = r.info_by_id ++ info ∷ [];
    info_by_klass = insert_info info r.info_by_klass;
  })

-- `get_class_info(id)`; `none` is the dummy.
unfoldable pub get_class_info_by_id : ClassResolver → ℕ → Outcome (Option ClassInfo)
get_class_info_by_id r id = id2index id >>= λ idx. ok (get_elem? r.info_by_id idx)

-- `get_class_info(klass)`: what `lower_bound` finds, if it is the class.
unfoldable pub get_class_info : List ClassInfo → ℕ → Option ClassInfo
get_class_info [] klass = none
get_class_info (i ∷ is) klass =
    let rest = get_class_info is klass in
    if ltb i.klass klass then rest else (if i.klass == klass then some i else none)

-- The loop of `get_class_info_by_klass` between `l` and `r`; `none` is the null that is returned behind it,
-- after `UNREACHABLE_CRIT` has logged.
unfoldable pub search_klass : ℕ → List ClassInfo → ℕ → ℕ → ℕ → Outcome (Option ClassInfo)
search_klass zero infos klass l r = out_of_fuel
search_klass (suc fuel) infos klass l r = elim (ltb l r) [
  | false ↦ ok none
  | true ↦
      let m = (r - l) / 2 + l in
      elim (get_elem? infos m) [
        | none ↦ undefined
        | some info ↦ elim (info.klass == klass) [
          | true ↦ ok (some info)
          | false ↦ elim (ltb info.klass klass) [
            | true ↦ search_klass fuel infos klass (m + 1) r
            | false ↦ search_klass fuel infos klass l m
          ]
        ]
      ]
]

-- The interval is halved in each round, so its length and one more are fuel enough.
unfoldable pub get_class_info_by_klass : List ClassInfo → ℕ → Outcome (Option ClassInfo)
unfolding search_klass
get_class_info_by_klass infos klass = search_klass (length infos + 1) infos klass 0 (length infos)

-- ===== src/Serde/ClassTables.antt =====
-- Registration of a class in both tables.
use dshuffle.Prelude.{
  ℕ, ◌+◌, ◌-◌, ◌<◌, ◌≤◌, ◌≡◌, refl, ap, ◌∙◌, subst, true, ◌&&◌, Bool-cases, inl, inr, ltb, leb,
  ◌==◌, if◌then◌else◌, List, [], ◌∷◌, ◌++◌, none, some, length, get_elem?, get_elem?-snoc,
  get_elem?-snoc_last, get_elem?-snoc_old, All, arith,
}
use dshuffle.Prelude.Outcome.{ok}
use dshuffle.Serde.Classes.{
  ClassInfo, min_class_id, max_class_id, ClassResolver, index2id, insert_info, register_class_info,
  get_class_info, get_class_info_by_id, id2index,
}
use dshuffle.Serde.ClassLaws.{IsSorted}

All-insert_info :
    (P : ClassInfo → Type 0) (x : ClassInfo) (xs : List ClassInfo)
    → P x
    → All P xs
    → All P (insert_info x xs)
unfolding insert_info
All-insert_info P x [] h hs = (h, tt)
All-insert_info P x (y ∷ ys) h hs = elim (Bool-cases (ltb y.klass x.klass)) [
  | inl below ↦ rw below (hs.0, All-insert_info P x ys h hs.1)
  | inr above ↦ rw above (h, hs)
]

All-trans :
    (x y : ClassInfo) (ys : List ClassInfo)
    → x.klass < y.klass
    → All (λ (z : ClassInfo). y.klass < z.klass) ys
    → All (λ (z : ClassInfo). x.klass < z.klass) ys
All-trans x y [] lt h = tt
All-trans x y (z ∷ zs) lt h = (let next = h.0 in omega (arith, next), All-trans x y zs lt h.1)

-- A class that is not registered is put in its place.
insert_info-IsSorted :
    (x : ClassInfo) (xs : List ClassInfo)
    → IsSorted xs
    → get_class_info xs x.klass ≡ none
    → IsSorted (insert_info x xs)
      × ((k : ℕ)
          → get_class_info (insert_info x xs) k
            ≡ (if x.klass == k then some x else get_class_info xs k))
unfolding insert_info get_class_info
insert_info-IsSorted x [] sorted fresh = ((tt, tt), λ k. ground arith)
insert_info-IsSorted x (y ∷ ys) sorted fresh = elim (Bool-cases (ltb y.klass x.klass)) [
  | inl below ↦
      let lt : y.klass < x.klass = ground arith in
      let fresh' : get_class_info ys x.klass ≡ none = ground (arith, fresh, below) in
      let (sorted', lookups) = insert_info-IsSorted x ys sorted.1 fresh' in
      rw below (
        (All-insert_info (λ (z : ClassInfo). y.klass < z.klass) x ys lt sorted.0, sorted'),
        λ k. ground (arith, lookups k, lt),
      )
  | inr above ↦
      let lt : x.klass < y.klass = ground (arith, fresh, above) in
      rw above (((lt, All-trans x y ys lt sorted.0), sorted), λ k. ground (arith, lt))
]

-- The tables agree: every class is in both, under its own id, and the second ascends.
pub record IsValid (r : ClassResolver) : Type 0 where
  pub sorted : IsSorted r.info_by_klass
  pub numbered :
      (i : ℕ) (x : ClassInfo)
      → get_elem? r.info_by_id i ≡ some x
      → (x.id ≡ i + min_class_id) × (get_class_info r.info_by_klass x.klass ≡ some x)
  pub listed :
      (k : ℕ) (x : ClassInfo)
      → get_class_info r.info_by_klass k ≡ some x
      → (i : ℕ) × (get_elem? r.info_by_id i ≡ some x) × (x.klass ≡ k)

-- Registering a class that is not registered, while there is an id left, succeeds and keeps the
-- tables valid: the new class is found by its id and by its pointer, and every other lookup by
-- pointer is as before. In valid tables the class at index i has the id i plus 20 and is found by
-- its pointer, each class found by a pointer is in the table by id, and the table by pointer
-- ascends.
pub register_class_info-IsValid :
    (r : ClassResolver) (info : ClassInfo)
    → IsValid r
    → get_class_info r.info_by_klass info.klass ≡ none
    → length r.info_by_id + min_class_id ≤ max_class_id
    → (r' : ClassResolver) × (x : ClassInfo) × (register_class_info info r ≡ ok r')
      × (x ≡ record info { id = x.id })
      × IsValid r'
      × (get_class_info_by_id r' x.id ≡ ok (some x))
      × ((k : ℕ)
          → get_class_info r'.info_by_klass k
            ≡ (if info.klass == k then some x else get_class_info r.info_by_klass k))
unfolding register_class_info index2id get_class_info_by_id id2index
register_class_info-IsValid r info valid fresh room =
    let n = length r.info_by_id in
    let x : ClassInfo = record info { id = n + min_class_id } in
    let (sorted, lookups) = insert_info-IsSorted x r.info_by_klass valid.sorted fresh in
    let fits : leb (n + min_class_id) max_class_id ≡ true = ground arith in
    let legal : (leb min_class_id (n + min_class_id) && leb (n + min_class_id) max_class_id)
        ≡ true =
      ground arith in
    let back : n + min_class_id - min_class_id ≡ n = omega arith in
    (
      record { info_by_id = r.info_by_id ++ x ∷ []; info_by_klass = insert_info x r.info_by_klass },
      x,
      rw fits,
      refl,
      record {
        sorted = sorted;
        numbered = numbered x refl refl lookups;
        listed = listed x lookups;
      },
      rw (legal, back, get_elem?-snoc_last r.info_by_id x),
      lookups,
    )
  where
    numbered :
        (x : ClassInfo)
        → (x.klass ≡ info.klass)
        → (x.id ≡ length r.info_by_id + min_class_id)
        → ((k : ℕ)
            → get_class_info (insert_info x r.info_by_klass) k
              ≡ (if x.klass == k then some x else get_class_info r.info_by_klass k))
        → (i : ℕ) (y : ClassInfo) → get_elem? (r.info_by_id ++ x ∷ []) i ≡ some y
        → (y.id ≡ i + min_class_id)
          × (get_class_info (insert_info x r.info_by_klass) y.klass ≡ some y)
    numbered x own number lookups i y e = elim (get_elem?-snoc r.info_by_id x i y e) [
      | inl old ↦
          let (id, there) = valid.numbered i y (old.1) in
          (id, lookups y.klass ∙ ground (arith, there, fresh, own))
      | inr new ↦
          let same = new.1 in
          subst
            (λ (z : ClassInfo).
              (z.id ≡ i + min_class_id)
              × (get_class_info (insert_info x r.info_by_klass) z.klass ≡ some z))
            same (omega (arith, number, new.0), lookups x.klass ∙ ground arith)
    ]

    listed :
        (x : ClassInfo)
        → ((k : ℕ)
            → get_class_info (insert_info x r.info_by_klass) k
              ≡ (if x.klass == k then some x else get_class_info r.info_by_klass k))
        → (k : ℕ) (y : ClassInfo) → get_class_info (insert_info x r.info_by_klass) k ≡ some y
        → (i : ℕ) × (get_elem? (r.info_by_id ++ x ∷ []) i ≡ some y) × (y.klass ≡ k)
    listed x lookups k y e = elim (Bool-cases (x.klass == k)) [
      | inl mine ↦
          let same : x ≡ y = ground (arith, lookups k, e, mine) in
          (
            length r.info_by_id,
            get_elem?-snoc_last r.info_by_id x ∙ ap some same,
            ground (arith, same, mine),
          )
      | inr other ↦
          let there : get_class_info r.info_by_klass k ≡ some y =
            ground (arith, lookups k, e, other) in
          let (i, at_i, key) = valid.listed k y there in
          (i, get_elem?-snoc_old r.info_by_id x i y at_i, key)
    ]

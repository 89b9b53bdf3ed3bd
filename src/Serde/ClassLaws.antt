-- ===== src/Serde/ClassLaws.antt =====
-- The host's lookup of a class and the kernel's search.
use dshuffle.Prelude.{
  ℕ, zero, suc, ◌+◌, ◌-◌, ◌/◌, ◌<◌, ◌≤◌, ◌≡◌, refl, sym, ap, ◌∙◌, subst, true, false, Bool-cases,
  inl, inr, ltb, ◌==◌, ◌≢◌, List, [], ◌∷◌, Option, none, some, length, get_elem?, get_elem?-of_lt,
  get_elem?-lt, All, arith, ltb→lt, dec_lt, ℕ_discrete,
}
use dshuffle.Prelude.Outcome.{Outcome, ok}
use dshuffle.Serde.Classes.{ClassInfo, get_class_info, search_klass, get_class_info_by_klass}

-- The classes ascend.
abbrev pub IsSorted : List ClassInfo → Type 0
IsSorted [] = Unit
IsSorted (i ∷ is) = All (λ (j : ClassInfo). i.klass < j.klass) is × IsSorted is

All-get_elem? :
    (P : ClassInfo → Type 0) (xs : List ClassInfo) (i : ℕ) (x : ClassInfo)
    → All P xs
    → get_elem? xs i ≡ some x
    → P x
All-get_elem? P [] i x h e = absurd (ground arith)
All-get_elem? P (y ∷ ys) zero x h e = let same : y ≡ x = ground (arith, e) in subst P same h.0
All-get_elem? P (y ∷ ys) (suc i) x h e = All-get_elem? P ys i x h.1 e

IsSorted-lt :
    (xs : List ClassInfo) (i j : ℕ) (x y : ClassInfo)
    → IsSorted xs
    → i < j
    → get_elem? xs i ≡ some x
    → get_elem? xs j ≡ some y
    → x.klass < y.klass
IsSorted-lt [] i j x y h lt e e' = absurd (ground (arith, e))
IsSorted-lt (z ∷ zs) zero (suc j) x y h lt e e' =
    let same : z ≡ x = ground (arith, e) in
    let above = All-get_elem? (λ (k : ClassInfo). z.klass < k.klass) zs j y h.0 e' in
    subst (λ (k : ClassInfo). k.klass < y.klass) same above
IsSorted-lt (z ∷ zs) (suc i) (suc j) x y h lt e e' = IsSorted-lt zs i j x y h.1 (omega arith) e e'
IsSorted-lt (z ∷ zs) i zero x y h lt e e' = absurd (omega arith)

pub get_class_info-All :
    (P : ClassInfo → Type 0) (xs : List ClassInfo) (klass : ℕ) (info : ClassInfo)
    → All P xs
    → get_class_info xs klass ≡ some info
    → P info
unfolding get_class_info
get_class_info-All P [] klass info h e = absurd (ground (arith, e))
get_class_info-All P (x ∷ xs) klass info h e = elim (Bool-cases (ltb x.klass klass)) [
  | inl below ↦ get_class_info-All P xs klass info h.1 (rw below at e)
  | inr there ↦
      let e' = rw there at e in
      elim (Bool-cases (x.klass == klass)) [
        | inl same ↦
            let is : x ≡ info = (let e'' = rw same at e' in ground (arith, e'')) in subst P is h.0
        | inr other ↦ absurd (let e'' = rw other at e' in ground (arith, e''))
      ]
]

-- The host's lookup finds the class wherever it stands, or it is nowhere.
get_class_info-at :
    (xs : List ClassInfo) (klass : ℕ)
    → IsSorted xs
    → (i : ℕ) (x : ClassInfo) → get_elem? xs i ≡ some x
    → x.klass ≡ klass
    → get_class_info xs klass ≡ some x
unfolding get_class_info
get_class_info-at [] klass h i x e same = absurd (ground (arith, e))
get_class_info-at (y ∷ ys) klass h zero x e same =
    let mine : y ≡ x = ground (arith, e) in
    let own : y.klass ≡ klass = ap (λ (k : ClassInfo). k.klass) mine ∙ same in
    let at : ltb y.klass klass ≡ false = ground (arith, own) in
    let hit : (y.klass == klass) ≡ true = ground (arith, own) in rw (at, hit) (ap some mine)
get_class_info-at (y ∷ ys) klass h (suc i) x e same =
    let above = All-get_elem? (λ (k : ClassInfo). y.klass < k.klass) ys i x h.0 e in
    let below : ltb y.klass klass ≡ true = ground (arith, above, same) in
    rw below (get_class_info-at ys klass h.1 i x e same)

get_class_info-none :
    (xs : List ClassInfo) (klass : ℕ)
    → IsSorted xs
    → ((i : ℕ) (x : ClassInfo) → get_elem? xs i ≡ some x → x.klass ≢ klass)
    → get_class_info xs klass ≡ none
unfolding get_class_info
get_class_info-none [] klass h nowhere = refl
get_class_info-none (y ∷ ys) klass h nowhere =
    let rest = get_class_info-none ys klass h.1 (λ i x e. nowhere (suc i) x e) in
    let other = nowhere 0 y refl in
    let miss : (y.klass == klass) ≡ false = ground arith in
    elim (Bool-cases (ltb y.klass klass)) [
      | inl below ↦ rw below rest
      | inr above ↦ rw (above, miss)
    ]

module _ (xs : List ClassInfo) (klass : ℕ) (sorted : IsSorted xs) where
  after :
      (m : ℕ) (x : ClassInfo) (i : ℕ) (y : ClassInfo)
      → get_elem? xs m ≡ some x
      → get_elem? xs i ≡ some y
      → y.klass ≡ klass
      → ltb x.klass klass ≡ true
      → m + 1 ≤ i
  after m x i y here e same below = elim (dec_lt m i) [
    | yes lt ↦ omega arith
    | no not_lt ↦ elim (ℕ_discrete i m) [
      | yes eq ↦
          let one : some y ≡ some x = sym e ∙ ap (get_elem? xs) eq ∙ here in
          absurd (ground (arith, one, same, below))
      | no ne ↦
          let order' = IsSorted-lt xs i m y x sorted (omega arith) e here in
          absurd (ground (arith, order', same, below))
    ]
  ]

  before :
      (m : ℕ) (x : ClassInfo) (i : ℕ) (y : ClassInfo)
      → get_elem? xs m ≡ some x
      → get_elem? xs i ≡ some y
      → y.klass ≡ klass
      → (x.klass == klass) ≡ false
      → ltb x.klass klass ≡ false
      → i < m
  before m x i y here e same miss above = elim (dec_lt i m) [
    | yes lt ↦ lt
    | no not_lt ↦ elim (ℕ_discrete i m) [
      | yes eq ↦
          let one : some y ≡ some x = sym e ∙ ap (get_elem? xs) eq ∙ here in
          absurd (ground (arith, one, same, miss))
      | no ne ↦
          let order' = IsSorted-lt xs m i x y sorted (omega arith) here e in
          absurd (ground (arith, order', same, above))
    ]
  ]

  -- The class in the middle decides, given what the two halves give.
  search_klass-halves :
      (fuel l m r : ℕ) (x : ClassInfo)
      → get_elem? xs m ≡ some x
      → (ltb x.klass klass ≡ true
          → search_klass fuel xs klass (m + 1) r ≡ ok (get_class_info xs klass))
      → ((x.klass == klass) ≡ false
          → ltb x.klass klass ≡ false
          → search_klass fuel xs klass l m ≡ ok (get_class_info xs klass))
      → elim (x.klass == klass) as (λ _. Outcome (Option ClassInfo)) [
        | true ↦ ok (some x)
        | false ↦ elim (ltb x.klass klass) as (λ _. Outcome (Option ClassInfo)) [
          | true ↦ search_klass fuel xs klass (m + 1) r
          | false ↦ search_klass fuel xs klass l m
        ]
      ]
        ≡ ok (get_class_info xs klass)
  search_klass-halves fuel l m r x at_m upper lower = elim (Bool-cases (x.klass == klass)) [
    | inl hit ↦
        let same : x.klass ≡ klass = ground arith in
        rw (hit, get_class_info-at xs klass sorted m x at_m same)
    | inr miss ↦ elim (Bool-cases (ltb x.klass klass)) [
      | inl below ↦ rw (miss, below) (upper below)
      | inr above ↦ rw (miss, above) (lower miss above)
    ]
  ]

  -- Between `l` and `r` stands every place of the class.
  search_klass-get_class_info :
      (fuel l r : ℕ)
      → l ≤ r
      → r < l + fuel
      → r ≤ length xs
      → ((i : ℕ) (x : ClassInfo) → get_elem? xs i ≡ some x → x.klass ≡ klass → (l ≤ i) × (i < r))
      → search_klass fuel xs klass l r ≡ ok (get_class_info xs klass)
  unfolding search_klass
  search_klass-get_class_info zero l r order enough inside places = absurd (omega arith)
  search_klass-get_class_info (suc fuel) l r order enough inside places =
      elim (Bool-cases (ltb l r)) [
        | inr empty ↦
            let nowhere : (i : ℕ) (x : ClassInfo) → get_elem? xs i ≡ some x → x.klass ≢ klass =
              λ i x e same. (let (lo, hi) = places i x e same in ground (arith, lo, hi)) in
            rw (search_klass, empty, get_class_info-none xs klass sorted nowhere)
        | inl more ↦
            let m = (r - l) / 2 + l in
            let lt = ltb→lt l r more in
            let (x, at_m) = get_elem?-of_lt xs m (omega (arith, lt, inside)) in
            rw (search_klass, more, at_m)
              (search_klass-halves fuel l m r x at_m
                (λ below.
                  search_klass-get_class_info fuel (m + 1) r (omega (arith, lt)) (omega (arith, lt))
                    inside (λ i y e same. (after m x i y at_m e same below, (places i y e same).1)))
                (λ miss above.
                  search_klass-get_class_info fuel l m (omega (arith, lt)) (omega (arith, lt))
                    (omega (arith, lt, inside))
                    (λ i y e same. ((places i y e same).0, before m x i y at_m e same miss above))))
      ]

-- On a table of classes that ascends strictly by class pointer, the kernel's search ends for every
-- pointer, and returns the class that the host's lookup finds, or null where the host finds none.
pub get_class_info_by_klass-get_class_info :
    (xs : List ClassInfo) (klass : ℕ)
    → IsSorted xs
    → get_class_info_by_klass xs klass ≡ ok (get_class_info xs klass)
unfolding get_class_info_by_klass
get_class_info_by_klass-get_class_info xs klass sorted =
    search_klass-get_class_info xs klass sorted (length xs + 1) 0 (length xs) (omega arith)
      (omega arith) (omega arith) (λ i x e same. (omega arith, get_elem?-lt xs i e))

-- ===== src/Memory/ObjectPool.antt =====
-- lib/util/simple_object_pool.hxx: `SimpleObjectPool`, with the set that a debug build keeps. An
-- object is its address.
use dshuffle.Prelude.{
  ℕ, ◌+◌, ◌<◌, ◌≡◌, refl, ltb, List, [], ◌∷◌, ◌++◌, Option, none, some, arith, lt→ltb, length,
  if◌then◌else◌, ap,
}
use dshuffle.Prelude.Outcome.{Outcome, ok, assert_failed, ◌>>◌, check}
use dshuffle.Memory.Count.{count, remove, count-append, count-remove}

pub record SimpleObjectPool : Type 0 where
  pub q : List ℕ
  pub allocated : List ℕ
  pub max_size : ℕ

unfoldable pub object_pool : ℕ → SimpleObjectPool
object_pool max_size = record { q = []; allocated = []; max_size = max_size }

unfoldable pub size : SimpleObjectPool → ℕ
size p = length p.q

unfoldable pub capacity : SimpleObjectPool → ℕ
capacity p = p.max_size

unfoldable pub add : SimpleObjectPool → ℕ → SimpleObjectPool
add p obj = record p { q = p.q ++ obj ∷ [] }

-- `std::unordered_set::insert`: an element that is in the set is not put in again.
abbrev pub insert : ℕ → List ℕ → List ℕ
insert o set = if ltb 0 (count o set) then set else o ∷ set

-- Null where the pool is empty.
unfoldable pub acquire : SimpleObjectPool → Option ℕ × SimpleObjectPool
acquire p = elim p.q [
  | [] ↦ (none, p)
  | o ∷ rest ↦ (some o, record p { q = rest; allocated = insert o p.allocated })
]

unfoldable pub release : SimpleObjectPool → ℕ → Outcome SimpleObjectPool
release p obj = do
  check (ltb 0 (count obj p.allocated))
  ok (record p { q = p.q ++ obj ∷ []; allocated = remove obj p.allocated })

-- The objects that the pool knows, free or lent.
abbrev pub holdings : SimpleObjectPool → ℕ → ℕ
holdings p o = count o p.q + count o p.allocated

-- No object is in the pool and lent, or twice in either.
abbrev pub IsValid : SimpleObjectPool → Type 0
IsValid p = (o : ℕ) → holdings p o < 2

-- In a valid object pool, acquire neither loses an object nor makes a second one of it: every object
-- is in the queue or lent as often as before.
pub acquire-holdings :
    (p : SimpleObjectPool) (o : ℕ) → IsValid p → holdings (acquire p).1 o ≡ holdings p o
unfolding acquire
acquire-holdings p o valid = go p.q refl
  where
    go : (q : List ℕ) → p.q ≡ q → holdings (acquire p).1 o ≡ holdings p o
    go [] e = rw (e, acquire) (ground arith)
    go (x ∷ rest) e = rw (e, acquire) (ground (arith, valid x, ap (count x) e, ap (count o) e))

-- In a valid object pool, releasing an object that is lent succeeds and loses no object, and
-- releasing the same object again fails the assertion.
pub release_twice :
    (p : SimpleObjectPool) (obj : ℕ)
    → IsValid p
    → 0 < count obj p.allocated
    → (p' : SimpleObjectPool) × (release p obj ≡ ok p')
      × ((o : ℕ) → holdings p' o ≡ holdings p o)
      × (release p' obj ≡ assert_failed)
unfolding release
release_twice p obj valid lent = (
  record p { q = p.q ++ obj ∷ []; allocated = remove obj p.allocated },
  rw (lt→ltb 0 (count obj p.allocated) lent),
  λ o. ground (arith, count-append o p.q (obj ∷ []), count-remove obj o p.allocated lent),
  let gone : count obj (remove obj p.allocated) ≡ 0 =
        ground (arith, valid obj, count-remove obj obj p.allocated lent) in
      rw gone,
)

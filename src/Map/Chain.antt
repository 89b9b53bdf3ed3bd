-- ===== src/Map/Chain.antt =====
-- The chain of one hash slot, which both maps walk: `slots[h(k)]` is the newest entry of the slot,
-- and `next[p]` the entry before `p` in it.
use dshuffle.Prelude.{
  ℕ, zero, suc, ◌-◌, ◌^◌, ◌≤◌, ◌<◌, ◌≡◌, refl, ap, ◌∙◌, false, inl, inr, Option, none, some, arith,
  ◌==◌, ==_iff, if◌then◌else◌, Bool-cases,
}

-- `invalid_mark`, the 16-bit -1
abbrev pub invalid_mark : ℕ
invalid_mark = 2 ^ 16 - 1

-- An array cell is written, or one field of its entries.
abbrev pub update : (ℕ → ℕ) → ℕ → ℕ → ℕ → ℕ
update f i v j = if j == i then v else f j

-- Where a walk ends; `looping` says that it has used up its fuel.
pub data Search : Type 0 where
  found : ℕ → Search
  missing looping : Search

-- `while (p != invalid_mark) { if (s[p].k == k) return ...; p = next_k[p]; }`
unfoldable pub search : ℕ → (ℕ → ℕ) → (ℕ → ℕ) → ℕ → ℕ → Search
search zero key next k p = looping
search (suc fuel) key next k p =
    let rest = search fuel key next k (next p) in
    if p == invalid_mark then missing else if key p == k then found p else rest

-- The newest entry below `i` that lies in slot `j`.
unfoldable pub last : (ℕ → ℕ) → (ℕ → ℕ) → ℕ → ℕ → ℕ
last hash key j zero = invalid_mark
last hash key j (suc i) = if hash (key i) == j then i else last hash key j i

-- The specification: the newest entry below `i` with key `k`, found by looking at every entry.
unfoldable pub newest : (ℕ → ℕ) → ℕ → ℕ → Search
newest key k zero = missing
newest key k (suc i) = if key i == k then found i else newest key k i

-- The first `n` entries are linked: each slot starts at its newest entry and each entry leads on to
-- the one before it in its slot.
pub record IsLinked (hash key : ℕ → ℕ) (slots next : ℕ → ℕ) (n : ℕ) : Type 0 where
  pub heads : (j : ℕ) → slots j ≡ last hash key j n
  pub links : (i : ℕ) → i < n → next i ≡ last hash key (hash (key i)) i

module _ (hash key next : ℕ → ℕ) (n k : ℕ) where
  pub search-newest :
      ((i : ℕ) → i < n → next i ≡ last hash key (hash (key i)) i)
      → (i fuel : ℕ) → i ≤ n
      → n ≤ invalid_mark
      → i < fuel
      → search fuel key next k (last hash key (hash k) i) ≡ newest key k i
  unfolding search last newest
  search-newest links i zero le fits lt = absurd (omega arith)
  search-newest links zero (suc fuel) le fits lt = refl
  search-newest links (suc i) (suc fuel) le fits lt = elim (Bool-cases (hash (key i) == hash k)) [
    | inl same ↦
        let e : hash (key i) ≡ hash k = (==_iff _ _).0 same in
        let step = links i (omega arith) ∙ ap (λ j. last hash key j i) e in
        let ih = search-newest links i fuel (omega arith) fits (omega arith) in
        let rest = ap (search fuel key next k) step ∙ ih in rw same (ground (arith, rest))
    | inr other ↦
        let ih = search-newest links i (suc fuel) (omega arith) fits (omega arith) in
        let apart : (key i == k) ≡ false = elim (Bool-cases (key i == k)) [
          | inl same ↦ absurd (ground (arith, ap hash ((==_iff (key i) k).0 same)))
          | inr e ↦ e
        ] in
        rw (other, apart) ih
  ]

module _ (hash key : ℕ → ℕ) (n k : ℕ) where
  -- A new entry `n` does not change what lies below it.
  last-update : (j i : ℕ) → i ≤ n → last hash (update key n k) j i ≡ last hash key j i
  unfolding last
  last-update j zero h = refl
  last-update j (suc i) h = ground (arith, last-update j i)

  newest-update_below : (q i : ℕ) → i ≤ n → newest (update key n k) q i ≡ newest key q i
  unfolding newest
  newest-update_below q zero h = refl
  newest-update_below q (suc i) h = ground (arith, newest-update_below q i)

  pub newest-update :
      (q : ℕ) → newest (update key n k) q (suc n) ≡ (if k == q then found n else newest key q n)
  unfolding newest
  newest-update q = ground (arith, newest-update_below q n)

  pub update-IsLinked :
      {slots next : ℕ → ℕ}
      → IsLinked hash key slots next n
      → IsLinked hash
          (update key n k)
          (update slots (hash k) n)
          (update next n (slots (hash k)))
          (suc n)
  unfolding last
  update-IsLinked {slots} {next} linked = record {
    heads = λ j. ground (arith, linked.heads j, last-update j n);
    links = λ i h. elim (Bool-cases (i == n)) [
      | inl e ↦ ground (arith, linked.heads (hash k), last-update (hash k) n)
      | inr e ↦ ground (arith, linked.links i, last-update (hash (key i)) i)
    ];
  }

-- What an index stands for.
abbrev pub value_at : (ℕ → ℕ) → Search → Option ℕ
value_at val (found p) = some (val p)
value_at val missing = none
value_at val looping = none

-- An index that a search returns is below the bound, and its entry has the key.
pub newest-lt : (key : ℕ → ℕ) (k i p : ℕ) → newest key k i ≡ found p → (p < i) × (key p ≡ k)
unfolding newest
newest-lt key k zero p e = cc
newest-lt key k (suc i) p e = ground (arith, newest-lt key k i p)

pub newest-ne-looping : (key : ℕ → ℕ) (k i : ℕ) → newest key k i ≡ looping → ⊥
unfolding newest
newest-ne-looping key k zero e = cc
newest-ne-looping key k (suc i) e = ground (arith, newest-ne-looping key k i)

-- An entry below `n` is read as before, and the new one is read where it is found.
pub value_at-update :
    (val : ℕ → ℕ) (w n : ℕ) (key : ℕ → ℕ) (q : ℕ)
    → value_at (update val n w) (newest key q n) ≡ value_at val (newest key q n)
value_at-update val w n key q = go (newest key q n) refl
  where
    go : (r : Search) → newest key q n ≡ r → value_at (update val n w) r ≡ value_at val r
    go (found p) e = let below = newest-lt key q n p e in ground (arith, below)
    go missing e = refl
    go looping e = refl

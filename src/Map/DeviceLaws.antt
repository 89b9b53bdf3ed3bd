-- ===== src/Map/DeviceLaws.antt =====
-- The device map against a map from keys to values.
use dshuffle.Prelude.{
  ℕ, suc, ◌+◌, ◌%◌, ◌^◌, ◌≤◌, ◌<◌, ◌≡◌, refl, ap, ◌∙◌, Option, none, some, arith, ltb,
  if◌then◌else◌, inl, inr, ◌⊎◌, dec_lt, ◌==◌, lt→ltb, false,
}
use dshuffle.Prelude.Outcome.{Outcome, ok, undefined, ◌>>=◌}
use dshuffle.Map.Chain.{
  Search, found, missing, looping, search, newest, IsLinked, update, last, search-newest,
  newest-update, update-IsLinked, newest-ne-looping, value_at, value_at-update,
}
use dshuffle.Map.Device.{
  prime, capacity, invalid_value_u64, h, DeviceMap, init_map, map_add, walk, map_lookup, map_insert,
}

pub record IsValid (m : DeviceMap) : Type 0 where
  pub fits : m.n ≤ capacity
  pub forward : IsLinked (λ k. h k prime) m.key m.slots_k m.next_k m.n

unfoldable pub view : DeviceMap → ℕ → Option ℕ
view m k = value_at m.val (newest m.key k m.n)

pub init_map-IsValid : IsValid init_map × ((k : ℕ) → view init_map k ≡ none)
unfolding init_map last view newest
init_map-IsValid = (
  record { fits = omega arith; forward = record { heads = λ j. refl; links = λ i l. elim l [ ] } },
  λ k. refl,
)

abbrev pub word_of : Option ℕ → ℕ
word_of none = invalid_value_u64
word_of (some v) = v

pub added : DeviceMap → ℕ → ℕ → DeviceMap
added m k v = record m {
  n = suc m.n;
  next_k = update m.next_k m.n (m.slots_k (h k prime));
  slots_k = update m.slots_k (h k prime) m.n;
  key = update m.key m.n k;
  val = update m.val m.n v;
}

-- What one insertion does: a present key is left alone, a new key is added, and in a full map the
-- entry is written past the arrays.
abbrev pub Inserts : DeviceMap → ℕ → ℕ → Option ℕ → Outcome (DeviceMap × ℕ) → Type 0
Inserts m k v present r =
    ((w : ℕ) × (present ≡ some w) × (r ≡ ok (m, 0)))
    ⊎ ((present ≡ none) × (m.n ≡ capacity) × (r ≡ undefined))
    ⊎ ((m' : DeviceMap) × (present ≡ none)
        × (r ≡ ok (m', 1))
        × IsValid m'
        × (m'.n ≡ m.n + 1)
        × ((q : ℕ) → view m' q ≡ (if k == q then some v else view m q)))

module _ {m : DeviceMap} (valid : IsValid m) where
  walk-newest : (k : ℕ) → walk m k ≡ newest m.key k m.n
  unfolding walk
  walk-newest k =
      let size = valid.fits in
      ap (search (capacity + 1) m.key m.next_k k) (valid.forward.heads (h k prime))
      ∙ search-newest (λ k. h k prime) m.key m.next_k m.n k valid.forward.links m.n (capacity + 1)
          (omega arith) (omega arith) (omega arith)

  -- In a valid device map, map_lookup ends on every key, and returns the value that was stored under
  -- the key last, or the invalid word for a key never stored.
  pub map_lookup-view : (k : ℕ) → map_lookup m k ≡ ok (word_of (view m k))
  unfolding map_lookup view
  map_lookup-view k = go (newest m.key k m.n) refl
    where
      go : (r : Search) → newest m.key k m.n ≡ r → map_lookup m k ≡ ok (word_of (value_at m.val r))
      go (found p) e = rw (walk-newest k ∙ e, map_lookup)
      go missing e = rw (walk-newest k ∙ e, map_lookup)
      go looping e = absurd (newest-ne-looping m.key k m.n e)

  pub added-IsValid : (k v : ℕ) → m.n < capacity → IsValid (added m k v)
  unfolding added
  added-IsValid k v room = record {
    fits = room;
    forward = update-IsLinked (λ q. h q prime) m.key m.n k valid.forward;
  }

  added-view : (k v q : ℕ) → view (added m k v) q ≡ (if k == q then some v else view m q)
  unfolding added view
  added-view k v q =
      rw (newest-update m.key m.key m.n k q) (ground (arith, value_at-update m.val v m.n m.key q))

  absent-Inserts :
      (k v : ℕ) {r : Outcome (DeviceMap × ℕ)}
      → r ≡ (map_add m k v >>= λ m'. ok (m', 1))
      → Inserts m k v none r
  unfolding map_add added
  absent-Inserts k v {r} e = elim (dec_lt m.n capacity) [
    | yes room ↦
        let wraps : (m.n + 1) % 2 ^ 16 ≡ suc m.n = omega arith in
        inr (
          inr (
            added m k v,
            refl,
            rw (e, lt→ltb m.n capacity room, wraps),
            added-IsValid k v room,
            omega arith,
            added-view k v,
          ))
    | no full ↦
        let size = valid.fits in
        let past : ltb m.n capacity ≡ false = ground arith in
        inr (inl (refl, omega arith, rw (e, past)))
  ]

  -- In a valid device map, map_insert ends on one of three branches: a key that is present leaves
  -- the map as it is and returns 0; a new key in a full map writes past the arrays, which is
  -- undefined; any other key is added with its value, 1 is returned, the map stays valid with one
  -- entry more and the lookups change exactly at the new key.
  pub map_insert-Inserts : (k v : ℕ) → Inserts m k v (view m k) (map_insert m k v)
  unfolding map_insert view
  map_insert-Inserts k v = go (newest m.key k m.n) refl
    where
      go :
          (r : Search)
          → newest m.key k m.n ≡ r
          → Inserts m k v (value_at m.val r) (map_insert m k v)
      go (found p) e = inl (m.val p, refl, rw (walk-newest k ∙ e, map_insert))
      go missing e = absent-Inserts k v (rw (walk-newest k ∙ e, map_insert))
      go looping e = absurd (newest-ne-looping m.key k m.n e)

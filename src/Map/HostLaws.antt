-- ===== src/Map/HostLaws.antt =====
-- `MapImpl` against a map from keys to values.
use dshuffle.Prelude.{
  ℕ, suc, ◌+◌, ◌%◌, ◌^◌, ◌≤◌, ◌<◌, ◌≡◌, refl, ◌∙◌, ap, Bool, true, false, not, ◌==◌, ltb, Option,
  none, some, arith, if◌then◌else◌, inl, inr, ◌⊎◌, lt→ltb, dec_lt,
}
use dshuffle.Prelude.Outcome.{Outcome, ok, assert_failed, ◌>>=◌}
use dshuffle.Map.Chain.{
  Search, found, missing, looping, search, newest, IsLinked, update, invalid_mark, last,
  search-newest, newest-update, update-IsLinked, newest-ne-looping, value_at, value_at-update,
}
use dshuffle.Map.Host.{
  h, MapMode, normal, bidirect, MapImpl, init, add, walk_k, walk_v, lookup_value, lookup_key,
  lookup_v, lookup_k, insert_kv, insert_vk, invalid_value, link_v,
}

-- The abstract map, and its inverse: the newest entry counts.
unfoldable pub view : MapImpl → ℕ → Option ℕ
view m k = value_at m.val (newest m.key k m.n)

unfoldable pub view_k : MapImpl → ℕ → Option ℕ
view_k m v = value_at m.key (newest m.val v m.n)

abbrev pub HasReverse : MapMode → ℕ → MapImpl → Type 0
HasReverse normal prime m = Unit {0}
HasReverse bidirect prime m = IsLinked (λ v. h v prime) m.val m.slots_v m.next_v m.n

pub record IsValid (mode : MapMode) (capacity prime : ℕ) (m : MapImpl) : Type 0 where
  pub fits : m.n ≤ capacity
  pub forward : IsLinked (λ k. h k prime) m.key m.slots_k m.next_k m.n
  pub reverse : HasReverse mode prime m

-- A looked-up word and the flag that tells whether it is one.
abbrev pub flagged : Option ℕ → ℕ × Bool
flagged none = (invalid_value, false)
flagged (some v) = (v, not (v == invalid_value))

init-HasReverse : (mode : MapMode) (prime : ℕ) → HasReverse mode prime init
unfolding init last
init-HasReverse normal prime = tt
init-HasReverse bidirect prime = record { heads = λ j. refl; links = λ i l. elim l [ ] }

-- A new map is valid and empty.
pub init-IsValid :
    (mode : MapMode) (capacity prime : ℕ)
    → IsValid mode capacity prime init × ((k : ℕ) → view init k ≡ none)
unfolding init last view newest
init-IsValid mode capacity prime = (
  record {
    fits = omega arith;
    forward = record { heads = λ j. refl; links = λ i l. elim l [ ] };
    reverse = init-HasReverse mode prime;
  },
  λ k. refl,
)

abbrev pub word_of : Option ℕ → ℕ
word_of none = invalid_value
word_of (some v) = v

flagged-word_of : (o : Option ℕ) → flagged o ≡ (word_of o, not (word_of o == invalid_value))
flagged-word_of none = refl
flagged-word_of (some v) = refl

-- What one insertion does, on each of its branches: a present key is left alone, a full map fails
-- its assertion, and a new key is added with its value.
abbrev pub Inserts :
    MapMode → ℕ → ℕ → MapImpl → ℕ → ℕ → Option ℕ → Outcome (MapImpl × Bool) → Type 0
Inserts mode capacity prime m k v present r =
    ((w : ℕ) × (present ≡ some w) × (r ≡ ok (m, false)))
    ⊎ ((present ≡ none) × (m.n ≡ capacity) × (r ≡ assert_failed))
    ⊎ ((m' : MapImpl) × (present ≡ none)
        × (r ≡ ok (m', true))
        × IsValid mode capacity prime m'
        × (m'.n ≡ m.n + 1)
        × ((q : ℕ) → view m' q ≡ (if k == q then some v else view m q))
        × ((u : ℕ) → view_k m' u ≡ (if v == u then some k else view_k m u)))

-- The map with the entry added, and what is read from it.
pub added : MapMode → ℕ → ℕ → MapImpl → ℕ → ℕ → MapImpl
unfolding link_v
added mode capacity prime m k v =
    let linked =
      link_v mode capacity prime
        (record m {
          n = suc m.n;
          next_k = update m.next_k m.n (m.slots_k (h k prime));
          slots_k = update m.slots_k (h k prime) m.n;
        })
        v m.n in
    record linked { key = update m.key m.n k; val = update m.val m.n v }

module _ (capacity prime : ℕ) (m : MapImpl) (k v : ℕ) where
  add-added :
      (mode : MapMode)
      → m.n < capacity
      → capacity ≤ invalid_mark
      → add mode capacity prime m k v ≡ ok (added mode capacity prime m k v)
  unfolding add added
  add-added mode room small =
      let wraps : (m.n + 1) % 2 ^ 16 ≡ suc m.n = omega arith in rw (lt→ltb m.n capacity room, wraps)

  add-full : (mode : MapMode) → ¬ (m.n < capacity) → add mode capacity prime m k v ≡ assert_failed
  unfolding add
  add-full mode full = let e : ltb m.n capacity ≡ false = ground arith in rw e

  added-n : (mode : MapMode) → (added mode capacity prime m k v).n ≡ suc m.n
  unfolding added
  added-n normal = refl
  added-n bidirect = refl

  pub added-IsValid :
      (mode : MapMode)
      → IsValid mode capacity prime m
      → m.n < capacity
      → IsValid mode capacity prime (added mode capacity prime m k v)
  unfolding added
  added-IsValid normal valid room = record {
    fits = room;
    forward = update-IsLinked (λ q. h q prime) m.key m.n k valid.forward;
    reverse = tt;
  }
  added-IsValid bidirect valid room = record {
    fits = room;
    forward = update-IsLinked (λ q. h q prime) m.key m.n k valid.forward;
    reverse = update-IsLinked (λ q. h q prime) m.val m.n v valid.reverse;
  }

  added-view :
      (mode : MapMode) (q : ℕ)
      → view (added mode capacity prime m k v) q ≡ (if k == q then some v else view m q)
  unfolding added view
  added-view normal q =
      rw (newest-update m.key m.key m.n k q) (ground (arith, value_at-update m.val v m.n m.key q))
  added-view bidirect q =
      rw (newest-update m.key m.key m.n k q) (ground (arith, value_at-update m.val v m.n m.key q))

  added-view_k :
      (mode : MapMode) (u : ℕ)
      → view_k (added mode capacity prime m k v) u ≡ (if v == u then some k else view_k m u)
  unfolding added view_k
  added-view_k normal u =
      rw (newest-update m.key m.val m.n v u) (ground (arith, value_at-update m.key k m.n m.val u))
  added-view_k bidirect u =
      rw (newest-update m.key m.val m.n v u) (ground (arith, value_at-update m.key k m.n m.val u))

module _ {mode : MapMode} {capacity prime : ℕ} (small : capacity ≤ invalid_mark) where
  module _ {m : MapImpl} (valid : IsValid mode capacity prime m) where
    walk_k-newest : (k : ℕ) → walk_k mode capacity prime m k ≡ newest m.key k m.n
    unfolding walk_k
    walk_k-newest k =
        let size = valid.fits in
        ap (search (capacity + 1) m.key m.next_k k) (valid.forward.heads (h k prime))
        ∙ search-newest (λ k. h k prime) m.key m.next_k m.n k valid.forward.links m.n (capacity + 1)
            (omega arith) (omega arith) (omega arith)

    lookup_value-at :
        (k : ℕ) (r : Search)
        → newest m.key k m.n ≡ r
        → lookup_value mode capacity prime m k ≡ ok (word_of (value_at m.val r))
    unfolding lookup_value
    lookup_value-at k (found p) e = rw (walk_k-newest k, e, lookup_value)
    lookup_value-at k missing e = rw (walk_k-newest k, e, lookup_value)
    lookup_value-at k looping e = absurd (newest-ne-looping m.key k m.n e)

    -- In a valid host map of a capacity below 2^16, lookup_v ends on every key, and returns the
    -- value that was stored under the key last, with the flag that it is not the invalid word; for a
    -- key never stored it returns the invalid word and false.
    pub lookup_v-view : (k : ℕ) → lookup_v mode capacity prime m k ≡ ok (flagged (view m k))
    unfolding lookup_v view
    lookup_v-view k = rw (lookup_value-at k _ refl, flagged-word_of)

    -- Where no entry was found: the assertion on the capacity decides.
    absent-Inserts :
        (k v : ℕ) {r : Outcome (MapImpl × Bool)}
        → r ≡ (add mode capacity prime m k v >>= λ m'. ok (m', true))
        → Inserts mode capacity prime m k v none r
    absent-Inserts k v {r} e = elim (dec_lt m.n capacity) [
      | yes room ↦ inr (
          inr (
            added mode capacity prime m k v,
            refl,
            rw (e, add-added capacity prime m k v mode room small),
            added-IsValid capacity prime m k v mode valid room,
            rw (added-n capacity prime m k v mode) (omega arith),
            added-view capacity prime m k v mode,
            added-view_k capacity prime m k v mode,
          ))
      | no full ↦
          let size = valid.fits in
          inr (inl (refl, omega arith, rw (e, add-full capacity prime m k v mode full)))
    ]

    -- In a valid host map of a capacity below 2^16, insert_kv ends on one of three branches: a key
    -- that is present leaves the map as it is and returns false; a new key in a full map fails the
    -- assertion; any other key is added with its value, the flag is true, the map stays valid with
    -- one entry more, and the lookups by key and by value change exactly at the new entry.
    pub insert_kv-Inserts :
        (k v : ℕ)
        → Inserts mode capacity prime m k v (view m k) (insert_kv mode capacity prime m k v)
    unfolding insert_kv view
    insert_kv-Inserts k v = go (newest m.key k m.n) refl
      where
        go :
            (r : Search)
            → newest m.key k m.n ≡ r
            → Inserts mode capacity prime m k v
                (value_at m.val r)
                (insert_kv mode capacity prime m k v)
        go (found p) e = inl (m.val p, refl, rw (walk_k-newest k ∙ e, insert_kv))
        go missing e = absent-Inserts k v (rw (walk_k-newest k ∙ e, insert_kv))
        go looping e = absurd (newest-ne-looping m.key k m.n e)

-- The inverse exists in bidirectional mode.
module _ {capacity prime : ℕ} (small : capacity ≤ invalid_mark) where
  module _ {m : MapImpl} (valid : IsValid bidirect capacity prime m) where
    walk_v-newest : (v : ℕ) → walk_v bidirect capacity prime m v ≡ newest m.val v m.n
    unfolding walk_v
    walk_v-newest v =
        let size = valid.fits in
        ap (search (capacity + 1) m.val m.next_v v) (valid.reverse.heads (h v prime))
        ∙ search-newest (λ v. h v prime) m.val m.next_v m.n v valid.reverse.links m.n (capacity + 1)
            (omega arith) (omega arith) (omega arith)

    lookup_key-at :
        (v : ℕ) (r : Search)
        → newest m.val v m.n ≡ r
        → lookup_key bidirect capacity prime m v ≡ ok (word_of (value_at m.key r))
    unfolding lookup_key
    lookup_key-at v (found p) e = rw (walk_v-newest v, e, lookup_key)
    lookup_key-at v missing e = rw (walk_v-newest v, e, lookup_key)
    lookup_key-at v looping e = absurd (newest-ne-looping m.val v m.n e)

    -- In a valid bidirectional host map of a capacity below 2^16, lookup_k ends on every value, and
    -- returns the key that was stored with the value last, with the flag that it is not the invalid
    -- word; for a value never stored it returns the invalid word and false.
    pub lookup_k-view_k : (v : ℕ) → lookup_k bidirect capacity prime m v ≡ ok (flagged (view_k m v))
    unfolding lookup_k view_k
    lookup_k-view_k v = rw (lookup_key-at v _ refl, flagged-word_of)

    -- In a valid bidirectional host map of a capacity below 2^16, insert_vk ends on one of three
    -- branches: a value that is present leaves the map as it is and returns false; a new value in a
    -- full map fails the assertion; any other value is added with its key, whether or not that key
    -- is present, and the lookups by key and by value change exactly at the new entry.
    pub insert_vk-Inserts :
        (v k : ℕ)
        → Inserts bidirect capacity prime m k v
            (view_k m v)
            (insert_vk bidirect capacity prime m v k)
    unfolding insert_vk view_k
    insert_vk-Inserts v k = go (newest m.val v m.n) refl
      where
        go :
            (r : Search)
            → newest m.val v m.n ≡ r
            → Inserts bidirect capacity prime m k v
                (value_at m.key r)
                (insert_vk bidirect capacity prime m v k)
        go (found p) e = inl (m.key p, refl, rw (walk_v-newest v ∙ e, insert_vk))
        go missing e = absent-Inserts small valid k v (rw (walk_v-newest v ∙ e, insert_vk))
        go looping e = absurd (newest-ne-looping m.val v m.n e)

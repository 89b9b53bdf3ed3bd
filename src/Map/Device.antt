-- ===== src/Map/Device.antt =====
-- lib/doca/kernel/map.h: the map of the DPA kernel, with its fixed capacity and number of slots.
use dshuffle.Prelude.{ℕ, ◌+◌, ◌-◌, ◌%◌, ◌^◌, Option, none, some, ltb, if◌then◌else◌}
use dshuffle.Prelude.Outcome.{Outcome, ok, undefined, out_of_fuel, ◌>>=◌}
use dshuffle.Map.Chain.{Search, found, missing, looping, search, update, invalid_mark}

abbrev pub prime : ℕ
prime = 23

abbrev pub capacity : ℕ
capacity = 64

abbrev pub invalid_value_u64 : ℕ
invalid_value_u64 = 2 ^ 64 - 1

unfoldable pub h : ℕ → ℕ → ℕ
h x p = x % p

-- `map_t`
pub record DeviceMap : Type 0 where
  pub n : ℕ
  pub slots_k : ℕ → ℕ
  pub next_k : ℕ → ℕ
  pub key : ℕ → ℕ
  pub val : ℕ → ℕ

-- `init_map`: `d_memset` of all bytes to -1, then `m->n = 0`
unfoldable pub init_map : DeviceMap
init_map = record {
  n = 0;
  slots_k = λ _. invalid_mark;
  next_k = λ _. invalid_mark;
  key = λ _. invalid_value_u64;
  val = λ _. invalid_value_u64;
}

-- There is no test of the capacity: the write of entry 64 is past the arrays.
unfoldable pub map_add : DeviceMap → ℕ → ℕ → Outcome DeviceMap
map_add m k v =
    if ltb m.n capacity
    then ok (record m {
      n = (m.n + 1) % 2 ^ 16;
      next_k = update m.next_k m.n (m.slots_k (h k prime));
      slots_k = update m.slots_k (h k prime) m.n;
      key = update m.key m.n k;
      val = update m.val m.n v;
    })
    else undefined

unfoldable pub walk : DeviceMap → ℕ → Search
walk m k = search (capacity + 1) m.key m.next_k k (m.slots_k (h k prime))

unfoldable pub map_lookup : DeviceMap → ℕ → Outcome ℕ
unfolding walk
map_lookup m k = elim (walk m k) [
  | found p ↦ ok (m.val p)
  | missing ↦ ok invalid_value_u64
  | looping ↦ out_of_fuel
]

-- The returned pointer is the index of the entry, or null.
unfoldable pub map_lookup_ref : DeviceMap → ℕ → Outcome (Option ℕ)
unfolding walk
map_lookup_ref m k = elim (walk m k) [
  | found p ↦ ok (some p)
  | missing ↦ ok none
  | looping ↦ out_of_fuel
]

-- The result is 1 where the entry is new.
unfoldable pub map_insert : DeviceMap → ℕ → ℕ → Outcome (DeviceMap × ℕ)
unfolding walk map_add
map_insert m k v = elim (walk m k) [
  | found _ ↦ ok (m, 0)
  | missing ↦ map_add m k v >>= λ m'. ok (m', 1)
  | looping ↦ out_of_fuel
]

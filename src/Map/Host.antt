-- ===== src/Map/Host.antt =====
-- lib/sd/native/map.hxx: `MapImpl`, in both modes. The arrays of `map_t` are functions of the index;
-- the template parameters are arguments. Keys and values are the 64-bit words that the class stores.
use dshuffle.Prelude.{
  ℕ, zero, suc, ◌+◌, ◌-◌, ◌/◌, ◌%◌, ◌^◌, Bool, true, false, not, ◌==◌, ltb, Option, none, some,
}
use dshuffle.Prelude.Outcome.{Outcome, ok, out_of_fuel, ◌>>=◌, ◌>>◌, check}
use dshuffle.Map.Chain.{Search, found, missing, looping, search, update, invalid_mark}

-- `h`: the sum of the four 16-bit halfwords, modulo the number of slots
unfoldable pub h : ℕ → ℕ → ℕ
h x p = (x % 2 ^ 16 + x / 2 ^ 16 % 2 ^ 16 + x / 2 ^ 32 % 2 ^ 16 + x / 2 ^ 48 % 2 ^ 16) % p

pub data MapMode : Type 0 where
  normal bidirect : MapMode

-- `bidirect_map_t`; in normal mode the last two index arrays do not exist and are never touched.
pub record MapImpl : Type 0 where
  pub n : ℕ
  pub slots_k : ℕ → ℕ
  pub next_k : ℕ → ℕ
  pub slots_v : ℕ → ℕ
  pub next_v : ℕ → ℕ
  pub key : ℕ → ℕ
  pub val : ℕ → ℕ

abbrev pub invalid_value : ℕ
invalid_value = 2 ^ 64 - 1

-- `memset(m, -1, sizeof(map_t)); m->n = 0;`
unfoldable pub init : MapImpl
init = record {
  n = 0;
  slots_k = λ _. invalid_mark;
  next_k = λ _. invalid_mark;
  slots_v = λ _. invalid_mark;
  next_v = λ _. invalid_mark;
  key = λ _. invalid_value;
  val = λ _. invalid_value;
}

module _ (mode : MapMode) (capacity prime : ℕ) where
  -- the links of a new entry; the reverse links only in bidirectional mode
  unfoldable pub link_v : MapImpl → ℕ → ℕ → MapImpl
  link_v m v n = elim mode [
    | normal ↦ m
    | bidirect ↦ record m {
      next_v = update m.next_v n (m.slots_v (h v prime));
      slots_v = update m.slots_v (h v prime) n;
    }
  ]

  unfoldable pub add : MapImpl → ℕ → ℕ → Outcome MapImpl
  unfolding link_v
  add m k v = do
    check (ltb m.n capacity)
    let nk = h k prime
    let linked =
        link_v
          (record m {
            n = (m.n + 1) % 2 ^ 16;
            next_k = update m.next_k m.n (m.slots_k nk);
            slots_k = update m.slots_k nk m.n;
          })
          v m.n
    ok (record linked { key = update m.key m.n k; val = update m.val m.n v })

  -- A chain holds at most `capacity` entries, so each loop has fuel for one more round.
  unfoldable pub walk_k : MapImpl → ℕ → Search
  walk_k m k = search (capacity + 1) m.key m.next_k k (m.slots_k (h k prime))

  unfoldable pub walk_v : MapImpl → ℕ → Search
  walk_v m v = search (capacity + 1) m.val m.next_v v (m.slots_v (h v prime))

  -- `_lookup_v`
  unfoldable pub lookup_value : MapImpl → ℕ → Outcome ℕ
  unfolding walk_k
  lookup_value m k = elim (walk_k m k) [
    | found p ↦ ok (m.val p)
    | missing ↦ ok invalid_value
    | looping ↦ out_of_fuel
  ]

  -- `_lookup_k`
  unfoldable pub lookup_key : MapImpl → ℕ → Outcome ℕ
  unfolding walk_v
  lookup_key m v = elim (walk_v m v) [
    | found p ↦ ok (m.key p)
    | missing ↦ ok invalid_value
    | looping ↦ out_of_fuel
  ]

  -- `_lookup_v_ref`: a reference to a value is the index of its entry.
  unfoldable pub lookup_v_ref : MapImpl → ℕ → Outcome (Option ℕ)
  unfolding walk_k
  lookup_v_ref m k = elim (walk_k m k) [
    | found p ↦ ok (some p)
    | missing ↦ ok none
    | looping ↦ out_of_fuel
  ]

  unfoldable pub insert_kv : MapImpl → ℕ → ℕ → Outcome (MapImpl × Bool)
  unfolding walk_k add
  insert_kv m k v = elim (walk_k m k) [
    | found _ ↦ ok (m, false)
    | missing ↦ add m k v >>= λ m'. ok (m', true)
    | looping ↦ out_of_fuel
  ]

  unfoldable pub insert_vk : MapImpl → ℕ → ℕ → Outcome (MapImpl × Bool)
  unfolding walk_v add
  insert_vk m v k = elim (walk_v m v) [
    | found _ ↦ ok (m, false)
    | missing ↦ add m k v >>= λ m'. ok (m', true)
    | looping ↦ out_of_fuel
  ]

  -- the pair of a value and whether it is one
  unfoldable pub lookup_v : MapImpl → ℕ → Outcome (ℕ × Bool)
  unfolding lookup_value
  lookup_v m k = lookup_value m k >>= λ v. ok (v, not (v == invalid_value))

  unfoldable pub lookup_k : MapImpl → ℕ → Outcome (ℕ × Bool)
  unfolding lookup_key
  lookup_k m v = lookup_key m v >>= λ k. ok (k, not (k == invalid_value))

-- `for (uint16_t i = 0; i < m->n; i++) fn(key, value)`, with the effects of `fn` on a state.
visit {ℓ} : {S : Type ℓ} → MapImpl → (ℕ → ℕ → S → S) → ℕ → ℕ → S → S
visit m fn i zero s = s
visit m fn i (suc left) s = visit m fn (i + 1) left (fn (m.key i) (m.val i) s)

unfoldable pub for_each {ℓ} : {S : Type ℓ} → MapImpl → (ℕ → ℕ → S → S) → S → S
unfolding visit
for_each m fn s = visit m fn 0 m.n s

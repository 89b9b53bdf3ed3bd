-- ===== src/Memory/Layout.antt =====
-- Where the pieces of `Buffers` (lib/memory/naive_buffer.hxx) lie.
use dshuffle.Prelude.{
  ℕ, zero, suc, ◌+◌, ◌*◌, ◌≤◌, ◌<◌, ◌≡◌, ◌%◌, ◌^◌, ◌∙◌, refl, ap, true, false, ltb, arith, length,
  get_or, ◌≢◌, dec_lt, lt→ltb, sym,
}
use dshuffle.Memory.Region.{In}
use dshuffle.Memory.BufferPool.{Buffers, carve, buffers, piece, n_elements, no_region}

-- The handles that the constructor carves: piece `i` at its offset, and `n` of them, where the loop may
-- go on for more rounds.
carve-get_or :
    (fuel n p stop piece_len i : ℕ)
    → stop ≡ p + piece_len * n
    → 0 < piece_len
    → n < fuel
    → i < n
    → (get_or (carve fuel p stop piece_len) i no_region).base ≡ p + piece_len * i
      × ((get_or (carve fuel p stop piece_len) i no_region).len ≡ piece_len)
unfolding carve
carve-get_or zero n p stop piece_len i e pos enough h = absurd (omega arith)
carve-get_or (suc fuel) zero p stop piece_len i e pos enough h = elim h [ ]
carve-get_or (suc fuel) (suc n) p stop piece_len zero e pos enough h =
    let more : ltb p stop ≡ true = lt→ltb p stop (omega arith) in rw more (omega arith)
carve-get_or (suc fuel) (suc n) p stop piece_len (suc i) e pos enough h =
    let more : ltb p stop ≡ true = lt→ltb p stop (omega arith) in
    let rest =
      carve-get_or fuel n (p + piece_len) stop piece_len i (omega arith) pos (omega arith)
        (omega arith) in
    rw more (omega arith)

-- The loop ends by its test, behind the last piece.
length-carve :
    (fuel n p stop piece_len : ℕ)
    → stop ≡ p + piece_len * n
    → 0 < piece_len
    → n < fuel
    → length (carve fuel p stop piece_len) ≡ n
unfolding carve
length-carve zero n p stop piece_len e pos enough = absurd (omega arith)
length-carve (suc fuel) zero p stop piece_len e pos enough =
    let over : ltb p stop ≡ false = ground (arith, e) in rw over refl
length-carve (suc fuel) (suc n) p stop piece_len e pos enough =
    let more : ltb p stop ≡ true = lt→ltb p stop (omega arith) in
    rw more (
      omega
        (arith, length-carve fuel n (p + piece_len) stop piece_len (omega arith) pos (omega arith)))

scaled-le : (piece_len n : ℕ) → 0 < piece_len → n ≤ piece_len * n
scaled-le piece_len n pos = grind arith

-- What the pool needs of its buffers: equal pieces side by side, none at address 0.
pub record IsLaidOut (bs : Buffers) : Type 0 where
  pub pos : 0 < bs.piece_len
  pub nonzero : 0 < bs.region.base
  pub extent : bs.region.len ≡ bs.piece_len * n_elements bs
  pub place : (i : ℕ) → i < n_elements bs → (piece bs i).base ≡ bs.region.base + bs.piece_len * i
  pub width : (i : ℕ) → i < n_elements bs → (piece bs i).len ≡ bs.piece_len

-- Over an allocation at a nonzero address that ends below 2^64, with pieces of at least one byte,
-- the loop of the constructor of Buffers ends by its test after exactly n pieces, each of the length
-- asked for, one behind the other from the start of the region to its end.
pub buffers-IsLaidOut :
    (base n piece_len : ℕ)
    → 0 < base
    → 0 < piece_len
    → base + piece_len * n < 2 ^ 64
    → IsLaidOut (buffers base n piece_len) × (n_elements (buffers base n piece_len) ≡ n)
unfolding buffers
buffers-IsLaidOut base n piece_len nonzero pos room =
    let size = piece_len * n % 2 ^ 64 in
    let exact : size ≡ piece_len * n = omega (arith, room) in
    let stop : base + size ≡ base + piece_len * n = omega (arith, exact) in
    let enough : n < size + 1 = omega (arith, exact, scaled-le piece_len n pos) in
    let long = length-carve (size + 1) n base (base + size) piece_len stop pos enough in
    (
      record {
        pos = pos;
        nonzero = nonzero;
        extent = exact ∙ ap (λ k. piece_len * k) (sym long);
        place =
            λ i h. (carve-get_or (size + 1) n base _ piece_len i stop pos enough (omega arith)).0;
        width =
            λ i h. (carve-get_or (size + 1) n base _ piece_len i stop pos enough (omega arith)).1;
      },
      long,
    )

pub stride : (p i j : ℕ) → i < j → p * i + p ≤ p * j
stride p i j h = grind arith

-- Distinct pieces share no address.
pub pieces_apart :
    {bs : Buffers} (i j a : ℕ)
    → IsLaidOut bs
    → i < n_elements bs
    → j < n_elements bs
    → i ≢ j
    → In a (piece bs i)
    → In a (piece bs j)
    → ⊥
pieces_apart {bs} i j a laid hi hj ne inside there =
    let pi = laid.place i hi in
    let pj = laid.place j hj in
    elim (dec_lt i j) [
      | yes lt ↦ omega (arith, pi, pj, laid.width i hi, laid.width j hj, stride bs.piece_len i j lt)
      | no ge ↦
          omega
            (arith, pi, pj, laid.width i hi, laid.width j hj, stride bs.piece_len j i (omega arith))
    ]

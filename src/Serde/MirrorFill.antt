-- ===== src/Serde/MirrorFill.antt =====
-- The padding of the kernel beside the host's: a switch of stores and a `memset`.
use dshuffle.Prelude.{
  ℕ, zero, suc, ◌+◌, ◌-◌, ◌%◌, ◌^◌, ◌<◌, ◌≡◌, refl, sym, ap, ◌∙◌, subst, inl, inr, Bool-cases, leb,
  ltb, ◌==◌, ◌&&◌, if◌then◌else◌, get_or, replicate, length-replicate, arith,
}
use dshuffle.Prelude.Outcome.{ok}
use dshuffle.Prelude.Bytes.{write_at}
use dshuffle.Memory.Align.{align_up_8}
use dshuffle.Serde.RwBuffer.{RwBuffer}
use dshuffle.Serde.RwBuffer as Host
use dshuffle.Serde.RwBufferLaws.{upper_align-align}
use dshuffle.Serde.DeviceBuffer.{Buffer, put_word, fill_next_align_8}
use dshuffle.Serde.Value.{align}
use dshuffle.Serde.Mirror.{Mirrors, Mirrors-put}

abbrev zeroed : (ℕ → ℕ) → ℕ → ℕ → ℕ → ℕ
zeroed mem at n a = if leb at a && ltb a (at + n) then 0 else mem a

get_or-replicate : (n i : ℕ) → get_or (replicate {A = ℕ} n 0) i 0 ≡ 0
get_or-replicate zero i = refl
get_or-replicate (suc n) zero = refl
get_or-replicate (suc n) (suc i) = get_or-replicate n i

write_at-replicate :
    (mem : ℕ → ℕ) (at n a : ℕ) → write_at mem at (replicate n 0) a ≡ zeroed mem at n a
write_at-replicate mem at n a =
    ground (arith, length-replicate {A = ℕ} n 0, get_or-replicate n (a - at))

-- Zeros behind zeros.
step :
    (f m : ℕ → ℕ) (at n j a : ℕ)
    → ((x : ℕ) → f x ≡ write_at m at (replicate n 0) x)
    → write_at f (at + n) (replicate j 0) a ≡ write_at m at (replicate (n + j) 0) a
step f m at n j a before =
    write_at-replicate f (at + n) j a
    ∙ ground (arith, before a, write_at-replicate m at n a)
    ∙ sym (write_at-replicate m at (n + j) a)

-- What the kernel's switch stores, by the padding.
pub fill-stores :
    (k : Buffer) (pad : ℕ)
    → align_up_8 k.cur_p - k.cur_p ≡ pad
    → pad < 8
    → let k' = fill_next_align_8 k in
      ((a : ℕ) → k'.mem a ≡ write_at k.mem k.cur_p (replicate pad 0) a)
      × (k'.cur_p ≡ k.cur_p + pad)
      × (k'.p ≡ k.p)
unfolding fill_next_align_8 put_word
fill-stores k zero e small = rw e (λ a. ground arith, omega arith, refl)
fill-stores k (suc zero) e small = rw e (λ a. refl, refl, refl)
fill-stores k (suc (suc zero)) e small = rw e (λ a. refl, refl, refl)
fill-stores k (suc (suc (suc zero))) e small =
    rw e (λ a. step (put_word 1 k 0).mem k.mem k.cur_p 1 2 a (λ x. refl), omega arith, refl)
fill-stores k (suc (suc (suc (suc zero)))) e small = rw e (λ a. refl, refl, refl)
fill-stores k (suc (suc (suc (suc (suc zero))))) e small =
    rw e (λ a. step (put_word 1 k 0).mem k.mem k.cur_p 1 4 a (λ x. refl), omega arith, refl)
fill-stores k (suc (suc (suc (suc (suc (suc zero)))))) e small =
    rw e (λ a. step (put_word 2 k 0).mem k.mem k.cur_p 2 4 a (λ x. refl), omega arith, refl)
fill-stores k (suc (suc (suc (suc (suc (suc (suc zero))))))) e small = rw e (
  λ a.
      let at : k.cur_p + 1 + 2 ≡ k.cur_p + 3 = omega arith in
      let f = (put_word 2 (put_word 1 k 0) 0).mem in
      ap (λ t. write_at f t (replicate 4 0) a) at
      ∙ step f k.mem k.cur_p 3 4 a (λ x. step (put_word 1 k 0).mem k.mem k.cur_p 1 2 x (λ y. refl)),
  omega arith,
  refl,
)
fill-stores k (suc (suc (suc (suc (suc (suc (suc (suc n)))))))) e small = absurd (omega arith)

-- Only the memory and the two pointers count.
rehome :
    (heap : ℕ → ℕ) (b : RwBuffer) (k₁ k₂ : Buffer)
    → ((a : ℕ) → k₂.mem a ≡ k₁.mem a)
    → k₂.p ≡ k₁.p
    → k₂.cur_p ≡ k₁.cur_p
    → Mirrors heap b k₁
    → Mirrors heap b k₂
rehome heap b k₁ k₂ mem p cur m = record {
  cur = omega (arith, m.cur, p, cur);
  bytes = λ i h. mem (k₂.p + i) ∙ ap (λ t. k₁.mem (t + i)) p ∙ m.bytes i h;
  window = λ a h. mem (2 ^ 63 + a) ∙ m.window a h;
  aligned = ap (λ t. t % 8) p ∙ m.aligned;
  room = omega (arith, m.room, p);
  within = m.within;
  small = m.small;
}

write-nothing : (m : ℕ → ℕ) (at n a : ℕ) → n ≡ 0 → write_at m at (replicate n 0) a ≡ m a
write-nothing m at n a e = write_at-replicate m at n a ∙ ground (arith, e)

pub Mirrors-fill :
    (heap : ℕ → ℕ) (b b' : RwBuffer) (k : Buffer)
    → Mirrors heap b k
    → Host.fill_next_align_8 b ≡ ok b'
    → Mirrors heap b' (fill_next_align_8 k) × ((fill_next_align_8 k).p ≡ k.p) × (b'.off % 8 ≡ 0)
unfolding Host.fill_next_align_8 align_up_8
Mirrors-fill heap b b' k m run =
    let pad = align b.off - b.off in
    let up = upper_align-align b.off (omega (arith, m.within, m.small)) in
    let same_pad : align_up_8 k.cur_p - k.cur_p ≡ pad =
      omega (arith, m.cur, m.aligned, m.room, m.within, m.small) in
    let (mem, cur, p) = fill-stores k pad same_pad (omega arith) in
    let filled = rw up at run in
    elim (Bool-cases (pad == 0)) [
      | inl none_left ↦
          let same : b ≡ b' = (let e = rw none_left at filled in ground arith) in
          let z : pad ≡ 0 = ground arith in
          let at_b : Mirrors heap b (fill_next_align_8 k) =
            rehome heap b k (fill_next_align_8 k) (λ a. mem a ∙ write-nothing k.mem k.cur_p pad a z)
              p (omega (arith, cur, z)) m in
          (
            subst (λ (x : RwBuffer). Mirrors heap x (fill_next_align_8 k)) same at_b,
            p,
            subst (λ (x : RwBuffer). x.off % 8 ≡ 0) same (omega (arith, z)),
          )
      | inr some_left ↦
          let e = rw some_left at filled in
          let after =
            Mirrors-put heap (fill_next_align_8 k).mem b b' k (replicate pad 0) pad m e
              (length-replicate pad 0) mem in
          (
            rehome heap b' (record k { mem = (fill_next_align_8 k).mem; cur_p = k.cur_p + pad })
                (fill_next_align_8 k) (λ a. refl) p cur after,
            p,
            omega (arith, after.cur, m.cur),
          )
    ]

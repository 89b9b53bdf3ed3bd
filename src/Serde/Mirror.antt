-- ===== src/Serde/Mirror.antt =====
-- A buffer of the kernel beside one of the host: the same bytes, one operation after the other.
use dshuffle.Prelude.{
  ℕ, zero, suc, ◌+◌, ◌-◌, ◌%◌, ◌^◌, ◌≤◌, ◌<◌, ◌≡◌, refl, sym, ap, ◌∙◌, subst, inl, inr, Bool-cases,
  leb, ltb, ◌&&◌, List, length, get_or, arith,
}
use dshuffle.Prelude.Outcome.{ok, bind-ok}
use dshuffle.Prelude.Bytes.{write_at, read_at, length-read_at}
use dshuffle.Prelude.Words.{bytes_of, length-bytes_of, word, word-shift}
use dshuffle.Kernel.CopyLaws.{copied, Disjoint, IsWordAligned, d_memcpy-Copies}
use dshuffle.Serde.RwBuffer.{RwBuffer}
use dshuffle.Serde.RwBuffer as Host
use dshuffle.Serde.DeviceBuffer.{Buffer, cur_off, put_word, put_word_at, get_word_at, put}

-- The area at `p` holds the host's buffer, and the window the memory of the JVM.
pub record Mirrors (heap : ℕ → ℕ) (b : RwBuffer) (k : Buffer) : Type 0 where
  pub cur : k.cur_p ≡ k.p + b.off
  pub bytes : (i : ℕ) → i < b.size → k.mem (k.p + i) ≡ b.bytes i
  pub window : (a : ℕ) → a < 2 ^ 63 → k.mem (2 ^ 63 + a) ≡ heap a
  pub aligned : k.p % 8 ≡ 0
  pub room : k.p + b.size ≤ 2 ^ 63
  pub within : b.off ≤ b.size
  pub small : b.size < 2 ^ 32

write_at-shift :
    (m b : ℕ → ℕ) (p off i : ℕ) (src : List ℕ)
    → m (p + i) ≡ b i
    → write_at m (p + off) src (p + i) ≡ write_at b off src i
write_at-shift m b p off i src same =
    let back : p + i - (p + off) ≡ i - off = omega arith in
    ground (arith, ap (λ k. get_or src k 0) back)

-- A write at the same place of both.
pub Mirrors-write :
    (heap mem' : ℕ → ℕ) (b : RwBuffer) (k : Buffer) (at : ℕ) (src : List ℕ) (off : ℕ)
    → Mirrors heap b k
    → at + length src ≤ b.size
    → off ≤ b.size
    → ((a : ℕ) → mem' a ≡ write_at k.mem (k.p + at) src a)
    → Mirrors heap
        (record b { bytes = write_at b.bytes at src; off = off })
        (record k { mem = mem'; cur_p = k.p + off })
Mirrors-write heap mem' b k at src off m fits inside same = record {
  cur = refl;
  bytes = λ i h. same (k.p + i) ∙ write_at-shift k.mem b.bytes k.p at i src (m.bytes i h);
  window = λ a h.
      same (2 ^ 63 + a)
      ∙ outside k.mem (k.p + at) src (2 ^ 63 + a) (omega (arith, m.room))
      ∙ m.window a h;
  aligned = m.aligned;
  room = m.room;
  within = inside;
  small = m.small;
}
  where
    outside :
        (f : ℕ → ℕ) (to : ℕ) (xs : List ℕ) (a : ℕ) → to + length xs ≤ a → write_at f to xs a ≡ f a
    outside f to xs a h = ground arith

-- What a copy into the host's buffer was, if it succeeded.
pub put_at-ok :
    (b b' : RwBuffer) (src : List ℕ) (at : ℕ)
    → Host.put_at b src at ≡ ok b'
    → (at + length src ≤ b.size) × (b' ≡ record b { bytes = write_at b.bytes at src })
unfolding Host.put_at
put_at-ok b b' src at run = elim (Bool-cases (leb (at + length src) b.size)) [
  | inl fits ↦ (ground arith, let e = rw fits at run in ground arith)
  | inr over ↦ absurd (let e = rw over at run in ground arith)
]

pub put-ok :
    (b b' : RwBuffer) (src : List ℕ)
    → Host.put b src ≡ ok b'
    → (b.off + length src ≤ b.size)
      × (b'
          ≡ record { bytes = write_at b.bytes b.off src; size = b.size; off = b.off + length src })
unfolding Host.put
put-ok b b' src run =
    let (b₁, first, e) =
      bind-ok (Host.put_at b src b.off) (λ x. ok (record x { off = b.off + length src })) b' run in
    let (fits, made) = put_at-ok b b₁ src b.off first in
    let moved = ap (λ (x : RwBuffer). record x { off = b.off + length src }) made in
    (fits, ground (arith, e, moved))

-- The bytes `src` are written at the end of both.
pub Mirrors-put :
    (heap mem' : ℕ → ℕ) (b b' : RwBuffer) (k : Buffer) (src : List ℕ) (n : ℕ)
    → Mirrors heap b k
    → Host.put b src ≡ ok b'
    → length src ≡ n
    → ((a : ℕ) → mem' a ≡ write_at k.mem k.cur_p src a)
    → Mirrors heap b' (record k { mem = mem'; cur_p = k.cur_p + n })
Mirrors-put heap mem' b b' k src n m run len same =
    let (fits, made) = put-ok b b' src run in
    let after =
      Mirrors-write heap mem' b k b.off src (b.off + length src) m fits fits
        (λ a. same a ∙ ap (λ t. write_at k.mem t src a) (m.cur)) in
    let k' : Buffer = record k { mem = mem'; cur_p = k.cur_p + n } in
    let at_end : Mirrors heap
        (record b { bytes = write_at b.bytes b.off src; off = b.off + length src }) k' =
      record {
        cur = omega (arith, m.cur, len);
        bytes = after.bytes;
        window = after.window;
        aligned = after.aligned;
        room = after.room;
        within = after.within;
        small = after.small;
      } in
    subst (λ (x : RwBuffer). Mirrors heap x k') (sym made) at_end

pub Mirrors-put_word :
    (heap : ℕ → ℕ) (w : ℕ) (b b' : RwBuffer) (k : Buffer) (v : ℕ)
    → Mirrors heap b k
    → Host.put_value w b v ≡ ok b'
    → Mirrors heap b' (put_word w k v)
unfolding Host.put_value put_word
Mirrors-put_word heap w b b' k v m run =
    Mirrors-put heap (write_at k.mem k.cur_p (bytes_of w v)) b b' k (bytes_of w v) w m run
      (length-bytes_of w v) (λ a. refl)

-- The offset of a member goes into its slot.
pub Mirrors-put_word_at :
    (heap : ℕ → ℕ) (w : ℕ) (b b' : RwBuffer) (k : Buffer) (v at : ℕ)
    → Mirrors heap b k
    → Host.put_at b (bytes_of w v) at ≡ ok b'
    → Mirrors heap b' (put_word_at w k v at)
unfolding put_word_at
Mirrors-put_word_at heap w b b' k v at m run =
    let (fits, made) = put_at-ok b b' (bytes_of w v) at run in
    let k' : Buffer = record k { mem = write_at k.mem (k.p + at) (bytes_of w v) } in
    let after =
      Mirrors-write heap (write_at k.mem (k.p + at) (bytes_of w v)) b k at (bytes_of w v) b.off m
        fits (m.within) (λ a. refl) in
    let patched : Mirrors heap (record b { bytes = write_at b.bytes at (bytes_of w v) }) k' =
      record {
        cur = m.cur;
        bytes = after.bytes;
        window = after.window;
        aligned = after.aligned;
        room = after.room;
        within = after.within;
        small = after.small;
      } in
    subst (λ (x : RwBuffer). Mirrors heap x k') (sym made) patched

-- What is read lies within the buffer, so that its offset fits 32 bits.
pub get_at-inside : (b : RwBuffer) (w v at : ℕ) → Host.get_at w b at ≡ ok v → at + w ≤ b.size
unfolding Host.get_at
get_at-inside b w v at run = elim (Bool-cases (leb (at + w) b.size)) [
  | inl fits ↦ ground arith
  | inr over ↦ absurd (let e = rw over at run in ground arith)
]

pub Mirrors-get_at :
    (heap : ℕ → ℕ) (b : RwBuffer) (k : Buffer) (v at : ℕ)
    → Mirrors heap b k
    → Host.get_at 4 b at ≡ ok v
    → get_word_at 4 k at ≡ v
unfolding Host.get_at get_word_at
Mirrors-get_at heap b k v at m run = elim (Bool-cases (leb (at + 4) b.size)) [
  | inl fits ↦
      let held : word b.bytes 4 at ≡ v = (let e = rw fits at run in ground arith) in
      word-shift k.mem b.bytes 4 (k.p + at) at (λ i h.
        let l : k.p + at + i ≡ k.p + (at + i) = omega arith in
        ap k.mem l ∙ m.bytes (at + i) (ground arith))
      ∙ held
  | inr over ↦ absurd (let e = rw over at run in ground arith)
]

pub cur_off_lem : (heap : ℕ → ℕ) (b : RwBuffer) (k : Buffer) → Mirrors heap b k → cur_off k ≡ b.off
unfolding cur_off
cur_off_lem heap b k m = omega (arith, m.cur, m.within, m.small, m.room)

-- A word of the JVM through the window.
pub window-word :
    (heap : ℕ → ℕ) (b : RwBuffer) (k : Buffer) (w a : ℕ)
    → Mirrors heap b k
    → a + w ≤ 2 ^ 63
    → word k.mem w (2 ^ 63 + a) ≡ word heap w a
window-word heap b k w a m fits = word-shift k.mem heap w (2 ^ 63 + a) a (λ i h.
    let l : 2 ^ 63 + a + i ≡ 2 ^ 63 + (a + i) = omega arith in
    ap k.mem l ∙ m.window (a + i) (omega arith))

pub read_at-get_or :
    (heap : ℕ → ℕ) (at n i : ℕ) → i < n → get_or (read_at heap at n) i 0 ≡ heap (at + i)
read_at-get_or heap at zero i h = elim h [ ]
read_at-get_or heap at (suc n) zero h = let l : at ≡ at + 0 = omega arith in ap heap l
read_at-get_or heap at (suc n) (suc i) h =
    let l : suc at + i ≡ at + suc i = omega arith in
    read_at-get_or heap (suc at) n i (omega arith) ∙ ap heap l

copied-write :
    (heap mem : ℕ → ℕ) (d addr n a : ℕ)
    → ((x : ℕ) → x < 2 ^ 63 → mem (2 ^ 63 + x) ≡ heap x)
    → addr + n ≤ 2 ^ 63
    → copied mem d (2 ^ 63 + addr) n a ≡ write_at mem d (read_at heap addr n) a
copied-write heap mem d addr n a window fits =
    let len = length-read_at heap addr n in
    elim (Bool-cases (leb d a && ltb a (d + n))) [
      | inl inside ↦
          let l : 2 ^ 63 + addr + (a - d) ≡ 2 ^ 63 + (addr + (a - d)) = omega arith in
          let i : a - d < n = ground arith in
          rw (inside, len, inside)
            (ap mem l
              ∙ window (addr + (a - d)) (omega (arith, i))
              ∙ sym (read_at-get_or heap addr n (a - d) i))
      | inr outside ↦ rw (outside, len, outside)
    ]

-- `put` of the kernel copies out of the window.
pub Mirrors-copy :
    (heap : ℕ → ℕ) (b b' : RwBuffer) (k : Buffer) (addr n : ℕ)
    → Mirrors heap b k
    → Host.put b (read_at heap addr n) ≡ ok b'
    → addr + n ≤ 2 ^ 63
    → IsWordAligned addr
    → b.off % 8 ≡ 0
    → (k' : Buffer) × (put k (2 ^ 63 + addr) n ≡ ok k') × Mirrors heap b' k' × (k'.p ≡ k.p)
unfolding put
Mirrors-copy heap b b' k addr n m run fits word_aligned aligned =
    let len = length-read_at heap addr n in
    let (space, _) = put-ok b b' (read_at heap addr n) run in
    let apart : Disjoint k.cur_p (2 ^ 63 + addr) n =
      inl (omega (arith, m.cur, m.room, space, len)) in
    let source : IsWordAligned (2 ^ 63 + addr) = elim word_aligned [
      | inl e ↦ inl (omega (arith, e))
      | inr e ↦ inr (omega (arith, e))
    ] in
    let (mem', copy, same) =
      d_memcpy-Copies k.mem k.cur_p (2 ^ 63 + addr) n apart (inl (omega (arith, m.cur, m.aligned)))
        source in
    (
      record k { mem = mem'; cur_p = k.cur_p + n },
      rw copy,
      Mirrors-put heap mem' b b' k (read_at heap addr n) n m run len
          (λ a. same a ∙ copied-write heap k.mem k.cur_p addr n a (m.window) fits),
      refl,
    )

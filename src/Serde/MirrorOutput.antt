-- ===== src/Serde/MirrorOutput.antt =====
-- The header and the copy to the host's output area, beside the header of the host's walker.
use dshuffle.Prelude.{
  ℕ, ◌+◌, ◌-◌, ◌%◌, ◌≤◌, ◌<◌, ◌≡◌, sym, ap, ◌∙◌, subst, true, inl, ◌&&◌, leb, ltb, if◌then◌else◌,
  arith,
}
use dshuffle.Prelude.Outcome.{Outcome, ok}
use dshuffle.Prelude.Bytes.{write_at}
use dshuffle.Prelude.Words.{bytes_of}
use dshuffle.Kernel.Copy.{d_memcpy}
use dshuffle.Kernel.CopyLaws.{copied, Disjoint, d_memcpy-Copies}
use dshuffle.Serde.RwBuffer.{RwBuffer}
use dshuffle.Serde.RwBuffer as Host
use dshuffle.Serde.DeviceBuffer.{Buffer, put_word_at}
use dshuffle.Serde.Mirror.{Mirrors, Mirrors-put_word_at, put_at-ok}
use dshuffle.Serde.RwBuffer.{skip}

pub ended :
    (o n : ℕ) (b₂ b' : RwBuffer)
    → ◌≡◌ {A = Outcome (ℕ × RwBuffer)} (ok (o, b₂)) (ok (n, b'))
    → (o ≡ n) × (b₂ ≡ b')
ended o n b₂ b' e = (ground (arith, e), ground (arith, e))

-- Both write the total length into the header.
pub header-Mirrors :
    (heap : ℕ → ℕ) (n : ℕ) (r b b' : RwBuffer) (k : Buffer)
    → Mirrors heap r k
    → Host.put_at r (bytes_of 8 r.off) 0 ≡ ok b
    → ◌≡◌ {A = Outcome (ℕ × RwBuffer)} (ok (r.off, b)) (ok (n, b'))
    → (k.cur_p - k.p ≡ n)
      × (n ≤ b'.size)
      × ((i : ℕ)
          → i < b'.size
          → write_at k.mem k.p (bytes_of 8 (k.cur_p - k.p)) (k.p + i) ≡ b'.bytes i)
unfolding put_word_at
header-Mirrors heap n r b b' k m header last =
    let (len, same) = ended r.off n b b' last in
    let total : k.cur_p - k.p ≡ r.off = omega (arith, m.cur) in
    let m' = Mirrors-put_word_at heap 8 r b k r.off 0 m header in
    let (_, made) = put_at-ok r b (bytes_of 8 r.off) 0 header in
    let place : k.p + 0 ≡ k.p = omega arith in
    (
      total ∙ len,
      subst (λ (x : RwBuffer). n ≤ x.size) same
          (omega (arith, len, m.within, ap (λ (x : RwBuffer). x.size) made)),
      λ i h.
          ap (λ t. write_at k.mem k.p (bytes_of 8 t) (k.p + i)) total
          ∙ ap (λ t. write_at k.mem t (bytes_of 8 r.off) (k.p + i)) (sym place)
          ∙ m'.bytes i (subst (λ (x : RwBuffer). i < x.size) (sym same) h)
          ∙ ap (λ (x : RwBuffer). x.bytes i) same,
    )

abbrev pub finish : ℕ → (ℕ → ℕ) → Outcome (ℕ × (ℕ → ℕ))
finish n m = ok (n, m)

-- The copy to the host's output area.
pub output-Copied :
    (mem : ℕ → ℕ) (h_output p n : ℕ)
    → Disjoint h_output p n
    → h_output % 8 ≡ 0
    → p % 8 ≡ 0
    → (done : (ℕ → ℕ) × ℕ) × (d_memcpy mem h_output p n ≡ ok done)
      × ((i : ℕ) → i < n → done.0 (h_output + i) ≡ mem (p + i))
output-Copied mem h_output p n apart to_8 from_8 =
    let (mem', run, same) = d_memcpy-Copies mem h_output p n apart (inl to_8) (inl from_8) in
    (_, run, λ i h. same (h_output + i) ∙ inside i h)
  where
    inside : (i : ℕ) → i < n → copied mem h_output p n (h_output + i) ≡ mem (p + i)
    inside i h =
        let in_to : leb h_output (h_output + i) && ltb (h_output + i) (h_output + n) ≡ true =
          ground arith in
        let l : p + (h_output + i - h_output) ≡ p + i = omega arith in
        ap (λ t. if t then mem (p + (h_output + i - h_output)) else mem (h_output + i)) in_to
        ∙ ap mem l

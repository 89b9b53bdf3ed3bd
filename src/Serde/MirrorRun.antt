-- ===== src/Serde/MirrorRun.antt =====
-- The kernel's `do_serialize` beside the host's walker on an object and all that it refers to.
use dshuffle.Prelude.{
  ℕ, zero, suc, ◌+◌, ◌-◌, ◌%◌, ◌^◌, ◌≤◌, ◌<◌, ◌≡◌, refl, sym, ap, ◌∙◌, subst, Bool, true, false,
  inl, inr, ◌==◌, if◌then◌else◌, some, Option-cases, arith,
}
use dshuffle.Prelude.Outcome.{ok, ◌>>=◌, bind-ok}
use dshuffle.Prelude.Bytes.{write_at}
use dshuffle.Prelude.Words.{bytes_of}
use dshuffle.Kernel.Copy.{d_memcpy}
use dshuffle.Kernel.CopyLaws.{Disjoint}
use dshuffle.Serde.Types.{null_flag}
use dshuffle.Serde.Classes.{
  ClassInfo, get_class_info, get_class_info_by_klass, unregistered_class_id,
}
use dshuffle.Serde.ClassLaws.{get_class_info_by_klass-get_class_info}
use dshuffle.Serde.FakeObject.{klass_pointer}
use dshuffle.Serde.RwBuffer.{RwBuffer}
use dshuffle.Serde.RwBuffer as Host
use dshuffle.Serde.Walker.{Context, walk, walk_null, walk_class, class_of}
use dshuffle.Serde.DeviceBuffer.{Buffer, h2d, cur_off, put_word, fill_next_align_8}
use dshuffle.Serde.Serialize.{Globals, serialize_class, serialize_recur, get_klass_pointer}
use dshuffle.Serde.Mirror.{Mirrors, cur_off_lem}
use dshuffle.Serde.MirrorFill.{Mirrors-fill}
use dshuffle.Serde.Walker.{walk_root}
use dshuffle.Serde.RwBuffer.{skip}
use dshuffle.Serde.Serialize.{serialize_root, do_serialize}
use dshuffle.Serde.MirrorWalk.{IsShared, globals, IsObject, FollowsWalk}
use dshuffle.Serde.MirrorObject.{klass_pointer-window, null-Follows}
use dshuffle.Serde.MirrorClass.{class-Follows}
use dshuffle.Serde.MirrorOutput.{ended, header-Mirrors, output-Copied, finish}

class_of-ok :
    (c : Context) (obj : ℕ) (info : ClassInfo)
    → class_of c obj ≡ ok info
    → (klass : ℕ) × (klass_pointer c.jvm obj ≡ ok klass)
      × (get_class_info c.resolver.info_by_klass klass ≡ some info)
unfolding class_of
class_of-ok c obj info run =
    let (klass, pointed, found) = bind-ok (klass_pointer c.jvm obj) _ info run in
    (
      klass,
      pointed,
      elim (Option-cases (get_class_info c.resolver.info_by_klass klass)) [
        | inl missing ↦ absurd (let e = rw missing at found in ground arith)
        | inr (i, there) ↦ (let e = rw there at found in ground arith)
      ],
    )

class-run :
    (fuel : ℕ) (g : Globals) (k k' : Buffer) (obj id klass : ℕ) (info : ClassInfo)
    → (obj == 0) ≡ false
    → get_klass_pointer g (fill_next_align_8 k) (h2d obj) ≡ ok klass
    → get_class_info_by_klass g.class_infos_by_klass klass ≡ ok (some info)
    → serialize_class (serialize_recur fuel g) g obj info (fill_next_align_8 k) ≡ ok k'
    → serialize_recur (suc fuel) g k obj id ≡ ok (cur_off (fill_next_align_8 k), k')
unfolding serialize_recur
class-run fuel g k k' obj id klass info there pointed found run = rw (there, pointed, found, run)

null-run :
    (fuel : ℕ) (g : Globals) (k : Buffer) (obj id : ℕ)
    → (obj == 0) ≡ true
    → serialize_recur (suc fuel) g k obj id
      ≡ ok (
        cur_off (fill_next_align_8 k),
        put_word 2 (put_word 2 (fill_next_align_8 k) id) null_flag,
      )
unfolding serialize_recur
null-run fuel g k obj id null = rw null

module _ (c : Context) (shared : IsShared c) where
  found-Follows :
      (fuel : ℕ) (b b' : RwBuffer) (k : Buffer) (obj id : ℕ)
      → FollowsWalk c (walk fuel c) (serialize_recur fuel (globals c))
      → Mirrors c.jvm.mem b (fill_next_align_8 k)
      → (fill_next_align_8 k).p ≡ k.p
      → IsObject obj
      → (obj == 0) ≡ false
      → (class_of c obj >>= λ info. walk_class (walk fuel c) c obj info b) ≡ ok b'
      → (k' : Buffer) × (serialize_recur (suc fuel) (globals c) k obj id
          ≡ ok (cur_off (fill_next_align_8 k), k'))
        × Mirrors c.jvm.mem b' k'
        × (k'.p ≡ k.p)
  found-Follows fuel b b' k obj id ih m p is there run =
      let k₁ = fill_next_align_8 k in
      let (info, of, walked) = bind-ok (class_of c obj) _ b' run in
      let (klass, pointed, listed) = class_of-ok c obj info of in
      let found =
        get_class_info_by_klass-get_class_info c.resolver.info_by_klass klass (shared.sorted)
        ∙ ap (λ x. ok x) listed in
      let (k', run', m', p') =
        class-Follows c shared (walk fuel c) (serialize_recur fuel (globals c)) ih info b b' k₁ obj
          m is (shared.headers klass info listed) walked in
      (
        k',
        class-run fuel (globals c) k k' obj id klass info there
            (klass_pointer-window c b k₁ obj m is ∙ pointed) found run',
        m',
        p' ∙ p,
      )

  object-Follows :
      (fuel : ℕ) (t : Bool) (b b' : RwBuffer) (k : Buffer) (obj id : ℕ)
      → FollowsWalk c (walk fuel c) (serialize_recur fuel (globals c))
      → (obj == 0) ≡ t
      → Mirrors c.jvm.mem b (fill_next_align_8 k)
      → (fill_next_align_8 k).p ≡ k.p
      → IsObject obj
      → (if t
          then walk_null id b
          else class_of c obj >>= λ info. walk_class (walk fuel c) c obj info b)
        ≡ ok b'
      → (k' : Buffer) × (serialize_recur (suc fuel) (globals c) k obj id
          ≡ ok (cur_off (fill_next_align_8 k), k'))
        × Mirrors c.jvm.mem b' k'
        × (k'.p ≡ k.p)
  object-Follows fuel true b b' k obj id ih null m p is run =
      let k₁ = fill_next_align_8 k in
      let (k', made, m', p') = null-Follows c id b b' k₁ m run in
      (
        k',
        null-run fuel (globals c) k obj id null ∙ ap (λ r. r >>= λ x. ok (cur_off k₁, x)) made,
        m',
        p' ∙ p,
      )
  object-Follows fuel false b b' k obj id ih there m p is run =
      found-Follows fuel b b' k obj id ih m p is there run

  pub walk-Follows : (fuel : ℕ) → FollowsWalk c (walk fuel c) (serialize_recur fuel (globals c))
  unfolding walk
  walk-Follows zero b b' k obj id n m is run = absurd (ground arith)
  walk-Follows (suc fuel) b b' k obj id n m is run =
      let (b₁, filled, rest) = bind-ok (Host.fill_next_align_8 b) _ (n, b') run in
      let (b₂, there, last) = bind-ok _ _ (n, b') rest in
      let (m₁, p₁, _) = Mirrors-fill c.jvm.mem b b₁ k m filled in
      let (base, same) = ended (b₁.off % 2 ^ 32) n b₂ b' last in
      let offset : cur_off (fill_next_align_8 k) ≡ n =
        cur_off_lem c.jvm.mem b₁ (fill_next_align_8 k) m₁
        ∙ omega (arith, base, m₁.within, m₁.small) in
      let (k', run', m₂, p₂) =
        object-Follows fuel (obj == 0) b₁ b₂ k obj id (walk-Follows fuel) refl m₁ p₁ is there in
      (
        k',
        run' ∙ ap (λ o. ok (o, k')) offset,
        subst (λ (x : RwBuffer). Mirrors c.jvm.mem x k') same m₂,
        p₂,
      )

  root-Follows :
      (fuel obj n : ℕ) (out b' : RwBuffer) (k : Buffer)
      → Mirrors c.jvm.mem (skip (record out { off = 0 }) 8) k
      → IsObject obj
      → walk_root fuel c obj out ≡ ok (n, b')
      → (k' : Buffer) × (serialize_root fuel (globals c) k obj ≡ ok (n, k'))
        × (k'.p ≡ k.p)
        × (n ≤ b'.size)
        × ((i : ℕ) → i < n → k'.mem (k'.p + i) ≡ b'.bytes i)
  unfolding walk_root serialize_root skip
  root-Follows fuel obj n out b' k start is run =
      let heap = c.jvm.mem in
      let (r, walked, rest) = bind-ok _ _ (n, b') run in
      let (b, header, last) = bind-ok _ _ (n, b') rest in
      let (k', run', m', p') =
        walk-Follows fuel (skip (record out { off = 0 }) 8) (r.1) k obj unregistered_class_id (r.0)
          start is walked in
      let (total, within, same) = header-Mirrors heap n (r.1) b b' k' m' header last in
      let k'' : Buffer = record k' { mem = write_at k'.mem k'.p (bytes_of 8 (k'.cur_p - k'.p)) } in
      (
        k'',
        ap
              (λ s. s >>= λ x. ok (
                x.1.cur_p - x.1.p,
                record x.1 { mem = write_at x.1.mem x.1.p (bytes_of 8 (x.1.cur_p - x.1.p)) },
              ))
              run'
            ∙ ap (λ t. ok (t, k'')) total,
        p',
        within,
        λ i h. same i (omega (arith, within)),
      )

  -- For a heap and output areas as in do_serialize-revive, that of the kernel starting with the same
  -- bytes as the buffer of the host, which is at least 8 bytes and less than 4 GB long: where the
  -- walker of the host ends on an object, whatever it refers to, with some fuel, do_serialize of the
  -- kernel ends with that fuel, returns the same length, and the area of the host holds the same
  -- bytes up to it.
  pub do_serialize-walk_root :
      (fuel : ℕ) (mem : ℕ → ℕ) (d_output d_output_len h_output obj n : ℕ) (out b' : RwBuffer)
      → ((a : ℕ) → a < 2 ^ 63 → mem (2 ^ 63 + a) ≡ c.jvm.mem a)
      → ((i : ℕ) → i < out.size → mem (d_output + i) ≡ out.bytes i)
      → d_output % 8 ≡ 0
      → d_output + out.size ≤ 2 ^ 63
      → h_output % 8 ≡ 0
      → Disjoint h_output d_output n
      → 8 ≤ out.size
      → out.size < 2 ^ 32
      → IsObject obj
      → walk_root fuel c obj out ≡ ok (n, b')
      → (mem' : ℕ → ℕ) × (do_serialize fuel (globals c) mem d_output d_output_len h_output obj
          ≡ ok (n, mem'))
        × ((i : ℕ) → i < n → mem' (h_output + i) ≡ b'.bytes i)
  unfolding do_serialize skip
  do_serialize-walk_root fuel mem d_output d_output_len h_output obj n out b' window initial aligned
        room to_8 apart big small is run =
      let k : Buffer = record {
        mem = mem;
        p = d_output;
        cur_p = d_output + 8;
        lim = d_output_len;
      } in
      let start : Mirrors c.jvm.mem (skip (record out { off = 0 }) 8) k = record {
        cur = omega arith;
        bytes = initial;
        window = window;
        aligned = aligned;
        room = room;
        within = omega (arith, big);
        small = small;
      } in
      let (k', run', p', _, same) = root-Follows fuel obj n out b' k start is run in
      let (done, copy, there) =
        output-Copied k'.mem h_output k'.p n (subst (λ p. Disjoint h_output p n) (sym p') apart)
          to_8 (ap (λ p. p % 8) p' ∙ aligned) in
      (
        done.0,
        ap
              (λ s. s >>= λ r.
                (d_memcpy r.1.mem h_output r.1.p r.0 >>= λ (d : (ℕ → ℕ) × ℕ). finish r.0 d.0))
              run'
            ∙ ap (λ s. s >>= λ (d : (ℕ → ℕ) × ℕ). finish n d.0) copy,
        λ i h. there i h ∙ same i h,
      )

-- ===== src/Serde/RoundTrip.antt =====
-- A whole serialization: the header in front of the value, and the reviver on what the walker wrote.
use dshuffle.Prelude.{
  ℕ, ◌+◌, ◌^◌, ◌≤◌, ◌<◌, ◌≡◌, ◌≢◌, ◌∙◌, sym, ap, subst, true, leb, [], some, length, arith,
}
use dshuffle.Prelude.Outcome.{ok}
use dshuffle.Prelude.Bytes.{write_at}
use dshuffle.Prelude.Words.{bytes_of, length-bytes_of, word, word-write_at64}
use dshuffle.Serde.Classes.{ClassInfo, get_class_info, unregistered_class_id}
use dshuffle.Serde.RwBuffer.{RwBuffer, put_at, skip}
use dshuffle.Serde.RwBufferLaws.{write_at-after}
use dshuffle.Serde.Walker.{Context, walk_root}
use dshuffle.Serde.Reviver.{Env, Reviver, revive}
use dshuffle.Serde.Value.{Value, end_of, end_of-le, depth}
use dshuffle.Serde.Wire.{Stands, Wire}
use dshuffle.Serde.WireFrame.{Wire-same}
use dshuffle.Serde.WalkWire.{walk-Walks}
use dshuffle.Serde.Rebuild.{rebuild, root_of, IsWorking, Converts}
use dshuffle.Serde.ParseWire.{parse-revived}

-- For an object that stands for a tree of values of registered, well laid-out classes, a buffer
-- below 4 GB that has room for the tree, and fuel of the depth of the tree: the walker ends, and
-- behind the header of 8 bytes the buffer holds the nodes of the tree, each at a multiple of 8: an
-- id of two bytes and the flag of two; of an enum constant then the ordinal; of an array the length,
-- and at the next multiple of 8 its contents or the nodes of its elements; of an instance at the
-- next multiple of 8 its body, in which the slot of a reference holds the offset of the member, and
-- behind it the nodes of the members. The id is that of the class, and of null that of the class of
-- the field or element. The walker returns the end of the last node, and the header holds it in 8
-- bytes.
pub walk_root-Wire :
    (c : Context) (v : Value) (fuel p : ℕ) (out : RwBuffer)
    → Stands c v p
    → p ≢ 0
    → depth v ≤ fuel
    → end_of v 8 ≤ out.size
    → out.size < 2 ^ 32
    → (b : RwBuffer) × (walk_root fuel c p out ≡ ok (end_of v 8, b))
      × (b.size ≡ out.size)
      × (word b.bytes 8 0 ≡ end_of v 8)
      × Wire c.resolver b.bytes unregistered_class_id v 8
unfolding walk_root skip put_at
walk_root-Wire c v fuel p out stands there enough fits limit =
    let more = end_of-le v 8 in
    let b₀ : RwBuffer = record out { off = 8 } in
    let (b₁, run, x, wire) =
      walk-Walks c v fuel p unregistered_class_id b₀ stands (λ e. absurd (there e)) enough fits
        limit in
    let header = bytes_of 8 b₁.off in
    let eight = length-bytes_of 8 b₁.off in
    let test : leb (0 + length header) b₁.size ≡ true = ground (arith, x.size, more, eight) in
    let b₂ : RwBuffer = record b₁ { bytes = write_at b₁.bytes 0 header } in
    (
      b₂,
      rw (run, test) (ap (λ k. ok (k, b₂)) (x.off)),
      x.size,
      word-write_at64 b₁.bytes 0 b₁.off (omega (arith, x.off)) ∙ x.off,
      Wire-same c.resolver b₁.bytes b₂.bytes unregistered_class_id v 8
          (λ a l h. write_at-after b₁.bytes 0 header a (omega (arith, eight))) wire,
    )

pub revive-Wire :
    (e : Env) (v : Value) (info : ClassInfo) (fuel klass : ℕ) (input : RwBuffer)
    → IsWorking e
    → get_class_info e.resolver.info_by_klass klass ≡ some info
    → Converts e v
    → Wire e.resolver input.bytes unregistered_class_id v 8
    → depth v ≤ fuel
    → end_of v 8 ≤ input.size
    → input.size < 2 ^ 32
    → revive fuel e klass input
      ≡ ok (
        root_of e v 0 0,
        record {
          b = record input { off = end_of v 8 };
          calls = (rebuild e v 0).1;
          allocated = (rebuild e v 0).2;
          root = root_of e v 0 0;
        },
      )
unfolding revive skip
revive-Wire e v info fuel klass input works found known wire enough fits limit =
    let start : Reviver = record {
      b = record input { off = 8 };
      calls = [];
      allocated = 0;
      root = 0;
    } in
    rw
      (found, parse-revived e works unregistered_class_id v fuel start known wire enough fits limit)

-- For an object of the JVM that stands for a tree of values of registered, well laid-out classes, a
-- buffer below 4 GB that has room for the tree, and fuel of the depth of the tree: the walker ends
-- and returns the length of its output. If JNI allocates, raises nothing and gives the lengths asked
-- for, the enum constants have handles, and characters are converted by the reviver where they were
-- by the walker and come back, the reviver on that output ends, makes exactly the calls of JNI that
-- rebuild the tree, and returns the handle of the root unless the root is an enum constant. Of an
-- array of scalars it sets as many bytes as the array has elements.
pub walk_root-revive :
    (c : Context) (e : Env) (v : Value) (info : ClassInfo) (fuel p klass : ℕ) (out : RwBuffer)
    → e.resolver ≡ c.resolver
    → IsWorking e
    → get_class_info e.resolver.info_by_klass klass ≡ some info
    → Stands c v p
    → Converts e v
    → p ≢ 0
    → depth v ≤ fuel
    → end_of v 8 ≤ out.size
    → out.size < 2 ^ 32
    → (b : RwBuffer) × (walk_root fuel c p out ≡ ok (end_of v 8, b))
      × (revive fuel e klass b
          ≡ ok (
            root_of e v 0 0,
            record {
              b = record b { off = end_of v 8 };
              calls = (rebuild e v 0).1;
              allocated = (rebuild e v 0).2;
              root = root_of e v 0 0;
            },
          ))
walk_root-revive c e v info fuel p klass out same works found stands known there enough fits limit =
    let (b, run, size, _, wire) = walk_root-Wire c v fuel p out stands there enough fits limit in
    (
      b,
      run,
      revive-Wire e v info fuel klass b works found known
          (subst (λ r. Wire r b.bytes unregistered_class_id v 8) (sym same) wire) enough
          (omega (arith, size)) (omega (arith, size)),
    )

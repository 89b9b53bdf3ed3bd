-- ===== src/Serde/KernelToHost.antt =====
-- From the kernel to the host: what `do_serialize` leaves in its output area, and the reviver on it.
use dshuffle.Prelude.{ℕ, ◌+◌, ◌%◌, ◌^◌, ◌≤◌, ◌<◌, ◌≡◌, ◌≢◌, refl, sym, subst, some, arith}
use dshuffle.Prelude.Outcome.{ok}
use dshuffle.Serde.Classes.{ClassInfo, get_class_info, unregistered_class_id}
use dshuffle.Serde.RwBuffer.{RwBuffer}
use dshuffle.Serde.Walker.{Context}
use dshuffle.Serde.Reviver.{Env, revive}
use dshuffle.Serde.Value.{Value, end_of, end_of-le, depth}
use dshuffle.Serde.Wire.{Stands, Wire}
use dshuffle.Serde.WireFrame.{Wire-same}
use dshuffle.Serde.Rebuild.{rebuild, root_of, IsWorking, Converts}
use dshuffle.Serde.RoundTrip.{walk_root-Wire, revive-Wire}
use dshuffle.Kernel.CopyLaws.{Disjoint}
use dshuffle.Serde.Serialize.{do_serialize}
use dshuffle.Serde.MirrorWalk.{IsShared, IsObject, globals}
use dshuffle.Serde.MirrorRun.{do_serialize-walk_root}

module _ (c : Context) (shared : IsShared c) where
  do_serialize-Wire :
      (v : Value) (fuel : ℕ) (mem : ℕ → ℕ) (d_output d_output_len h_output p : ℕ)
      → Stands c v p
      → p ≢ 0
      → IsObject p
      → depth v ≤ fuel
      → ((a : ℕ) → a < 2 ^ 63 → mem (2 ^ 63 + a) ≡ c.jvm.mem a)
      → d_output % 8 ≡ 0
      → d_output + end_of v 8 ≤ 2 ^ 63
      → h_output % 8 ≡ 0
      → Disjoint h_output d_output (end_of v 8)
      → end_of v 8 < 2 ^ 32
      → (mem' : ℕ → ℕ) × (do_serialize fuel (globals c) mem d_output d_output_len h_output p
          ≡ ok (end_of v 8, mem'))
        × Wire c.resolver (λ i. mem' (h_output + i)) unregistered_class_id v 8
  do_serialize-Wire v fuel mem d_output d_output_len h_output p stands there is enough window
        aligned room to_8 apart limit =
      let out : RwBuffer = record { bytes = λ i. mem (d_output + i); size = end_of v 8; off = 0 } in
      let (b, run, size, _, wire) =
        walk_root-Wire c v fuel p out stands there enough (omega arith) limit in
      let (mem', run_k, same) =
        do_serialize-walk_root c shared fuel mem d_output d_output_len h_output p (end_of v 8) out b
          window (λ i h. refl) aligned room to_8 apart (end_of-le v 8) limit is run in
      (
        mem',
        run_k,
        Wire-same c.resolver b.bytes (λ i. mem' (h_output + i)) unregistered_class_id v 8
            (λ a l h. same a (omega (arith, h))) wire,
      )

  -- For an object of the JVM that stands for a tree of values as in walk_root-revive, objects on
  -- multiples of 8 below 2^62, headers of a multiple of 4 bytes, sorted classes, no conversion of
  -- characters, fuel of the depth of the tree, a length below 4 GB, output areas on multiples of 8
  -- with room for the tree that share no byte, that of the kernel in the lower half, and the memory
  -- of the JVM in the upper half of the kernel's: do_serialize of the kernel ends and returns the
  -- length of its output. If JNI works, the reviver of the host on the area of the host ends, makes
  -- exactly the calls that rebuild the tree, and returns the handle of the root unless the root is
  -- an enum constant.
  pub do_serialize-revive :
      (e : Env) (v : Value) (info : ClassInfo) (fuel : ℕ) (mem : ℕ → ℕ)
      (d_output d_output_len h_output p klass : ℕ)
      → e.resolver ≡ c.resolver
      → IsWorking e
      → get_class_info e.resolver.info_by_klass klass ≡ some info
      → Stands c v p
      → Converts e v
      → p ≢ 0
      → IsObject p
      → depth v ≤ fuel
      → ((a : ℕ) → a < 2 ^ 63 → mem (2 ^ 63 + a) ≡ c.jvm.mem a)
      → d_output % 8 ≡ 0
      → d_output + end_of v 8 ≤ 2 ^ 63
      → h_output % 8 ≡ 0
      → Disjoint h_output d_output (end_of v 8)
      → end_of v 8 < 2 ^ 32
      → (mem' : ℕ → ℕ) × (do_serialize fuel (globals c) mem d_output d_output_len h_output p
          ≡ ok (end_of v 8, mem'))
        × (let input : RwBuffer = record {
          bytes = λ i. mem' (h_output + i);
          size = end_of v 8;
          off = 0;
        } in
            revive fuel e klass input
            ≡ ok (
              root_of e v 0 0,
              record {
                b = record input { off = end_of v 8 };
                calls = (rebuild e v 0).1;
                allocated = (rebuild e v 0).2;
                root = root_of e v 0 0;
              },
            ))
  do_serialize-revive e v info fuel mem d_output d_output_len h_output p klass same works found
        stands known there is enough window aligned room to_8 apart limit =
      let (mem', run, wire) =
        do_serialize-Wire v fuel mem d_output d_output_len h_output p stands there is enough window
          aligned room to_8 apart limit in
      let input : RwBuffer = record {
        bytes = λ i. mem' (h_output + i);
        size = end_of v 8;
        off = 0;
      } in
      (
        mem',
        run,
        revive-Wire e v info fuel klass input works found known
            (subst (λ r. Wire r input.bytes unregistered_class_id v 8) (sym same) wire) enough
            (omega arith) limit,
      )

-- ===== src/Serde/Value.antt =====
-- What a serialized object stands for: the tree that its references span, with a node for every
-- reference, and the offsets at which object_walker.cxx writes the nodes.
use dshuffle.Prelude.{ℕ, suc, ◌+◌, ◌-◌, ◌*◌, ◌/◌, ◌≤◌, max, arith, List, length}
use dshuffle.Serde.Classes.{ClassInfo}

-- An array of `n` scalars has its bytes; an array of references also names the class of its elements.
-- `chars` is an array of characters that is converted: its UTF-16 bytes and their UTF-8 ones.
mutual
  pub data Value : Type 0 where
    null : Value
    constant : ClassInfo → ℕ → Value
    instance_of : ClassInfo → Values → Value
    array_of : ClassInfo → ClassInfo → Values → Value
    scalars : ClassInfo → ℕ → List ℕ → Value
    chars : ClassInfo → ℕ → List ℕ → List ℕ → Value

  -- The fields of an instance in order, or the elements of an array.
  pub data Values : Type 0 where
    end : Values
    scalar : ℕ → Values → Values
    member : Value → Values → Values

abbrev pub align : ℕ → ℕ
align x = (x + 7) / 8 * 8

abbrev pub body_size : ClassInfo → ℕ
body_size info = info.obj_size - info.header_size

unfoldable mutual
  -- The end of a node that starts at a multiple of 8.
  pub end_of : Value → ℕ → ℕ
  end_of null base = base + 4
  end_of (constant info n) base = base + 8
  end_of (instance_of info vs) base = end_of_all vs (base + 8 + body_size info)
  end_of (array_of info elem vs) base = end_of_all vs (base + 8)
  end_of (scalars info n content) base = base + 8 + length content
  end_of (chars info n utf16 utf8) base = base + 16 + length utf8

  pub end_of_all : Values → ℕ → ℕ
  end_of_all end at = at
  end_of_all (scalar n vs) at = end_of_all vs at
  end_of_all (member v vs) at = end_of_all vs (end_of v (align at))

unfoldable mutual
  -- The longest chain of references, each node counted.
  pub depth : Value → ℕ
  depth null = 1
  depth (constant info n) = 1
  depth (instance_of info vs) = suc (depth_all vs)
  depth (array_of info elem vs) = suc (depth_all vs)
  depth (scalars info n content) = 1
  depth (chars info n utf16 utf8) = 1

  pub depth_all : Values → ℕ
  depth_all end = 0
  depth_all (scalar n vs) = depth_all vs
  depth_all (member v vs) = max (depth v) (depth_all vs)

unfoldable pub count : Values → ℕ
count end = 0
count (scalar n vs) = suc (count vs)
count (member v vs) = suc (count vs)

mutual
  unfolding end_of end_of_all

  pub end_of-le : (v : Value) (base : ℕ) → base ≤ end_of v base
  end_of-le null base = omega arith
  end_of-le (constant info n) base = omega arith
  end_of-le (instance_of info vs) base = omega (arith, end_of_all-le vs (base + 8 + body_size info))
  end_of-le (array_of info elem vs) base = omega (arith, end_of_all-le vs (base + 8))
  end_of-le (scalars info n content) base = omega arith
  end_of-le (chars info n utf16 utf8) base = omega arith

  pub end_of_all-le : (vs : Values) (at : ℕ) → at ≤ end_of_all vs at
  end_of_all-le end at = omega arith
  end_of_all-le (scalar n vs) at = end_of_all-le vs at
  end_of_all-le (member v vs) at =
      omega (arith, end_of-le v (align at), end_of_all-le vs (end_of v (align at)))

-- ===== src/Values/Compare/Tree.antt =====
-- An independent account of the order of values: the lexicographic order of ordered trees.
use yast_core.Prelude.{◌≡◌, ◌≢◌, ◌⊎◌, inl, inr, refl, ap₂, arith}
use yast_core.Prelude.Int.{ℤ}
use yast_core.Values.Order.{YcpOrder, less, equal, greater, fault, and_then, flip, compare_int}

mutual
  pub data Tree : Type 0 where
    node : ℤ → Trees → Tree

  pub data Trees : Type 0 where
    leaf : Trees
    branch : Tree → Trees → Trees

unfoldable mutual
  pub order : Tree → Tree → YcpOrder
  order (node a ts) (node b us) = and_then (compare_int a b) (order_all ts us)

  pub order_all : Trees → Trees → YcpOrder
  order_all leaf leaf = equal
  order_all leaf (branch u us) = less
  order_all (branch t ts) leaf = greater
  order_all (branch t ts) (branch u us) = and_then (order t u) (order_all ts us)

compare_int_refl : (a : ℤ) → compare_int a a ≡ equal
compare_int_refl a = ground arith

pub compare_int-flip : (a b : ℤ) → compare_int b a ≡ flip (compare_int a b)
compare_int-flip a b = ground arith

compare_int-equal : (a b : ℤ) → compare_int a b ≡ equal → a ≡ b
compare_int-equal a b h = ground arith

compare_int_trans :
    (a b c : ℤ) → compare_int a b ≡ less → compare_int b c ≡ less → compare_int a c ≡ less
compare_int_trans a b c h k = ground arith

and_then-flip : (o p : YcpOrder) → and_then (flip o) (flip p) ≡ flip (and_then o p)
and_then-flip less p = refl
and_then-flip _ p = refl

mutual
  unfolding order

  reflexive : (t : Tree) → order t t ≡ equal
  reflexive (node a ts) = rw (compare_int_refl a, order_all_refl ts)

  order_all_refl : (ts : Trees) → order_all ts ts ≡ equal
  order_all_refl leaf = refl
  order_all_refl (branch t ts) = rw (reflexive t, order_all_refl ts)

mutual
  unfolding order

  flipped : (t u : Tree) → order u t ≡ flip (order t u)
  flipped (node a ts) (node b us) = ground (
    arith,
    compare_int-flip a b,
    flipped_all ts us,
    and_then-flip (compare_int a b) (order_all ts us),
  )

  flipped_all : (ts us : Trees) → order_all us ts ≡ flip (order_all ts us)
  flipped_all leaf leaf = refl
  flipped_all leaf (branch u us) = refl
  flipped_all (branch t ts) leaf = refl
  flipped_all (branch t ts) (branch u us) =
      rw (flipped t u, flipped_all ts us) (and_then-flip (order t u) (order_all ts us))

and_then-equal : (o p : YcpOrder) → and_then o p ≡ equal → (o ≡ equal) × (p ≡ equal)
and_then-equal less p h = cc
and_then-equal equal p h = (refl, h)
and_then-equal greater p h = cc
and_then-equal fault p h = cc

mutual
  unfolding order

  order_equal : (t u : Tree) → order t u ≡ equal → t ≡ u
  order_equal (node a ts) (node b us) h =
      let e = and_then-equal (compare_int a b) (order_all ts us) h in
      ap₂ node (compare_int-equal a b e.0) (order_all_equal ts us e.1)

  order_all_equal : (ts us : Trees) → order_all ts us ≡ equal → ts ≡ us
  order_all_equal leaf leaf h = refl
  order_all_equal leaf (branch u us) h = cc
  order_all_equal (branch t ts) leaf h = cc
  order_all_equal (branch t ts) (branch u us) h =
      let e = and_then-equal (order t u) (order_all ts us) h in
      ap₂ branch (order_equal t u e.0) (order_all_equal ts us e.1)

and_then-less : (o p : YcpOrder) → and_then o p ≡ less → (o ≡ less) ⊎ ((o ≡ equal) × (p ≡ less))
and_then-less less p h = inl refl
and_then-less equal p h = inr (refl, h)
and_then-less greater p h = cc
and_then-less fault p h = cc

-- How a lexicographic comparison of pairs comes to be transitive.
and_then_trans :
    {A B : Type 0} (f : A → A → YcpOrder) (g : B → B → YcpOrder) (a b c : A) (x y z : B)
    → (f a b ≡ equal → a ≡ b)
    → (f b c ≡ equal → b ≡ c)
    → (f a b ≡ less → f b c ≡ less → f a c ≡ less)
    → (g x y ≡ less → g y z ≡ less → g x z ≡ less)
    → and_then (f a b) (g x y) ≡ less
    → and_then (f b c) (g y z) ≡ less
    → and_then (f a c) (g x z) ≡ less
and_then_trans f g a b c x y z e₁ e₂ tf tg h k = elim (and_then-less (f a b) (g x y) h) [
  | inl p ↦ elim (and_then-less (f b c) (g y z) k) [
    | inl q ↦ rw (tf p q)
    | inr q ↦ let e : f a c ≡ less = cc (e₂ q.0) in rw e
  ]
  | inr p ↦ elim (and_then-less (f b c) (g y z) k) [
    | inl q ↦ let e : f a c ≡ less = cc (e₁ p.0) in rw e
    | inr q ↦ let e : f a c ≡ equal = cc (e₁ p.0) in rw e (tg p.1 q.1)
  ]
]

mutual
  unfolding order

  transitive : (t u w : Tree) → order t u ≡ less → order u w ≡ less → order t w ≡ less
  transitive (node a ts) (node b us) (node c ws) =
      and_then_trans compare_int order_all a b c ts us ws (compare_int-equal a b)
        (compare_int-equal b c) (compare_int_trans a b c) (order_all_trans ts us ws)

  order_all_trans :
      (ts us ws : Trees) → order_all ts us ≡ less → order_all us ws ≡ less → order_all ts ws ≡ less
  order_all_trans leaf leaf ws h k = k
  order_all_trans leaf (branch u us) leaf h k = cc
  order_all_trans leaf (branch u us) (branch w ws) h k = refl
  order_all_trans (branch t ts) leaf ws h k = cc
  order_all_trans (branch t ts) (branch u us) leaf h k = k
  order_all_trans (branch t ts) (branch u us) (branch w ws) h k =
      and_then_trans order order_all t u w ts us ws (order_equal t u) (order_equal u w)
        (transitive t u w) (order_all_trans ts us ws) h k

mutual
  unfolding order

  order_ne_fault : (t u : Tree) → order t u ≢ fault
  order_ne_fault (node a ts) (node b us) h = ground (arith, order_all_ne_fault ts us)

  order_all_ne_fault : (ts us : Trees) → order_all ts us ≢ fault
  order_all_ne_fault leaf leaf h = cc
  order_all_ne_fault leaf (branch u us) h = cc
  order_all_ne_fault (branch t ts) leaf h = cc
  order_all_ne_fault (branch t ts) (branch u us) h =
      ground (arith, order_ne_fault t u, order_all_ne_fault ts us)

pub order-ne-fault : (t u : Tree) → order t u ≢ fault
order-ne-fault = order_ne_fault

-- The order of trees is a strict total order.
pub order_refl : (t : Tree) → order t t ≡ equal
order_refl = reflexive

pub order-flip : (t u : Tree) → order u t ≡ flip (order t u)
order-flip = flipped

pub order-equal : (t u : Tree) → order t u ≡ equal → t ≡ u
order-equal = order_equal

pub order_trans : (t u w : Tree) → order t u ≡ less → order u w ≡ less → order t w ≡ less
order_trans = transitive

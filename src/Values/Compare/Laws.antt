-- ===== src/Values/Compare/Laws.antt =====
-- YCPValueRep::compare orders the values that hold no null handle and no NaN.
use yast_core.Prelude.{ℕ, ◌≡◌, ◌≢◌, ◌⊎◌, inl, inr, refl, [], ◌∷◌, Bytes, ◌==◌, arith, Bool-cases}
use yast_core.Values.Order.{
  YcpOrder, less, equal, fault, and_then, flip, compare_int, compare_size, compare_bytes,
}
use yast_core.Values.Defs.{
  break_value, return_value, Components, Value, Values, Pairs, null, void, boolean, integer, float,
  string, byteblock, path, symbol, list, term, map, nil, cons, end, entry, map_size, Doubles,
}
use yast_core.Values.Compare.{
  compare_byteblock, compare_path, compare_float, compare, compare_list, compare_pairs,
}
use yast_core.Values.Compare.Tree.{
  order, order_all, order_refl, order-flip, order-equal, order_trans, order-ne-fault,
}
use yast_core.Values.Compare.Key.{
  bytes_key, path_key, Ranked, key, list_key, pairs_key, IsWhole, AreWhole, PairsAreWhole,
}

and_then-equal_right : (o : YcpOrder) → and_then o equal ≡ o
and_then-equal_right less = refl
and_then-equal_right _ = refl

compare_bytes-key : (a b : Bytes) → compare_bytes a b ≡ order_all (bytes_key a) (bytes_key b)
unfolding compare_bytes bytes_key order
compare_bytes-key [] [] = refl
compare_bytes-key [] (b ∷ bs) = refl
compare_bytes-key (a ∷ r) [] = refl
compare_bytes-key (a ∷ r) (b ∷ bs) =
    rw (compare_bytes-key r bs, and_then-equal_right (compare_size a b))

compare_path-key : (p q : Components) → compare_path p q ≡ order_all (path_key p) (path_key q)
unfolding compare_path path_key order
compare_path-key [] [] = refl
compare_path-key [] (d ∷ ds) = refl
compare_path-key (c ∷ cs) [] = refl
compare_path-key (c ∷ cs) (d ∷ ds) =
    rw (compare_bytes-key c.component d.component, compare_path-key cs ds)

-- Maps of different sizes are ordered by them before any entry is looked at.
compare_size-cases :
    (m n : ℕ) → (m ≡ n) ⊎ ((r : YcpOrder) → and_then (compare_size m n) r ≡ compare_size m n)
compare_size-cases m n = elim (Bool-cases (m == n)) [
  | inl e ↦ inl (ground arith)
  | inr e ↦ inr (λ r. ground arith)
]

module _ (doubles : Doubles) (ranked : Ranked doubles) where
  open ranked use {IsNumber, rank, eq_rank, lt_rank}

  compare_float-key :
      (f g : ℕ)
      → IsNumber f
      → IsNumber g
      → compare_float doubles f g ≡ compare_int (rank f) (rank g)
  compare_float-key f g hf hg = rw (eq_rank f g hf hg, lt_rank f g hf hg)

  mutual
    unfolding compare compare_byteblock key order

    compare_as_key :
        (v w : Value)
        → IsWhole doubles ranked v
        → IsWhole doubles ranked w
        → compare doubles v w ≡ order (key doubles ranked v) (key doubles ranked w)
    compare_as_key null w hv hw = elim hv [ ]
    compare_as_key v null hv hw = elim hw [ ]
    compare_as_key void void hv hw = refl
    compare_as_key (boolean a) (boolean b) hv hw = simp and_then-equal_right
    compare_as_key (integer i) (integer j) hv hw = simp and_then-equal_right
    compare_as_key (float f) (float g) hv hw =
        simp and_then-equal_right (compare_float-key f g hv hw)
    compare_as_key (string s) (string t) hv hw = rw (compare_bytes-key s t)
    compare_as_key (byteblock a) (byteblock b) hv hw =
        simp (and_then-equal_right, compare_bytes-key a b)
    compare_as_key (path p) (path q) hv hw = rw (compare_path-key p q)
    compare_as_key (symbol s) (symbol t) hv hw = rw (compare_bytes-key s t)
    compare_as_key (list vs) (list ws) hv hw = rw (compare_list_as_key vs ws hv hw)
    compare_as_key (term s vs) (term t ws) hv hw =
        rw (compare_bytes-key s t, compare_list_as_key vs ws hv hw)
    compare_as_key (map m) (map n) hv hw = elim (compare_size-cases (map_size m) (map_size n)) [
      | inl e ↦ simp (and_then-equal_right, compare_pairs_as_key m n hv hw e)
      | inr stop ↦ simp (and_then-equal_right, stop)
    ]
    compare_as_key break_value break_value hv hw = refl
    compare_as_key return_value return_value hv hw = refl
    compare_as_key _ _ hv hw = refl

    compare_list_as_key :
        (vs ws : Values)
        → AreWhole doubles ranked vs
        → AreWhole doubles ranked ws
        → compare_list doubles vs ws
          ≡ order_all (list_key doubles ranked vs) (list_key doubles ranked ws)
    compare_list_as_key nil nil hv hw = refl
    compare_list_as_key nil (cons w ws) hv hw = refl
    compare_list_as_key (cons v vs) nil hv hw = refl
    compare_list_as_key (cons v vs) (cons w ws) hv hw =
        rw (compare_as_key v w hv.0 hw.0, compare_list_as_key vs ws hv.1 hw.1)

    compare_pairs_as_key :
        (m n : Pairs)
        → PairsAreWhole doubles ranked m
        → PairsAreWhole doubles ranked n
        → map_size m ≡ map_size n
        → compare_pairs doubles m n
          ≡ order_all (pairs_key doubles ranked m) (pairs_key doubles ranked n)
    compare_pairs_as_key end end hm hn h = refl
    compare_pairs_as_key end (entry k v n) hm hn h = absurd (omega arith)
    compare_pairs_as_key (entry k v m) end hm hn h = absurd (omega arith)
    compare_pairs_as_key (entry k v m) (entry l w n) hm hn h = rw (
      compare_as_key k l hm.0 hn.0,
      compare_as_key v w hm.1 hn.1,
      compare_pairs_as_key m n hm.2 hn.2 (omega arith),
    )

  module _ (v w : Value) (hv : IsWhole doubles ranked v) (hw : IsWhole doubles ranked w) where
    -- The comparison of values without null handles and NaN is the lexicographic order of their
    -- trees (`key`), where doubles are ordered by a rank.
    pub compare-key : compare doubles v w ≡ order (key doubles ranked v) (key doubles ranked w)
    compare-key = compare_as_key v w hv hw

    -- No call through a null value is met when values without null handles and NaN are compared,
    -- where doubles are ordered by a rank.
    pub compare-ne-fault : compare doubles v w ≢ fault
    compare-ne-fault =
        rw (compare_as_key v w hv hw) (order-ne-fault (key doubles ranked v) (key doubles ranked w))

    -- Swapping the operands reverses the result, for values without null handles and NaN, where
    -- doubles are ordered by a rank.
    pub compare-flip : compare doubles w v ≡ flip (compare doubles v w)
    compare-flip =
        rw (compare_as_key v w hv hw, compare_as_key w v hw hv)
          (order-flip (key doubles ranked v) (key doubles ranked w))

  pub compare_refl : (v : Value) → IsWhole doubles ranked v → compare doubles v v ≡ equal
  compare_refl v h = rw (compare_as_key v v h h) (order_refl (key doubles ranked v))

  module _ (u v w : Value) (hu : IsWhole doubles ranked u) (hv : IsWhole doubles ranked v)
      (hw : IsWhole doubles ranked w) where
    -- `less` is transitive, for values without null handles and NaN, where doubles are ordered by
    -- a rank.
    pub compare_trans :
        compare doubles u v ≡ less → compare doubles v w ≡ less → compare doubles u w ≡ less
    compare_trans h k = rw (compare_as_key u w hu hw) (
        order_trans (key doubles ranked u) (key doubles ranked v) (key doubles ranked w)
          (rw (compare_as_key u v hu hv) at h) (rw (compare_as_key v w hv hw) at k))

    -- Values that compare equal compare alike with every third, for values without null handles
    -- and NaN, where doubles are ordered by a rank.
    pub compare-equal : compare doubles u v ≡ equal → compare doubles u w ≡ compare doubles v w
    compare-equal h =
        rw (compare_as_key u w hu hw, compare_as_key v w hv hw)
          (rw (
            order-equal (key doubles ranked u) (key doubles ranked v)
              (rw (compare_as_key u v hu hv) at h)))

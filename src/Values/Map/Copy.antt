-- ===== src/Values/Map/Copy.antt =====
-- Copying a map entry by entry gives the same map, so `functionalAdd` is `add` on a copy.
use yast_core.Prelude.{◌≡◌, ◌∙◌, refl, ap, some}
use yast_core.Prelude.Fault.{◌>>=◌}
use yast_core.Values.Order.{less}
use yast_core.Values.Defs.{Value, Pairs, integer, string, symbol, map, end, entry, Doubles}
use yast_core.Values.Compare.{compare}
use yast_core.Values.Map.{put, add, copy_onto, shallow_copy, functional_add}
use yast_core.Values.Map.Keys.{IsKey}
use yast_core.Values.Map.Laws.{Above, IsSorted, add-key}

join : Pairs → Pairs → Pairs
join end m = m
join (entry k v n) m = entry k v (join n m)

join-end : (m : Pairs) → join m end ≡ m
unfolding join
join-end end = refl
join-end (entry k v m) = rw (join-end m)

join_assoc : (l m n : Pairs) → join (join l m) n ≡ join l (join m n)
unfolding join
join_assoc end m n = refl
join_assoc (entry k v l) m n = rw (join_assoc l m n)

module _ (doubles : Doubles) where
  Above-join :
      (j k v : Value) (n m : Pairs)
      → Above doubles j (join n (entry k v m))
      → compare doubles j k ≡ less
  unfolding join
  Above-join j k v end m above = above.1
  Above-join j k v (entry l w n) m above = Above-join j k v n m above.2

  join-IsKey : (k v : Value) (n m : Pairs) → IsSorted doubles (join n (entry k v m)) → IsKey k
  unfolding join
  join-IsKey k v end m s = s.0
  join-IsKey k v (entry l w n) m s = join-IsKey k v n m s.2

  -- A key above all others goes to the end.
  put_last :
      (k v : Value) (n m : Pairs)
      → IsSorted doubles (join n (entry k v m))
      → put doubles k v n ≡ join n (entry k v end)
  unfolding put join
  put_last k v end m s = refl
  put_last k v (entry l w n) m s = rw (Above-join l k v n m s.1, put_last k v n m s.2)

  copy_onto-join :
      (m n : Pairs) → IsSorted doubles (join n m) → copy_onto doubles m n ≡ some (join n m)
  unfolding copy_onto join
  copy_onto-join end n s = rw (join-end n)
  copy_onto-join (entry k v m) n s =
      rw (add-key doubles k v n (join-IsKey k v n m s), put_last k v n m s)
        (copy_onto-join m (join n (entry k v end)) (rw (join_assoc n (entry k v end) m) s)
          ∙ ap some (join_assoc n (entry k v end) m))

  -- YCPMapRep::shallowCopy copies a map.
  pub shallow_copy_lem : (m : Pairs) → IsSorted doubles m → shallow_copy doubles m ≡ some m
  unfolding shallow_copy join
  shallow_copy_lem m s = copy_onto-join m end s

  pub copied : (m : Pairs) → IsSorted doubles m → copy_onto doubles m end ≡ some m
  unfolding join
  copied m s = copy_onto-join m end s

  -- YCPMapRep::functionalAdd gives, at a proper key and for a map in ascending order, the map that
  -- `add` would make of this one.
  pub functional_add-add :
      (k v : Value) (m : Pairs)
      → IsKey k
      → IsSorted doubles m
      → functional_add doubles k v m ≡ (add doubles k v m >>= λ n. some (map n))
  unfolding functional_add
  functional_add-add (string t) v m hk s = rw (copied m s)
  functional_add-add (integer i) v m hk s = rw (copied m s)
  functional_add-add (symbol t) v m hk s = rw (copied m s)
  functional_add-add _ v m hk s = elim hk [ ]

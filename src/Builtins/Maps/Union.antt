-- ===== src/Builtins/Maps/Union.antt =====
-- The union of two maps.
use yast_core.Prelude.{◌≡◌, refl, ap, ◌∙◌, Bool, true, false, Option, none, some, if◌then◌else◌}
use yast_core.Values.Order.{YcpOrder, less, equal, greater, fault}
use yast_core.Values.Defs.{Value, Pairs, Doubles, null, map, end, entry}
use yast_core.Values.Compare.{compare}
use yast_core.Values.Map.{put, find, has_key, value, copy_onto}
use yast_core.Values.Map.Keys.{IsKey, key_flip, key_ne_fault}
use yast_core.Values.Map.Laws.{
  Above, IsSorted, Above-trans, Above-equal, find-put, put-IsSorted, add-key, is_equal,
}
use yast_core.Values.Map.Copy.{copied}
use yast_core.Builtins.Maps.{m_unionmap}

-- The second map's entry, if there is one.
abbrev first_found : Option Value → Option Value → Option Value
first_found (some v) o = some v
first_found none o = o

abbrev or_null : Option Value → Value
or_null (some v) = v
or_null none = null

abbrev is_some : Option Value → Bool
is_some (some v) = true
is_some none = false

or_null_lem :
    (n m : Option Value) → or_null (first_found n m) ≡ (if is_some n then or_null n else or_null m)
or_null_lem none m = refl
or_null_lem (some v) m = refl

module _ (doubles : Doubles) where
  find-Above : (j : Value) (m : Pairs) → IsKey j → Above doubles j m → find doubles j m ≡ none
  unfolding find
  find-Above j end hj a = refl
  find-Above j (entry k v m) hj a = rw (key_flip doubles j k hj (a.0), a.1) refl

  find-entry :
      (j k v : Value) (n : Pairs) (o : Option Value)
      → IsKey j
      → IsSorted doubles (entry k v n)
      → first_found (find doubles j n) (if is_equal (compare doubles j k) then some v else o)
        ≡ first_found (find doubles j (entry k v n)) o
  unfolding find
  find-entry j k v n o hj s = by_order (compare doubles j k) refl
    where
      by_order :
          (c : YcpOrder)
          → compare doubles j k ≡ c
          → first_found (find doubles j n) (if is_equal (compare doubles j k) then some v else o)
            ≡ first_found (find doubles j (entry k v n)) o
      by_order less e =
          rw
            (
              key_flip doubles j k hj (s.0),
              e,
              find-Above j n hj (Above-trans doubles j k n hj (s.0) e (s.1)),
            )
            refl
      by_order equal e =
          rw
            (
              key_flip doubles j k hj (s.0),
              e,
              find-Above j n hj (Above-equal doubles j k n hj (s.0) e (s.1)),
            )
            refl
      by_order greater e = rw (key_flip doubles j k hj (s.0), e) refl
      by_order fault e = absurd (key_ne_fault doubles j k hj (s.0) e)

  copy_onto-find :
      (n m : Pairs) (j : Value)
      → IsKey j
      → IsSorted doubles n
      → IsSorted doubles m
      → (u : Pairs) × (copy_onto doubles n m ≡ some u)
        × IsSorted doubles u
        × (find doubles j u ≡ first_found (find doubles j n) (find doubles j m))
  unfolding copy_onto
  copy_onto-find end m j hj hn hm = (m, refl, hm, unfold find in refl)
  copy_onto-find (entry k v n) m j hj hn hm =
      let (u, e, s, f) =
        copy_onto-find n (put doubles k v m) j hj (hn.2) (put-IsSorted doubles k v m (hn.0) hm) in
      (
        u,
        rw (add-key doubles k v m (hn.0)) e,
        s,
        f
            ∙ ap (first_found (find doubles j n)) (find-put doubles j k v m hj (hn.0) hm)
            ∙ find-entry j k v n (find doubles j m) hj hn,
      )

  value-found :
      (j : Value) (u n m : Pairs)
      → find doubles j u ≡ first_found (find doubles j n) (find doubles j m)
      → value doubles j u ≡ (if has_key doubles j n then value doubles j n else value doubles j m)
  unfolding value has_key
  value-found j u n m f = ap or_null f ∙ or_null_lem (find doubles j n) (find doubles j m)

  -- The union of two maps in order is a map in order, in which every key has the value of the
  -- second map if it is there, and otherwise that of the first.
  pub m_unionmap-value :
      (m n : Pairs) (j : Value)
      → IsKey j
      → IsSorted doubles m
      → IsSorted doubles n
      → (u : Pairs) × (m_unionmap doubles (map m) (map n) ≡ some (map u))
        × IsSorted doubles u
        × (value doubles j u
            ≡ (if has_key doubles j n then value doubles j n else value doubles j m))
  unfolding m_unionmap
  m_unionmap-value m n j hj hm hn =
      let (u, e, s, f) = copy_onto-find n m j hj hn hm in
      (u, rw (copied doubles m hm, e) refl, s, value-found j u n m f)

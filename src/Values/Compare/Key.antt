-- ===== src/Values/Compare/Key.antt =====
-- Each value as a tree, such that YCPValueRep::compare is the order of the trees.
use yast_core.Prelude.{ℕ, ◌≡◌, [], ◌∷◌, Bytes, length}
use yast_core.Prelude.Int.{ℤ, pos, eqb_ℤ, ltb_ℤ}
use yast_core.Values.Defs.{
  break_value, return_value, Components, Value, Values, Pairs, null, void, boolean, integer, float,
  string, byteblock, path, symbol, list, term, map, nil, cons, end, entry, map_size, Doubles,
}
use yast_core.Values.Compare.{of_bool}
use yast_core.Values.Compare.Tree.{Tree, Trees, node, leaf, branch}

abbrev number : ℤ → Tree
number n = node n leaf

unfoldable pub bytes_key : Bytes → Trees
bytes_key [] = leaf
bytes_key (b ∷ bs) = branch (number (pos b)) (bytes_key bs)

unfoldable pub path_key : Components → Trees
unfolding bytes_key
path_key [] = leaf
path_key (c ∷ cs) = branch (node (pos 0) (bytes_key c.component)) (path_key cs)

-- What the machine's comparison of doubles that are numbers comes down to: the order of the reals
-- that they stand for, given by a rank. `IsNumber` leaves out the patterns of NaN.
pub record Ranked (doubles : Doubles) : Type 1 where
  pub IsNumber : ℕ → Type 0
  pub rank : ℕ → ℤ
  pub eq_rank : (f g : ℕ) → IsNumber f → IsNumber g → doubles.eq f g ≡ eqb_ℤ (rank f) (rank g)
  pub lt_rank : (f g : ℕ) → IsNumber f → IsNumber g → doubles.lt f g ≡ ltb_ℤ (rank f) (rank g)

module _ (doubles : Doubles) (ranked : Ranked doubles) where
  open ranked use {IsNumber, rank, eq_rank, lt_rank}

  unfoldable mutual
    unfolding bytes_key path_key

    pub key : Value → Tree
    key null = node (pos 18) leaf
    key void = node (pos 0) leaf
    key (boolean b) = node (pos 1) (branch (number (pos (of_bool b))) leaf)
    key (integer i) = node (pos 2) (branch (number i) leaf)
    key (float f) = node (pos 3) (branch (number (rank f)) leaf)
    key (string s) = node (pos 4) (bytes_key s)
    key (byteblock b) = node (pos 5) (branch (number (pos (length b))) (bytes_key b))
    key (path p) = node (pos 6) (path_key p)
    key (symbol s) = node (pos 7) (bytes_key s)
    key (list vs) = node (pos 8) (list_key vs)
    key (term s vs) = node (pos 9) (branch (node (pos 0) (bytes_key s)) (list_key vs))
    key break_value = node (pos 13) leaf
    key return_value = node (pos 12) leaf
    key (map m) = node (pos 10) (branch (number (pos (map_size m))) (pairs_key m))

    pub list_key : Values → Trees
    list_key nil = leaf
    list_key (cons v vs) = branch (key v) (list_key vs)

    pub pairs_key : Pairs → Trees
    pairs_key end = leaf
    pairs_key (entry k v m) = branch (key k) (branch (key v) (pairs_key m))

  -- No null handle and no NaN inside.
  abbrev mutual
    pub IsWhole : Value → Type 0
    IsWhole null = ⊥
    IsWhole (float f) = IsNumber f
    IsWhole (list vs) = AreWhole vs
    IsWhole (term s vs) = AreWhole vs
    IsWhole (map m) = PairsAreWhole m
    IsWhole _ = Unit

    pub AreWhole : Values → Type 0
    AreWhole nil = Unit
    AreWhole (cons v vs) = IsWhole v × AreWhole vs

    pub PairsAreWhole : Pairs → Type 0
    PairsAreWhole end = Unit
    PairsAreWhole (entry k v m) = IsWhole k × IsWhole v × PairsAreWhole m

-- ===== src/Types/Signature/RoundTrip.antt =====
-- What Type::fromSignature makes of the text of Type::toString.
use yast_core.Prelude.{
  ℕ, zero, suc, ◌+◌, ◌≤◌, ◌≡◌, refl, sym, ap, ◌∙◌, ◌∷◌, ◌++◌, append_assoc, append-nil, Bytes,
  arith,
}
use yast_core.Prelude.Texts.{codes}
use yast_core.Types.Defs.{
  Quals, plain, YcpType, YcpTypes, base, flex, nflex, variable, list, map, block, tuple,
  function_void, function, nil, cons, concat,
}
use yast_core.Types.Equals.Laws.{append}
use yast_core.Types.Print.{pre_to_string, post_to_string, to_string, join, join_behind}
use yast_core.Types.Signature.{
  skip_spaces, Parse, parsed, starts, from_signature, parameters, add_parameter,
}
use yast_core.Types.Signature.Parts.{
  parameter_round-none, parameter_round-comma, parameter_round-end,
}
use yast_core.Types.Signature.Notation.{
  IsResult, IsNotation, AreNotations, need, need_all, need-pos, outcome, Text, Reads,
  to_string-IsWord, read_closed, read_base, read_list, read_map, read_block, read_variable,
}

outcome-result :
    (f : ℕ) (r : YcpType) (s : Bytes)
    → IsResult r
    → outcome f r (codes " (" ++ s) ≡ parameters f (function_void plain r) (b'(' ∷ s)
unfolding outcome skip_spaces starts parameters
outcome-result f (function_void q r) s h = cc (h.1)
outcome-result f (function q r p ts) s h = cc (h.1)
outcome-result f t s h = simp (h.0) refl

-- The loop over the parameters.
add_all : YcpType → YcpTypes → YcpType
add_all fn nil = fn
add_all fn (cons t ts) = add_all (add_parameter fn t) ts

append_nil : (us : YcpTypes) → us ≡ append us nil
append_nil nil = refl
append_nil (cons u us) = ap (cons u) (append_nil us)

append-concat :
    (us : YcpTypes) (t : YcpType) (ts : YcpTypes) → append (concat us t) ts ≡ append us (cons t ts)
append-concat nil t ts = refl
append-concat (cons u us) t ts = ap (cons u) (append-concat us t ts)

add_all-function :
    (r : YcpType) (us ts : YcpTypes)
    → add_all (function plain r plain us) ts ≡ function plain r plain (append us ts)
unfolding add_all add_parameter
add_all-function r us nil = ap (function plain r plain) (append_nil us)
add_all-function r us (cons t ts) =
    add_all-function r (concat us t) ts ∙ ap (function plain r plain) (append-concat us t ts)

module _ (number_text : ℕ → Bytes) where
  parameters-nil :
      (f : ℕ) (fn : YcpType) (c : ℕ) (w s : Bytes)
      → 1 ≤ f
      → skip_spaces w ≡ b')' ∷ s
      → parameters f fn (c ∷ w) ≡ parsed fn s
  unfolding parameters
  parameters-nil zero fn c w s le e = absurd (omega arith)
  parameters-nil (suc f) fn c w s le e =
      parameter_round-none (from_signature f) (parameters f) fn s c w e

  module _ (t : YcpType) (h : IsNotation t) (reads : Reads number_text t) where
    parameters-last :
        (f : ℕ) (fn : YcpType) (c : ℕ) (w s : Bytes)
        → suc (need t) ≤ f
        → skip_spaces w ≡ Text number_text t ++ (b')' ∷ s)
        → parameters f fn (c ∷ w) ≡ parsed (add_parameter fn t) s
    unfolding parameters skip_spaces starts
    parameters-last zero fn c w s le e = absurd (omega arith)
    parameters-last (suc f) fn c w s le e =
        parameter_round-end (from_signature f) (parameters f) fn t _ c w e
          (to_string-IsWord number_text t _ h).1 s
          (read_closed number_text t f _ reads (omega arith) (refl, refl, refl))

    parameters-more :
        (f : ℕ) (fn : YcpType) (c n : ℕ) (w s : Bytes) (o : Parse)
        → suc (need t + n) ≤ f
        → skip_spaces w ≡ Text number_text t ++ (b',' ∷ s)
        → ((g : ℕ) → n ≤ g → parameters g (add_parameter fn t) (b',' ∷ s) ≡ o)
        → parameters f fn (c ∷ w) ≡ o
    unfolding parameters skip_spaces starts
    parameters-more zero fn c n w s o le e more = absurd (omega arith)
    parameters-more (suc f) fn c n w s o le e more =
        parameter_round-comma (from_signature f) (parameters f) fn t _ c w e
          (to_string-IsWord number_text t _ h).1 s
          (read_closed number_text t f _ reads (omega arith) (refl, refl, refl))
        ∙ more f (omega arith)

  join_nil : (s : Bytes) → join number_text nil ++ s ≡ s
  unfolding join
  join_nil s = refl

  join_last :
      (t : YcpType) (s : Bytes) → join number_text (cons t nil) ++ s ≡ Text number_text t ++ s
  unfolding join
  join_last t s = simp append-nil

  join_more :
      (t u : YcpType) (us : YcpTypes) (s : Bytes)
      → join number_text (cons t (cons u us)) ++ s
        ≡ Text number_text t ++ (codes ", " ++ (join number_text (cons u us) ++ s))
  unfolding join
  join_more t u us s = simp append_assoc

  skip_spaces-join :
      (ts : YcpTypes) (s : Bytes)
      → AreNotations ts
      → skip_spaces (join number_text ts ++ (b')' ∷ s)) ≡ join number_text ts ++ (b')' ∷ s)
  unfolding join skip_spaces
  skip_spaces-join nil s h = refl
  skip_spaces-join (cons t ts) s h =
      rw (append_assoc (Text number_text t) (join_behind number_text ts) (b')' ∷ s))
        (to_string-IsWord number_text t _ h.0).0

  procedure_text :
      (q : Quals) (r : YcpType) (s : Bytes)
      → q ≡ plain
      → Text number_text (function_void q r) ++ s
        ≡ Text number_text r ++ (codes " (" ++ (join number_text nil ++ (b')' ∷ s)))
  unfolding to_string pre_to_string post_to_string
  procedure_text q r s h = rw h (simp append_assoc)

  function_text :
      (q : Quals) (r : YcpType) (p : Quals) (ts : YcpTypes) (s : Bytes)
      → q ≡ plain
      → Text number_text (function q r p ts) ++ s
        ≡ Text number_text r ++ (codes " (" ++ (join number_text ts ++ (b')' ∷ s)))
  unfolding to_string pre_to_string post_to_string
  function_text q r p ts s h = rw h (simp append_assoc)

  -- A result with the parameters behind it.
  read_result :
      (r : YcpType) (f : ℕ) (s : Bytes) (o : Parse)
      → Reads number_text r
      → IsResult r
      → need r ≤ suc f
      → parameters f (function_void plain r) (b'(' ∷ s) ≡ o
      → from_signature (suc f) (Text number_text r ++ (codes " (" ++ s)) ≡ o
  unfolding skip_spaces starts
  read_result r f s o reads result le e = reads f _ le refl ∙ outcome-result f r s result ∙ e

  mutual
    unfolding need need_all add_all add_parameter outcome skip_spaces starts

    read : (t : YcpType) → IsNotation t → Reads number_text t
    read (base k q) h f s le sep = read_base number_text k q h.0 h.1 f s le sep
    read (flex q) h f s le sep = elim h [ ]
    read (nflex q n) h f s le sep = elim h [ ]
    read (variable q t) h f s le sep =
        read_variable number_text f q t s h.0 h.1
          (read_closed number_text t f _ (read t h.1) (omega arith) (refl, refl, refl)) sep
    read (list q t) h f s le sep =
        read_list number_text f q t s h.0 h.1 h.2
          (read_closed number_text t f _ (read t h.2) (omega arith) (refl, refl, refl)) sep
    read (map q k v) h f s le sep =
        read_map number_text f q k v s h.0 h.1 h.2 h.3
          (λ u. read_closed number_text k f _ (read k h.2) (omega arith) (refl, refl, refl))
          (λ u. read_closed number_text v f _ (read v h.3) (omega arith) (refl, refl, refl)) sep
    read (block q t) h f s le sep =
        read_block number_text f q t s h.0 h.1
          (read_closed number_text t f _ (read t h.1) (omega arith) (refl, refl, refl)) sep
    read (tuple q ts) h f s le sep = elim h [ ]
    read (function_void q r) h f s le sep =
        ap (from_signature (suc f)) (procedure_text q r s h.0)
        ∙ read_result r f _ _ (read r h.2) h.1 (omega arith) (
            parameters-nil f _ b'(' _ s (omega (arith, need-pos r))
              (skip_spaces-join nil s tt ∙ join_nil _))
        ∙ (λ i. parsed (function_void (sym h.0 i) r) s)
    read (function q r p nil) h f s le sep = elim h [ ]
    read (function q r p (cons t ts)) h f s le sep =
        ap (from_signature (suc f)) (function_text q r p (cons t ts) s h.0)
        ∙ read_result r f _ _ (read r h.3) h.2 (omega arith) (
            read_parameters (cons t ts) h.4 f _ b'(' _ s (omega arith)
              (skip_spaces-join (cons t ts) s h.4))
        ∙ (λ i. parsed (add_all-function r (cons t nil) ts i) s)
        ∙ (λ i. parsed (function (sym h.0 i) r (sym h.1 i) (cons t ts)) s)

    read_parameters :
        (ts : YcpTypes)
        → AreNotations ts
        → (f : ℕ) (fn : YcpType) (c : ℕ) (w s : Bytes) → need_all ts ≤ f
        → skip_spaces w ≡ join number_text ts ++ (b')' ∷ s)
        → parameters f fn (c ∷ w) ≡ parsed (add_all fn ts) s
    read_parameters nil h f fn c w s le e = parameters-nil f fn c w s le (e ∙ join_nil _)
    read_parameters (cons t nil) h f fn c w s le e =
        parameters-last t h.0 (read t h.0) f fn c w s (omega arith) (e ∙ join_last t _)
    read_parameters (cons t (cons u us)) h f fn c w s le e =
        parameters-more t h.0 (read t h.0) f fn c (need_all (cons u us)) w
          (b' ' ∷ (join number_text (cons u us) ++ (b')' ∷ s))) _ le (e ∙ join_more t u us _)
          (λ g le'.
            read_parameters (cons u us) h.1 g (add_parameter fn t) b',' _ s le'
              (skip_spaces-join (cons u us) s h.1))

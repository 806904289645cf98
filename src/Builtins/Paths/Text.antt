-- ===== src/Builtins/Paths/Text.antt =====
-- The texts of paths: toString, topath and the sums of strings and of paths.
use yast_core.Prelude.{
  ℕ, ◌≡◌, ◌≢◌, ◌∙◌, refl, sym, ap, inl, inr, Bool, true, false, [], ◌∷◌, ◌++◌, append_assoc, Bytes,
  ◌==◌, ◌/◌, ◌%◌, Bool-cases, arith, if◌then◌else◌,
}
use yast_core.Bytecode.Text.{IsText, c_str-IsText}
use yast_core.Values.Defs.{Component, Components, string, path}
use yast_core.Values.Path.{
  dot_char, quote, backslash, hex_digit, escape, escape_all, is_print, print_component,
  print_components, print_path, parse_path,
}
use yast_core.Values.Path.Steps.{append}
use yast_core.Values.Path.Steps.Laws.{append-join}
use yast_core.Values.Path.Notation.{IsComponent, IsPath, parse_path-print_path}
use yast_core.Builtins.Paths.{p_plus, with_dot, p_topath}
use yast_core.Builtins.Strings.{s_plus3}

IsText-append : (s t : Bytes) → IsText s → IsText t → IsText (s ++ t)
IsText-append [] t hs ht = ht
IsText-append (c ∷ s) t hs ht = (hs.0, IsText-append s t hs.1 ht)

IsPath-append : (p q : Components) → IsPath p → IsPath q → IsPath (p ++ q)
IsPath-append [] q hp hq = hq
IsPath-append (c ∷ p) q hp hq = (hp.0, IsPath-append p q hp.1 hq)

hex_digit-ne_zero : (d : ℕ) → hex_digit d ≢ 0
unfolding hex_digit
hex_digit-ne_zero d e = ground arith

IsText-if : (b : Bool) (s t : Bytes) → IsText s → IsText t → IsText (if b then s else t)
IsText-if true s t hs ht = hs
IsText-if false s t hs ht = ht

by_letter-IsText : (d : ℕ) → d ≢ 0 → IsText (backslash ∷ d ∷ [])
by_letter-IsText d h = (omega arith, (h, tt))

escape-IsText : (c : ℕ) → c ≢ 0 → IsText (escape c)
unfolding escape
escape-IsText c h = IsText-if (c == quote) _ _ (by_letter-IsText quote (omega arith)) (
    IsText-if (c == backslash) _ _ (by_letter-IsText backslash (omega arith)) (
      IsText-if (c == 10) _ _ (by_letter-IsText b'n' (omega arith)) (
        IsText-if (c == 9) _ _ (by_letter-IsText b't' (omega arith)) (
          IsText-if (c == 13) _ _ (by_letter-IsText b'r' (omega arith)) (
            IsText-if (c == 8) _ _ (by_letter-IsText b'b' (omega arith)) (
              IsText-if (c == 12) _ _ (by_letter-IsText b'f' (omega arith)) (
                IsText-if (is_print c) _ _ (h, tt)
                  (
                    omega arith,
                    (omega arith, (hex_digit-ne_zero (c / 16), (hex_digit-ne_zero (c % 16), tt))),
                  ))))))))

escape_all-IsText : (s : Bytes) → IsText s → IsText (escape_all s)
unfolding escape_all
escape_all-IsText [] h = tt
escape_all-IsText (c ∷ s) h =
    IsText-append (escape c) (escape_all s) (escape-IsText c h.0) (escape_all-IsText s h.1)

print_component-IsText : (c : Component) → IsComponent c → IsText (print_component c)
unfolding print_component
print_component-IsText c h = elim (Bool-cases c.complex) [
  | inl e ↦
      rw (e, c_str-IsText c.component h.no_nul)
        (
          omega arith,
          IsText-append (escape_all c.component) (quote ∷ [])
              (escape_all-IsText c.component h.no_nul) (omega arith, tt),
        )
  | inr e ↦ rw e h.no_nul
]

print_components-IsText : (p : Components) → IsPath p → IsText (print_components p)
unfolding print_components
print_components-IsText [] h = tt
print_components-IsText (c ∷ p) h = (
  omega arith,
  IsText-append (print_component c) (print_components p) (print_component-IsText c h.0)
      (print_components-IsText p h.1),
)

print_components-append :
    (p q : Components) → print_components (p ++ q) ≡ print_components p ++ print_components q
unfolding print_components
print_components-append [] q = refl
print_components-append (c ∷ p) q =
    ap (λ t. dot_char ∷ (print_component c ++ t)) (print_components-append p q)
    ∙ ap (λ t. dot_char ∷ t)
        (sym (append_assoc (print_component c) (print_components p) (print_components q)))

-- topath makes the path of the text of a path that is not the root.
topath-print_path :
    (c : Component) (p : Components)
    → IsPath (c ∷ p)
    → p_topath (string (print_path (c ∷ p))) ≡ path (c ∷ p)
unfolding p_topath with_dot print_path print_components
topath-print_path c p h =
    ap (λ t. path (parse_path t))
      (unfold print_components in
        c_str-IsText (print_path (c ∷ p)) (unfold print_path in print_components-IsText (c ∷ p) h))
    ∙ ap path (parse_path-print_path (c ∷ p) h)

-- topath of the sum of the text of a path and another path is the sum of the two paths: for paths
-- other than the root whose components hold no NUL and, where they are printed without quotes, are
-- non-empty words that neither begin nor end with a dash.
pub p_topath-s_plus3 :
    (c : Component) (p : Components) (d : Component) (q : Components)
    → IsPath (c ∷ p)
    → IsPath (d ∷ q)
    → p_topath (s_plus3 (string (print_path (c ∷ p))) (path (d ∷ q)))
      ≡ p_plus (path (c ∷ p)) (path (d ∷ q))
unfolding s_plus3 p_plus print_path
p_topath-s_plus3 c p d q hp hq =
    ap (λ t. p_topath (string t)) (sym (print_components-append (c ∷ p) (d ∷ q)))
    ∙ topath-print_path c (p ++ d ∷ q) (IsPath-append (c ∷ p) (d ∷ q) hp hq)
    ∙ ap path (sym (append-join (c ∷ p) (d ∷ q)))
    ∙ ap (λ r. path (append r (d ∷ q))) (sym (append-join [] (c ∷ p)))

-- ===== src/Values/Path/Notation.antt =====
-- What YCPPathRep::toString writes is parsed back to the same path.
use yast_core.Prelude.{
  ℕ, ◌/◌, ◌%◌, ◌<◌, ◌≡◌, ◌≢◌, ◌∙◌, subst, inl, inr, refl, sym, ap, Bool, true, false, some, [], ◌∷◌,
  ◌++◌, append_assoc, append-nil, Bytes, All, ◌==◌, arith, Bool-cases,
}
use yast_core.Prelude.Fault.{◌>>=◌}
use yast_core.Bytecode.Text.{IsText, c_str-IsText}
use yast_core.Values.Defs.{Component, Components}
use yast_core.Values.Path.{
  backslash, quote, dot_char, dash, is_xdigit, hex_value, is_print, is_simple, hex_escape,
  escape_at, unescape, all_simple, component_of, dot, simple, complex, starts_quoted, ends_simple,
  starts_with_dash, scan, is_root_text, parse_path, hex_digit, escape, escape_all, print_component,
  print_components, print_path,
}

xdigit-hex_digit :
    (d : ℕ) → d < 16 → (is_xdigit (hex_digit d) ≡ true) × (hex_value (hex_digit d) ≡ d)
unfolding is_xdigit hex_digit hex_value
xdigit-hex_digit d h = (ground arith, ground arith)

-- How one character is written.
data Written (c : ℕ) (bytes : Bytes) : Type 0 where
  as_it_is : (c == backslash) ≡ false → (c == quote) ≡ false → bytes ≡ c ∷ [] → Written c bytes
  by_letter :
      (d : ℕ)
      → bytes ≡ backslash ∷ d ∷ []
      → ((r : Bytes) → escape_at (d ∷ r) ≡ (c, 1))
      → Written c bytes
  by_number :
      c < 256
      → bytes ≡ backslash ∷ b'x' ∷ hex_digit (c / 16) ∷ hex_digit (c % 16) ∷ []
      → Written c bytes

eq_of_test : {a b : ℕ} → (a == b) ≡ true → b ≡ a
eq_of_test h = ground arith

escape-Written : (c : ℕ) → c < 256 → Written c (escape c)
unfolding escape escape_at
escape-Written c h = elim (Bool-cases (c == quote)) [
  | inl e ↦ by_letter quote (rw e) (λ r. rw (eq_of_test e))
  | inr n₁ ↦ elim (Bool-cases (c == backslash)) [
    | inl e ↦ by_letter backslash (rw (n₁, e)) (λ r. rw (eq_of_test e))
    | inr n₂ ↦
        rw (n₁, n₂)
          (elim (Bool-cases (c == 10)) [
            | inl e ↦ by_letter b'n' (rw e) (λ r. rw (eq_of_test e))
            | inr n₃ ↦ rw n₃ (elim (Bool-cases (c == 9)) [
              | inl e ↦ by_letter b't' (rw e) (λ r. rw (eq_of_test e))
              | inr n₄ ↦ rw n₄ (elim (Bool-cases (c == 13)) [
                | inl e ↦ by_letter b'r' (rw e) (λ r. rw (eq_of_test e))
                | inr n₅ ↦ rw n₅ (elim (Bool-cases (c == 8)) [
                  | inl e ↦ by_letter b'b' (rw e) (λ r. rw (eq_of_test e))
                  | inr n₆ ↦ rw n₆ (elim (Bool-cases (c == 12)) [
                    | inl e ↦ by_letter b'f' (rw e) (λ r. rw (eq_of_test e))
                    | inr n₇ ↦ rw n₇ (elim (Bool-cases (is_print c)) [
                      | inl e ↦ as_it_is n₂ n₁ (rw e)
                      | inr n₈ ↦ by_number h (rw n₈)
                    ])
                  ])
                ])
              ])
            ])
          ])
  ]
]

escape_at-number :
    (c : ℕ) (r : Bytes)
    → c < 256
    → escape_at (b'x' ∷ hex_digit (c / 16) ∷ hex_digit (c % 16) ∷ r) ≡ (c, 3)
unfolding escape_at hex_escape
escape_at-number c r h =
    let high = xdigit-hex_digit (c / 16) (omega arith) in
    let low = xdigit-hex_digit (c % 16) (omega arith) in
    rw (high.0, high.1, low.0, low.1) (ap (λ (n : ℕ). (n, 3)) (omega arith))

-- The parser of a component undoes the escaping of one character.
unescape-escape :
    (c : ℕ) (r : Bytes)
    → c < 256
    → unescape 0 (escape c ++ r) ≡ (unescape 0 r >>= λ t. some (c ∷ t))
unfolding unescape
unescape-escape c r h = elim (escape-Written c h) [
  | as_it_is n₁ n₂ e ↦ rw e (rw (n₁, n₂))
  | by_letter d e at ↦ rw e (rw (at r))
  | by_number lt e ↦ rw e (rw (escape_at-number c r h))
]

hex_digit-plain :
    (d : ℕ) → d < 16 → ((hex_digit d == backslash) ≡ false) × ((hex_digit d == quote) ≡ false)
unfolding hex_digit
hex_digit-plain d h = (ground arith, ground arith)

-- Inside the quotes the parser keeps every character that was written for one character.
scan-escape :
    (c : ℕ) (text : Bytes) (cs : Components) (r : Bytes)
    → c < 256
    → scan (complex text) cs (escape c ++ r) ≡ scan (complex (text ++ escape c)) cs r
unfolding scan
scan-escape c text cs r h = elim (escape-Written c h) [
  | as_it_is n₁ n₂ e ↦ rw e (rw (n₁, n₂))
  | by_letter d e at ↦ rw e (rw append_assoc)
  | by_number lt e ↦
      let high = hex_digit-plain (c / 16) (omega arith) in
      let low = hex_digit-plain (c % 16) (omega arith) in
      rw e (rw (high.0, high.1, low.0, low.1) (simp append_assoc))
]

abbrev pub AreBytes : Bytes → Type 0
AreBytes = All (λ c. c < 256)

unescape-escape_all : (t r : Bytes) → AreBytes t → unescape 0 (escape_all t ++ quote ∷ r) ≡ some t
unfolding escape_all unescape
unescape-escape_all [] r h = refl
unescape-escape_all (c ∷ t) r h =
    rw (append_assoc (escape c) (escape_all t) (quote ∷ r))
      (rw (unescape-escape c (escape_all t ++ quote ∷ r) h.0, unescape-escape_all t r h.1))

scan-escape_all :
    (t text : Bytes) (cs : Components) (r : Bytes)
    → AreBytes t
    → scan (complex text) cs (escape_all t ++ r) ≡ scan (complex (text ++ escape_all t)) cs r
unfolding escape_all
scan-escape_all [] text cs r h = rw (append-nil text)
scan-escape_all (c ∷ t) text cs r h = rw (append_assoc (escape c) (escape_all t) r) (
    rw (scan-escape c text cs (escape_all t ++ r) h.0) (
      scan-escape_all t (text ++ escape c) cs r h.1
      ∙ ap (λ (u : Bytes). scan (complex u) cs r) (append_assoc text (escape c) (escape_all t))))

abbrev ends_with_dash : Bytes → Bool
ends_with_dash [] = false
ends_with_dash (c ∷ []) = c == dash
ends_with_dash (c ∷ d ∷ r) = ends_with_dash (d ∷ r)

is_simple-plain : (c : ℕ) → is_simple c ≡ true → ((c == dot_char) ≡ false) × ((c == quote) ≡ false)
unfolding is_simple
is_simple-plain c h = (ground arith, ground arith)

starts_with_dash-append :
    (c : ℕ) (text r : Bytes)
    → starts_with_dash ((text ++ c ∷ []) ++ r) ≡ starts_with_dash (text ++ c ∷ [])
starts_with_dash-append c [] r = refl
starts_with_dash-append c (b ∷ text) r = refl

all_simple-cons :
    (c : ℕ) (t : Bytes) → all_simple (c ∷ t) ≡ true → (is_simple c ≡ true) × (all_simple t ≡ true)
unfolding all_simple
all_simple-cons c t h = ground arith

-- A component without quotes is read up to the next dot or the end.
scan-simple :
    (c : ℕ) (t text : Bytes) (cs : Components) (r : Bytes)
    → all_simple t ≡ true
    → ends_simple r ≡ true
    → starts_with_dash (text ++ c ∷ []) ≡ false
    → ends_with_dash (c ∷ t) ≡ false
    → scan (simple text) cs (c ∷ (t ++ r)) ≡ scan dot (cs ++ component_of (text ++ c ∷ t) ∷ []) r
unfolding scan all_simple ends_simple
scan-simple c [] text cs r h e first last = rw (e, first, last)
scan-simple c (d ∷ t) text cs r h e first last =
    let simple_parts = all_simple-cons d t h in
    let longer =
      scan-simple d t (text ++ c ∷ []) cs r simple_parts.1 e
        (starts_with_dash-append c text (d ∷ []) ∙ first) last in
    rw ((is_simple-plain d simple_parts.0).0) (
      longer
      ∙ ap (λ (u : Bytes). scan dot (cs ++ component_of u ∷ []) r)
          (append_assoc text (c ∷ []) (d ∷ t)))

-- What a path holds: texts without NUL, and those that are printed without quotes are words of the
-- simple characters that neither begin nor end with a dash.
pub record IsComponent (c : Component) : Type 0 where
  pub bytes : AreBytes c.component
  pub no_nul : IsText c.component
  pub word :
      c.complex ≡ false
      → (c.component ≢ [])
        × (all_simple c.component ≡ true)
        × (starts_with_dash c.component ≡ false)
        × (ends_with_dash c.component ≡ false)

component_of-quoted :
    (text : Bytes)
    → AreBytes text
    → component_of (quote ∷ (escape_all text ++ quote ∷ []))
      ≡ record { component = text; complex = true }
unfolding component_of
component_of-quoted text h = rw (unescape-escape_all text [] h)

component_of-word :
    (c : ℕ) (t : Bytes)
    → all_simple (c ∷ t) ≡ true
    → component_of (c ∷ t) ≡ record { component = c ∷ t; complex = false }
unfolding component_of
component_of-word c t h = rw ((is_simple-plain c (all_simple-cons c t h).0).1, h)

ends_simple-print : (cs : Components) → ends_simple (print_components cs) ≡ true
unfolding ends_simple print_components
ends_simple-print [] = refl
ends_simple-print (c ∷ cs) = refl

-- One printed component, from the dot before it on.
abbrev ReadsComponent : Component → Type 0
ReadsComponent c =
    (done : Components) (r : Bytes)
    → ends_simple r ≡ true
    → scan dot done (dot_char ∷ (print_component c ++ r)) ≡ scan dot (done ++ c ∷ []) r

read_quoted :
    (text : Bytes)
    → AreBytes text
    → IsText text
    → ReadsComponent (record { component = text; complex = true })
unfolding scan print_component starts_quoted
read_quoted text bytes no_nul done r e =
    rw (c_str-IsText text no_nul, append_assoc (escape_all text) (quote ∷ []) r)
      (rw (scan-escape_all text (quote ∷ []) done (quote ∷ r) bytes)
        (rw (component_of-quoted text bytes)))

read_word :
    (text : Bytes)
    → text ≢ []
    → all_simple text ≡ true
    → starts_with_dash text ≡ false
    → ends_with_dash text ≡ false
    → ReadsComponent (record { component = text; complex = false })
unfolding scan print_component starts_quoted
read_word [] some_text h first last done r e = absurd (some_text refl)
read_word (c ∷ t) some_text h first last done r e =
    let parts = all_simple-cons c t h in
    rw ((is_simple-plain c parts.0).1, scan)
      (scan-simple c t [] done r parts.1 e first last
        ∙ ap (λ (d : Component). scan dot (done ++ d ∷ []) r) (component_of-word c t h))

read_component : (c : Component) → IsComponent c → ReadsComponent c
read_component c h = elim (Bool-cases c.complex) [
  | inl e ↦
      subst (λ b. ReadsComponent (record { component = c.component; complex = b })) (sym e)
        (read_quoted c.component h.bytes h.no_nul)
  | inr e ↦
      let (some_text, words, first, last) = h.word e in
      subst (λ b. ReadsComponent (record { component = c.component; complex = b })) (sym e)
        (read_word c.component some_text words first last)
]

-- Paths of such components.
abbrev pub IsPath : Components → Type 0
IsPath = All IsComponent

scan-print_components :
    (cs done : Components) → IsPath cs → scan dot done (print_components cs) ≡ done ++ cs
unfolding print_components
scan-print_components [] done h = unfold scan in sym (append-nil done)
scan-print_components (c ∷ cs) done h =
    read_component c h.0 done (print_components cs) (ends_simple-print cs)
    ∙ scan-print_components cs (done ++ c ∷ []) h.1
    ∙ append_assoc done (c ∷ []) cs

not_root : (text r : Bytes) → text ≢ [] → is_root_text (dot_char ∷ (text ++ r)) ≡ false
not_root [] r h = absurd (h refl)
not_root (c ∷ t) r h = refl

print_component-ne_nil : (c : Component) → IsComponent c → print_component c ≢ []
unfolding print_component
print_component-ne_nil c h = elim (Bool-cases c.complex) [
  | inl e ↦ rw e (λ p. cc)
  | inr e ↦ rw e (h.word e).0
]

-- Parsing what toString writes gives the path back, with the same components and the same choice of
-- quotes for each: for paths whose components hold no NUL and, where they are printed without
-- quotes, are non-empty words that neither begin nor end with a dash.
pub parse_path-print_path : (p : Components) → IsPath p → parse_path (print_path p) ≡ p
unfolding parse_path print_path print_components
parse_path-print_path [] h = refl
parse_path-print_path (c ∷ cs) h =
    rw (not_root (print_component c) (print_components cs) (print_component-ne_nil c h.0))
      (scan-print_components (c ∷ cs) [] h)

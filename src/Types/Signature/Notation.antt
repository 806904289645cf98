-- ===== src/Types/Signature/Notation.antt =====
-- The types whose text is a signature, and how fromSignature reads one of them whose parts it reads.
use yast_core.Prelude.{
  ℕ, zero, suc, ◌+◌, ◌≤◌, ◌≡◌, refl, ap, ◌∙◌, Bool, true, false, ◌&&◌, ◌∷◌, ◌++◌, append_assoc,
  Bytes, arith, if◌then◌else◌,
}
use yast_core.Prelude.Texts.{codes}
use yast_core.Types.Defs.{
  Quals, plain, YcpType, YcpTypes, base, flex, nflex, variable, list, map, block, tuple,
  function_void, function, nil, cons, is_const, is_function,
}
use yast_core.Types.Kind.{Kind, list_t, map_t, block_t, variable_t}
use yast_core.Types.Print.{kind_text, pre_to_string, post_to_string, is_free, to_string}
use yast_core.Types.Signature.{
  kind_token, const_if, components, skip_spaces, Parse, parsed, starts, from_signature, next_token,
  parameters,
}
use yast_core.Types.Signature.Parts.{
  IsNamed, IsWord, kind_text-IsRead, behind, behind-closed, signature-pre, postfix-post,
  of_token-complete, constructed-list, constructed-block, constructed-variable, constructed-map,
}

-- The types whose text is a signature of them. The text of a list or map of `any` has no parts,
-- flexes and tuples are written otherwise in signatures, `const` is lost at a `&`, and in front of a
-- function it goes to the function and to its result. No result is a function.
abbrev pub IsResult : YcpType → Type 0
IsResult r = (is_const r ≡ false) × (is_function r ≡ false)

abbrev mutual
  pub IsNotation : YcpType → Type 0
  IsNotation (base k q) = IsNamed k q × ((q.is_const && q.is_reference) ≡ false)
  IsNotation (flex q) = ⊥
  IsNotation (nflex q n) = ⊥
  IsNotation (variable q t) = (q ≡ plain) × IsNotation t
  IsNotation (list q t) =
      ((q.is_const && q.is_reference) ≡ false) × (is_free t ≡ false) × IsNotation t
  IsNotation (map q k v) =
      ((q.is_const && q.is_reference) ≡ false)
      × ((is_free k && is_free v) ≡ false)
      × IsNotation k
      × IsNotation v
  IsNotation (block q t) = ((q.is_const && q.is_reference) ≡ false) × IsNotation t
  IsNotation (tuple q ts) = ⊥
  IsNotation (function_void q r) = (q ≡ plain) × IsResult r × IsNotation r
  IsNotation (function q r p nil) = ⊥
  IsNotation (function q r p (cons t ts)) =
      (q ≡ plain) × (p ≡ plain) × IsResult r × IsNotation r × AreNotations (cons t ts)

  pub AreNotations : YcpTypes → Type 0
  AreNotations nil = Unit
  AreNotations (cons t ts) = IsNotation t × AreNotations ts

-- How many units of fuel the parser takes.
unfoldable mutual
  pub need : YcpType → ℕ
  need (base k q) = 1
  need (flex q) = 1
  need (nflex q n) = 1
  need (variable q t) = suc (need t)
  need (list q t) = suc (need t)
  need (map q k v) = suc (need k + need v)
  need (block q t) = suc (need t)
  need (tuple q ts) = suc (need_all ts)
  need (function_void q r) = suc (need r)
  need (function q r p ts) = suc (need r + need_all ts)

  pub need_all : YcpTypes → ℕ
  need_all nil = 1
  need_all (cons t ts) = suc (need t + need_all ts)

pub need-pos : (t : YcpType) → 1 ≤ need t
unfolding need
need-pos (base k q) = omega arith
need-pos _ = omega arith

-- What comes back in front of `s`: a type that is no function takes the parameters in `s`.
unfoldable pub outcome : ℕ → YcpType → Bytes → Parse
outcome f (function_void q r) s = parsed (function_void q r) s
outcome f (function q r p ts) s = parsed (function q r p ts) s
outcome f t s = behind (parameters f) (is_const t) t (skip_spaces s)

-- A text that no type goes on into.
abbrev pub IsClosed : Bytes → Type 0
IsClosed s = (skip_spaces s ≡ s) × (starts b'&' s ≡ false) × (starts b'(' s ≡ false)

pub outcome-closed : (f : ℕ) (t : YcpType) (s : Bytes) → IsClosed s → outcome f t s ≡ parsed t s
unfolding outcome
outcome-closed f (function_void q r) s h = refl
outcome-closed f (function q r p ts) s h = refl
outcome-closed f t s h = rw h.0 (behind-closed (parameters f) (is_const t) t s h.2)

module _ (number_text : ℕ → Bytes) where
  abbrev pub Text : YcpType → Bytes
  Text = to_string number_text

  pre-IsWord :
      (c : Bool) (w s : Bytes)
      → IsWord (w ++ s)
      → IsWord (((if c then codes "const " else codes "") ++ w) ++ s)
  unfolding skip_spaces starts
  pre-IsWord true w s h = (refl, refl, refl)
  pre-IsWord false w s h = h

  pub to_string-IsWord : (t : YcpType) (s : Bytes) → IsNotation t → IsWord (Text t ++ s)
  unfolding to_string skip_spaces starts
  to_string-IsWord (base k q) s h =
      pre-IsWord q.is_const _ s (rw append_assoc (kind_text-IsRead k q _ h.0).2)
  to_string-IsWord (variable q t) s h = (refl, refl, refl)
  to_string-IsWord (list q t) s h = pre-IsWord q.is_const _ s (refl, refl, refl)
  to_string-IsWord (map q k v) s h = pre-IsWord q.is_const _ s (refl, refl, refl)
  to_string-IsWord (block q t) s h = pre-IsWord q.is_const _ s (refl, refl, refl)
  to_string-IsWord (function_void q r) s h =
      pre-IsWord q.is_const _ s (rw (append_assoc (Text r) _ s) (to_string-IsWord r _ h.2))
  to_string-IsWord (function q r p nil) s h = elim h [ ]
  to_string-IsWord (function q r p (cons t ts)) s h =
      pre-IsWord q.is_const _ s (rw (append_assoc (Text r) _ s) (to_string-IsWord r _ h.3))
  to_string-IsWord _ s h = elim h [ ]

  abbrev pub Reads : YcpType → Type 0
  Reads t =
      (f : ℕ) (s : Bytes)
      → need t ≤ suc f
      → starts b'&' (skip_spaces s) ≡ false
      → from_signature (suc f) (Text t ++ s) ≡ outcome f t s

  -- At a sign that ends a type.
  pub read_closed :
      (t : YcpType) (f : ℕ) (s : Bytes)
      → Reads t
      → need t ≤ f
      → IsClosed s
      → from_signature f (Text t ++ s) ≡ parsed t s
  read_closed t zero s reads le closed = absurd (omega (arith, le, need-pos t))
  read_closed t (suc f) s reads le closed =
      reads f s le (ap (starts b'&') closed.0 ∙ closed.1) ∙ outcome-closed f t s closed

  pub read_base :
      (k : Kind) (q : Quals)
      → IsNamed k q
      → (q.is_const && q.is_reference) ≡ false
      → Reads (base k q)
  unfolding from_signature to_string outcome
  read_base k q named free f s le sep =
      let (token, done, word) = kind_text-IsRead k q (post_to_string q ++ s) named in
      rw (append_assoc (pre_to_string q) (kind_text k ++ post_to_string q) s) (
        rw (append_assoc (kind_text k) (post_to_string q) s) (
          signature-pre (from_signature f) (parameters f) (components f) q.is_const
            (kind_text k ++ (post_to_string q ++ s)) k _ word token
          ∙ of_token-complete (from_signature f) (parameters f) (components f) (kind_token k)
              q.is_const (base k (const_if q.is_const)) _ done
          ∙ postfix-post (from_signature f) (parameters f) (components f) (base k) (λ p. refl)
              (λ p r. refl) refl q.is_const q.is_reference s free sep))

  list_text :
      (q : Quals) (t : YcpType) (s : Bytes)
      → is_free t ≡ false
      → Text (list q t) ++ s
        ≡ pre_to_string q ++ (codes "list <" ++ (Text t ++ (b'>' ∷ (post_to_string q ++ s))))
  unfolding to_string
  list_text q t s h = rw h (simp append_assoc)

  map_text :
      (q : Quals) (k v : YcpType) (s : Bytes)
      → (is_free k && is_free v) ≡ false
      → Text (map q k v) ++ s
        ≡ pre_to_string q
          ++ (codes "map <"
              ++ (Text k ++ (codes ", " ++ (Text v ++ (b'>' ∷ (post_to_string q ++ s))))))
  unfolding to_string
  map_text q k v s h = rw h (simp append_assoc)

  block_text :
      (q : Quals) (t : YcpType) (s : Bytes)
      → Text (block q t) ++ s
        ≡ pre_to_string q ++ (codes "block <" ++ (Text t ++ (b'>' ∷ (post_to_string q ++ s))))
  unfolding to_string
  block_text q t s = simp append_assoc

  variable_text :
      (q : Quals) (t : YcpType) (s : Bytes)
      → q ≡ plain
      → Text (variable q t) ++ s
        ≡ pre_to_string q ++ (codes "variable <" ++ (Text t ++ (b'>' ∷ (post_to_string q ++ s))))
  unfolding to_string pre_to_string post_to_string
  variable_text q t s h = rw h (simp append_assoc)

  module _ (f : ℕ) where
    abbrev P : Bytes → Parse
    P = from_signature f

    abbrev Q : YcpType → Bytes → Parse
    Q = parameters f

    abbrev R : YcpType → Bytes → Parse
    R = components f

    pub read_list :
        (q : Quals) (t : YcpType) (s : Bytes)
        → (q.is_const && q.is_reference) ≡ false
        → is_free t ≡ false
        → IsNotation t
        → from_signature f (Text t ++ (b'>' ∷ (post_to_string q ++ s)))
          ≡ parsed t (b'>' ∷ (post_to_string q ++ s))
        → starts b'&' (skip_spaces s) ≡ false
        → from_signature (suc f) (Text (list q t) ++ s) ≡ outcome f (list q t) s
    unfolding from_signature outcome pre_to_string next_token skip_spaces post_to_string
    read_list q t s free constructs h e sep =
        ap (from_signature (suc f)) (list_text q t s constructs)
        ∙ signature-pre P Q R q.is_const _ list_t _ (refl, refl, refl) refl
        ∙ constructed-list P Q R q.is_const _ _ t (to_string-IsWord t _ h).0 e
        ∙ postfix-post P Q R (λ p. list p t) (λ p. refl) (λ p r. refl) refl q.is_const
            q.is_reference s free sep

    pub read_block :
        (q : Quals) (t : YcpType) (s : Bytes)
        → (q.is_const && q.is_reference) ≡ false
        → IsNotation t
        → from_signature f (Text t ++ (b'>' ∷ (post_to_string q ++ s)))
          ≡ parsed t (b'>' ∷ (post_to_string q ++ s))
        → starts b'&' (skip_spaces s) ≡ false
        → from_signature (suc f) (Text (block q t) ++ s) ≡ outcome f (block q t) s
    unfolding from_signature outcome pre_to_string next_token skip_spaces post_to_string
    read_block q t s free h e sep =
        ap (from_signature (suc f)) (block_text q t s)
        ∙ signature-pre P Q R q.is_const _ block_t _ (refl, refl, refl) refl
        ∙ constructed-block P Q R q.is_const _ _ t (to_string-IsWord t _ h).0 e
        ∙ postfix-post P Q R (λ p. block p t) (λ p. refl) (λ p r. refl) refl q.is_const
            q.is_reference s free sep

    pub read_variable :
        (q : Quals) (t : YcpType) (s : Bytes)
        → q ≡ plain
        → IsNotation t
        → from_signature f (Text t ++ (b'>' ∷ (post_to_string q ++ s)))
          ≡ parsed t (b'>' ∷ (post_to_string q ++ s))
        → starts b'&' (skip_spaces s) ≡ false
        → from_signature (suc f) (Text (variable q t) ++ s) ≡ outcome f (variable q t) s
    unfolding from_signature outcome pre_to_string next_token skip_spaces post_to_string
    read_variable q t s free h e sep =
        ap (from_signature (suc f)) (variable_text q t s free)
        ∙ signature-pre P Q R q.is_const _ variable_t _ (refl, refl, refl) refl
        ∙ constructed-variable P Q R q.is_const _ _ t (to_string-IsWord t _ h).0 e
        ∙ postfix-post P Q R (λ p. variable p t) (λ p. refl) (λ p r. refl) refl q.is_const
            q.is_reference s (rw free refl) sep

    pub read_map :
        (q : Quals) (k v : YcpType) (s : Bytes)
        → (q.is_const && q.is_reference) ≡ false
        → (is_free k && is_free v) ≡ false
        → IsNotation k
        → IsNotation v
        → ((u : Bytes) → from_signature f (Text k ++ (b',' ∷ u)) ≡ parsed k (b',' ∷ u))
        → ((u : Bytes) → from_signature f (Text v ++ (b'>' ∷ u)) ≡ parsed v (b'>' ∷ u))
        → starts b'&' (skip_spaces s) ≡ false
        → from_signature (suc f) (Text (map q k v) ++ s) ≡ outcome f (map q k v) s
    unfolding from_signature outcome pre_to_string next_token skip_spaces post_to_string
    read_map q k v s free constructs hk hv ek ev sep =
        ap (from_signature (suc f)) (map_text q k v s constructs)
        ∙ signature-pre P Q R q.is_const _ map_t _ (refl, refl, refl) refl
        ∙ constructed-map P Q R q.is_const _ _ _ k v (to_string-IsWord k _ hk).0 (ek _)
            (to_string-IsWord v _ hv).0 (ev _)
        ∙ postfix-post P Q R (λ p. map p k v) (λ p. refl) (λ p r. refl) refl q.is_const
            q.is_reference s free sep

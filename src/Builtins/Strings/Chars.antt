-- ===== src/Builtins/Strings/Chars.antt =====
-- deletechars and filterchars keep the characters that they are asked for.
use mathlib.Core.Option
use yast_core.Prelude.{
  ℕ, zero, suc, ◌-◌, ◌≤◌, ◌<◌, ◌≡◌, refl, sym, ap, ◌∙◌, inl, inr, Bool, true, false, not, Option,
  none, some, [], ◌∷◌, Bytes, length, Bool-cases, arith, if◌then◌else◌,
}
use yast_core.Builtins.Split.{member}
use yast_core.Values.Defs.{string}
use yast_core.Builtins.Strings.{
  Wide, both_ascii, find_if, erase, run_length, erase_from, erase_loop, chars, text, erased,
  s_removechars, s_filterchars,
}

-- The characters that do not satisfy `p`, in their order.
abbrev pub without : (ℕ → Bool) → Bytes → Bytes
without p [] = []
without p (c ∷ s) = if p c then without p s else c ∷ without p s

find_if-hit : (q : ℕ → Bool) (c : ℕ) (s : Bytes) → q c ≡ true → find_if q (c ∷ s) 0 ≡ some 0
unfolding find_if
find_if-hit q c s h = rw (h, find_if) refl

find_if-miss :
    (q : ℕ → Bool) (c : ℕ) (s : Bytes)
    → q c ≡ false
    → find_if q (c ∷ s) 0 ≡ Option.map suc (find_if q s 0)
unfolding find_if
find_if-miss q c s h = rw (h, find_if) refl

module _ (p : ℕ → Bool) where
  -- The erased run at the front.
  behind_run : Bytes → Bytes
  behind_run s = erase s 0 (run_length (find_if (λ c. not (p c)) s 0) 0)

  run_length-suc : (o : Option ℕ) (i : ℕ) → run_length (Option.map suc o) (suc i) ≡ run_length o i
  run_length-suc none i = refl
  run_length-suc (some r) i = ap some (omega arith)

  erase_from-cons :
      (again : Bytes → ℕ → Option Bytes) (c : ℕ) (s : Bytes)
      → ((r : Bytes) (i : ℕ) → again (c ∷ r) (suc i) ≡ Option.map (λ t. c ∷ t) (again r i))
      → (o : Option ℕ)
      → erase_from p again (c ∷ s) (Option.map suc o)
        ≡ Option.map (λ t. c ∷ t) (erase_from p again s o)
  unfolding erase_from find_if erase
  erase_from-cons again c s h none = refl
  erase_from-cons again c s h (some i) =
      ap (λ n. again (c ∷ erase s i n) (suc i)) (run_length-suc (find_if (λ d. not (p d)) s i) i)
      ∙ h _ i

  erase_loop-cons :
      (f c start : ℕ) (s : Bytes)
      → erase_loop p f (c ∷ s) (suc start) ≡ Option.map (λ r. c ∷ r) (erase_loop p f s start)
  unfolding erase_loop find_if
  erase_loop-cons zero c start s = refl
  erase_loop-cons (suc f) c start s =
      erase_from-cons (erase_loop p f) c s (λ r i. erase_loop-cons f c i r) (find_if p s start)

  -- A character that stays is passed over.
  erase_loop-keep :
      (f c : ℕ) (s : Bytes)
      → p c ≡ false
      → erase_loop p (suc f) (c ∷ s) 0 ≡ Option.map (λ r. c ∷ r) (erase_loop p (suc f) s 0)
  unfolding erase_loop find_if
  erase_loop-keep f c s h =
      ap (erase_from p (erase_loop p f) (c ∷ s)) (find_if-miss p c s h)
      ∙ erase_loop-cons (suc f) c 0 s

  erase-none : (s : Bytes) → erase s 0 none ≡ []
  unfolding erase
  erase-none [] = refl
  erase-none (c ∷ s) = refl

  erase-suc :
      (c : ℕ) (s : Bytes) (o : Option ℕ)
      → erase (c ∷ s) 0 (run_length (Option.map suc o) 0) ≡ erase s 0 (run_length o 0)
  unfolding erase
  erase-suc c s none = sym (erase-none s)
  erase-suc c s (some r) = ap (λ n. erase (c ∷ s) 0 (some n)) (sub_zero r)
    where
      sub_zero : (r : ℕ) → ◌≡◌ {A = ℕ} (suc r - 0) (suc (r - 0))
      sub_zero r = omega arith

  behind_run-cons : (c : ℕ) (s : Bytes) → p c ≡ true → behind_run (c ∷ s) ≡ behind_run s
  unfolding behind_run
  behind_run-cons c s h =
      ap (λ o. erase (c ∷ s) 0 (run_length o 0)) (find_if-miss (λ d. not (p d)) c s (ap not h))
      ∙ erase-suc c s (find_if (λ d. not (p d)) s 0)

  behind_run-stop : (c : ℕ) (s : Bytes) → p c ≡ false → behind_run (c ∷ s) ≡ c ∷ s
  unfolding behind_run find_if erase
  behind_run-stop c s h = rw (h, find_if) refl

  -- A run of characters that go is erased.
  erase_loop-drop :
      (f c : ℕ) (s : Bytes)
      → p c ≡ true
      → erase_loop p (suc f) (c ∷ s) 0 ≡ erase_loop p f (behind_run s) 0
  unfolding erase_loop erase_from find_if behind_run
  erase_loop-drop f c s h =
      ap (erase_from p (erase_loop p f) (c ∷ s)) (find_if-hit p c s h)
      ∙ ap (λ r. erase_loop p f r 0) (behind_run-cons c s h)

  length-behind_run : (s : Bytes) → length (behind_run s) ≤ length s
  unfolding behind_run find_if erase
  length-behind_run [] = omega arith
  length-behind_run (c ∷ s) = elim (Bool-cases (p c)) [
    | inl h ↦ rw (behind_run-cons c s h) (omega (arith, length-behind_run s))
    | inr h ↦ rw (behind_run-stop c s h) (omega arith)
  ]

  without-behind_run : (s : Bytes) → without p (behind_run s) ≡ without p s
  unfolding behind_run find_if erase
  without-behind_run [] = refl
  without-behind_run (c ∷ s) = elim (Bool-cases (p c)) [
    | inl h ↦ rw (behind_run-cons c s h) (rw h (without-behind_run s))
    | inr h ↦ rw (behind_run-stop c s h) refl
  ]

  pub erase_loop-without :
      (f : ℕ) (s : Bytes) → length s < f → erase_loop p f s 0 ≡ some (without p s)
  unfolding erase_loop find_if erase_from
  erase_loop-without zero s h = elim h [ ]
  erase_loop-without (suc f) [] h = refl
  erase_loop-without (suc f) (c ∷ s) h = elim (Bool-cases (p c)) [
    | inl e ↦
        erase_loop-drop f c s e
        ∙ erase_loop-without f (behind_run s) (omega (arith, length-behind_run s))
        ∙ ap some (without-behind_run s ∙ rw e refl)
    | inr e ↦
        erase_loop-keep f c s e
        ∙ ap (Option.map (λ r. c ∷ r)) (erase_loop-without (suc f) s (omega arith))
        ∙ rw e refl
  ]

-- deletechars gives the characters that are not in its second argument, and filterchars those that
-- are, in their order, whether the strings are taken by bytes or by wide characters.
pub s_removechars-s_filterchars :
    (wide : Wide) (s r : Bytes)
    → let ascii = both_ascii s r in
      let inside = λ (c : ℕ). member c (chars wide ascii r) in
      (s_removechars wide (string s) (string r)
        ≡ some (text wide ascii (without inside (chars wide ascii s))))
      × (s_filterchars wide (string s) (string r)
          ≡ some (text wide ascii (without (λ c. not (inside c)) (chars wide ascii s))))
unfolding s_removechars s_filterchars
s_removechars-s_filterchars wide s r =
    let ascii = both_ascii s r in
    (
      ap (erased wide ascii) (
          erase_loop-without _ (suc (length (chars wide ascii s))) (chars wide ascii s)
            (omega arith)),
      ap (erased wide ascii) (
          erase_loop-without _ (suc (length (chars wide ascii s))) (chars wide ascii s)
            (omega arith)),
    )

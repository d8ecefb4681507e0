-- ===== src/Identity/Codes/Draws.antt =====
-- Which draws give which code (generateCode of internal/modules/identity/application/email_login.go).
use Prim.Native.Char.{code}
use cv_agent.Base.{
  ℕ, zero, suc, ◌+◌, ◌*◌, ◌/◌, ◌%◌, ◌<◌, String, ◌≡◌, refl, sym, ◌∙◌, ap, subst, true, false, ◌||◌,
  ◌↔◌, Option, none, some, List, [], ◌∷◌, codes, bytes, encode_rune, flatten_runes, length, ltb,
  Bool-cases, inl, inr, arith,
}
use mathlib.Core.Option.{some-injective}
use cv_agent.Identity.Codes.{is_accepted, digit, format_code, generate_code, all_digits, digits}

-- Every code below 10^6 is given by exactly the 4294 accepted draws that leave it as their remainder:
-- an accepted draw is as likely to give one code as another.
pub accepted_draws :
    (value code : ℕ)
    → (((is_accepted value ≡ true) × (value % 1000000 ≡ code))
        ↔ ((i : ℕ) × (i < 4294) × (code < 1000000) × (value ≡ i * 1000000 + code)))
unfolding is_accepted
accepted_draws value c = (
  λ (h, e). (value / 1000000, ground arith, ground arith, ground arith),
  λ (i, small, below, e). (ground arith, ground arith),
)

digit_code : (d : ℕ) → d < 10 → code (digit d) ≡ 48 + d
unfolding digit
digit_code zero h = refl
digit_code (suc zero) h = refl
digit_code (suc (suc zero)) h = refl
digit_code (suc (suc (suc zero))) h = refl
digit_code (suc (suc (suc (suc zero)))) h = refl
digit_code (suc (suc (suc (suc (suc zero))))) h = refl
digit_code (suc (suc (suc (suc (suc (suc zero)))))) h = refl
digit_code (suc (suc (suc (suc (suc (suc (suc zero))))))) h = refl
digit_code (suc (suc (suc (suc (suc (suc (suc (suc zero)))))))) h = refl
digit_code (suc (suc (suc (suc (suc (suc (suc (suc (suc d))))))))) h = ground arith

tenth : (v : ℕ) → v % 10 < 10
tenth v = omega arith

-- The runes of a code are its six decimal digits.
code_runes :
    (v : ℕ)
    → codes (format_code v)
      ≡ (48 + v / 100000 % 10)
        ∷ (48 + v / 10000 % 10)
        ∷ (48 + v / 1000 % 10)
        ∷ (48 + v / 100 % 10)
        ∷ (48 + v / 10 % 10)
        ∷ (48 + v % 10)
        ∷ []
unfolding format_code
code_runes v =
    rw
      (
        digit_code (v / 100000 % 10) (tenth (v / 100000)),
        digit_code (v / 10000 % 10) (tenth (v / 10000)),
        digit_code (v / 1000 % 10) (tenth (v / 1000)),
        digit_code (v / 100 % 10) (tenth (v / 100)),
        digit_code (v / 10 % 10) (tenth (v / 10)),
        digit_code (v % 10) (tenth v),
      )
      refl

-- Two numbers below 10^6 with one text are one number.
pub format_code-injective :
    (v w : ℕ) → v < 1000000 → w < 1000000 → format_code v ≡ format_code w → v ≡ w
format_code-injective v w hv hw e = numbers (sym (code_runes v) ∙ ap codes e ∙ code_runes w)
  where
    step : (a b : ℕ) → a / 10 ≡ b / 10 → 48 + a % 10 ≡ 48 + b % 10 → a ≡ b
    step a b h k = omega arith

    six :
        {a b c d f g a' b' c' d' f' g' : ℕ}
        → Path (List ℕ) (a ∷ b ∷ c ∷ d ∷ f ∷ g ∷ []) (a' ∷ b' ∷ c' ∷ d' ∷ f' ∷ g' ∷ [])
        → (a ≡ a') × (b ≡ b') × (c ≡ c') × (d ≡ d') × (f ≡ f') × (g ≡ g')
    six e = (cc, cc, cc, cc, cc, cc)

    tens :
        48 + v / 100000 % 10 ≡ 48 + w / 100000 % 10
        → 48 + v / 10000 % 10 ≡ 48 + w / 10000 % 10
        → 48 + v / 1000 % 10 ≡ 48 + w / 1000 % 10
        → 48 + v / 100 % 10 ≡ 48 + w / 100 % 10
        → 48 + v / 10 % 10 ≡ 48 + w / 10 % 10
        → v / 10 ≡ w / 10
    tens d5 d4 d3 d2 d1 =
        let e5 : v / 100000 ≡ w / 100000 = omega arith in
        let e4 : v / 10000 ≡ w / 10000 = omega arith in
        let e3 : v / 1000 ≡ w / 1000 = omega arith in
        let e2 : v / 100 ≡ w / 100 = omega arith in omega arith

    digit_of : ℕ → ℕ → ℕ
    digit_of v k = 48 + v / k % 10

    runes : ℕ → List ℕ
    runes v =
        digit_of v 100000
        ∷ digit_of v 10000
        ∷ digit_of v 1000
        ∷ digit_of v 100
        ∷ digit_of v 10
        ∷ (48 + v % 10)
        ∷ []

    numbers : runes v ≡ runes w → v ≡ w
    numbers e = let (d5, d4, d3, d2, d1, d0) = six e in step v w (tens d5 d4 d3 d2 d1) d0

-- A draw gives a code below 10^6 if and only if it is that code plus one of 4294 multiples of 10^6: every
-- code is given by as many draws as any other, so none is likelier.
pub code_draws :
    (c value : ℕ)
    → c < 1000000
    → ((generate_code (value ∷ []) ≡ some (format_code c))
        ↔ ((i : ℕ) × (i < 4294) × (value ≡ i * 1000000 + c)))
unfolding generate_code
code_draws c value h = elim (Bool-cases (is_accepted value)) [
  | inl p ↦ (
    λ e.
        let same =
          format_code-injective (value % 1000000) c (omega arith) h
            (some-injective _ _ (sym (rw p refl) ∙ e)) in
        let (i, small, below, sum) = (accepted_draws value c).0 (p, same) in (i, small, sum),
    λ (i, small, sum).
        let (taken, same) = (accepted_draws value c).1 (i, small, h, sum) in
        rw p (ap (λ v. some (format_code v)) same),
  )
  | inr p ↦ (
    λ e. absurd (none-some (sym (rw p refl) ∙ e)),
    λ (i, small, sum).
        let (taken, same) = (accepted_draws value c).1 (i, small, h, sum) in
        absurd (true-false (sym taken ∙ p)),
  )
]
  where
    none-some : {s : String} → Path (Option String) none (some s) → ⊥
    none-some e = cc

    true-false : true ≡ false → ⊥
    true-false e = cc

formatted : (v : ℕ) → (digits (format_code v) ≡ true) × (length (bytes (format_code v)) ≡ 6)
unfolding digits bytes flatten_runes encode_rune
formatted v = (
  rw (code_runes v) (six_digits (v / 100000) (v / 10000) (v / 1000) (v / 100) (v / 10) v),
  rw (code_runes v) (six_bytes (v / 100000) (v / 10000) (v / 1000) (v / 100) (v / 10) v),
)
  where
    in_range : (v : ℕ) → (ltb (48 + v % 10) 48 || ltb 57 (48 + v % 10)) ≡ false
    in_range v = ground arith

    one_byte : (v : ℕ) → encode_rune (48 + v % 10) ≡ (48 + v % 10) ∷ []
    one_byte v = ground arith

    six_digits :
        (a b c d e f : ℕ)
        → all_digits (
            (48 + a % 10)
            ∷ (48 + b % 10)
            ∷ (48 + c % 10)
            ∷ (48 + d % 10)
            ∷ (48 + e % 10)
            ∷ (48 + f % 10)
            ∷ [])
          ≡ true
    six_digits a b c d e f =
        rw (in_range a, in_range b, in_range c, in_range d, in_range e, in_range f) refl

    six_bytes :
        (a b c d e f : ℕ)
        → length (
            flatten_runes (
              (48 + a % 10)
              ∷ (48 + b % 10)
              ∷ (48 + c % 10)
              ∷ (48 + d % 10)
              ∷ (48 + e % 10)
              ∷ (48 + f % 10)
              ∷ []))
          ≡ 6
    six_bytes a b c d e f =
        rw (one_byte a, one_byte b, one_byte c, one_byte d, one_byte e, one_byte f) refl

-- A code that is generated passes the test of a code at verification: six bytes, all of them digits.
pub generate_code-digits :
    (draws : List ℕ) (s : String)
    → generate_code draws ≡ some s
    → (digits s ≡ true) × (length (bytes s) ≡ 6)
unfolding generate_code
generate_code-digits [] s e = cc
generate_code-digits (value ∷ draws) s e = elim (Bool-cases (is_accepted value)) [
  | inl p ↦
      subst (λ t. (digits t ≡ true) × (length (bytes t) ≡ 6))
        (some-injective _ _ (sym (rw p refl) ∙ e)) (formatted (value % 1000000))
  | inr p ↦ generate_code-digits draws s (sym (rw p refl) ∙ e)
]

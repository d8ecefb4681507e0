-- ===== src/Identity/Codes.antt =====
-- Login codes: generateCode and digits of internal/modules/identity/application/email_login.go.
pub mod Draws
use Prim.Native.Char.{Char}
use cv_agent.Base.{
  ℕ, zero, suc, ◌-◌, ◌/◌, ◌%◌, ◌^◌, String, Bool, true, false, ◌||◌, Option, none, some, List, [],
  ◌∷◌, codes, ltb, ◌==◌, if◌then◌else◌,
}

-- `^uint32(0)`
abbrev pub max_uint32 : ℕ
max_uint32 = 2 ^ 32 - 1

-- The draws below which a code is made.
unfoldable pub is_accepted : ℕ → Bool
is_accepted value = ltb value (max_uint32 - max_uint32 % 1000000)

unfoldable pub digit : ℕ → Char
digit zero = "0"
digit (suc zero) = "1"
digit (suc (suc zero)) = "2"
digit (suc (suc (suc zero))) = "3"
digit (suc (suc (suc (suc zero)))) = "4"
digit (suc (suc (suc (suc (suc zero))))) = "5"
digit (suc (suc (suc (suc (suc (suc zero)))))) = "6"
digit (suc (suc (suc (suc (suc (suc (suc zero))))))) = "7"
digit (suc (suc (suc (suc (suc (suc (suc (suc zero)))))))) = "8"
digit _ = "9"

-- `%06d` of a number below 10^6.
unfoldable pub format_code : ℕ → String
unfolding digit
format_code v = String.◌∷◌ (digit (v / 100000 % 10)) (
    String.◌∷◌ (digit (v / 10000 % 10)) (
      String.◌∷◌ (digit (v / 1000 % 10)) (
        String.◌∷◌ (digit (v / 100 % 10))
          (String.◌∷◌ (digit (v / 10 % 10)) (String.◌∷◌ (digit (v % 10)) String.[])))))

-- `generateCode` on the numbers that the source of randomness gives, in their order; `none` if it
-- fails before one is accepted.
unfoldable pub generate_code : List ℕ → Option String
unfolding is_accepted format_code
generate_code [] = none
generate_code (value ∷ draws) =
    let later = generate_code draws in
    if is_accepted value then some (format_code (value % 1000000)) else later

abbrev pub all_digits : List ℕ → Bool
all_digits [] = true
all_digits (char ∷ chars) =
    let rest = all_digits chars in if ltb char b'0' || ltb b'9' char then false else rest

-- `digits`
unfoldable pub digits : String → Bool
digits value = all_digits (codes value)

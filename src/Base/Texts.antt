-- ===== src/Base/Texts.antt =====
-- Go strings as the native text: the program's strings come out of JSON documents or of text
-- columns, so they are valid UTF-8 and are the sequences of their runes.
use Prim.Native.Nat.{ℕ, ◌+◌, ◌/◌, ◌%◌}
use Prim.Native.Char.{code}
use Prim.Native.String.{String}
use mathlib.Core.Path.{◌≡◌}
use mathlib.Core.Bool.{Bool, true}
use mathlib.Core.List.{List, [], ◌∷◌, ◌++◌}
use text.Mathlib.Text.{◌==◌}
use text.Mathlib.TextEquality.{eq_iff}
use cv_agent.Base.Tests.{ltb, if◌then◌else◌}
use cv_agent.Base.Lists.{length}

abbrev pub str_eq : String → String → Bool
str_eq s t = s == t

pub str_eq_self : (s : String) → str_eq s s ≡ true
str_eq_self s = (eq_iff s s).1 (λ i. s)

pub str_eq→eq : (s t : String) → str_eq s t ≡ true → s ≡ t
str_eq→eq s t h = (eq_iff s t).0 h

-- The test `s == ""`.
abbrev pub is_empty : String → Bool
is_empty s = str_eq s ""

-- The runes of a text, as code points.
abbrev pub codes : String → List ℕ
codes String.[] = []
codes (String.◌∷◌ c s) = code c ∷ codes s

-- `utf8.RuneCountInString`.
abbrev pub rune_count : String → ℕ
rune_count s = length (codes s)

-- The UTF-8 encoding of one rune.
unfoldable pub encode_rune : ℕ → List ℕ
encode_rune c =
    if ltb c 0x80
    then c ∷ []
    else if ltb c 0x800
    then (0xc0 + c / 64) ∷ (0x80 + c % 64) ∷ []
    else if ltb c 0x10000
    then (0xe0 + c / 4096) ∷ (0x80 + c / 64 % 64) ∷ (0x80 + c % 64) ∷ []
    else (0xf0 + c / 262144) ∷ (0x80 + c / 4096 % 64) ∷ (0x80 + c / 64 % 64) ∷ (0x80 + c % 64) ∷ []

unfoldable pub flatten_runes : List ℕ → List ℕ
unfolding encode_rune
flatten_runes [] = []
flatten_runes (c ∷ cs) = encode_rune c ++ flatten_runes cs

-- The bytes of a text: `len(s)` counts them, `s[i]` reads one.
unfoldable pub bytes : String → List ℕ
unfolding flatten_runes
bytes s = flatten_runes (codes s)

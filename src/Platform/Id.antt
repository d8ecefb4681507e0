-- ===== src/Platform/Id.antt =====
-- internal/platform/id/uuid.go: identifiers as 16 bytes, their text, and the test of a text.
pub mod Text
use Prim.Native.Nat.{bit_and, bit_or}
use cv_agent.Base.{
  ℕ, zero, suc, ◌+◌, ◌-◌, ◌*◌, ◌/◌, ◌%◌, ◌^◌, String, Bool, true, false, not, ◌&&◌, ◌||◌, Option,
  none, some, List, [], ◌∷◌, ◌++◌, bytes, length, take, leb, ltb, ◌==◌, if◌then◌else◌,
}

-- `UUID [16]byte`.
pub record Uuid : Type 0 where
  pub b0 : ℕ
  pub b1 : ℕ
  pub b2 : ℕ
  pub b3 : ℕ
  pub b4 : ℕ
  pub b5 : ℕ
  pub b6 : ℕ
  pub b7 : ℕ
  pub b8 : ℕ
  pub b9 : ℕ
  pub b10 : ℕ
  pub b11 : ℕ
  pub b12 : ℕ
  pub b13 : ℕ
  pub b14 : ℕ
  pub b15 : ℕ

-- `NewV7` from the milliseconds of the clock and the ten random bytes at 6 to 15 of `e`.
unfoldable pub new_v7 : ℕ → Uuid → Uuid
new_v7 ms e = record e {
  b0 = ms / 2 ^ 40 % 256;
  b1 = ms / 2 ^ 32 % 256;
  b2 = ms / 2 ^ 24 % 256;
  b3 = ms / 2 ^ 16 % 256;
  b4 = ms / 2 ^ 8 % 256;
  b5 = ms % 256;
  b6 = bit_or (bit_and e.b6 0x0f) 0x70;
  b8 = bit_or (bit_and e.b8 0x3f) 0x80;
}

-- encoding/hex, in lower case.
unfoldable pub hex_digit : ℕ → ℕ
hex_digit d = if ltb d 10 then b'0' + d else b'a' + (d - 10)

abbrev pub hex : ℕ → List ℕ → List ℕ
hex b rest = hex_digit (b / 16) ∷ hex_digit (b % 16) ∷ rest

-- `UUID.String`.
unfoldable pub to_string : Uuid → List ℕ
to_string u = hex u.b0 (
    hex u.b1 (
      hex u.b2 (
        hex u.b3 (
          b'-'
          ∷ hex u.b4 (
              hex u.b5 (
                b'-'
                ∷ hex u.b6 (
                    hex u.b7 (
                      b'-'
                      ∷ hex u.b8 (
                          hex u.b9 (
                            b'-'
                            ∷ hex u.b10 (
                                hex u.b11
                                  (hex u.b12 (hex u.b13 (hex u.b14 (hex u.b15 [])))))))))))))))

unfoldable pub from_hex_digit : ℕ → Option ℕ
from_hex_digit c =
    if leb b'0' c && leb c b'9'
    then some (c - b'0')
    else if leb b'a' c && leb c b'f'
    then some (c - b'a' + 10)
    else if leb b'A' c && leb c b'F'
    then some (c - b'A' + 10)
    else none

abbrev pub join : Option ℕ → Option ℕ → Option (List ℕ) → Option (List ℕ)
join (some h) (some l) (some rest) = some ((h * 16 + l) ∷ rest)
join _ _ _ = none

-- `hex.Decode`; `none` is its error.
unfoldable pub hex_decode : List ℕ → Option (List ℕ)
hex_decode [] = some []
hex_decode (h ∷ []) = none
hex_decode (h ∷ l ∷ rest) = join (from_hex_digit h) (from_hex_digit l) (hex_decode rest)

abbrev pub drop : ℕ → List ℕ → List ℕ
drop zero xs = xs
drop (suc n) [] = []
drop (suc n) (x ∷ xs) = drop n xs

-- `value[i]`, read only where the length is 36.
abbrev pub byte_at : ℕ → List ℕ → ℕ
byte_at i [] = 0
byte_at zero (x ∷ xs) = x
byte_at (suc i) (x ∷ xs) = byte_at i xs

-- `value[from:to]`.
abbrev pub slice : ℕ → ℕ → List ℕ → List ℕ
slice from to xs = take (to - from) (drop from xs)

abbrev pub succeeds : Option (List ℕ) → Bool
succeeds none = false
succeeds (some _) = true

unfoldable pub is_uuid_bytes : List ℕ → Bool
is_uuid_bytes v =
    if not (length v == 36)
      || not (byte_at 8 v == b'-')
      || not (byte_at 13 v == b'-')
      || not (byte_at 18 v == b'-')
      || not (byte_at 23 v == b'-')
    then false
    else succeeds (
        hex_decode
          (slice 0 8 v ++ (slice 9 13 v ++ (slice 14 18 v ++ (slice 19 23 v ++ slice 24 36 v)))))

-- `Valid`.
unfoldable pub is_uuid : String → Bool
unfolding is_uuid_bytes hex_decode from_hex_digit bytes
is_uuid s = is_uuid_bytes (bytes s)

-- ===== src/Platform/Id/Text.antt =====
-- The text of an identifier (internal/platform/id/uuid.go).
use Prim.Native.Nat.{bit_and, bit_or}
use cv_agent.Base.{
  ℕ, zero, suc, ◌+◌, ◌*◌, ◌/◌, ◌%◌, ◌^◌, ◌<◌, ◌≡◌, refl, Bool, true, ◌&&◌, some, List, [], ◌∷◌,
  ◌++◌, arith, ◌==◌,
}
use cv_agent.Platform.Id.{
  Uuid, new_v7, hex_digit, hex, to_string, from_hex_digit, hex_decode, slice, is_uuid_bytes,
}

-- Every field is a byte.
pub record AreBytes (u : Uuid) : Type 0 where
  pub b0 : u.b0 < 256
  pub b1 : u.b1 < 256
  pub b2 : u.b2 < 256
  pub b3 : u.b3 < 256
  pub b4 : u.b4 < 256
  pub b5 : u.b5 < 256
  pub b6 : u.b6 < 256
  pub b7 : u.b7 < 256
  pub b8 : u.b8 < 256
  pub b9 : u.b9 < 256
  pub b10 : u.b10 < 256
  pub b11 : u.b11 < 256
  pub b12 : u.b12 < 256
  pub b13 : u.b13 < 256
  pub b14 : u.b14 < 256
  pub b15 : u.b15 < 256

from_hex_digit-hex_digit : (d : ℕ) → d < 16 → from_hex_digit (hex_digit d) ≡ some d
unfolding from_hex_digit hex_digit
from_hex_digit-hex_digit d h = ground arith

hex_decode-hex :
    (b : ℕ) (rest ds : List ℕ)
    → b < 256
    → hex_decode rest ≡ some ds
    → hex_decode (hex b rest) ≡ some (b ∷ ds)
unfolding hex_decode
hex_decode-hex b rest ds h p =
    rw
      (
        from_hex_digit-hex_digit (b / 16) (omega arith),
        from_hex_digit-hex_digit (b % 16) (omega arith),
        p,
      )
      (ground arith)

-- The bytes of an identifier, in their order.
abbrev pub to_list : Uuid → List ℕ
to_list u =
    u.b0 ∷ u.b1 ∷ u.b2 ∷ u.b3 ∷ u.b4 ∷ u.b5 ∷ u.b6 ∷ u.b7 ∷ u.b8 ∷ u.b9 ∷ u.b10 ∷ u.b11 ∷ u.b12
    ∷ u.b13 ∷ u.b14 ∷ u.b15 ∷ []

-- The digits of an identifier without the dashes.
abbrev digits : Uuid → List ℕ
digits u = hex u.b0 (
    hex u.b1 (
      hex u.b2 (
        hex u.b3 (
          hex u.b4 (
            hex u.b5 (
              hex u.b6 (
                hex u.b7 (
                  hex u.b8 (
                    hex u.b9 (
                      hex u.b10
                        (hex u.b11 (hex u.b12 (hex u.b13 (hex u.b14 (hex u.b15 [])))))))))))))))

hex_decode-digits : (u : Uuid) → AreBytes u → hex_decode (digits u) ≡ some (to_list u)
hex_decode-digits u v = hex_decode-hex _ _ _ v.b0 (
    hex_decode-hex _ _ _ v.b1 (
      hex_decode-hex _ _ _ v.b2 (
        hex_decode-hex _ _ _ v.b3 (
          hex_decode-hex _ _ _ v.b4 (
            hex_decode-hex _ _ _ v.b5 (
              hex_decode-hex _ _ _ v.b6 (
                hex_decode-hex _ _ _ v.b7 (
                  hex_decode-hex _ _ _ v.b8 (
                    hex_decode-hex _ _ _ v.b9 (
                      hex_decode-hex _ _ _ v.b10 (
                        hex_decode-hex _ _ _ v.b11 (
                          hex_decode-hex _ _ _ v.b12 (
                            hex_decode-hex _ _ _ v.b13 (
                              hex_decode-hex _ _ _ v.b14 (
                                hex_decode-hex u.b15 [] [] v.b15
                                  (unfold hex_decode in refl))))))))))))))))

-- The text of 16 bytes is accepted as an identifier, and its digits decode to the bytes.
pub is_uuid_bytes-to_string :
    (u : Uuid)
    → AreBytes u
    → let v = to_string u in
      (is_uuid_bytes v ≡ true)
      × (hex_decode
            (slice 0 8 v ++ (slice 9 13 v ++ (slice 14 18 v ++ (slice 19 23 v ++ slice 24 36 v))))
          ≡ some (to_list u))
unfolding is_uuid_bytes to_string
is_uuid_bytes-to_string u v = (rw (hex_decode-digits u v), hex_decode-digits u v)

-- What the masks of `NewV7` leave of a byte: the version, or the variant, in its upper bits.
abbrev is_marked : ℕ → Bool
is_marked b = (bit_or (bit_and b 0x0f) 0x70 / 16 == 7) && (bit_or (bit_and b 0x3f) 0x80 / 64 == 2)

every_under : (ℕ → Bool) → ℕ → Bool
every_under test zero = true
every_under test (suc top) = every_under test top && test top

every_byte : every_under is_marked 256 ≡ true
unfolding every_under
every_byte = refl

under_every : (test : ℕ → Bool) (top b : ℕ) → b < top → every_under test top ≡ true → test b ≡ true
unfolding every_under
under_every test zero b small every = ground arith
under_every test (suc top) b small every = ground (arith, under_every test top b)

marked : (b : ℕ) → b < 256 → is_marked b ≡ true
marked b small = under_every is_marked 256 b small every_byte

-- The first 48 bits as a number.
abbrev pub time_of : Uuid → ℕ
time_of u = ((((u.b0 * 256 + u.b1) * 256 + u.b2) * 256 + u.b3) * 256 + u.b4) * 256 + u.b5

-- An identifier that is made at a clock below 2^48 milliseconds of random bytes carries the clock
-- in its first 48 bits, most significant byte first; its version is 7 and its variant 2.
pub new_v7-layout :
    (ms : ℕ) (e : Uuid)
    → AreBytes e
    → ms < 2 ^ 48
    → (time_of (new_v7 ms e) ≡ ms) × ((new_v7 ms e).b6 / 16 ≡ 7) × ((new_v7 ms e).b8 / 64 ≡ 2)
unfolding new_v7
new_v7-layout ms e v h =
    (omega arith, ground (arith, marked e.b6 v.b6), ground (arith, marked e.b8 v.b8))

-- ===== src/Tests/Identifiers.antt =====
-- Identifiers.
use cv_agent.Base.{◌/◌, ◌≡◌, true, ◌++◌, some, arith}
use cv_agent.Platform.Id.{Uuid, new_v7, to_string, hex_decode, slice, is_uuid_bytes}
use cv_agent.Platform.Id.Text.{AreBytes, to_list, time_of, is_uuid_bytes-to_string, new_v7-layout}

abbrev entropy : Uuid
entropy = record {
  b0 = 0;
  b1 = 1;
  b2 = 2;
  b3 = 3;
  b4 = 4;
  b5 = 5;
  b6 = 255;
  b7 = 7;
  b8 = 255;
  b9 = 9;
  b10 = 10;
  b11 = 11;
  b12 = 12;
  b13 = 13;
  b14 = 14;
  b15 = 255;
}

entropy-AreBytes : AreBytes entropy
entropy-AreBytes = record {
  b0 = omega arith;
  b1 = omega arith;
  b2 = omega arith;
  b3 = omega arith;
  b4 = omega arith;
  b5 = omega arith;
  b6 = omega arith;
  b7 = omega arith;
  b8 = omega arith;
  b9 = omega arith;
  b10 = omega arith;
  b11 = omega arith;
  b12 = omega arith;
  b13 = omega arith;
  b14 = omega arith;
  b15 = omega arith;
}

is_uuid_bytes-to_string_example :
    (is_uuid_bytes (to_string entropy) ≡ true)
    × (hex_decode (
          slice 0 8 (to_string entropy)
          ++ (slice 9 13 (to_string entropy)
              ++ (slice 14 18 (to_string entropy)
                  ++ (slice 19 23 (to_string entropy) ++ slice 24 36 (to_string entropy)))))
        ≡ some (to_list entropy))
is_uuid_bytes-to_string_example = is_uuid_bytes-to_string entropy entropy-AreBytes

new_v7-layout_example :
    (time_of (new_v7 1700000000000 entropy) ≡ 1700000000000)
    × ((new_v7 1700000000000 entropy).b6 / 16 ≡ 7)
    × ((new_v7 1700000000000 entropy).b8 / 64 ≡ 2)
new_v7-layout_example = new_v7-layout 1700000000000 entropy entropy-AreBytes (omega arith)

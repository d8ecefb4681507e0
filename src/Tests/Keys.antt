-- ===== src/Tests/Keys.antt =====
-- Idempotency keys at concrete inputs.
use cv_agent.Base.{String, ◌≡◌, refl, true, false, List, [], ◌∷◌, bytes, flatten_runes, encode_rune}
use cv_agent.Db.Pool.{World, sound}
use cv_agent.Platform.Idempotency.{Reservation, KeyRow, find_row, reserve}
use cv_agent.Platform.Idempotency.Replays.{ReserveCall, run_reserves, reserve_once}

abbrev call_of : String → String → String → ReserveCall
call_of user key resource = record {
  user = user;
  resource_type = "resume";
  resource_id = resource;
  command = record { scope = "resumes"; key = key; request_hash = "h" };
  now = 7;
}

abbrev trim : String → String
trim s = s

abbrev no_keys : World (List KeyRow)
no_keys = record { store = []; fates = sound 1 ∷ sound 1 ∷ sound 1 ∷ [] }

abbrev first_answer : Reservation
first_answer = record { resource_id = "r1"; replay = false }

abbrev second_answer : Reservation
second_answer = record { resource_id = "r1"; replay = true }

reserve_once_example :
    ((call_of "u" "k" "r2").command.request_hash ≡ (call_of "u" "k" "r1").command.request_hash)
    × (second_answer ≡ record { resource_id = first_answer.resource_id; replay = true })
unfolding reserve find_row bytes flatten_runes encode_rune run_reserves
reserve_once_example =
    reserve_once trim (call_of "u" "k" "r1") (call_of "u" "k" "r2") no_keys
      (call_of "v" "k" "r3" ∷ []) first_answer second_answer refl refl refl refl refl

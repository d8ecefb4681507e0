-- ===== src/Tests/Services.antt =====
-- A note that is created twice under one key.
use cv_agent.Base.{
  String, ◌≡◌, refl, ◌⊎◌, true, none, some, [], pos, ◌∷◌, bytes, flatten_runes, encode_rune,
}
use cv_agent.Db.{ok}
use cv_agent.Db.Pool.{World, lost, acknowledged}
use cv_agent.Sync.Changes.{append_change, is_recorded}
use cv_agent.Platform.Idempotency.{KeyCommand, find_row, reserve}
use cv_agent.Tracker.Domain.{Note, NoteWrite, NoteType}
use cv_agent.Tracker.Store.{find_live}
use cv_agent.Tracker.Children.{
  add_valid, has_clash, add_child, find_child, validate_link, belongs_to,
}
use cv_agent.Tracker.Children.Validate.{validate_note, valid_note_type}
use cv_agent.Tracker.Services.{Tables, Creation, note_creation, create_note, create_once}
use cv_agent.Tracker.Services.Retried.{create_twice}
use cv_agent.Tests.Applications.{env}
use cv_agent.Tests.Children.{tables}
use cv_agent.Tests.Deletions.{interview_meta}

abbrev trim : String → String
trim s = s

abbrev key : KeyCommand
key = record { scope = "notes"; key = "k"; request_hash = "h" }

abbrev written : NoteWrite
written = record {
  id = "m";
  expected_version = none;
  interview_round_id = some "i";
  note_type = NoteType.interview;
  content = "third";
}

-- The commit of the first create is durable, but its answer is lost.
abbrev world : World Tables
world = record {
  store = record { tracker = tables; keys = [] };
  fates =
      record { begins = true; budget = 20; commit = lost }
      ∷ record { begins = true; budget = 20; commit = acknowledged }
      ∷ record { begins = true; budget = 20; commit = acknowledged }
      ∷ [];
}

abbrev creation : Creation Note NoteWrite
creation = note_creation trim env "u" "d" "a"

abbrev after_first : World Tables
after_first = (create_once trim env "u" "d" creation written key world).1

create_twice_example :
    (after_first.store ≡ world.store)
    ⊎ ((create_once trim env "u" "e" creation written key after_first).1.store ≡ after_first.store)
create_twice_example =
    create_twice trim "u" creation creation env env "d" "e" written written key key world refl refl

abbrev stored : Note
stored = record {
  base = record interview_meta {
    id = "m";
    user_id = "";
    entity_version = pos 1;
    created_at = 500;
    updated_at = 500;
    last_modified_device_id = some "d";
  };
  interview_round_id = some "i";
  note_type = NoteType.interview;
  content = "third";
}

-- The retry answers with the stored note, without its user.
retry_answers : (create_note trim env "u" "e" "a" written key after_first).0 ≡ ok stored
unfolding create_once reserve find_row add_child validate_note valid_note_type find_child
    validate_link belongs_to append_change is_recorded bytes flatten_runes encode_rune add_valid
    find_live has_clash
retry_answers = refl

-- ===== src/Tests/Feeds.antt =====
-- Pages and cursors of the feed.
use cv_agent.Base.{
  ℕ, ◌*◌, ◌<◌, ◌≤◌, ◌≡◌, ◌≢◌, refl, ap, ◌⊎◌, String, Bool, true, false, none, some, List, [], ◌∷◌,
  ◌++◌, pos, ◌==◌, str_eq, bytes, encode_rune, flatten_runes, if◌then◌else◌, arith, length,
}
use cv_agent.Db.{ok, err}
use cv_agent.Sync.Operations.{second}
use cv_agent.Sync.Changes.{upsert, Change, ChangeRow, select_after, list_after}
use cv_agent.Sync.Feed.{cursor_invalid, Projection, Page, to_projected_change}
use cv_agent.Sync.Bootstrap.{BootstrapProjector, bootstrap}
use cv_agent.Sync.Cursor.{CursorCodec, CursorPayload, token_of, encode_pull, decode_pull}
use cv_agent.Sync.Cursor.RoundTrip.{decode_pull-encode_pull, decode_pull-other_user}
use cv_agent.Sync.Pull.{page_after, collapse, latest, sort_by_sequence, insert_by_sequence, has_key}
use cv_agent.Sync.Pull.Select.{AreAscending}
use cv_agent.Sync.Pull.Pages.{page_continues}
use cv_agent.Sync.Pull.Drain.{last_row, drain, drain-last_row}

abbrev change : String → Change
change user = record {
  user_id = user;
  entity_type = "application";
  entity_id = "a";
  entity_version = pos 1;
  operation = upsert;
  changed_at = 5;
}

abbrev at : ℕ → ChangeRow
at n = record { sequence = n; change = change "u" }

abbrev rows : List ChangeRow
rows =
    record { sequence = 2; change = change "u" }
    ∷ record { sequence = 3; change = change "v" }
    ∷ record { sequence = 5; change = change "u" }
    ∷ record { sequence = 8; change = change "u" }
    ∷ []

rows-AreAscending : AreAscending rows
rows-AreAscending = (
  (omega arith, (omega arith, (omega arith, tt))),
  ((omega arith, (omega arith, tt)), ((omega arith, tt), (tt, tt))),
)

page_continues_example :
    let s = page_after "u" 2 1 rows in
    (s.keys ++ select_after "u" s.next_position rows ≡ select_after "u" 2 rows)
    × (((s.has_more ≡ true) × (2 < s.next_position))
        ⊎ ((s.has_more ≡ false) × (select_after "u" s.next_position rows ≡ [])))
page_continues_example = page_continues "u" 2 1 rows rows-AreAscending (omega arith)

few : length (select_after "u" 0 rows) ≤ 3
unfolding select_after
few = omega arith

-- The application has two changes on the first page, of which one is hydrated.
drain-last_row_example :
    last_row "application" "a" (drain 4 "u" 0 2 rows)
    ≡ last_row "application" "a" (select_after "u" 0 rows)
drain-last_row_example =
    drain-last_row "application" "a" 3 "u" 0 2 rows rows-AreAscending (omega arith) few

collapsed : drain 4 "u" 0 2 rows ≡ at 5 ∷ at 8 ∷ []
unfolding drain page_after collapse latest sort_by_sequence insert_by_sequence has_key select_after
    list_after
collapsed = refl

abbrev payload : CursorPayload
payload = record {
  version = pos 1;
  kind = "pull";
  position = pos 7;
  watermark = pos 0;
  type_index = pos 0;
  last_id = "";
  issued_at = pos 3;
}

abbrev mac_of : List ℕ → String
mac_of [] = "x"
mac_of (b ∷ bs) = if b == b'u' then "su" else "sx"

abbrev codec : CursorCodec
codec = record {
  marshal = λ p. some "p";
  unmarshal = λ s. some payload;
  encode64 = λ s. s;
  decode64 = λ s. some s;
  mac = mac_of;
  max_age = 60 * second;
}

decode_pull-encode_pull_example :
    (encode_pull codec (3 * second) "u" 7 ≡ ok (token_of codec "u" "p"))
    × (decode_pull codec (9 * second) "u" (token_of codec "u" "p") ≡ ok 7)
unfolding bytes encode_rune flatten_runes
decode_pull-encode_pull_example =
    decode_pull-encode_pull codec (3 * second) (9 * second) 7 "u" "p" refl refl refl refl refl refl
      refl refl (omega arith) (omega arith)

-- The names of the two users as bytes, and their messages.
differ : bytes "u" ≢ bytes "v"
unfolding bytes encode_rune flatten_runes
differ p = let q : true ≡ false = ap starts_with_u p in absurd (cc q)
  where
    starts_with_u : List ℕ → Bool
    starts_with_u [] = false
    starts_with_u (b ∷ bs) = b == b'u'

no_collision :
    codec.mac (bytes "u" ++ (0 ∷ bytes "p")) ≡ codec.mac (bytes "v" ++ (0 ∷ bytes "p"))
    → bytes "u" ++ (0 ∷ bytes "p") ≡ bytes "v" ++ (0 ∷ bytes "p")
unfolding bytes encode_rune flatten_runes
no_collision p = let q : true ≡ false = ap (str_eq "su") p in absurd (cc q)

decode_pull-other_user_example :
    decode_pull codec (9 * second) "v" (token_of codec "u" "p") ≡ err cursor_invalid
unfolding bytes encode_rune flatten_runes
decode_pull-other_user_example =
    decode_pull-other_user codec (3 * second) (9 * second) 7 "u" "p" refl refl refl refl refl refl
      refl refl "v" differ no_collision

abbrev note : Projection String
note = record {
  entity_type = "note";
  entity_id = "n1";
  entity_version = pos 1;
  updated_at = 4;
  deleted_at = none;
  payload = "{}";
}

-- A projector without items, and one that has more than a page.
abbrev projectors : List (BootstrapProjector String)
projectors =
    record {
      entity_type = "empty";
      bootstrap = λ user last n. some (record { items = []; has_more = false });
    }
    ∷ record {
      entity_type = "note";
      bootstrap = λ user last n. some (record { items = note ∷ []; has_more = true });
    }
    ∷ []

abbrev first_page : Page String
first_page = record {
  changes = to_projected_change (λ t. "") note ∷ [];
  next_cursor = "p.su";
  has_more = true;
  server_time = 9;
}

-- ===== src/Sync/Cursor.antt =====
-- internal/modules/sync/cursor.go: signed cursors that are bound to a user.
pub mod RoundTrip
use Prim.Native.Char.{code}
use cv_agent.Base.{
  ℕ, ◌+◌, ◌-◌, ◌*◌, ◌/◌, suc, String, Bool, true, false, not, ◌&&◌, ◌||◌, Option, none, some, List,
  [], ◌∷◌, ◌++◌, ℤ, pos, negsuc, is_negative, eqb_ℤ, is_empty, str_eq, bytes, ltb, ◌==◌,
  if◌then◌else◌,
}
use cv_agent.Db.{Result, ok, err}
use cv_agent.Sync.Operations.{second}
use cv_agent.Sync.Feed.{FeedError, cursor_invalid, cursor_expired, bootstrap_needed, backend}

pub record CursorPayload : Type 0 where
  pub version : ℤ
  pub kind : String
  pub position : ℤ
  pub watermark : ℤ
  pub type_index : ℤ
  pub last_id : String
  pub issued_at : ℤ

-- encoding/json, encoding/base64 (RawURLEncoding) and crypto/hmac with crypto/sha256 under the
-- codec's key; `none` is an error.
pub record CursorCodec : Type 0 where
  pub marshal : CursorPayload → Option String
  pub unmarshal : String → Option CursorPayload
  pub encode64 : String → String
  pub decode64 : String → Option String
  pub mac : List ℕ → String
  pub max_age : ℕ

abbrev pub is_dot : ℕ → Bool
is_dot c = c == 46

abbrev pub append : String → String → String
append String.[] t = t
append (String.◌∷◌ c s) t = String.◌∷◌ c (append s t)

abbrev pub contains_dot : String → Bool
contains_dot String.[] = false
contains_dot (String.◌∷◌ c s) = is_dot (code c) || contains_dot s

-- `strings.Cut(token, ".")`; `none` where there is no dot.
unfoldable pub cut : String → Option (String × String)
cut String.[] = none
cut (String.◌∷◌ c s) =
    let later = cut s in
    if is_dot (code c)
    then some (String.[], s)
    else elim later [ none ↦ none | some p ↦ some (String.◌∷◌ c p.0, p.1) ]

module _ (k : CursorCodec) where
  -- `signature`: the user, a zero byte and the body.
  abbrev pub signature : String → String → String
  signature user body = k.mac (bytes user ++ (0 ∷ bytes body))

  abbrev pub token_of : String → String → String
  token_of user body = append body (append "." (k.encode64 (signature user body)))

  unfoldable pub encode : String → CursorPayload → Result FeedError String
  encode user p = elim (k.marshal p) [
    | none ↦ err backend
    | some raw ↦ ok (token_of user (k.encode64 raw))
  ]

  -- The checks on the age; `now` is in nanoseconds, `issued_at` in seconds.
  unfoldable pub check_age : ℕ → CursorPayload → ℤ → Result FeedError CursorPayload
  check_age now p (pos s) =
      if ltb (now + 300 * second) (s * second)
      then err cursor_invalid
      else if ltb k.max_age (now - s * second)
      then err cursor_expired
      else ok p
  check_age now p (negsuc s) =
      if ltb k.max_age (now + suc s * second) then err cursor_expired else ok p

  abbrev pub check_payload : ℕ → Option CursorPayload → Result FeedError CursorPayload
  check_payload now none = err cursor_invalid
  check_payload now (some p) =
      if not (eqb_ℤ p.version (pos 1)) then err cursor_invalid else check_age now p p.issued_at

  abbrev pub check_body : ℕ → Option String → Result FeedError CursorPayload
  check_body now none = err cursor_invalid
  check_body now (some raw) = check_payload now (k.unmarshal raw)

  abbrev pub check_signature : ℕ → String → String → Option String → Result FeedError CursorPayload
  check_signature now user body none = err cursor_invalid
  check_signature now user body (some given) =
      if not (str_eq given (signature user body))
      then err cursor_invalid
      else check_body now (k.decode64 body)

  abbrev pub check_parts : ℕ → String → Option (String × String) → Result FeedError CursorPayload
  check_parts now user none = err cursor_invalid
  check_parts now user (some (body, sig)) =
      if is_empty body || is_empty sig || contains_dot sig
      then err cursor_invalid
      else check_signature now user body (k.decode64 sig)

  unfoldable pub decode : ℕ → String → String → Result FeedError CursorPayload
  unfolding cut check_age
  decode now user token = check_parts now user (cut token)

  abbrev pub pull_payload : ℕ → ℕ → CursorPayload
  pull_payload now position = record {
    version = pos 1;
    kind = "pull";
    position = pos position;
    watermark = pos 0;
    type_index = pos 0;
    last_id = "";
    issued_at = pos (now / second);
  }

  -- `EncodePull`
  unfoldable pub encode_pull : ℕ → String → ℕ → Result FeedError String
  unfolding encode
  encode_pull now user position = encode user (pull_payload now position)

  abbrev pub pull_position : CursorPayload → ℤ → Result FeedError ℕ
  pull_position p (negsuc n) = err cursor_invalid
  pull_position p (pos n) = if not (str_eq p.kind "pull") then err cursor_invalid else ok n

  abbrev pub pull_of : Result FeedError CursorPayload → Result FeedError ℕ
  pull_of (err e) = err e
  pull_of (ok p) = pull_position p p.position

  -- `DecodePull`
  unfoldable pub decode_pull : ℕ → String → String → Result FeedError ℕ
  unfolding decode
  decode_pull now user token =
      if is_empty token then err bootstrap_needed else pull_of (decode now user token)

  abbrev pub boot_payload : ℕ → ℕ → ℕ → String → CursorPayload
  boot_payload now watermark index last = record {
    version = pos 1;
    kind = "bootstrap";
    position = pos 0;
    watermark = pos watermark;
    type_index = pos index;
    last_id = last;
    issued_at = pos (now / second);
  }

  -- `EncodeBootstrap`
  unfoldable pub encode_bootstrap : ℕ → String → ℕ → ℕ → String → Result FeedError String
  unfolding encode
  encode_bootstrap now user watermark index last =
      encode user (boot_payload now watermark index last)

  abbrev pub boot_position : CursorPayload → ℤ → ℤ → Result FeedError (ℕ × ℕ × String)
  boot_position p (pos w) (pos i) =
      if not (str_eq p.kind "bootstrap") then err cursor_invalid else ok (w, i, p.last_id)
  boot_position p _ _ = err cursor_invalid

  abbrev pub boot_of : Result FeedError CursorPayload → Result FeedError (ℕ × ℕ × String)
  boot_of (err e) = err e
  boot_of (ok p) = boot_position p p.watermark p.type_index

  -- `DecodeBootstrap`
  unfoldable pub decode_bootstrap : ℕ → String → String → Result FeedError (ℕ × ℕ × String)
  unfolding decode
  decode_bootstrap now user token = boot_of (decode now user token)

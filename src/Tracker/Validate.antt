-- ===== src/Tracker/Validate.antt =====
-- internal/modules/tracker/domain/validate.go, with `checkOptional` of interview.go.
-- `Validate() error` is `none` for nil.
use cv_agent.Base.{
  ℕ, String, Bool, true, false, not, ◌&&◌, ◌||◌, Option, none, some, List, [], ◌∷◌, below_one,
  codes, rune_count, leb, ◌==◌, if◌then◌else◌,
}
use cv_agent.Platform.Id.{is_uuid}
use cv_agent.Tracker.Domain.{Error, invalid_input, Create, Update, Transition}
use cv_agent.Tracker.StateMachine.{valid_status, valid_delivery_method, valid_source}

abbrev pub max_name : ℕ
max_name = 240

abbrev pub max_target_url : ℕ
max_target_url = 4096

abbrev pub max_text : ℕ
max_text = 20000

abbrev is_lower_hex : ℕ → Bool
is_lower_hex c = (leb b'0' c && leb c b'9') || (leb b'a' c && leb c b'f')

abbrev all_lower_hex : List ℕ → Bool
all_lower_hex [] = true
all_lower_hex (c ∷ cs) = is_lower_hex c && all_lower_hex cs

-- `hashPattern`: ^[0-9a-f]{64}$
unfoldable pub is_hash : String → Bool
is_hash s = rune_count s == 64 && all_lower_hex (codes s)

unfoldable pub valid_name : String → Bool
valid_name s = leb 1 (rune_count s) && leb (rune_count s) max_name

unfoldable pub check_optional : Option String → ℕ → Bool
check_optional none limit = true
check_optional (some s) limit = leb (rune_count s) limit

abbrev pub check_url : Option String → Bool
check_url v = check_optional v max_target_url

abbrev pub check_text : Option String → Bool
check_text v = check_optional v max_text

unfoldable pub check_hash : Option String → Bool
check_hash none = true
check_hash (some s) = is_hash s

abbrev pub is_some {ℓ} : {A : Type ℓ} → Option A → Bool
is_some none = false
is_some (some _) = true

unfoldable pub validate_create : Create → Option Error
validate_create c =
    if not (valid_name c.company_name) || not (valid_name c.role_name)
    then some invalid_input
    else if not (valid_delivery_method c.delivery_method) || not (valid_source c.source)
    then some invalid_input
    else if not c.pending_confirmation && not (is_some c.applied_at)
    then some invalid_input
    else if not (check_url c.target_url)
    then some invalid_input
    else if not (check_hash c.dedupe_key)
    then some invalid_input
    else if not (check_hash c.resume_content_hash_snapshot)
    then some invalid_input
    else if not (is_some c.resume_id) && is_some c.resume_content_hash_snapshot
    then some invalid_input
    else if not (check_text c.company_business)
        || not (check_text c.role_summary)
        || not (check_text c.company_culture)
    then some invalid_input
    else none

unfoldable pub validate_update : Update → Option Error
validate_update u =
    if below_one u.expected_version
    then some invalid_input
    else if not (valid_name u.company_name) || not (valid_name u.role_name)
    then some invalid_input
    else if not (valid_delivery_method u.delivery_method)
    then some invalid_input
    else if not u.pending_confirmation && not (is_some u.applied_at)
    then some invalid_input
    else if not (check_url u.target_url)
    then some invalid_input
    else if not (check_hash u.resume_content_hash_snapshot)
    then some invalid_input
    else if not (is_some u.resume_id) && is_some u.resume_content_hash_snapshot
    then some invalid_input
    else if not (check_text u.company_business)
        || not (check_text u.role_summary)
        || not (check_text u.company_culture)
        || not (check_text u.rejection_reason)
    then some invalid_input
    else none

unfoldable pub validate_transition : Transition → Option Error
validate_transition t =
    if below_one t.expected_version || not (is_uuid t.operation_id)
    then some invalid_input
    else if not (valid_status t.to_status)
    then some invalid_input
    else if not (check_text t.reason)
    then some invalid_input
    else none

-- ===== src/Tracker/SyncAdapter/Payloads.antt =====
-- internal/modules/tracker/syncadapter/application_commands.go and the application payload of
-- payloads.go: what comes in a push command and what goes back.
use cv_agent.Base.{ℕ, String, Bool, Option, none, some, ℤ, str_eq, if◌then◌else◌}
use cv_agent.Tracker.Domain.{
  Status, applied, screening, interviewing, offer, rejected, no_response, DeliveryMethod, Source,
  Application, Create, Update, Transition,
}

-- The conversions of a text to a named string type.
pub status_of : String → Status
status_of s =
    if str_eq s "applied"
    then applied
    else if str_eq s "screening"
    then screening
    else if str_eq s "interviewing"
    then interviewing
    else if str_eq s "offer"
    then offer
    else if str_eq s "rejected"
    then rejected
    else if str_eq s "no_response"
    then no_response
    else Status.unknown s

pub status_text : Status → String
status_text applied = "applied"
status_text screening = "screening"
status_text interviewing = "interviewing"
status_text offer = "offer"
status_text rejected = "rejected"
status_text no_response = "no_response"
status_text (Status.unknown s) = s

pub delivery_of : String → DeliveryMethod
delivery_of s =
    if str_eq s "form_fill"
    then DeliveryMethod.form_fill
    else if str_eq s "email_fill"
    then DeliveryMethod.email_fill
    else if str_eq s "manual"
    then DeliveryMethod.manual
    else if str_eq s "other"
    then DeliveryMethod.other
    else DeliveryMethod.unknown s

pub delivery_text : DeliveryMethod → String
delivery_text DeliveryMethod.form_fill = "form_fill"
delivery_text DeliveryMethod.email_fill = "email_fill"
delivery_text DeliveryMethod.manual = "manual"
delivery_text DeliveryMethod.other = "other"
delivery_text (DeliveryMethod.unknown s) = s

pub source_of : String → Source
source_of s =
    if str_eq s "manual"
    then Source.manual
    else if str_eq s "browser"
    then Source.browser
    else if str_eq s "email"
    then Source.email
    else if str_eq s "other"
    then Source.other
    else Source.unknown s

pub source_text : Source → String
source_text Source.manual = "manual"
source_text Source.browser = "browser"
source_text Source.email = "email"
source_text Source.other = "other"
source_text (Source.unknown s) = s

pub record CreateCommand : Type 0 where
  pub jd_id : Option String
  pub resume_id : Option String
  pub company_name : String
  pub role_name : String
  pub jd_title_snapshot : Option String
  pub resume_title_snapshot : Option String
  pub resume_content_hash_snapshot : Option String
  pub delivery_method : String
  pub target_url : Option String
  pub applied_at : Option ℕ
  pub pending_confirmation : Bool
  pub source : String
  pub dedupe_key : Option String
  pub company_business : Option String
  pub role_summary : Option String
  pub company_culture : Option String

-- `toDomain`, with the identifier that `applyCreate` sets.
unfoldable pub create_of : CreateCommand → String → Create
unfolding delivery_of source_of
create_of c id = record {
  id = id;
  jd_id = c.jd_id;
  resume_id = c.resume_id;
  company_name = c.company_name;
  role_name = c.role_name;
  jd_title_snapshot = c.jd_title_snapshot;
  resume_title_snapshot = c.resume_title_snapshot;
  resume_content_hash_snapshot = c.resume_content_hash_snapshot;
  delivery_method = delivery_of c.delivery_method;
  target_url = c.target_url;
  applied_at = c.applied_at;
  pending_confirmation = c.pending_confirmation;
  source = source_of c.source;
  dedupe_key = c.dedupe_key;
  company_business = c.company_business;
  role_summary = c.role_summary;
  company_culture = c.company_culture;
}

pub record UpdateCommand : Type 0 where
  pub jd_id : Option String
  pub resume_id : Option String
  pub resume_content_hash_snapshot : Option String
  pub company_name : String
  pub role_name : String
  pub delivery_method : String
  pub target_url : Option String
  pub applied_at : Option ℕ
  pub pending_confirmation : Bool
  pub company_business : Option String
  pub role_summary : Option String
  pub company_culture : Option String
  pub rejection_reason : Option String

unfoldable pub update_of : UpdateCommand → ℤ → Update
unfolding delivery_of
update_of c version = record {
  expected_version = version;
  jd_id = c.jd_id;
  resume_id = c.resume_id;
  resume_content_hash_snapshot = c.resume_content_hash_snapshot;
  company_name = c.company_name;
  role_name = c.role_name;
  delivery_method = delivery_of c.delivery_method;
  target_url = c.target_url;
  applied_at = c.applied_at;
  pending_confirmation = c.pending_confirmation;
  company_business = c.company_business;
  role_summary = c.role_summary;
  company_culture = c.company_culture;
  rejection_reason = c.rejection_reason;
}

pub record TransitionCommand : Type 0 where
  pub to_status : String
  pub occurred_at : Option ℕ
  pub reason : Option String

unfoldable pub transition_of : TransitionCommand → ℤ → String → Transition
unfolding status_of
transition_of c version operation = record {
  to_status = status_of c.to_status;
  expected_version = version;
  occurred_at = elim c.occurred_at [ none ↦ 0 | some t ↦ t ];
  reason = c.reason;
  operation_id = operation;
}

pub record ApplicationPayload : Type 0 where
  pub id : String
  pub jd_id : Option String
  pub resume_id : Option String
  pub company_name : String
  pub role_name : String
  pub jd_title_snapshot : Option String
  pub resume_title_snapshot : Option String
  pub resume_content_hash_snapshot : Option String
  pub delivery_method : String
  pub target_url : Option String
  pub applied_at : Option String
  pub status : String
  pub pending_confirmation : Bool
  pub source : String
  pub dedupe_key : Option String
  pub company_business : Option String
  pub role_summary : Option String
  pub company_culture : Option String
  pub rejection_reason : Option String
  pub entity_version : ℤ
  pub created_at : String
  pub updated_at : String

-- The strict JSON decoding of `decodePayload` (encoding/json; `none` is its error), and the
-- RFC 3339 text of an instant in UTC (time).
pub record Formats : Type 0 where
  pub decode_create : String → Option CreateCommand
  pub decode_update : String → Option UpdateCommand
  pub decode_transition : String → Option TransitionCommand
  pub rfc3339 : ℕ → String

-- `applicationPayloadOf`.
unfoldable pub payload_of : Formats → Application → ApplicationPayload
unfolding delivery_text status_text source_text
payload_of f a = record {
  id = a.id;
  jd_id = a.jd_id;
  resume_id = a.resume_id;
  company_name = a.company_name;
  role_name = a.role_name;
  jd_title_snapshot = a.jd_title_snapshot;
  resume_title_snapshot = a.resume_title_snapshot;
  resume_content_hash_snapshot = a.resume_content_hash_snapshot;
  delivery_method = delivery_text a.delivery_method;
  target_url = a.target_url;
  applied_at = elim a.applied_at [ none ↦ none | some t ↦ some (f.rfc3339 t) ];
  status = status_text a.status;
  pending_confirmation = a.pending_confirmation;
  source = source_text a.source;
  dedupe_key = a.dedupe_key;
  company_business = a.company_business;
  role_summary = a.role_summary;
  company_culture = a.company_culture;
  rejection_reason = a.rejection_reason;
  entity_version = a.entity_version;
  created_at = f.rfc3339 a.created_at;
  updated_at = f.rfc3339 a.updated_at;
}

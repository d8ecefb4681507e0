-- ===== src/Tracker/Domain.antt =====
-- internal/modules/tracker/domain/application.go, interview.go, reminder.go and note.go: the
-- types. An instant is a number of nanoseconds since the zero time of Go; a named string type is a
-- data type with its constants, and a constructor for any other text.
use cv_agent.Base.{ℕ, ◌≡◌, refl, str_eq_self, String, Bool, true, false, Option, ℤ, str_eq}

pub data Error : Type 0 where
  not_found version_conflict invalid_input illegal_transition round_conflict : Error
  operation_reused duplicate : Error
  -- Any error of the database or of the platform.
  internal : Error

pub data Status : Type 0 where
  applied screening interviewing offer rejected no_response : Status
  unknown : String → Status

abbrev pub eqb_status : Status → Status → Bool
eqb_status applied applied = true
eqb_status screening screening = true
eqb_status interviewing interviewing = true
eqb_status offer offer = true
eqb_status rejected rejected = true
eqb_status no_response no_response = true
eqb_status (unknown s) (unknown t) = str_eq s t
eqb_status _ _ = false

pub eqb_status_self : (s : Status) → eqb_status s s ≡ true
eqb_status_self (Status.unknown t) = str_eq_self t
eqb_status_self applied = refl
eqb_status_self _ = refl

pub data DeliveryMethod : Type 0 where
  form_fill email_fill manual other : DeliveryMethod
  unknown : String → DeliveryMethod

pub data Source : Type 0 where
  manual browser email other : Source
  unknown : String → Source

pub record Application : Type 0 where
  pub id : String
  pub user_id : String
  pub entity_version : ℤ
  pub created_at : ℕ
  pub updated_at : ℕ
  pub deleted_at : Option ℕ
  pub last_modified_device_id : Option String
  pub jd_id : Option String
  pub resume_id : Option String
  pub company_name : String
  pub role_name : String
  pub jd_title_snapshot : Option String
  pub resume_title_snapshot : Option String
  pub resume_content_hash_snapshot : Option String
  pub delivery_method : DeliveryMethod
  pub target_url : Option String
  pub applied_at : Option ℕ
  pub status : Status
  pub pending_confirmation : Bool
  pub source : Source
  pub dedupe_key : Option String
  pub company_business : Option String
  pub role_summary : Option String
  pub company_culture : Option String
  pub rejection_reason : Option String

pub record Create : Type 0 where
  pub id : String
  pub jd_id : Option String
  pub resume_id : Option String
  pub company_name : String
  pub role_name : String
  pub jd_title_snapshot : Option String
  pub resume_title_snapshot : Option String
  pub resume_content_hash_snapshot : Option String
  pub delivery_method : DeliveryMethod
  pub target_url : Option String
  pub applied_at : Option ℕ
  pub pending_confirmation : Bool
  pub source : Source
  pub dedupe_key : Option String
  pub company_business : Option String
  pub role_summary : Option String
  pub company_culture : Option String

pub record Update : Type 0 where
  pub expected_version : ℤ
  pub jd_id : Option String
  pub resume_id : Option String
  pub resume_content_hash_snapshot : Option String
  pub company_name : String
  pub role_name : String
  pub delivery_method : DeliveryMethod
  pub target_url : Option String
  pub applied_at : Option ℕ
  pub pending_confirmation : Bool
  pub company_business : Option String
  pub role_summary : Option String
  pub company_culture : Option String
  pub rejection_reason : Option String

pub record Transition : Type 0 where
  pub to_status : Status
  pub expected_version : ℤ
  -- 0 is the zero time.
  pub occurred_at : ℕ
  pub reason : Option String
  pub operation_id : String

pub record StatusEvent : Type 0 where
  pub id : String
  pub user_id : String
  pub application_id : String
  pub from_status : Option Status
  pub to_status : Status
  pub reason : Option String
  pub occurred_at : ℕ
  pub created_by_device : Option String
  pub operation_id : String
  pub created_at : ℕ

-- The fields that the three kinds of children share.
pub record ChildMeta : Type 0 where
  pub id : String
  pub user_id : String
  pub entity_version : ℤ
  pub created_at : ℕ
  pub updated_at : ℕ
  pub deleted_at : Option ℕ
  pub last_modified_device_id : Option String
  pub application_id : String

pub data InterviewType : Type 0 where
  phone video onsite hr technical case_study other : InterviewType
  unknown : String → InterviewType

pub data InterviewStatus : Type 0 where
  scheduled completed canceled : InterviewStatus
  unknown : String → InterviewStatus

pub record InterviewRound : Type 0 where
  pub base : ChildMeta
  pub open base use *
  pub round_number : ℤ
  pub interview_type : InterviewType
  pub scheduled_at : Option ℕ
  pub timezone : String
  pub duration_minutes : Option ℤ
  pub location_or_link : Option String
  pub interviewer : Option String
  pub status : InterviewStatus

pub record InterviewWrite : Type 0 where
  pub id : String
  pub expected_version : Option ℤ
  pub round_number : ℤ
  pub interview_type : InterviewType
  pub scheduled_at : Option ℕ
  pub timezone : String
  pub duration_minutes : Option ℤ
  pub location_or_link : Option String
  pub interviewer : Option String
  pub status : InterviewStatus

pub data NoteType : Type 0 where
  general interview follow_up company : NoteType
  unknown : String → NoteType

pub record Note : Type 0 where
  pub base : ChildMeta
  pub open base use *
  pub interview_round_id : Option String
  pub note_type : NoteType
  pub content : String

pub record NoteWrite : Type 0 where
  pub id : String
  pub expected_version : Option ℤ
  pub interview_round_id : Option String
  pub note_type : NoteType
  pub content : String

pub data ReminderStatus : Type 0 where
  scheduled delivered dismissed canceled : ReminderStatus
  unknown : String → ReminderStatus

pub record Reminder : Type 0 where
  pub base : ChildMeta
  pub open base use *
  pub interview_round_id : Option String
  pub title : String
  pub remind_at : ℕ
  pub status : ReminderStatus
  pub delivered_at : Option ℕ

pub record ReminderWrite : Type 0 where
  pub id : String
  pub expected_version : Option ℤ
  pub application_id : String
  pub interview_round_id : Option String
  pub title : String
  pub remind_at : ℕ
  pub status : ReminderStatus
  pub delivered_at : Option ℕ

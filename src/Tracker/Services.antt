-- ===== src/Tracker/Services.antt =====
-- The methods of internal/modules/tracker/application that begin a transaction of their own:
-- Create, Update, Replace, Delete and Transition of the four services, with Get. `Rollback` of a
-- transaction that was not committed is what the pool does with a body that fails.
pub mod Retried
use mathlib.Core.Option
use cv_agent.Base.{
  ℕ, String, Bool, true, false, Option, none, some, List, ℤ, ◌⊎◌, inl, inr, is_empty, str_eq,
  if◌then◌else◌,
}
use cv_agent.Db.{Result, ok, err, Tx, M, ◌>>=◌, ◌>>◌, pure, fail, query, or_fail}
use cv_agent.Db.Pool.{P, ◌>=>◌, answer, statement}
use cv_agent.Sync.Changes.{
  type_application, type_interview_round, type_application_note, type_reminder,
}
use cv_agent.Platform.Idempotency.{IdempotencyError, KeyRow, KeyCommand, Reservation, reserve}
use cv_agent.Tracker.Domain.{
  Error, not_found, internal, Application, Create, Update, Transition, InterviewRound,
  InterviewWrite, Note, NoteWrite, Reminder, ReminderWrite,
}
use cv_agent.Tracker.Store.{Store, Act, find_live}
use cv_agent.Tracker.Application.{
  Env, create_in_tx, update_in_tx, delete_in_tx, transition_in_tx, without_user,
}
use cv_agent.Tracker.Children.{Kind, find_child}
use cv_agent.Tracker.Children.Kinds.{
  interviews, notes, reminders, add_interview, replace_interview, remove_interview, add_note,
  replace_note, remove_note, add_reminder, replace_reminder, remove_reminder,
}

-- The tables of the tracker and the rows of the idempotency keys.
pub record Tables : Type 0 where
  pub tracker : Store
  pub keys : List KeyRow

pub data ServiceError : Type 0 where
  of_tracker : Error → ServiceError
  of_key : IdempotencyError → ServiceError
  connection : ServiceError

-- Statements on a part of the tables.
module _ {S T E F A : Type 0} (get : T → S) (put : S → T → T) (raise : E → F) where
  abbrev pub raised : Result E A → Result F A
  raised (ok a) = ok a
  raised (err e) = err (raise e)

  abbrev pub zoom : M S E A → M T F A
  zoom m t =
      let (r, u) = m (record { store = get t.store; budget = t.budget }) in
      (raised r, record { store = put u.store t.store; budget = u.budget })

abbrev pub Body : Type 0 → Type 0
Body A = M Tables ServiceError A

abbrev pub on_tracker : {A : Type 0} → Act A → Body A
on_tracker m = zoom (λ s. s.tracker) (λ x s. record s { tracker = x }) of_tracker m

abbrev pub on_keys : {A : Type 0} → M (List KeyRow) IdempotencyError A → Body A
on_keys m = zoom (λ s. s.keys) (λ x s. record s { keys = x }) of_key m

abbrev pub Method : Type 0 → Type 0
Method A = P Tables ServiceError A

-- A transaction of the method's own: committed if its body returns no error.
abbrev pub in_own_tx : {A : Type 0} → Act A → Method A
in_own_tx m = statement connection (on_tracker m)

-- `FindDetail`, outside a transaction.
abbrev pub find_detail : {A : Type 0} → (Store → Option A) → Method A
find_detail look =
    statement connection
      (do found ← query connection (λ s. look s.tracker); or_fail (of_tracker not_found) found)

-- The row of `FindDetail`: the scan does not read the user, which is unset in the answer.
abbrev pub find_without_user : {A W : Type 0} → Kind A W → String → String → Store → Option A
find_without_user k user id s =
    Option.map (λ x. k.with_base x (record (k.base x) { user_id = "" }))
      (find_child k user id (k.rows s))

-- What `Create` of a service does with its write.
pub record Creation (A W : Type 0) : Type 0 where
  pub resource_type : String
  pub given_id : W → String
  pub with_id : String → W → W
  pub create : W → Act A
  -- `FindDetail` of the user.
  pub look : String → Store → Option A

-- The write's identifier, or a new one.
abbrev pub chosen_id : Option String → String → Option String
chosen_id fresh given = if is_empty given then fresh else some given

-- strings.TrimSpace is a parameter, as in `Reserve`.
module _ (trim_space : String → String) (env : Env) (user device : String) where
  module _ {A W : Type 0} (c : Creation A W) where
    -- After `Reserve`: the identifier to look up, or what was created.
    abbrev pub create_or_replay : W → String → Reservation → Body (String ⊎ A)
    create_or_replay w id r =
        if r.replay
        then pure (inl r.resource_id)
        else on_tracker (c.create (c.with_id id w)) >>= λ a. pure (inr a)

    abbrev pub reserve_and_create : W → KeyCommand → String → Body (String ⊎ A)
    reserve_and_create w command id = do
      r ← on_keys (reserve trim_space user c.resource_type id command env.now)
      create_or_replay w id r

    -- `Create` up to its commit.
    abbrev pub create_body : W → KeyCommand → Body (String ⊎ A)
    create_body w command = do
      id ← or_fail (of_tracker internal) (chosen_id env.fresh_id (c.given_id w))
      reserve_and_create w command id

    -- The answer, after the commit.
    abbrev pub created_answer : String ⊎ A → Method A
    created_answer (inl id) = find_detail (c.look id)
    created_answer (inr a) = answer (ok a)

    -- `Create`.
    unfoldable pub create_once : W → KeyCommand → Method A
    create_once w command = statement connection (create_body w command) >=> created_answer

  abbrev pub application_creation : Creation Application Create
  application_creation = record {
    resource_type = type_application;
    given_id = λ w. w.id;
    with_id = λ id w. record w { id = id };
    create = create_in_tx env user device;
    look = λ id s. Option.map without_user (find_live user id s.applications);
  }

  abbrev pub interview_creation : String → Creation InterviewRound InterviewWrite
  interview_creation app = record {
    resource_type = type_interview_round;
    given_id = λ w. w.id;
    with_id = λ id w. record w { id = id };
    create = add_interview env user device app;
    look = find_without_user interviews user;
  }

  abbrev pub note_creation : String → Creation Note NoteWrite
  note_creation app = record {
    resource_type = type_application_note;
    given_id = λ w. w.id;
    with_id = λ id w. record w { id = id };
    create = add_note env user device app;
    look = find_without_user notes user;
  }

  abbrev pub reminder_creation : Creation Reminder ReminderWrite
  reminder_creation = record {
    resource_type = type_reminder;
    given_id = λ w. w.id;
    with_id = λ id w. record w { id = id };
    create = add_reminder env user device;
    look = find_without_user reminders user;
  }

  -- `ApplicationService.Create`, `InterviewService.Create`, `NoteService.Create` and
  -- `ReminderService.Create`.
  abbrev pub create_application : Create → KeyCommand → Method Application
  create_application = create_once application_creation

  abbrev pub create_interview : String → InterviewWrite → KeyCommand → Method InterviewRound
  create_interview app = create_once (interview_creation app)

  abbrev pub create_note : String → NoteWrite → KeyCommand → Method Note
  create_note app = create_once (note_creation app)

  abbrev pub create_reminder : ReminderWrite → KeyCommand → Method Reminder
  create_reminder = create_once reminder_creation

module _ (env : Env) (user device : String) where
  -- `ApplicationService.Update`, `Delete` and `Transition`.
  abbrev pub update_application : String → Update → Method Application
  update_application app u = in_own_tx (update_in_tx env user device app u)

  abbrev pub delete_application : String → ℤ → Method Application
  delete_application app v = in_own_tx (delete_in_tx env user device app v)

  abbrev pub transition_application : String → Transition → Method Application
  transition_application app x = in_own_tx (transition_in_tx env user device app x)

  -- `Get` of the services of interview rounds and notes: a child of another application is not there.
  abbrev pub get_child : {A W : Type 0} → Kind A W → String → String → Method A
  get_child k app id = find_detail (find_without_user k user id) >=> λ x.
      if str_eq (k.base x).application_id app
      then answer (ok x)
      else answer (err (of_tracker not_found))

  -- `InterviewService.Replace` and `Delete`, `NoteService.Replace` and `Delete`.
  abbrev pub update_interview : String → String → InterviewWrite → Method InterviewRound
  update_interview app id w =
      get_child interviews app id >=> λ x. in_own_tx (replace_interview env user device id w)

  abbrev pub delete_interview : String → String → ℤ → Method InterviewRound
  delete_interview app id v =
      get_child interviews app id >=> λ x. in_own_tx (remove_interview env user device id v)

  abbrev pub update_note : String → String → NoteWrite → Method Note
  update_note app id w =
      get_child notes app id >=> λ x. in_own_tx (replace_note env user device id w)

  abbrev pub delete_note : String → String → ℤ → Method Note
  delete_note app id v =
      get_child notes app id >=> λ x. in_own_tx (remove_note env user device id v)

  -- `ReminderService.Replace` and `Delete`.
  abbrev pub update_reminder : String → ReminderWrite → Method Reminder
  update_reminder id w = in_own_tx (replace_reminder env user device id w)

  abbrev pub delete_reminder : String → ℤ → Method Reminder
  delete_reminder id v = in_own_tx (remove_reminder env user device id v)

-- ===== src/Tracker/Children/Clean.antt =====
-- Failed commands on a child (internal/modules/tracker/application/interview_service.go,
-- interview_write.go and the like for notes and reminders).
use cv_agent.Tracker.Children.Validate.{validate_reminder}
use cv_agent.Base.{not, is_empty, String, Option, none, some, ℤ, arith}
use cv_agent.Db.{Result, ok, err, or_fail}
use cv_agent.Db.Clean.{
  Reads, IsClean, Reads-pure, Reads-fail, Reads-query, Aborts-pure, Aborts-exec, Reads-IsClean,
  Aborts-IsClean, Reads-bind, Aborts-bind, IsClean-bind_Reads, IsClean-bind_Aborts,
}
use cv_agent.Tracker.Domain.{Error, invalid_input, ReminderWrite}
use cv_agent.Tracker.Store.{Store}
use cv_agent.Tracker.Application.{Env}
use cv_agent.Tracker.Application.Clean.{Reads-require, Reads-choose_id}
use cv_agent.Tracker.Children.{
  Kind, validate_link, validated, application_exists, load_child, insert_child, rewrite_table,
  add_valid, add_child, replace_child, remove_child,
}
use cv_agent.Tracker.Children.Kinds.{add_reminder, reminders}

Reads-validated : {W : Type 0} (r : Result Error W) → Reads (validated r)
Reads-validated (ok w) = Reads-pure w
Reads-validated (err e) = Reads-fail e

Reads-link : (user app : String) (link : Option String) → Reads (validate_link user app link)
unfolding validate_link
Reads-link user app none = Reads-pure tt
Reads-link user app (some round) = record { at = λ t. ground arith }

Reads-exists : (user app : String) → Reads (application_exists user app)
Reads-exists user app = record { at = λ t. ground arith }

Reads-given : {A : Type 0} (e : Error) (o : Option A) → Reads (or_fail {S = Store} e o)
Reads-given e none = Reads-fail e
Reads-given e (some a) = Reads-pure a

module _ {A W : Type 0} (k : Kind A W) where
  Reads-load_child : (user id : String) → Reads (load_child k user id)
  Reads-load_child user id = record { at = λ t. ground arith }

  IsClean-insert_child : (a : A) → IsClean (insert_child k a)
  IsClean-insert_child a = record { at = λ t e h. ground arith }

  IsClean-rewrite_table : (f : A → A) (a : A) → IsClean (rewrite_table k f a)
  IsClean-rewrite_table f a = record { at = λ t e h. ground arith }

  ruleset child_rules = (
    Reads-pure, Reads-fail, Reads-query, Aborts-pure, Aborts-exec, Reads-bind, Aborts-bind,
    IsClean-bind_Reads, IsClean-bind_Aborts, Reads-require, Reads-choose_id, Reads-validated,
    Reads-link, Reads-exists, Reads-given, Reads-load_child, IsClean-insert_child,
    IsClean-rewrite_table, Reads-IsClean, Aborts-IsClean,
  )

  module _ (env : Env) (user device : String) where
    pub add_valid-IsClean : (app : String) (w : W) → IsClean (add_valid k env user device app w)
    unfolding add_valid
    add_valid-IsClean app w = search child_rules depth 14

    pub add_child-IsClean : (app : String) (w : W) → IsClean (add_child k env user device app w)
    unfolding add_child
    add_child-IsClean app w = search (child_rules, add_valid-IsClean) depth 8

    pub replace_child-IsClean :
        (id : String) (w : W) → IsClean (replace_child k env user device id w)
    unfolding replace_child
    replace_child-IsClean id w = search child_rules depth 18

    pub remove_child-IsClean : (id : String) (v : ℤ) → IsClean (remove_child k env user device id v)
    unfolding remove_child
    remove_child-IsClean id v = search child_rules depth 14

pub add_reminder-IsClean :
    (env : Env) (user device : String) (w : ReminderWrite)
    → IsClean (add_reminder env user device w)
unfolding add_reminder
add_reminder-IsClean env user device w =
    IsClean-bind_Reads _ _ (Reads-validated (validate_reminder w)) (λ w'.
      IsClean-bind_Reads _ _ (Reads-require (not (is_empty w'.application_id)) invalid_input)
        (λ x. add_valid-IsClean reminders env user device w'.application_id w'))

-- ===== src/Tracker/Children/Moves.antt =====
-- What a command on a child has done when it returns
-- (internal/modules/tracker/application/interview_service.go, interview_write.go and the like for
-- notes and reminders).
use cv_agent.Base.{
  not, is_empty, ℕ, sym, ap, subst, ◌∙◌, String, ◌≡◌, refl, true, false, Option, some, List, ◌∷◌, ℤ,
  pos, inc64, eqb_ℤ_iff, below_one, false,
}
use cv_agent.Db.{ok, Tx}
use cv_agent.Db.Ensures.{Ensures-or_fail, Ensures, Ensures-bind, Ensures-pure, Ensures-weaken}
use cv_agent.Sync.Changes.{Change, ChangeLog, append_change}
use cv_agent.Tracker.Domain.{invalid_input, ReminderWrite}
use cv_agent.Tracker.Children.Kinds.{reminders, reminders-IsKind, add_reminder}
use cv_agent.Tracker.Children.Validate.{validate_reminder}
use cv_agent.Tracker.Validate.{is_some}
use cv_agent.Tracker.Store.{Store, find_live, change_of}
use cv_agent.Tracker.Application.{Env}
use cv_agent.Tracker.Application.Steps.{Ensures-require, Ensures-record_change}
use cv_agent.Tracker.Children.{
  Kind, IsKind, find_child, has_clash, clash_elsewhere, updated_row, removed_row, created_child,
  replaced_child, removed_child, add_valid, add_child, replace_child, remove_child,
}
use cv_agent.Tracker.Children.Rows.{replace_row, find_child-key}
use cv_agent.Tracker.Children.Steps.{
  LinkHolds, Ensures-link, Ensures-exists, Ensures-choose_id, Ensures-validated, Ensures-load_child,
  Ensures-insert_child, Ensures-rewrite_table, Ensures-update_child,
}

module _ {A W : Type 0} (k : Kind A W) (laws : IsKind k) (env : Env) (user device : String) where
  logged_at :
      (l : List A) (s : Store) (c : Change) {o : Option ChangeLog}
      → append_change c (k.with_rows l s).changes ≡ o
      → append_change c s.changes ≡ o
  logged_at l s c {o} one = subst (λ log. append_change c log ≡ o) (laws.changes-with_rows l s) one

  -- The answer and the tables after a create.
  pub record IsAdded (app : String) (w : W) (before : Store) (id : String) (a : A) (s : Store)
      : Type 0 where
    pub live : is_some (find_live user app before.applications) ≡ true
    pub linked : LinkHolds user app (k.link w) before
    pub made : a ≡ created_child k env user device app w id
    pub clear : has_clash k a (k.rows before) ≡ false
    pub tables : s ≡ record (k.with_rows (a ∷ k.rows before) before) { changes = s.changes }
    pub logged :
        append_change (change_of k.entity_type user id (pos 1) false env.now) before.changes
        ≡ some s.changes

  pub add_valid-IsAdded :
      (app : String) (w : W) (t : Tx Store)
      → Ensures
          (λ a u. (id : String) × IsAdded app w t.store id a u.store)
          (add_valid k env user device app w)
          t
  unfolding add_valid
  add_valid-IsAdded app w t = Ensures-bind (
      Ensures-exists user app t λ n live. Ensures-bind (
        Ensures-link user app (k.link w) _ λ n1 linked. Ensures-bind (
          Ensures-choose_id env.fresh_id (k.given_id w) _ λ id. Ensures-bind (
            Ensures-insert_child k _ _ λ n2 clear. Ensures-bind (
              Ensures-record_change _ _ λ n3 log one. Ensures-pure _ _ (
                id,
                record {
                  live = live;
                  linked = linked;
                  made = refl;
                  clear = clear;
                  tables = refl;
                  logged =
                      logged_at (created_child k env user device app w id ∷ k.rows t.store) t.store
                        _ one;
                },
              ))))))

  abbrev pub Added : String → W → Store → A → Store → Type 0
  Added app w before a s =
      (w' : W) × (k.validate w ≡ ok w') × (id : String) × IsAdded app w' before id a s

  -- A create that returns.
  pub add_child-Added :
      (app : String) (w : W) (t : Tx Store)
      → Ensures (λ a u. Added app w t.store a u.store) (add_child k env user device app w) t
  unfolding add_child
  add_child-Added app w t = Ensures-bind (
      Ensures-validated (k.validate w) t
        λ w' valid. Ensures-weaken (add_valid-IsAdded app w' t) λ b u (id, x). (w', valid, id, x))

  module _ (id : String) (before : Store) where
    -- The answer and the tables after a replacement of the row `current`.
    pub record IsReplaced (w : W) (current a : A) (s : Store) : Type 0 where
      pub expected : k.expected w ≡ some (k.base current).entity_version
      pub linked : LinkHolds user (k.base current).application_id (k.link w) before
      pub answer : a ≡ replaced_child k env user device current w
      pub low : below_one (k.base a).entity_version ≡ false
      pub clear : clash_elsewhere k a (k.rows before) ≡ false
      pub tables :
          s
          ≡ record (k.with_rows (replace_row k (updated_row k a) user id (k.rows before)) before) {
            changes = s.changes;
          }
      pub logged :
          append_change
            (change_of k.entity_type user id (inc64 (k.base current).entity_version) false env.now)
            before.changes
          ≡ some s.changes

    abbrev pub Replaced : W → A → Store → Type 0
    Replaced w a s =
        (w' : W) × (current : A) × (k.validate w ≡ ok w')
        × (find_child k user id (k.rows before) ≡ some current)
        × IsReplaced w' current a s

    -- The answer and the tables after the deletion of the row `current`.
    pub record IsRemoved (current a : A) (s : Store) : Type 0 where
      pub answer : a ≡ removed_child k env user device current
      pub low : below_one (k.base a).entity_version ≡ false
      pub tables :
          s
          ≡ record (k.with_rows (replace_row k (removed_row k a) user id (k.rows before)) before) {
            changes = s.changes;
          }
      pub logged :
          append_change
            (change_of k.entity_type user id (inc64 (k.base current).entity_version) true env.now)
            before.changes
          ≡ some s.changes

    abbrev pub Removed : ℤ → A → Store → Type 0
    Removed expected a s =
        (current : A) × (find_child k user id (k.rows before) ≡ some current)
        × ((k.base current).entity_version ≡ expected)
        × IsRemoved current a s

    pub replace_child_returns :
        (w : W) (n : ℕ)
        → Ensures
            (λ a u. Replaced w a u.store)
            (replace_child k env user device id w)
            (record { store = before; budget = n })
    unfolding replace_child
    replace_child_returns w n0 = Ensures-bind (
        Ensures-validated _ _ λ w' valid. Ensures-bind (
          Ensures-or_fail _ _ _ λ version given. Ensures-bind (
            Ensures-load_child k user id _ λ n current found. Ensures-bind (
              Ensures-require _ _ _ λ same. Ensures-bind (
                Ensures-link user (k.base current).application_id (k.link w') _ λ n1 linked.
                  Ensures-bind (
                    Ensures-update_child k (replaced_child k env user device current w') user id _
                      found
                      (ap (λ m. m.user_id) (laws.base-with_base (k.replace w' current) _)
                        ∙ (find_child-key k user id _ found).0)
                      (ap (λ m. m.id) (laws.base-with_base (k.replace w' current) _)
                        ∙ (find_child-key k user id _ found).1)
                      (ap (λ m. m.entity_version) (laws.base-with_base (k.replace w' current) _))
                      λ n2 low clear. Ensures-bind (
                        Ensures-record_change _ _ λ n3 log one. Ensures-pure _ _ (
                          w',
                          current,
                          valid,
                          found,
                          record {
                            expected =
                                given
                                ∙ ap some (
                                    sym
                                      ((eqb_ℤ_iff (k.base current).entity_version version).0 same));
                            linked = linked;
                            answer = refl;
                            low = low;
                            clear = clear;
                            tables = refl;
                            logged = logged_at _ before _ one;
                          },
                        ))))))))

    pub remove_child_returns :
        (v : ℤ) (n : ℕ)
        → Ensures
            (λ a u. Removed v a u.store)
            (remove_child k env user device id v)
            (record { store = before; budget = n })
    unfolding remove_child
    remove_child_returns v n0 = Ensures-bind (
        Ensures-load_child k user id _ λ n current found. Ensures-bind (
          Ensures-require _ _ _ λ same. Ensures-bind (
            Ensures-rewrite_table k _ _ user id _ found
              (ap (λ m. m.user_id) (laws.base-with_base current _)
                ∙ (find_child-key k user id _ found).0)
              (ap (λ m. m.id) (laws.base-with_base current _)
                ∙ (find_child-key k user id _ found).1)
              (ap (λ m. m.entity_version) (laws.base-with_base current _))
              λ n2 low clear. Ensures-bind (
                Ensures-record_change _ _ λ n3 log one. Ensures-pure _ _ (
                  current,
                  found,
                  (eqb_ℤ_iff (k.base current).entity_version v).0 same,
                  record {
                    answer = refl;
                    low = low;
                    tables = refl;
                    logged = logged_at _ before _ one;
                  },
                )))))

-- A reminder is created for the application that its write names.
pub add_reminder-Added :
    (env : Env) (user device : String) (w : ReminderWrite) (t : Tx Store)
    → Ensures
        (λ a u.
          (w' : ReminderWrite) × (validate_reminder w ≡ ok w')
          × (id : String) × IsAdded reminders reminders-IsKind env user device w'.application_id w'
              t.store id a u.store)
        (add_reminder env user device w)
        t
unfolding add_reminder
add_reminder-Added env user device w t = Ensures-bind (
    Ensures-validated (validate_reminder w) t λ w' valid.
      Ensures-bind {f = λ _. add_valid reminders env user device w'.application_id w'} (
        Ensures-require (not (is_empty w'.application_id)) invalid_input t λ given.
          Ensures-weaken
            (add_valid-IsAdded reminders reminders-IsKind env user device w'.application_id w' t)
            λ b u (id, x). (w', valid, id, x)))

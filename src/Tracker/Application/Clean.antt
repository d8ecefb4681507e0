-- ===== src/Tracker/Application/Clean.antt =====
-- Failed commands on an application
-- (internal/modules/tracker/application).
use cv_agent.Base.{
  ℕ, String, Bool, true, false, Option, none, some, List, [], ◌∷◌, ℤ, ◌≡◌, arith, ◌⊎◌,
}
use cv_agent.Db.{Tx, err}
use cv_agent.Db.Clean.{
  Reads, Aborts, IsClean, Reads-pure, Reads-fail, Reads-query, Aborts-pure, Aborts-exec,
  Reads-IsClean, Aborts-IsClean, Reads-bind, Aborts-bind, IsClean-bind_Reads, IsClean-bind_Aborts,
}
use cv_agent.Tracker.Domain.{Error, Application, Create, Update, Transition, StatusEvent}
use cv_agent.Tracker.Store.{Store, load_for_update, rewrite_application}
use cv_agent.Tracker.Cascade.{soft_delete_children, record_deleted_children, VersionedId}
use cv_agent.Tracker.Application.{
  Lookup, found, missing, failed, Env, check, require, title_of, resolve_title, choose_id,
  resolve_if, create_in_tx, update_in_tx, delete_in_tx, transition_in_tx, move_application,
  repeat_or_move,
}

pub Reads-check : (o : Option Error) → Reads (check o)
Reads-check none = Reads-pure tt
Reads-check (some e) = Reads-fail e

pub Reads-require : (b : Bool) (e : Error) → Reads (require b e)
Reads-require true e = Reads-pure tt
Reads-require false e = Reads-fail e

Reads-title_of : (l : Lookup) → Reads (title_of l)
Reads-title_of (found t) = Reads-pure (some t)
Reads-title_of missing = Reads-fail _
Reads-title_of failed = Reads-fail _

pub Reads-resolve_title :
    (l : String → String → Lookup) (user : String) (id : Option String)
    → Reads (resolve_title l user id)
Reads-resolve_title l user none = Reads-pure none
Reads-resolve_title l user (some i) = Reads-title_of (l user i)

pub Reads-choose_id : (fresh : Option String) (given : String) → Reads (choose_id fresh given)
Reads-choose_id fresh given = record { at = λ t. ground arith }

pub Reads-load : (user id : String) → Reads (load_for_update user id)
Reads-load user id = record { at = λ t. ground arith }

IsClean-rewrite :
    (f : Application → Application) (a : Application) → IsClean (rewrite_application f a)
IsClean-rewrite f a = record { at = λ t e h. ground arith }

ruleset clean_rules = (
  Reads-pure, Reads-fail, Reads-query, Aborts-pure, Aborts-exec, Reads-bind, Aborts-bind,
  IsClean-bind_Reads, IsClean-bind_Aborts, Reads-check, Reads-require, Reads-title_of,
  Reads-resolve_title, Reads-choose_id, Reads-load, IsClean-rewrite, Reads-IsClean, Aborts-IsClean,
)

Aborts-soft_delete_children :
    (user app : String) (device : Option String) (now : ℕ)
    → Aborts (soft_delete_children user app device now)
unfolding soft_delete_children
Aborts-soft_delete_children user app device now = search clean_rules depth 8

Aborts-record_deleted :
    (type user : String) (now : ℕ) (cs : List VersionedId)
    → Aborts (record_deleted_children type user now cs)
unfolding record_deleted_children
Aborts-record_deleted type user now [] = Aborts-pure tt
Aborts-record_deleted type user now (c ∷ cs) =
    Aborts-bind _ _ (Aborts-exec _ _ _) (λ _. Aborts-record_deleted type user now cs)

module _ (env : Env) (user device : String) where
  pub create_in_tx-IsClean : (c : Create) → IsClean (create_in_tx env user device c)
  unfolding create_in_tx
  create_in_tx-IsClean c = search clean_rules depth 12

  pub Reads-resolve_if :
      (b : Bool) (l : String → String → Lookup) (id old : Option String)
      → Reads (resolve_if env user device b l id old)
  Reads-resolve_if true l id old = Reads-resolve_title l user id
  Reads-resolve_if false l id old = Reads-pure old

  pub update_in_tx-IsClean :
      (app : String) (u : Update) → IsClean (update_in_tx env user device app u)
  unfolding update_in_tx
  update_in_tx-IsClean app u = search (clean_rules, Reads-resolve_if) depth 14

  pub delete_in_tx-IsClean : (app : String) (v : ℤ) → IsClean (delete_in_tx env user device app v)
  unfolding delete_in_tx
  delete_in_tx-IsClean app v =
      search (clean_rules, Aborts-soft_delete_children, Aborts-record_deleted) depth 14

  move_application-IsClean :
      (app : String) (t : Transition) → IsClean (move_application env user device app t)
  unfolding move_application
  move_application-IsClean app t = search clean_rules depth 14

  repeat_or_move-IsClean :
      (app : String) (t : Transition) (e : Option StatusEvent)
      → IsClean (repeat_or_move env user device app t e)
  repeat_or_move-IsClean app t none = move_application-IsClean app t
  repeat_or_move-IsClean app t (some e) = search clean_rules

  pub transition_in_tx-IsClean :
      (app : String) (t : Transition) → IsClean (transition_in_tx env user device app t)
  unfolding transition_in_tx
  transition_in_tx-IsClean app t = search (clean_rules, repeat_or_move-IsClean) depth 8

module _ (env : Env) (user device : String) (t : Tx Store) (e : Error) where
  -- A create that fails leaves the tables as they were or has aborted the transaction.
  pub create_in_tx_fails :
      (c : Create)
      → (create_in_tx env user device c t).0 ≡ err e
      → ((create_in_tx env user device c t).1.store ≡ t.store)
        ⊎ ((create_in_tx env user device c t).1.budget ≡ 0)
  create_in_tx_fails c h = (create_in_tx-IsClean env user device c).at t e h

  -- An update that fails leaves the tables as they were or has aborted the transaction.
  pub update_in_tx_fails :
      (app : String) (u : Update)
      → (update_in_tx env user device app u t).0 ≡ err e
      → ((update_in_tx env user device app u t).1.store ≡ t.store)
        ⊎ ((update_in_tx env user device app u t).1.budget ≡ 0)
  update_in_tx_fails app u h = (update_in_tx-IsClean env user device app u).at t e h

  -- A delete that fails, at any of its writes to the application, its children or the change
  -- log, leaves the tables as they were or has aborted the transaction.
  pub delete_in_tx_fails :
      (app : String) (v : ℤ)
      → (delete_in_tx env user device app v t).0 ≡ err e
      → ((delete_in_tx env user device app v t).1.store ≡ t.store)
        ⊎ ((delete_in_tx env user device app v t).1.budget ≡ 0)
  delete_in_tx_fails app v h = (delete_in_tx-IsClean env user device app v).at t e h

  -- A transition that fails leaves the tables as they were or has aborted the transaction.
  pub transition_in_tx_fails :
      (app : String) (tr : Transition)
      → (transition_in_tx env user device app tr t).0 ≡ err e
      → ((transition_in_tx env user device app tr t).1.store ≡ t.store)
        ⊎ ((transition_in_tx env user device app tr t).1.budget ≡ 0)
  transition_in_tx_fails app tr h = (transition_in_tx-IsClean env user device app tr).at t e h

-- ===== src/Tracker/Children/Replaced.antt =====
-- The row of a replacement (internal/modules/tracker/application/interview_write.go, note_write.go
-- and reminder_write.go).
use cv_agent.Base.{
  Bool-cases, inl, inr, if◌then◌else◌, sym, ap, subst, ◌∙◌, String, ◌≡◌, true, false, some, List,
  arith, str_eq, str_eq→eq, inc64, ◌&&◌,
}
use cv_agent.Db.{ok, Tx}
use cv_agent.Tracker.Domain.{ChildMeta}
use cv_agent.Tracker.Store.{Store}
use cv_agent.Tracker.Application.{Env, device_ref}
use cv_agent.Tracker.Children.{
  Kind, IsKind, is_live_child, find_child, updated_row, replaced_child, replace_child,
}
use cv_agent.Tracker.Children.Rows.{
  find_child-is_live, find_child-replace_row, find_child-replace_row_ne,
}
use cv_agent.Tracker.Children.Moves.{Replaced, IsReplaced, replace_child_returns}

same_key : (user id u i : String) → (str_eq user u && str_eq id i) ≡ true → (user ≡ u) × (id ≡ i)
same_key user id u i h = ground (arith, str_eq→eq user u, str_eq→eq id i)

module _ {A W : Type 0} (k : Kind A W) (laws : IsKind k) where
  pub rows_at :
      (l : List A) (before s : Store)
      → s ≡ record (k.with_rows l before) { changes = s.changes }
      → k.rows s ≡ l
  rows_at l before s tables =
      ap k.rows tables
      ∙ laws.rows-changes (k.with_rows l before) s.changes
      ∙ laws.rows-with_rows l before

  -- What an update leaves of the shared columns.
  base-updated_row :
      (a x : A)
      → ((k.base (updated_row k a x)).user_id ≡ (k.base x).user_id)
        × ((k.base (updated_row k a x)).id ≡ (k.base x).id)
        × ((k.base (updated_row k a x)).deleted_at ≡ (k.base x).deleted_at)
  base-updated_row a x =
      let e = laws.base-with_base (k.columns a x) (record (k.base x) {
        entity_version = (k.base a).entity_version;
        updated_at = (k.base a).updated_at;
        last_modified_device_id = (k.base a).last_modified_device_id;
      }) in
      (ap (λ m. m.user_id) e, ap (λ m. m.id) e, ap (λ m. m.deleted_at) e)

  updated_row-is_live :
      (a x : A) (user id : String)
      → is_live_child k user id x ≡ true
      → is_live_child k user id (updated_row k a x) ≡ true
  updated_row-is_live a x user id live = let e = base-updated_row a x in rw (e.0, e.1, e.2) live

  -- A live row has one key, before an update and after it.
  other_key :
      (user id u i : String) (a x : A)
      → (str_eq user u && str_eq id i) ≡ false
      → is_live_child k user id x ≡ true
      → (is_live_child k u i x ≡ false) × (is_live_child k u i (updated_row k a x) ≡ false)
  other_key user id u i a x ne live =
      let e = base-updated_row a x in
      rw (e.0, e.1, e.2)
        (ground (arith, str_eq→eq (k.base x).user_id user, str_eq→eq (k.base x).id id))

  module _ (env : Env) (user device : String) where
    pub updated_row-replaced_child :
        (x : A) (w : W)
        → updated_row k (replaced_child k env user device x w) x
          ≡ replaced_child k env user device x w
    updated_row-replaced_child x w =
        let m : ChildMeta = (record (k.base x) {
          entity_version = inc64 (k.base x).entity_version;
          updated_at = env.now;
          last_modified_device_id = device_ref device;
        }) in
        ap
          (λ b.
            k.with_base (k.columns (replaced_child k env user device x w) x) (record (k.base x) {
              entity_version = b.entity_version;
              updated_at = b.updated_at;
              last_modified_device_id = b.last_modified_device_id;
            }))
          (laws.base-with_base (k.replace w x) m)
        ∙ laws.columns-replace w x m

    module _ (id : String) (t : Tx Store) (w : W) (a : A) where
      found_after :
          (w' : W) (current : A) (s : Store)
          → find_child k user id (k.rows t.store) ≡ some current
          → IsReplaced k laws env user device id t.store w' current a s
          → find_child k user id (k.rows s) ≡ some a
      found_after w' current s found r =
          let e : updated_row k a current ≡ a =
            subst (λ b. updated_row k b current ≡ b) (sym r.answer)
              (updated_row-replaced_child current w') in
          ap (find_child k user id) (rows_at _ t.store s r.tables)
          ∙ find_child-replace_row k (updated_row k a) user id (k.rows t.store) found (
              updated_row-is_live a current user id
                (find_child-is_live k user id (k.rows t.store) found))
          ∙ ap some e

      others_after :
          (w' : W) (current : A) (s : Store) (u i : String)
          → (str_eq user u && str_eq id i) ≡ false
          → IsReplaced k laws env user device id t.store w' current a s
          → find_child k u i (k.rows s) ≡ find_child k u i (k.rows t.store)
      others_after w' current s u i ne r =
          ap (find_child k u i) (rows_at _ t.store s r.tables)
          ∙ find_child-replace_row_ne k (updated_row k a) user id u i (k.rows t.store)
              (λ x live. other_key user id u i a x ne live)

      after_at :
          (w' : W) (current : A) (s : Store) (u i : String)
          → find_child k user id (k.rows t.store) ≡ some current
          → IsReplaced k laws env user device id t.store w' current a s
          → find_child k u i (k.rows s)
            ≡ (if str_eq user u && str_eq id i then some a else find_child k u i (k.rows t.store))
      after_at w' current s u i found r = elim (Bool-cases (str_eq user u && str_eq id i)) [
        | inl same ↦
            let at_key : find_child k user id (k.rows s) ≡ some a =
              found_after w' current s found r in
            let key = same_key user id u i same in
            rw same (
              subst (λ x. find_child k x i (k.rows s) ≡ some a) key.0
                (subst (λ y. find_child k user y (k.rows s) ≡ some a) key.1 at_key))
        | inr other ↦ rw other (others_after w' current s u i other r)
      ]

      -- A replacement that returns found a live row at the expected version; the write was valid and
      -- the round that it names is a live one of the row's application. The log has one more change, of
      -- the next version. Afterwards that row is the answer, and every other row of any user is found
      -- as before.
      pub replace_child-Replaced :
          (u i : String)
          → (replace_child k env user device id w t).0 ≡ ok a
          → let after = (replace_child k env user device id w t).1.store in
            Replaced k laws env user device id t.store w a after
            × (find_child k u i (k.rows after) ≡ (
                if str_eq user u && str_eq id i then some a else find_child k u i (k.rows t.store)))
      replace_child-Replaced u i done =
          let r : Replaced k laws env user device id t.store w a
              (replace_child k env user device id w t).1.store =
            (replace_child_returns k laws env user device id t.store w t.budget).at a done in
          (r, after_at r.0 r.1 _ u i r.3 r.4)

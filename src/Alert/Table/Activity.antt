-- ===== src/Alert/Table/Activity.antt =====
-- Which keys have an active alert, after each statement.
use kvm_manager.Base.{
  ℕ, String, ◌≡◌, refl, sym, ◌∙◌, Bool, true, false, ◌&&◌, arith, ◌==◌, eq_iff, Bool-cases, inl,
  inr, any, if◌then◌else◌,
}
use kvm_manager.Dict.{Dict}
use kvm_manager.Alert.{Value, Alert, Store}
use kvm_manager.Alert.Table.{
  has_key, resolve, refresh_alert, new_alert, upsert_active_alert, resolve_active_alert_returning,
}
use kvm_manager.Sql.Rows.{any_ext, any-append, any-update_where, any-update_where_none}

-- Some active row has the key.
abbrev pub has_active : String → String → String → Store → Bool
has_active source_type source_id title s = any (has_key source_type source_id title) s.alerts

abbrev pub same_key : String → String → String → String → String → String → Bool
same_key source_type source_id title source_type' source_id' title' =
    source_type == source_type' && (source_id == source_id' && title == title')

module _ (source_type source_id title source_type' source_id' title' : String) where
  has_key_other :
      (a : Alert)
      → same_key source_type source_id title source_type' source_id' title' ≡ false
      → has_key source_type source_id title a ≡ true
      → has_key source_type' source_id' title' a ≡ false
  unfolding has_key
  has_key_other a other h = ground (
    arith,
    eq_iff a.source_type source_type,
    eq_iff a.source_id source_id,
    eq_iff a.title title,
    eq_iff a.source_type source_type',
    eq_iff a.source_id source_id',
    eq_iff a.title title',
    eq_iff source_type source_type',
    eq_iff source_id source_id',
    eq_iff title title',
  )

  pub has_key_same :
      same_key source_type source_id title source_type' source_id' title' ≡ true
      → (a : Alert)
      → has_key source_type' source_id' title' a ≡ has_key source_type source_id title a
  has_key_same same a =
      ground
        (arith, eq_iff source_type source_type', eq_iff source_id source_id', eq_iff title title')

  has_key-refresh :
      (now : ℕ) (level message : String) (metadata : Dict Value) (a : Alert)
      → has_key source_type source_id title a ≡ true
      → has_key source_type' source_id' title' (refresh_alert now level message metadata a)
        ≡ has_key source_type' source_id' title' a
  unfolding has_key refresh_alert
  has_key-refresh now level message metadata a h = refl

  pub has_key-new_alert :
      (id now : ℕ) (level message : String) (metadata : Dict Value)
      → has_key source_type' source_id' title'
          (new_alert id now level source_type source_id title message metadata)
        ≡ same_key source_type source_id title source_type' source_id' title'
  unfolding has_key new_alert
  has_key-new_alert id now level message metadata = refl

  has_active_same :
      (s : Store)
      → same_key source_type source_id title source_type' source_id' title' ≡ true
      → has_active source_type' source_id' title' s ≡ has_active source_type source_id title s
  has_active_same s same =
      any_ext (has_key source_type' source_id' title') (has_key source_type source_id title)
        (has_key_same same) s.alerts

  -- An upsert makes its own key active and leaves the others.
  pub has_active-upsert :
      (now : ℕ) (level message : String) (metadata : Dict Value) (s : Store)
      → has_active source_type' source_id' title'
          (upsert_active_alert now level source_type source_id title message metadata s)
        ≡ (if same_key source_type source_id title source_type' source_id' title'
            then true
            else has_active source_type' source_id' title' s)
  unfolding upsert_active_alert
  has_active-upsert now level message metadata s =
      elim (Bool-cases (any (has_key source_type source_id title) s.alerts)) [
        | inl old ↦
            rw (old, upsert_active_alert)
              (rw
                (any-update_where (has_key source_type source_id title)
                  (has_key source_type' source_id' title')
                  (refresh_alert now level message metadata)
                  (has_key-refresh now level message metadata) s.alerts)
                (ground (arith, has_active_same s)))
        | inr new ↦
            rw (new, upsert_active_alert)
              (rw any-append (
                rw (has_key-new_alert s.next_alert now level message metadata)
                  (ground (arith, has_active_same s))))
      ]

  has_key-resolve :
      (now : ℕ) (a : Alert) → has_key source_type' source_id' title' (resolve now a) ≡ false
  unfolding has_key resolve
  has_key-resolve now a = refl

  -- Resolving a key makes it inactive and leaves the others.
  pub has_active-resolve :
      (now : ℕ) (s : Store)
      → has_active source_type' source_id' title'
          (resolve_active_alert_returning now source_type source_id title s).1
        ≡ (if same_key source_type source_id title source_type' source_id' title'
            then false
            else has_active source_type' source_id' title' s)
  unfolding resolve_active_alert_returning
  has_active-resolve now s =
      elim (Bool-cases (same_key source_type source_id title source_type' source_id' title')) [
        | inl same ↦ rw same (
            any-update_where_none (has_key source_type source_id title)
              (has_key source_type' source_id' title') (resolve now) (λ a _. has_key-resolve now a)
              (λ a h. has_key_same same a ∙ h) s.alerts)
        | inr other ↦ rw other (
            any-update_where (has_key source_type source_id title)
              (has_key source_type' source_id' title') (resolve now)
              (λ a h. has_key-resolve now a ∙ sym (has_key_other a other h)) s.alerts)
      ]

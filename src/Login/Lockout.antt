-- ===== src/Login/Lockout.antt =====
-- When an account is locked: after a run of failures, and when it is free again.
use kvm_manager.Base.{
  ℕ, suc, ◌+◌, ◌-◌, ◌*◌, ◌/◌, ◌≤◌, String, ◌≡◌, ◌≢◌, refl, ◌∙◌, ap, Bool, false, ◌&&◌, ◌||◌, none,
  some, List, [], ◌∷◌, ◌++◌, arith, ◌==◌, eq_refl, eq_iff, Bool-cases, inl, inr, any, leb, ltb,
  length, All, if◌then◌else◌,
}
use kvm_manager.Sql.{delete_where}
use kvm_manager.Sql.Rows.{count, count_none}
use kvm_manager.Text.{trim_space, equal_fold}
use kvm_manager.System.{SystemBaseConfig}
use kvm_manager.Login.{
  LoginFailure, has_username, later, last_failed_at, count_login_failures, is_old,
  create_login_failure, delete_login_failures, account_name, positive_or, ensure_login_allowed,
  record_login_failure,
}

-- The failures of one account, latest first, as the service records them.
unfoldable pub failures : String → List ℕ → List LoginFailure → List LoginFailure
failures username [] rows = rows
failures username (time ∷ older) rows =
    record_login_failure time username (failures username older rows)

-- The times that count for a lock at time t: none is after it, or more than a day before it.
abbrev pub IsRecent : ℕ → ℕ → Type 0
IsRecent t time = (time ≤ t) × (t ≤ time + 86400)

-- The latest of some times, 0 if there are none.
abbrev pub latest : List ℕ → ℕ
latest [] = 0
latest (time ∷ older) = later (latest older) time

module _ (name : String) where
  -- Whether a row of the user is not recent at time t.
  stale : ℕ → LoginFailure → Bool
  stale t row = has_username name row && (ltb (row.failed_at + 86400) t || ltb t row.failed_at)

  purge_lem :
      (t time : ℕ) (rows : List LoginFailure)
      → time ≤ t
      → any (stale t) rows ≡ false
      → (count (has_username name) (delete_where (is_old time) rows)
          ≡ count (has_username name) rows)
        × (last_failed_at name (delete_where (is_old time) rows) ≡ last_failed_at name rows)
        × (any (stale t) (delete_where (is_old time) rows) ≡ false)
  unfolding stale is_old last_failed_at
  purge_lem t time [] le h = (refl, refl, refl)
  purge_lem t time (row ∷ rest) le h = (
    ground (arith, purge_lem t time rest),
    ground (arith, purge_lem t time rest),
    ground (arith, purge_lem t time rest),
  )

  append_lem :
      (t time : ℕ) (rows : List LoginFailure)
      → IsRecent t time
      → any (stale t) rows ≡ false
      → let rows' = rows ++ record { username = name; failed_at = time } ∷ [] in
        (count (has_username name) rows' ≡ suc (count (has_username name) rows))
        × (last_failed_at name rows' ≡ later (last_failed_at name rows) time)
        × (any (stale t) rows' ≡ false)
  unfolding stale has_username last_failed_at
  append_lem t time [] recent h =
      (ground (arith, eq_refl name), ground (arith, eq_refl name), ground (arith, eq_refl name))
  append_lem t time (row ∷ rest) recent h = (
    ground (arith, append_lem t time rest),
    ground (arith, append_lem t time rest),
    ground (arith, append_lem t time rest),
  )

  last_none :
      (rows : List LoginFailure)
      → any (has_username name) rows ≡ false
      → last_failed_at name rows ≡ 0
  unfolding last_failed_at
  last_none [] h = refl
  last_none (row ∷ rest) h = ground (arith, last_none rest)

  stale_none :
      (t : ℕ) (rows : List LoginFailure)
      → any (has_username name) rows ≡ false
      → any (stale t) rows ≡ false
  unfolding stale
  stale_none t [] h = refl
  stale_none t (row ∷ rest) h = ground (arith, stale_none t rest)

  record_named :
      (time : ℕ) (username : String) (rows : List LoginFailure)
      → account_name username ≡ name
      → name ≢ ""
      → record_login_failure time username rows
        ≡ delete_where (is_old time) (rows ++ record { username = name; failed_at = time } ∷ [])
  unfolding record_login_failure create_login_failure
  record_named time username rows same some_name = elim (Bool-cases (account_name username == "")) [
    | inl e ↦ ground (arith, eq_iff (account_name username) "")
    | inr e ↦ rw (e, same) refl
  ]

  -- A run of recent failures leaves its length and its latest time in the account's rows.
  failures_lem :
      (username : String) (t : ℕ) (times : List ℕ) (rows : List LoginFailure)
      → account_name username ≡ name
      → name ≢ ""
      → All (IsRecent t) times
      → any (has_username name) rows ≡ false
      → let rows' = failures username times rows in
        (count (has_username name) rows' ≡ length times)
        × (last_failed_at name rows' ≡ latest times)
        × (any (stale t) rows' ≡ false)
  unfolding failures record_login_failure create_login_failure
  failures_lem username t [] rows same some_name recent h =
      (count_none (has_username name) rows h, last_none rows h, stale_none t rows h)
  failures_lem username t (time ∷ older) rows same some_name (here, rest) h =
      let before = failures username older rows in
      let (n, l, s) = failures_lem username t older rows same some_name rest h in
      let (n', l', s') = append_lem t time before here s in
      let (n'', l'', s'') =
        purge_lem t time (before ++ record { username = name; failed_at = time } ∷ []) here.0 s' in
      let kept = record_named time username before same some_name in
      (
        ap (count (has_username name)) kept ∙ n'' ∙ n' ∙ ap suc n,
        ap (last_failed_at name) kept ∙ l'' ∙ l' ∙ ap (λ last. later last time) l,
        ap (any (stale t)) kept ∙ s'',
      )

limit_lem {ℓ} :
    {A : Type ℓ} (failed limit last : ℕ) (x y : A)
    → (if ltb failed limit || ltb last 1 then x else y)
      ≡ (if leb limit failed && ltb 0 last then y else x)
limit_lem failed limit last x y = ground arith

-- After a run of failures of an account other than admin's that has no older ones, the account is
-- locked exactly while they are at least as many as the configured limit and the lock's minutes have
-- not passed since the latest; the error names the minutes left, rounded up. Once they have passed,
-- the next attempt forgets every failure. No failure is after time t or more than a day before it.
pub ensure_login_allowed_after_failures :
    (base : SystemBaseConfig) (username : String) (t now : ℕ) (times : List ℕ)
    (rows : List LoginFailure)
    → account_name username ≢ ""
    → equal_fold (trim_space username) "admin" ≡ false
    → All (IsRecent t) times
    → any (has_username (account_name username)) rows ≡ false
    → let rows' = failures username times rows in
      let until = latest times + positive_or base.login_lockout_minutes 2 * 60 in
      let limited =
        leb (positive_or base.login_max_failures 5) (length times) && ltb 0 (latest times) in
      (ensure_login_allowed now base username rows' ≡ (
        if limited
        then (if ltb now until
            then (some ((until - now + 59) / 60), rows')
            else (none, (delete_login_failures (account_name username) rows').1))
        else (none, rows')))
unfolding ensure_login_allowed count_login_failures
ensure_login_allowed_after_failures base username t now times rows some_name other recent fresh =
    let (n, l, s) =
      failures_lem (account_name username) username t times rows refl some_name recent fresh in
    elim (Bool-cases (account_name username == "")) [
      | inl e ↦ ground (arith, eq_iff (account_name username) "")
      | inr e ↦
          rw (e, other, n, l)
            (limit_lem (length times) (positive_or base.login_max_failures 5) (latest times) _ _)
    ]

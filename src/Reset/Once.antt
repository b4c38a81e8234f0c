-- ===== src/Reset/Once.antt =====
-- A code that is confirmed twice.
use kvm_manager.Base.{
  ℕ, ◌≤◌, String, ◌≡◌, refl, ap, ◌∙◌, true, false, ◌&&◌, none, some, List, [], ◌∷◌, arith, ◌==◌,
  Bool-cases, inl, inr, any, if◌then◌else◌,
}
use kvm_manager.Text.{trim_space}
use kvm_manager.Sql.{sort_by, find_where}
use kvm_manager.Sql.Rows.{count, any_of_count, any_and, find_where-update_where_other}
use kvm_manager.Access.Users.{User, has_user_id}
use kvm_manager.Access.Users.Handlers.{reply}
use kvm_manager.Sessions.{Crypto, has_username}
use kvm_manager.Reset.{
  PasswordResetToken, is_usable, is_newer, first_token, pair_token, newest_usable,
  find_usable_token, has_unused_id, mark_token_used,
}
use kvm_manager.Reset.Handlers.{
  State, ConfirmRequest, is_resettable, check_confirm, confirm_checked, handle_confirm,
}
use kvm_manager.Reset.Confirmed.{
  set_password, IsReset, find_usable_token_lem, filter_absent, handle_confirm_lem,
}

abbrev mark : ℕ → String → PasswordResetToken → PasswordResetToken
mark now id t = if has_unused_id id t then record t { used_at = some now } else t

still_usable :
    (now later : ℕ) (user_id code_hash id : String) (t : PasswordResetToken)
    → now ≤ later
    → is_usable later user_id code_hash (mark now id t) ≡ true
    → (is_usable now user_id code_hash t ≡ true) × ((t.id == id) ≡ false)
unfolding is_usable has_unused_id
still_usable now later user_id code_hash id t order h = (ground arith, ground arith)

none_usable :
    (now later : ℕ) (user_id code_hash id : String) (ts : List PasswordResetToken)
    → now ≤ later
    → any (is_usable now user_id code_hash) ts ≡ false
    → any (is_usable later user_id code_hash) (mark_token_used now id ts) ≡ false
unfolding mark_token_used
none_usable now later user_id code_hash id [] order h = refl
none_usable now later user_id code_hash id (t ∷ ts) order h =
    elim (Bool-cases (is_usable later user_id code_hash (mark now id t))) [
      | inl e ↦
          (let usable = (still_usable now later user_id code_hash id t order e).0 in ground arith)
      | inr e ↦ rw e (none_usable now later user_id code_hash id ts order (ground arith))
    ]

used_up :
    (now later : ℕ) (user_id code_hash id : String) (ts : List PasswordResetToken)
    → now ≤ later
    → count (is_usable now user_id code_hash) ts ≤ 1
    → any (λ t. is_usable now user_id code_hash t && t.id == id) ts ≡ true
    → any (is_usable later user_id code_hash) (mark_token_used now id ts) ≡ false
unfolding mark_token_used
used_up now later user_id code_hash id [] order one there = refl
used_up now later user_id code_hash id (t ∷ ts) order one there =
    let usable = is_usable now user_id code_hash in
    elim (Bool-cases (is_usable later user_id code_hash (mark now id t))) [
      | inl e ↦
          (let (was, other) = still_usable now later user_id code_hash id t order e in
            let no_more : any usable ts ≡ false = any_of_count usable ts (ground arith) in
            let nowhere = any_and usable (λ x. x.id == id) ts no_more in ground arith)
      | inr e ↦ elim (Bool-cases (usable t)) [
        | inl was ↦ rw e (
            none_usable now later user_id code_hash id ts order
              (any_of_count usable ts (ground arith)))
        | inr was_not ↦
            rw e (used_up now later user_id code_hash id ts order (ground arith) (ground arith))
      ]
    ]

newest_usable_absent :
    (later : ℕ) (code_hash : String) (tokens : List PasswordResetToken) (u : User)
    → any (is_usable later u.id code_hash) tokens ≡ false
    → newest_usable later code_hash tokens (some u) ≡ none
unfolding newest_usable pair_token first_token
newest_usable_absent later code_hash tokens u h =
    ap (λ ts. pair_token u (first_token (sort_by is_newer ts)))
      (filter_absent (is_usable later u.id code_hash) tokens h)

marked_id :
    (now : ℕ) (id password_hash : String) (u : User)
    → (if has_user_id id u then set_password now password_hash u else u).id ≡ u.id
marked_id now id password_hash u = elim (Bool-cases (has_user_id id u)) [
  | inl e ↦ rw e refl
  | inr e ↦ rw e refl
]

no_token_left :
    (now later : ℕ) (username code_hash password_hash : String) (token : PasswordResetToken)
    (user : User) (s s' : State)
    → now ≤ later
    → find_usable_token now username code_hash s.accounts.directory s.tokens ≡ some (token, user)
    → count (is_usable now user.id code_hash) s.tokens ≤ 1
    → IsReset now token user password_hash s s'
    → find_usable_token later username code_hash s'.accounts.directory s'.tokens ≡ none
unfolding find_usable_token has_username
no_token_left now later username code_hash password_hash token user s s' order found one reset =
    let users = s.accounts.directory.users in
    let (named, there) =
      find_usable_token_lem now username code_hash s.accounts.directory s.tokens token user found in
    let user' = if has_user_id user.id user then set_password now password_hash user else user in
    let named' : find_where (has_username username) s'.accounts.directory.users ≡ some user' =
      ap (find_where (has_username username)) reset.users
      ∙ find_where-update_where_other (has_username username) (has_user_id user.id)
          (set_password now password_hash) (λ a. refl) users user named in
    let unusable : any (is_usable later user'.id code_hash) s'.tokens ≡ false =
      ap (λ id. any (is_usable later id code_hash) s'.tokens)
        (marked_id now user.id password_hash user)
      ∙ ap (any (is_usable later user.id code_hash)) reset.tokens
      ∙ used_up now later user.id code_hash token.id s.tokens order one there in
    ap (newest_usable later code_hash s'.tokens) named'
    ∙ newest_usable_absent later code_hash s'.tokens user' unusable

-- After a confirmation that succeeds, a second one with the same name and code is refused, whenever it
-- comes and whatever password it brings, unless the user has another usable code with the same digits.
pub handle_confirm_once :
    (crypto : Crypto) (code_hash : String → String) (now later : ℕ) (input again : ConfirmRequest)
    (token : PasswordResetToken) (user : User) (password_hash : String) (s : State)
    → now ≤ later
    → check_confirm input ≡ none
    → find_usable_token now
        (trim_space input.username)
        (code_hash (trim_space input.code))
        s.accounts.directory
        s.tokens
      ≡ some (token, user)
    → is_resettable user ≡ true
    → crypto.hash input.new_password ≡ some password_hash
    → count (is_usable now user.id (code_hash (trim_space input.code))) s.tokens ≤ 1
    → check_confirm again ≡ none
    → trim_space again.username ≡ trim_space input.username
    → trim_space again.code ≡ trim_space input.code
    → let s' = (handle_confirm crypto code_hash now input s).1 in
      handle_confirm crypto code_hash later again s' ≡ (reply 400 "invalid_reset_code", s')
unfolding handle_confirm confirm_checked
handle_confirm_once crypto code_hash now later input again token user password_hash s order ok found
      local hashed one ok' name code =
    let username = trim_space input.username in
    let hash = code_hash (trim_space input.code) in
    let s' = (handle_confirm crypto code_hash now input s).1 in
    let reset =
      (handle_confirm_lem crypto code_hash now input token user password_hash s ok found local
        hashed).1 in
    let absent : find_usable_token later (trim_space again.username)
          (code_hash (trim_space again.code)) s'.accounts.directory s'.tokens
        ≡ none =
      ap
        (λ n.
          find_usable_token later n (code_hash (trim_space again.code)) s'.accounts.directory
            s'.tokens)
        name
      ∙ ap (λ c. find_usable_token later username (code_hash c) s'.accounts.directory s'.tokens)
          code
      ∙ no_token_left now later username hash password_hash token user s s' order found one reset in
    rw (ok', absent, handle_confirm, confirm_checked) refl

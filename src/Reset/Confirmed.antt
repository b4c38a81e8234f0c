-- ===== src/Reset/Confirmed.antt =====
-- What confirming a code leaves in the tables.
use kvm_manager.Base.{
  ℕ, String, ◌≡◌, refl, sym, ap, subst, ◌∙◌, Bool, true, false, ◌&&◌, ◌||◌, not, Option, none, some,
  List, [], ◌∷◌, arith, ◌==◌, eqb, eq_refl, any, filter,
}
use kvm_manager.Text.{trim_space}
use kvm_manager.Sql.{update_where, insert_by, sort_by, find_where}
use kvm_manager.Sql.Rows.{
  any-delete_where_self, any-update_where_none, any-update_where_some, find_where_lem,
}
use kvm_manager.Access.Users.{User, Directory, has_user_id, list_user_effective_roles}
use kvm_manager.Access.Users.Handlers.{reply}
use kvm_manager.Access.Users.Effects.{users-with_fallback}
use kvm_manager.Sessions.{
  Crypto, has_username, attach_access, of_user, update_user_password, delete_user_sessions,
}
use kvm_manager.Reset.{
  PasswordResetToken, is_usable, is_newer, first_token, pair_token, newest_usable, has_unused_id,
  find_usable_token, mark_token_used,
}
use kvm_manager.Reset.Handlers.{
  State, ConfirmRequest, is_resettable, store_reset, confirm_token, check_confirm, confirm_checked,
  handle_confirm,
}

users-attach_access : (u : User) (d : Directory) → (attach_access u d).users ≡ d.users
unfolding attach_access
users-attach_access u d = users-with_fallback u (list_user_effective_roles u.id d) d

-- The user of a usable token is the one with the name, and the token is one of the usable ones.
module _ {ℓ} {A : Type ℓ} (before : A → A → Bool) (r : A → Bool) where
  any-insert_by : (a : A) (xs : List A) → any r (insert_by before a xs) ≡ (r a || any r xs)
  any-insert_by a [] = refl
  any-insert_by a (x ∷ xs) = ground (arith, any-insert_by a xs)

  any-sort_by : (xs : List A) → any r (sort_by before xs) ≡ any r xs
  any-sort_by [] = refl
  any-sort_by (x ∷ xs) = any-insert_by x (sort_by before xs) ∙ ap (λ b. r x || b) (any-sort_by xs)

module _ {ℓ} {A : Type ℓ} (q r : A → Bool) where
  any-filter : (xs : List A) → any r (filter q xs) ≡ any (λ a. q a && r a) xs
  any-filter [] = refl
  any-filter (x ∷ xs) = ground (arith, any-filter xs)

module _ {ℓ} {A : Type ℓ} (q : A → Bool) where
  pub filter_absent : (xs : List A) → any q xs ≡ false → filter q xs ≡ []
  filter_absent [] h = refl
  filter_absent (x ∷ xs) h = ground (arith, filter_absent xs)

first_token_lem :
    (r : PasswordResetToken → Bool) (ts : List PasswordResetToken) (t : PasswordResetToken)
    → first_token ts ≡ some t
    → r t ≡ true
    → any r ts ≡ true
unfolding first_token
first_token_lem r [] t h p = cc
first_token_lem r (x ∷ ts) t h p =
    ground (arith, subst (λ o. elim o [ none ↦ true | some b ↦ r b ] ≡ true) (sym h) p)

pair_token_lem :
    (u user : User) (o : Option PasswordResetToken) (token : PasswordResetToken)
    → pair_token u o ≡ some (token, user)
    → (o ≡ some token) × (u ≡ user)
unfolding pair_token
pair_token_lem u user none token h = cc
pair_token_lem u user (some t) token h = (cc, cc)

newest_usable_lem :
    (now : ℕ) (code_hash : String) (tokens : List PasswordResetToken) (found : Option User)
    (token : PasswordResetToken) (user : User)
    → newest_usable now code_hash tokens found ≡ some (token, user)
    → (found ≡ some user)
      × (any (λ t. is_usable now user.id code_hash t && t.id == token.id) tokens ≡ true)
unfolding newest_usable
newest_usable_lem now code_hash tokens none token user h = cc
newest_usable_lem now code_hash tokens (some u) token user h =
    let usable = is_usable now u.id code_hash in
    let (first, same) = pair_token_lem u user _ token h in
    (
      ap some same,
      subst (λ v. any (λ t. is_usable now v.id code_hash t && t.id == token.id) tokens ≡ true) same
          (sym (any-filter usable (λ t. t.id == token.id) tokens)
            ∙ sym (any-sort_by is_newer (λ t. t.id == token.id) (filter usable tokens))
            ∙ first_token_lem (λ t. t.id == token.id) (sort_by is_newer (filter usable tokens))
                token first (eq_refl token.id)),
    )

pub find_usable_token_lem :
    (now : ℕ) (username code_hash : String) (d : Directory) (tokens : List PasswordResetToken)
    (token : PasswordResetToken) (user : User)
    → find_usable_token now username code_hash d tokens ≡ some (token, user)
    → (find_where (has_username username) d.users ≡ some user)
      × (any (λ t. is_usable now user.id code_hash t && t.id == token.id) tokens ≡ true)
unfolding find_usable_token
find_usable_token_lem now username code_hash d tokens token user h =
    newest_usable_lem now code_hash tokens (find_where (has_username username) d.users) token user h

abbrev pub set_password : ℕ → String → User → User
set_password now password_hash u = record u { password_hash = password_hash; updated_at = now }

abbrev pub has_other_password : String → String → User → Bool
has_other_password id password_hash u = u.id == id && not (u.password_hash == password_hash)

only_new :
    (now : ℕ) (id password_hash : String) (us : List User)
    → any
        (has_other_password id password_hash)
        (update_where (has_user_id id) (set_password now password_hash) us)
      ≡ false
unfolding has_user_id
only_new now id password_hash us =
    any-update_where_none (has_user_id id) (has_other_password id password_hash)
      (set_password now password_hash) (λ u e. ground (arith, eq_refl password_hash))
      (λ u e. ground arith) us

-- A row of a token that was used at a time.
abbrev pub is_spent : ℕ → String → PasswordResetToken → Bool
is_spent now id t = t.id == id && elim t.used_at [ none ↦ false | some used ↦ eqb used now ]

-- No unused row is left, and the one that was there is marked with the time.
mark_token_used-spends :
    (now : ℕ) (id : String) (tokens : List PasswordResetToken)
    → any (has_unused_id id) tokens ≡ true
    → (any (has_unused_id id) (mark_token_used now id tokens) ≡ false)
      × (any (is_spent now id) (mark_token_used now id tokens) ≡ true)
unfolding mark_token_used has_unused_id
mark_token_used-spends now id tokens h = (
  any-update_where_none (has_unused_id id) (has_unused_id id) (λ t. record t { used_at = some now })
      (λ t e. ground arith) (λ t e. e) tokens,
  any-update_where_some (has_unused_id id) (has_unused_id id) (is_spent now id)
      (λ t. record t { used_at = some now }) (λ t e. ground arith) (λ t e. e) tokens h,
)

usable-unused :
    (now : ℕ) (user_id code_hash id : String) (tokens : List PasswordResetToken)
    → any (λ t. is_usable now user_id code_hash t && t.id == id) tokens ≡ true
    → any (has_unused_id id) tokens ≡ true
unfolding is_usable has_unused_id
usable-unused now user_id code_hash id [] h = h
usable-unused now user_id code_hash id (t ∷ ts) h =
    ground (arith, usable-unused now user_id code_hash id ts)

-- What a reset of a user's password leaves: no session of the user, only the new hash, the token used.
pub record IsReset (now : ℕ) (token : PasswordResetToken) (user : User) (password_hash : String)
    (s s' : State) : Type 0 where
  pub signed_out : any (of_user user.id) s'.accounts.sessions ≡ false
  pub changed : any (has_other_password user.id password_hash) s'.accounts.directory.users ≡ false
  pub users :
      s'.accounts.directory.users
      ≡ update_where
          (has_user_id user.id)
          (set_password now password_hash)
          s.accounts.directory.users
  pub tokens : s'.tokens ≡ mark_token_used now token.id s.tokens
  pub spent : any (has_unused_id token.id) s'.tokens ≡ false
  pub marked : any (is_spent now token.id) s'.tokens ≡ true

store_reset_lem :
    (now : ℕ) (token : PasswordResetToken) (user : User) (password_hash : String) (s : State)
    → any (has_user_id user.id) s.accounts.directory.users ≡ true
    → any (has_unused_id token.id) s.tokens ≡ true
    → let (response, s') = store_reset now token user (some password_hash) s in
      (response ≡ reply 200 "") × IsReset now token user password_hash s s'
unfolding store_reset update_user_password delete_user_sessions
store_reset_lem now token user password_hash s there unused =
    let (spent, marked) = mark_token_used-spends now token.id s.tokens unused in
    rw (there, store_reset, update_user_password)
      (
        refl,
        record {
          signed_out = any-delete_where_self (of_user user.id) s.accounts.sessions;
          changed = only_new now user.id password_hash s.accounts.directory.users;
          users = refl;
          tokens = refl;
          spent = spent;
          marked = marked;
        },
      )

-- A confirmation with a usable code of a local user who is not disabled, with a password that can be
-- hashed, succeeds: the user's password is the new one, the user has no session left, no unused row
-- of the token is left, and its row is marked as used now.
pub handle_confirm_lem :
    (crypto : Crypto) (code_hash : String → String) (now : ℕ) (input : ConfirmRequest)
    (token : PasswordResetToken) (user : User) (password_hash : String) (s : State)
    → check_confirm input ≡ none
    → find_usable_token now
        (trim_space input.username)
        (code_hash (trim_space input.code))
        s.accounts.directory
        s.tokens
      ≡ some (token, user)
    → is_resettable user ≡ true
    → crypto.hash input.new_password ≡ some password_hash
    → let (response, s') = handle_confirm crypto code_hash now input s in
      (response ≡ reply 200 "") × IsReset now token user password_hash s s'
unfolding handle_confirm confirm_checked confirm_token has_user_id
handle_confirm_lem crypto code_hash now input token user password_hash s ok found local hashed =
    let username = trim_space input.username in
    let users = s.accounts.directory.users in
    let attached = attach_access user s.accounts.directory in
    let s' : State = record s { accounts = record s.accounts { directory = attached } } in
    let same : attached.users ≡ users = users-attach_access user s.accounts.directory in
    let (named, usable) =
      find_usable_token_lem now username (code_hash (trim_space input.code)) s.accounts.directory
        s.tokens token user found in
    let there : any (has_user_id user.id) users ≡ true =
      (find_where_lem (has_username username) (has_user_id user.id) users user named).1
        (eq_refl user.id) in
    let (answer, reset) =
      store_reset_lem now token user password_hash s' (ap (any (has_user_id user.id)) same ∙ there)
        (usable-unused now user.id (code_hash (trim_space input.code)) token.id s.tokens usable) in
    rw (ok, found, local, hashed, handle_confirm, confirm_checked, confirm_token)
      (
        answer,
        record {
          signed_out = reset.signed_out;
          changed = reset.changed;
          users =
              reset.users
              ∙ ap (update_where (has_user_id user.id) (set_password now password_hash)) same;
          tokens = reset.tokens;
          spent = reset.spent;
          marked = reset.marked;
        },
      )

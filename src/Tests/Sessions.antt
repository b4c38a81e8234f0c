-- ===== src/Tests/Sessions.antt =====
-- A user who logs in, logs out and resets the password.
use kvm_manager.Base.{
  ◌≤◌, String, ◌≡◌, ◌≢◌, refl, true, false, none, some, List, [], ◌∷◌, arith, ◌==◌, eq_iff,
}
use kvm_manager.Text.{trim_space}
use kvm_manager.Access.Users.{User, has_user_id}
use kvm_manager.Access.Users.Handlers.{reply}
use kvm_manager.Sql.Rows.{count}
use kvm_manager.Sessions.{
  Accounts, Session, Crypto, validate, has_username, find_session, has_jti, join_user,
}
use kvm_manager.Sessions.Handlers.{handle_logout}
use kvm_manager.Sessions.Gone.{Visit, visits, never_drawn}
use kvm_manager.Sessions.Revoked.{validate_after_logout}
use kvm_manager.Reset.{
  PasswordResetToken, find_usable_token, is_usable, is_newer, newest_usable, first_token,
  pair_token,
}
use kvm_manager.Reset.Handlers.{State, ConfirmRequest, check_confirm, is_resettable, handle_confirm}
use kvm_manager.Reset.Confirmed.{IsReset, handle_confirm_lem}
use kvm_manager.Reset.Once.{handle_confirm_once}
use kvm_manager.Tests.Accounts.{base}

abbrev pub crypto : Crypto
crypto = record {
  hash = λ p. some p;
  matches = λ h p. h == p;
  sign = λ s. some s.jti;
  session_jti = λ now token. token;
}

abbrev pub bob : User
bob = record {
  id = "u1";
  username = "bob";
  email = "bob@b.c";
  password_hash = "secret";
  display_name = "Bob";
  role = "viewer";
  source = "local";
  disabled = false;
  last_login_at = none;
  created_at = 0;
  updated_at = 0;
}

abbrev pub accounts : Accounts
accounts = record {
  directory = record {
    users = bob ∷ [];
    roles = [];
    user_roles = [];
    groups = [];
    group_members = [];
    group_roles = [];
  };
  sessions =
      record {
        jti = "j1";
        user_id = "u1";
        username = "bob";
        source = "local";
        created_at = 0;
        expires_at = 500;
      }
      ∷ [];
  failures = [];
}

abbrev pub session : Session
session = record { token = "j1"; expires_at = 500; user = bob }

abbrev later_visits : List Visit
later_visits = Visit.use_session 120 "j1" "" ∷ Visit.sign_in 110 600 "j2" base "bob" "secret" ∷ []

fresh : never_drawn "j1" later_visits ≡ true
unfolding never_drawn
fresh = refl

filled : ◌≢◌ {A = String} "j1" ""
filled = ground (arith, eq_iff "j1" "")

validate_after_logout_example :
    (validate crypto 130 "j1"
      (visits crypto later_visits (handle_logout crypto 100 "j1" session accounts).1)).0
    ≡ none
validate_after_logout_example =
    validate_after_logout crypto 100 130 "j1" "j1" "j1" session later_visits accounts refl filled
      refl fresh

-- The session is accepted while nobody logs out.
validate_before : (validate crypto 100 "j1" accounts).0 ≡ some session
unfolding validate find_session has_jti join_user has_user_id
validate_before = refl

abbrev pub token : PasswordResetToken
token = record {
  id = "t1";
  user_id = "u1";
  channel_id = "email";
  contact = "bob@b.c";
  code_hash = "123456";
  expires_at = 900;
  used_at = none;
  created_at = 300;
}

abbrev pub state : State
state = record {
  accounts = accounts;
  tokens = token ∷ [];
  channels = record { id = "email"; password_reset_enabled = true } ∷ [];
}

abbrev input : ConfirmRequest
input = record {
  username = "bob";
  code = " 123456 ";
  new_password = "better1";
  confirm_password = "better1";
}

abbrev code_hash : String → String
code_hash code = code

accepted : check_confirm input ≡ none
unfolding check_confirm trim_space
accepted = refl

found :
    find_usable_token 400
      (trim_space input.username)
      (code_hash (trim_space input.code))
      accounts.directory
      state.tokens
    ≡ some (token, bob)
unfolding find_usable_token newest_usable is_usable first_token pair_token is_newer trim_space
    has_username
found = refl

local : is_resettable bob ≡ true
unfolding is_resettable
local = refl

handle_confirm_lem_example :
    let (response, s') = handle_confirm crypto code_hash 400 input state in
    (response ≡ reply 200 "") × IsReset 400 token bob "better1" state s'
handle_confirm_lem_example =
    handle_confirm_lem crypto code_hash 400 input token bob "better1" state accepted found local
      refl

one_code : count (is_usable 400 "u1" (code_hash (trim_space input.code))) state.tokens ≤ 1
unfolding is_usable trim_space
one_code = omega arith

handle_confirm_once_example :
    let s' = (handle_confirm crypto code_hash 400 input state).1 in
    handle_confirm crypto code_hash 450 input s' ≡ (reply 400 "invalid_reset_code", s')
handle_confirm_once_example =
    handle_confirm_once crypto code_hash 400 450 input input token bob "better1" state (omega arith)
      accepted found local refl one_code accepted refl refl

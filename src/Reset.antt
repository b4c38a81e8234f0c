-- ===== src/Reset.antt =====
-- Finding a lost password: backend/internal/repository/password_reset.go and
-- backend/api/router/password_reset.go. Times and durations are in seconds; one instant stands for
-- the clock readings of a request. Where a setting is a number of minutes with a fraction, its
-- seconds stand for it.
pub mod Email
pub mod Tokens
pub mod Handlers
pub mod Limit
pub mod Confirmed
pub mod Once
use kvm_manager.Base.{
  ℕ, ◌+◌, ◌*◌, String, Bool, true, false, ◌&&◌, ◌||◌, not, Option, none, some, List, [], ◌∷◌, ◌++◌,
  ◌==◌, any, ltb, leb, filter, if◌then◌else◌,
}
use kvm_manager.Base.Int.{ℤ, pos, pos_part, leb_ℤ}
use kvm_manager.Sql.{is_none, update_where, delete_where, sort_by, find_where}
use kvm_manager.Sql.Rows.{count}
use kvm_manager.Access.Users.{User, Directory, has_user_id}
use kvm_manager.Sessions.{Accounts, has_username, attach_access}

-- A row of password_reset_tokens, without the address of the request.
pub record PasswordResetToken : Type 0 where
  pub id : String
  pub user_id : String
  pub channel_id : String
  pub contact : String
  pub code_hash : String
  pub expires_at : ℕ
  pub used_at : Option ℕ
  pub created_at : ℕ

-- The settings of SystemBaseConfig on lost passwords, the cooldown in seconds.
pub record PasswordResetConfig : Type 0 where
  pub code_ttl_minutes : ℤ
  pub captcha_ttl_minutes : ℤ
  pub send_cooldown_seconds : ℤ
  pub rate_limit_minutes : ℤ

pub record RuntimeSettings : Type 0 where
  pub code_ttl : ℕ
  pub captcha_ttl : ℕ
  pub send_cooldown : ℕ
  pub rate_limit_max : ℕ
  pub rate_limit_span : ℕ

unfoldable pub int_minutes_as_duration : ℤ → ℕ → ℕ
int_minutes_as_duration minutes fallback =
    if leb_ℤ minutes (pos 0) then fallback else pos_part minutes * 60

unfoldable pub minutes_as_duration : ℤ → ℕ → ℕ
minutes_as_duration seconds fallback = if leb_ℤ seconds (pos 0) then fallback else pos_part seconds

-- `none` for a configuration that cannot be read.
unfoldable pub password_reset_runtime_settings : Option PasswordResetConfig → RuntimeSettings
password_reset_runtime_settings none = record {
  code_ttl = 600;
  captcha_ttl = 60;
  send_cooldown = 30;
  rate_limit_max = 5;
  rate_limit_span = 300;
}
password_reset_runtime_settings (some config) = record {
  code_ttl = int_minutes_as_duration config.code_ttl_minutes 600;
  captcha_ttl = int_minutes_as_duration config.captcha_ttl_minutes 60;
  send_cooldown = minutes_as_duration config.send_cooldown_seconds 30;
  rate_limit_max = 5;
  rate_limit_span = int_minutes_as_duration config.rate_limit_minutes 300;
}

-- created_at >= now - span AND user_id = …
unfoldable pub is_recent : String → ℕ → ℕ → PasswordResetToken → Bool
is_recent user_id now span t = leb now (t.created_at + span) && t.user_id == user_id

unfoldable pub count_recent_tokens : String → ℕ → ℕ → List PasswordResetToken → ℕ
count_recent_tokens user_id now span tokens = count (is_recent user_id now span) tokens

-- Whether LatestRecentPasswordResetTokenCreatedAt finds a row.
unfoldable pub is_cooling_down : String → ℕ → ℕ → List PasswordResetToken → Bool
is_cooling_down user_id now cooldown tokens = any (is_recent user_id now cooldown) tokens

unfoldable pub is_stale : ℕ → PasswordResetToken → Bool
is_stale now t = elim t.used_at [
  | none ↦ ltb (t.expires_at + 604800) now
  | some used ↦ ltb (used + 604800) now
]

unfoldable pub delete_stale_tokens : ℕ → List PasswordResetToken → List PasswordResetToken
delete_stale_tokens now tokens = delete_where (is_stale now) tokens

-- Whether a token is the user's, for the code, and can be used.
unfoldable pub is_usable : ℕ → String → String → PasswordResetToken → Bool
is_usable now user_id code_hash t =
    t.user_id == user_id && t.code_hash == code_hash && is_none t.used_at && ltb now t.expires_at

-- ORDER BY created_at DESC
unfoldable pub is_newer : PasswordResetToken → PasswordResetToken → Bool
is_newer s t = leb t.created_at s.created_at

unfoldable pub first_token : List PasswordResetToken → Option PasswordResetToken
first_token [] = none
first_token (t ∷ ts) = some t

unfoldable pub pair_token : User → Option PasswordResetToken → Option (PasswordResetToken × User)
pair_token u none = none
pair_token u (some t) = some (t, u)

-- The newest usable token of a user.
unfoldable pub newest_usable :
    ℕ → String → List PasswordResetToken → Option User → Option (PasswordResetToken × User)
newest_usable now code_hash tokens none = none
newest_usable now code_hash tokens (some u) =
    pair_token u (first_token (sort_by is_newer (filter (is_usable now u.id code_hash) tokens)))

-- FindUsablePasswordResetToken; names of users are unique.
unfoldable pub find_usable_token :
    ℕ → String → String → Directory → List PasswordResetToken → Option (PasswordResetToken × User)
find_usable_token now username code_hash d tokens =
    newest_usable now code_hash tokens (find_where (has_username username) d.users)

unfoldable pub has_unused_id : String → PasswordResetToken → Bool
has_unused_id id t = t.id == id && is_none t.used_at

-- MarkPasswordResetTokenUsed; the handler only logs that no row is unused.
unfoldable pub mark_token_used : ℕ → String → List PasswordResetToken → List PasswordResetToken
mark_token_used now id tokens =
    update_where (has_unused_id id) (λ t. record t { used_at = some now }) tokens

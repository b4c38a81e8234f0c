-- ===== src/Reset/Limit.antt =====
-- How many codes a user is sent.
use kvm_manager.Base.{
  ℕ, ◌≤◌, ◌<◌, String, ◌≡◌, subst, Bool, false, ◌||◌, Option, none, some, List, [], ◌∷◌, ◌++◌,
  arith, ◌==◌, eq_iff, Bool-cases, inl, inr, leb,
}
use kvm_manager.Text.{trim_space}
use kvm_manager.Sql.Rows.{count, count-append, count_mono}
use kvm_manager.Access.Users.{User}
use kvm_manager.Access.Users.Handlers.{Response}
use kvm_manager.Access.Users.Effects.{count-delete_where}
use kvm_manager.Reset.{
  PasswordResetToken, RuntimeSettings, is_recent, count_recent_tokens, is_cooling_down, is_stale,
  delete_stale_tokens,
}
use kvm_manager.Reset.Email.{is_email}
use kvm_manager.Reset.Tokens.{Signer, verify_reset_verification}
use kvm_manager.Reset.Handlers.{
  State, SendCodeRequest, found_user, new_token, send_code, check_send, send_checked,
  handle_send_code,
}

-- At `start` and later, no user has more codes within the span than the limit allows.
abbrev pub WithinLimit : RuntimeSettings → ℕ → List PasswordResetToken → Type 0
WithinLimit settings start tokens =
    (user_id : String) (now : ℕ)
    → start ≤ now
    → count_recent_tokens user_id now settings.rate_limit_span tokens ≤ settings.rate_limit_max

count_recent_later :
    (user_id : String) (now later span : ℕ) (tokens : List PasswordResetToken)
    → now ≤ later
    → count_recent_tokens user_id later span tokens ≤ count_recent_tokens user_id now span tokens
unfolding count_recent_tokens is_recent
count_recent_later user_id now later span tokens h =
    count_mono (is_recent user_id later span) (is_recent user_id now span) (λ t r. ground arith)
      tokens

one_token :
    (user_id : String) (now span : ℕ) (token : PasswordResetToken)
    → (count (is_recent user_id now span) (token ∷ []) ≤ 1)
      × ((token.user_id == user_id) ≡ false → count (is_recent user_id now span) (token ∷ []) ≡ 0)
unfolding is_recent
one_token user_id now span token = (ground arith, λ other. ground arith)

add_token :
    (settings : RuntimeSettings) (start now : ℕ) (token : PasswordResetToken)
    (tokens : List PasswordResetToken)
    → start ≤ now
    → count_recent_tokens token.user_id now settings.rate_limit_span tokens
      < settings.rate_limit_max
    → WithinLimit settings start tokens
    → WithinLimit settings now (delete_stale_tokens now (tokens ++ token ∷ []))
unfolding count_recent_tokens delete_stale_tokens
add_token settings start now token tokens order room within user_id later h =
    let span = settings.rate_limit_span in
    let recent = is_recent user_id later span in
    let fewer = count-delete_where (is_stale now) recent (tokens ++ token ∷ []) in
    let (at_most_one, other_user) = one_token user_id later span token in
    let sum = count-append recent tokens (token ∷ []) in
    elim (Bool-cases (token.user_id == user_id)) [
      | inl same ↦
          (let room' : count (is_recent user_id now span) tokens < settings.rate_limit_max =
              subst (λ u. count (is_recent u now span) tokens < settings.rate_limit_max)
                ((eq_iff token.user_id user_id).0 same) room in
            let before : count recent tokens ≤ count (is_recent user_id now span) tokens =
              count_recent_later user_id now later span tokens h in
            omega arith)
      | inr other ↦
          (let none_added = other_user other in
            let before : count recent tokens ≤ settings.rate_limit_max =
              within user_id later (omega arith) in
            omega arith)
    ]

WithinLimit-later :
    (settings : RuntimeSettings) (start now : ℕ) (tokens : List PasswordResetToken)
    → start ≤ now
    → WithinLimit settings start tokens
    → WithinLimit settings now tokens
WithinLimit-later settings start now tokens order within user_id later h =
    within user_id later (omega arith)

send_code-WithinLimit :
    (settings : RuntimeSettings) (start now : ℕ) (sent : Bool) (token : PasswordResetToken)
    (s : State)
    → start ≤ now
    → WithinLimit settings start s.tokens
    → WithinLimit settings now (send_code now settings sent token s).1.tokens
unfolding send_code
send_code-WithinLimit settings start now sent token s order within =
    let within' = WithinLimit-later settings start now s.tokens order within in
    let recent = count_recent_tokens token.user_id now settings.rate_limit_span s.tokens in
    elim (Bool-cases (is_cooling_down token.user_id now settings.send_cooldown s.tokens)) [
      | inl e ↦ rw (e, send_code) within'
      | inr e ↦ elim (Bool-cases (leb settings.rate_limit_max recent)) [
        | inl full ↦ rw (e, full, send_code) within'
        | inr room ↦
            rw (e, room, send_code)
              (add_token settings start now token s.tokens order (ground arith) within)
      ]
    ]

send_checked-WithinLimit :
    (settings : RuntimeSettings) (start now : ℕ) (sent : Bool) (id code_hash : String)
    (refusal : Option Response) (found : Option User) (s : State)
    → start ≤ now
    → WithinLimit settings start s.tokens
    → WithinLimit settings now
        (send_checked now settings sent id code_hash refusal found s).1.tokens
unfolding send_checked
send_checked-WithinLimit settings start now sent id code_hash (some r) found s order within =
    WithinLimit-later settings start now s.tokens order within
send_checked-WithinLimit settings start now sent id code_hash none none s order within =
    WithinLimit-later settings start now s.tokens order within
send_checked-WithinLimit settings start now sent id code_hash none (some u) s order within =
    send_code-WithinLimit settings start now sent (new_token now settings id code_hash u) s order
      within

handle_send_code-WithinLimit :
    (signer : Signer) (settings : RuntimeSettings) (start now : ℕ) (sent : Bool)
    (id code_hash : String) (input : SendCodeRequest) (s : State)
    → start ≤ now
    → WithinLimit settings start s.tokens
    → WithinLimit settings now
        (handle_send_code signer now settings sent id code_hash input s).1.tokens
unfolding handle_send_code found_user
handle_send_code-WithinLimit signer settings start now sent id code_hash input s order within =
    let username = trim_space input.username in
    let (found, s') = found_user username s in
    let within' = WithinLimit-later settings start now s.tokens order within in
    elim (Bool-cases (username == "" || trim_space input.channel == "")) [
      | inl e ↦ rw (e, handle_send_code) within'
      | inr e ↦ elim (Bool-cases (is_email (trim_space input.verify_email))) [
        | inr f ↦ rw (e, f, handle_send_code) within'
        | inl f ↦
            elim (Bool-cases
              (verify_reset_verification signer now input.verification_token username)) [
                | inr g ↦ rw (e, f, g, handle_send_code) within'
                | inl g ↦
                    rw (e, f, g, handle_send_code)
                      (send_checked-WithinLimit settings start now sent id code_hash
                        (check_send input found s.channels) found s' order within)
              ]
      ]
    ]

-- A request for a code, with its time, its outcome at the mail server, and what is drawn for it.
pub record SendEvent : Type 0 where
  pub now : ℕ
  pub sent : Bool
  pub id : String
  pub code_hash : String
  pub input : SendCodeRequest

-- Requests for codes, the latest first.
unfoldable pub send_codes : Signer → RuntimeSettings → List SendEvent → State → State
send_codes signer settings [] s = s
send_codes signer settings (e ∷ older) s =
    (handle_send_code signer e.now settings e.sent e.id e.code_hash e.input
      (send_codes signer settings older s)).1

-- The time of the latest request.
abbrev pub latest : ℕ → List SendEvent → ℕ
latest start [] = start
latest start (e ∷ older) = e.now

-- Each request comes no sooner than the one before.
abbrev pub IsOrdered : ℕ → List SendEvent → Type 0
IsOrdered start [] = Unit
IsOrdered start (e ∷ older) = (latest start older ≤ e.now) × IsOrdered start older

-- However many requests for codes come, with whatever input and one after another, at no time from
-- the last of them on has a user more codes within the span of the limit than the limit allows, if
-- that held at the start and the settings stay.
pub send_codes-WithinLimit :
    (signer : Signer) (settings : RuntimeSettings) (start : ℕ) (events : List SendEvent) (s : State)
    → IsOrdered start events
    → WithinLimit settings start s.tokens
    → WithinLimit settings (latest start events) (send_codes signer settings events s).tokens
unfolding send_codes
send_codes-WithinLimit signer settings start [] s ordered within = within
send_codes-WithinLimit signer settings start (e ∷ older) s (order, ordered) within =
    handle_send_code-WithinLimit signer settings (latest start older) e.now e.sent e.id e.code_hash
      e.input (send_codes signer settings older s) order
      (send_codes-WithinLimit signer settings start older s ordered within)

-- ===== src/Sessions/Revoked.antt =====
-- The tokens of a session that was logged out.
use kvm_manager.Base.{
  ℕ, String, ◌≡◌, ◌≢◌, sym, subst, ◌∙◌, true, false, none, List, ◌==◌, eq_iff, Bool-cases, inl, inr,
  any,
}
use kvm_manager.Sql.{delete_where}
use kvm_manager.Sql.Rows.{any-delete_where_self}
use kvm_manager.Sessions.{Accounts, Session, Crypto, has_jti, delete_session, validate, logout}
use kvm_manager.Sessions.Handlers.{handle_logout}
use kvm_manager.Sessions.Gone.{Visit, visits, never_drawn, IsGone, visits-IsGone, refused}

logout_removes :
    (crypto : Crypto) (now : ℕ) (token jti : String) (a : Accounts)
    → crypto.session_jti now token ≡ jti
    → jti ≢ ""
    → IsGone jti (logout crypto now token a)
unfolding logout delete_session
logout_removes crypto now token jti a signed filled =
    elim (Bool-cases (crypto.session_jti now token == "")) [
      | inl e ↦ absurd (filled (sym signed ∙ (eq_iff (crypto.session_jti now token) "").0 e))
      | inr e ↦
          rw (e, logout)
            (subst (λ x. any (has_jti jti) (delete_where (has_jti x) a.sessions) ≡ false)
              (sym signed) (any-delete_where_self (has_jti jti) a.sessions))
    ]

-- After a logout with a bearer token, no token with its identifier is accepted, at any time and after
-- any logins, uses of sessions, logouts and changes of passwords, as long as no login draws that
-- identifier again.
pub validate_after_logout :
    (crypto : Crypto) (now later : ℕ) (bearer token jti : String) (session : Session)
    (vs : List Visit) (a : Accounts)
    → crypto.session_jti now bearer ≡ jti
    → jti ≢ ""
    → crypto.session_jti later token ≡ jti
    → never_drawn jti vs ≡ true
    → (validate crypto later token
        (visits crypto vs (handle_logout crypto now bearer session a).1)).0
      ≡ none
unfolding handle_logout
validate_after_logout crypto now later bearer token jti session vs a signed filled same fresh =
    refused jti crypto later token (visits crypto vs (logout crypto now bearer a)) same (
      visits-IsGone jti crypto vs (logout crypto now bearer a) fresh
        (logout_removes crypto now bearer jti a signed filled))

-- ===== src/Server/Jwt.antt =====
-- backend/internal/users/jwt.go: tokens that say who is calling, and for how long.
use queue_ti.Base.{ℕ, ◌+◌, ◌*◌, Bool, Option, none, some, if◌then◌else◌}
use queue_ti.Base.Text.{Text}
use queue_ti.Queue.Config.{second}
use queue_ti.Server.Handler.{Claims}

abbrev pub token_duration : ℕ
token_duration = 15 * 60 * second

-- Claims of jwt.go: those of the caller, beside the registered ones that the code sets.
pub record TokenClaims : Type 0 where
  pub caller : Claims
  pub subject : Text
  pub issued_at : ℕ
  pub expires_at : ℕ

-- How a token says that it is signed: by HMAC, or in another way.
pub data SigningMethod : Type 0 where
  hmac other_method : SigningMethod

-- jwt.Token: its claims, if they are of the type that the caller gave.
pub record Token : Type 0 where
  pub valid : Bool
  pub claims : Option TokenClaims

-- github.com/golang-jwt/jwt: NewNumericDate, SignedString of a token by HS256 with a secret, and
-- ParseWithClaims at a time with a function that gives the key for a method.
pub record Jwt : Type 0 where
  pub numeric_date : ℕ → ℕ
  pub signed_string : Text → TokenClaims → Option Text
  pub parse_with_claims : ℕ → (SigningMethod → Option Text) → Text → Option Token

unfoldable pub issue_token : Jwt → Text → ℕ → Text → Text → Bool → Option Text
issue_token jwt secret now user_id username is_admin = jwt.signed_string secret (record {
  caller = record { user_id = user_id; username = username; is_admin = is_admin };
  subject = username;
  issued_at = jwt.numeric_date now;
  expires_at = jwt.numeric_date (now + token_duration);
})

-- The key function: only HMAC is accepted.
abbrev pub key_for : Text → SigningMethod → Option Text
key_for secret hmac = some secret
key_for secret other_method = none

abbrev pub checked_claims : Option Token → Option Claims
checked_claims none = none
checked_claims (some token) =
    if token.valid then elim token.claims [ none ↦ none | some cs ↦ some cs.caller ] else none

-- ParseToken at a time; `none` is ErrTokenInvalid.
unfoldable pub parse_token : Jwt → Text → ℕ → Text → Option Claims
parse_token jwt secret now token = checked_claims (jwt.parse_with_claims now (key_for secret) token)

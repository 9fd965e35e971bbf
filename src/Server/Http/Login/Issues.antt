-- ===== src/Server/Http/Login/Issues.antt =====
-- handlers_auth.go with interceptor.go: who gets a token, and what the token is good for.
use queue_ti.Base.{
  ℕ, ◌≡◌, refl, ap, ◌∙◌, ◌+◌, ltb, if◌then◌else◌, Bool-cases, inl, inr, Bool, true, false, not,
  Option, none, some, [], ◌∷◌, ◌++◌, arith, ◌||◌,
}
use queue_ti.Base.Text.{Text, has_prefix-append}
use queue_ti.Base.Table.{first}
use queue_ti.Users.Store.{User, Accounts, has_username, found, get_by_username}
use queue_ti.Users.Store.Effects.{Post, statement-Post}
use queue_ti.Server.Handler.{
  Server, Site, Claims, Handler, replies, refuses, answer, refuse, ◌>>=◌, ◌>>◌, is_empty,
}
use queue_ti.Server.Replied.{Replied, Replied-bind, Replied-on_store, replied}
use queue_ti.Server.Auth.{
  Code, unauthenticated, ParseToken, bearer, drop_bytes, token_claims, unary_interceptor,
}
use queue_ti.Server.Jwt.{
  Jwt, TokenClaims, SigningMethod, hmac, key_for, issue_token, parse_token, token_duration,
}
use queue_ti.Server.Http.{Answer, reject_if}
use queue_ti.Server.Http.Login.{
  LoginRequest, Tokens, user_status, token_for, token_or_500, handle_login,
}

found-Post :
    (p : User → Bool) (o : Option User) (s : Accounts) → Post (λ u _. o ≡ some u) (found o s)
found-Post p none s = tt
found-Post p (some u) s = refl

-- The token that is issued for a user with the name and the password.
abbrev pub Issued : Server → Tokens → ℕ → LoginRequest → Site → Answer Text → Type 0
Issued sv tokens now req s a =
    (u : User) × ((first (has_username req.username) s.accounts.users ≡ some u)
      × ((tokens.compare u.password_hash req.password ≡ true)
          × (token_for sv tokens now u ≡ some a.body)))

module _ (sv : Server) (tokens : Tokens) (now : ℕ) (req : LoginRequest) (s : Site) where
  Replied-token :
      (u : User) (t : Site)
      → first (has_username req.username) s.accounts.users ≡ some u
      → tokens.compare u.password_hash req.password ≡ true
      → (o : Option Text) → token_for sv tokens now u ≡ o
      → Replied (Issued sv tokens now req s) (token_or_500 o t)
  unfolding answer refuse
  Replied-token u t row same none e = tt
  Replied-token u t row same (some token) e = (u, (row, (same, e)))

  Replied-guard :
      (b : Bool) (status : ℕ) (n : Handler ℕ (Answer Text)) (t : Site)
      → (b ≡ false → Replied (Issued sv tokens now req s) (n t))
      → Replied (Issued sv tokens now req s) ((reject_if b status >> n) t)
  unfolding ◌>>=◌ answer refuse
  Replied-guard true status n t k = tt
  Replied-guard false status n t k = k refl

  -- A login that returns a token found the user of the name, the password matches the hash of that
  -- user, and the token is the one issued for that user at that time.
  pub handle_login-Issued :
      {a : Answer Text}
      → (handle_login sv tokens now (some req) s).0 ≡ replies a
      → Issued sv tokens now req s a
  unfolding handle_login get_by_username
  handle_login-Issued e =
      replied (Issued sv tokens now req s) _
        (Replied-guard (is_empty req.username || is_empty req.password) 400 _ s (λ _.
          Replied-bind (λ u. first (has_username req.username) s.accounts.users ≡ some u) _ _ _ s
            (Replied-on_store _ user_status _ s
              (statement-Post _ _ s.accounts (λ fs. found-Post (has_username req.username) _ _)))
            (λ u t row.
              Replied-guard (not (tokens.compare u.password_hash req.password)) 401 _ t
                (λ same. Replied-token u t row (ground arith) _ refl))))
        e

drop_bytes-append : (p s : Text) → drop_bytes p (p ++ s) ≡ s
unfolding drop_bytes
drop_bytes-append [] s = refl
drop_bytes-append (b ∷ p) s = drop_bytes-append p s

-- A header that carries a token is parsed for it.
token_claims-bearer :
    (parse : ParseToken) (token : Text) → token_claims parse (bearer ++ token) ≡ parse token
token_claims-bearer parse token =
    rw (has_prefix-append bearer token, drop_bytes-append bearer token) refl

-- What the token library promises of a token that it signed by HS256 with a secret, given to the
-- parser with that secret for HMAC: before its expiry it is valid and carries the claims of the
-- caller, and from then on it is an error.
pub record SignsAndParses (jwt : Jwt) : Type 0 where
  pub live :
      (secret token : Text) (cs : TokenClaims) (key : SigningMethod → Option Text) (now : ℕ)
      → jwt.signed_string secret cs ≡ some token
      → key hmac ≡ some secret
      → ltb now cs.expires_at ≡ true
      → (got : TokenClaims) × ((jwt.parse_with_claims now key token
            ≡ some (record { valid = true; claims = some got }))
          × (got.caller ≡ cs.caller))
  pub over :
      (secret token : Text) (cs : TokenClaims) (key : SigningMethod → Option Text) (now : ℕ)
      → jwt.signed_string secret cs ≡ some token
      → key hmac ≡ some secret
      → ltb now cs.expires_at ≡ false
      → jwt.parse_with_claims now key token ≡ none

-- The id, the name and the role of a user.
abbrev pub caller_of : Server → User → Claims
caller_of sv u = record {
  user_id = sv.postgres.uuid_out u.id;
  username = u.username;
  is_admin = u.is_admin;
}

module _ (sv : Server) (tokens : Tokens) (now later : ℕ) (library : SignsAndParses tokens.jwt) where
  -- When the token expires, as the library rounds it.
  abbrev expiry : ℕ
  expiry = tokens.jwt.numeric_date (now + token_duration)

  -- What a token that was issued at `now` is worth later.
  parsed :
      (u : User) (token : Text)
      → token_for sv tokens now u ≡ some token
      → parse_token tokens.jwt tokens.secret later token
        ≡ (if ltb later expiry then some (caller_of sv u) else none)
  unfolding parse_token issue_token
  parsed u token e = elim (Bool-cases (ltb later expiry)) [
    | inl b ↦
        let (got, (valid, same)) =
          library.live tokens.secret token _ (key_for tokens.secret) later e refl b in
        rw (b, valid) (ap some same)
    | inr b ↦ rw (b, library.over tokens.secret token _ (key_for tokens.secret) later e refl b) refl
  ]

  -- What the interceptor does with a header that carries a token.
  intercepted {ℓ} :
      {A : Type ℓ} (u : User) (token : Text) (t : Site) (handler : Option Claims → Handler Code A)
      → sv.auth_enabled ≡ true
      → token_for sv tokens now u ≡ some token
      → unary_interceptor sv
          (parse_token tokens.jwt tokens.secret later)
          (some ((bearer ++ token) ∷ []))
          handler
          t
        ≡ (if ltb later expiry
            then handler (some (caller_of sv u)) t
            else (refuses unauthenticated, t))
  unfolding unary_interceptor refuse
  intercepted u token t handler on e =
      let parse : ParseToken = parse_token tokens.jwt tokens.secret later in
      let carried = token_claims-bearer parse token ∙ parsed u token e in
      elim (Bool-cases (ltb later expiry)) [
        | inl b ↦
            let known : token_claims parse (bearer ++ token) ≡ some (caller_of sv u) =
              rw b at carried in
            rw (on, known, b) refl
        | inr b ↦
            let known : token_claims parse (bearer ++ token) ≡ none = rw b at carried in
            rw (on, known, b) refl
      ]

-- Let the server authenticate, and the token library keep its promise. A login that returns a token
-- found the user of the name, whose hash the password matches. That token, sent as a bearer token to
-- the gRPC server, runs the method with the id, name and role of that user until fifteen minutes
-- after the login, as the library rounds that time, and is refused as unauthenticated from then on,
-- with nothing changed.
pub login-unary_interceptor {ℓ} :
    {A : Type ℓ} (sv : Server) (tokens : Tokens) (now later : ℕ) (req : LoginRequest) (s t : Site)
    (handler : Option Claims → Handler Code A) {a : Answer Text}
    → SignsAndParses tokens.jwt
    → sv.auth_enabled ≡ true
    → (handle_login sv tokens now (some req) s).0 ≡ replies a
    → (u : User) × ((first (has_username req.username) s.accounts.users ≡ some u)
        × ((tokens.compare u.password_hash req.password ≡ true)
            × (unary_interceptor sv
                  (parse_token tokens.jwt tokens.secret later)
                  (some ((bearer ++ a.body) ∷ []))
                  handler
                  t
                ≡ (if ltb later (tokens.jwt.numeric_date (now + token_duration))
                    then handler (some (caller_of sv u)) t
                    else (refuses unauthenticated, t)))))
login-unary_interceptor sv tokens now later req s t handler {a} library on e =
    let (u, (row, (same, token))) = handle_login-Issued sv tokens now req s e in
    (u, (row, (same, intercepted sv tokens now later library u a.body t handler on token)))

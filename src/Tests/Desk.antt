-- ===== src/Tests/Desk.antt =====
-- Accounts, a site and a server for the tests of the user store and the servers.
use queue_ti.Base.{
  ℕ, ◌≡◌, refl, Bool, true, false, not, Option, none, some, List, [], ◌∷◌, ◌&&◌, arith,
  if◌then◌else◌, ltb, Bool-cases, inl, inr,
}
use queue_ti.Base.Text.{Text, bytes, text_eq, text_eq_iff, text_eq_refl}
use queue_ti.Base.Postgres.{Postgres}
use queue_ti.Users.Permissions.{consume}
use queue_ti.Users.Store.{User, GrantRow, Accounts, Visit}
use queue_ti.Users.Store.Invariant.{WfAccounts}
use queue_ti.Server.Handler.{Server, Site, Claims}
use queue_ti.Server.Jwt.{Token, TokenClaims, SigningMethod, hmac}
use queue_ti.Server.Http.Login.Issues.{SignsAndParses}
use queue_ti.Server.Http.Login.{Tokens}
use queue_ti.Tests.Scene.{service, message, cached_world}

-- The UUIDs of the tests are texts of one byte.
abbrev pub one_byte : Text → Option ℕ
one_byte [] = none
one_byte (b ∷ t) = some b

abbrev pub postgres : Postgres
postgres = record { uuid_in = one_byte; uuid_out = λ n. n ∷ []; collate = λ a b. true }

abbrev pub visit : Visit
visit = record { now = 700; uuid = 90; bcrypt = λ p. some (bytes "#") }

-- The id of the user is the byte "1".
abbrev pub ann : User
ann = record {
  id = 49;
  username = bytes "ann";
  password_hash = bytes "#";
  is_admin = false;
  created_at = 1;
  updated_at = 1;
}

abbrev pub ann_consumes : GrantRow
ann_consumes = record {
  id = 50;
  user_id = 49;
  action = consume;
  topic_pattern = bytes "bills";
  consumer_group = some (bytes "g");
  created_at = 2;
}

abbrev pub accounts : Accounts
accounts = record { users = ann ∷ []; grants = ann_consumes ∷ []; faults = [] }

abbrev pub no_accounts : Accounts
no_accounts = record { users = []; grants = []; faults = [] }

pub accounts-WfAccounts : WfAccounts accounts
unfolding queue_ti.Base.Table.any
accounts-WfAccounts = record {
  ids = (tt, tt);
  names = (tt, tt);
  grant_ids = (tt, tt);
  consumes = (tt, tt);
  owners = (refl, tt);
}

-- One pending message of "orders".
abbrev pub site : Site
site = record { queue = cached_world (bytes "orders") (message ∷ []); accounts = accounts }

abbrev pub server : Server
server = record { service = service; has_store = true; auth_enabled = true; postgres = postgres }

abbrev pub ann_claims : Claims
ann_claims = record { user_id = bytes "1"; username = bytes "ann"; is_admin = false }

-- A library that signs the claims of this user only: a token is its expiry and the secret.
abbrev pub is_ann : Claims → Bool
is_ann c =
    not c.is_admin
    && (text_eq c.user_id ann_claims.user_id && text_eq c.username ann_claims.username)

abbrev token_of : ℕ → Token
token_of expires_at = record {
  valid = true;
  claims =
      some (record { caller = ann_claims; subject = []; issued_at = 0; expires_at = expires_at });
}

abbrev if_key : ℕ → ℕ → Text → Option Text → Option Token
if_key now expires_at secret none = none
if_key now expires_at secret (some key) =
    if text_eq secret key
    then (if ltb now expires_at then some (token_of expires_at) else none)
    else none

abbrev parse_text : ℕ → (SigningMethod → Option Text) → Text → Option Token
parse_text now key [] = none
parse_text now key (expires_at ∷ secret) = if_key now expires_at secret (key hmac)

abbrev pub tokens : Tokens
tokens = record {
  compare = λ h p. true;
  jwt = record {
    numeric_date = λ t. t;
    signed_string = λ secret cs. if is_ann cs.caller then some (cs.expires_at ∷ secret) else none;
    parse_with_claims = parse_text;
  };
  secret = bytes "key";
}

is_ann-ann_claims : (c : Claims) → is_ann c ≡ true → ann_claims ≡ c
is_ann-ann_claims c same =
    let plain : c.is_admin ≡ false = ground arith in
    let id : c.user_id ≡ ann_claims.user_id =
      (text_eq_iff c.user_id ann_claims.user_id).0 (ground arith) in
    let name : c.username ≡ ann_claims.username =
      (text_eq_iff c.username ann_claims.username).0 (ground arith) in
    rw (plain, id, name) refl

-- What is signed is the expiry and the secret, for this user.
signed :
    (secret token : Text) (cs : TokenClaims)
    → tokens.jwt.signed_string secret cs ≡ some token
    → (token ≡ cs.expires_at ∷ secret) × (ann_claims ≡ cs.caller)
signed secret token cs e = elim (Bool-cases (is_ann cs.caller)) [
  | inr stranger ↦ absurd (let never : none ≡ some token = rw stranger at e in cc)
  | inl same ↦
      let given : some (cs.expires_at ∷ secret) ≡ some token = rw same at e in
      (cc, is_ann-ann_claims cs.caller same)
]

pub jwt-SignsAndParses : SignsAndParses tokens.jwt
jwt-SignsAndParses = record {
  live = λ secret token cs key now e k l.
      let (written, same) = signed secret token cs e in
      (
        record { caller = ann_claims; subject = []; issued_at = 0; expires_at = cs.expires_at },
        (rw (written, k, text_eq_refl secret, l) refl, same),
      );
  over = λ secret token cs key now e k l.
      let (written, same) = signed secret token cs e in
      rw (written, k, text_eq_refl secret, l) refl;
}

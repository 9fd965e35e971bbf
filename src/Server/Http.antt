-- ===== src/Server/Http.antt =====
-- http.go: the HTTP server. A refusal carries its status; an answer carries its status and body.
pub mod Listing
pub mod Middleware
pub mod Messages
pub mod Users
pub mod Topics
pub mod Admin
pub mod Login
use queue_ti.Base.{
  ℕ, ◌≤◌, ◌≡◌, Option, none, some, Bool, true, false, ltb, if◌then◌else◌, refl, arith, [], ◌∷◌,
}
use queue_ti.Base.Text.{Text, bytes}
use queue_ti.Base.Int.{ℤ, pos, negsuc}
use queue_ti.Queue.Error.{Error}
use queue_ti.Users.Store.{StoreError}
use queue_ti.Server.Handler.{Handler, answer, refuse}

pub record Answer {ℓ} (A : Type ℓ) : Type ℓ where
  pub status : ℕ
  pub body : A

abbrev pub Http {ℓ} : Type ℓ → Type ℓ
Http A = Handler ℕ (Answer A)

module _ {ℓ} {A : Type ℓ} where
  -- c.JSON
  abbrev pub json : A → Http A
  json a = answer (record { status = 200; body = a })

  -- c.Status(fiber.StatusCreated).JSON
  abbrev pub created : A → Http A
  created a = answer (record { status = 201; body = a })

  -- A body that does not parse.
  abbrev pub with_body {κ} : {B : Type κ} → Option B → (B → Http A) → Http A
  with_body none f = refuse 400
  with_body (some b) f = f b

-- c.SendStatus(fiber.StatusNoContent)
abbrev pub no_content : Http (Unit {0})
no_content = answer (record { status = 204; body = tt })

-- A guard of a handler.
abbrev pub reject_if : Bool → ℕ → Handler ℕ (Unit {0})
reject_if b status = if b then refuse status else answer tt

abbrev pub server_error : Error → ℕ
server_error e = 500

abbrev pub store_error : StoreError → ℕ
store_error e = 500

abbrev pub default_pattern : Text → Text
default_pattern [] = bytes "*"
default_pattern (b ∷ t) = b ∷ t

-- The query parameters `limit` and `offset` as c.QueryInt gives them.
abbrev pub clamp_limit : ℕ → ℤ → ℕ
clamp_limit most (negsuc n) = 1
clamp_limit most (pos n) = if ltb n 1 then 1 else if ltb most n then most else n

abbrev pub clamp_offset : ℤ → ℕ
clamp_offset (negsuc n) = 0
clamp_offset (pos n) = n

abbrev pub or_default : ℕ → Option ℤ → ℤ
or_default default none = pos default
or_default default (some n) = n

unfoldable pub parse_limit_offset : ℕ → ℕ → Option ℤ → Option ℤ → ℕ × ℕ
parse_limit_offset default most limit offset =
    (clamp_limit most (or_default default limit), clamp_offset (or_default 0 offset))

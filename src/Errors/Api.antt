-- ===== src/Errors/Api.antt =====
-- packages/agent-api/src/api-error.ts: the projection of a failure, the name that it carries across a
-- call of another object, and how the caller reads that name.
use Prim.Native.String.{[] as end, ◌∷◌ as cons}
use Prim.Native.Char.{code}
use cf_open_agents_api.Prelude.{
  String, Bool, true, false, ◌&&◌, ◌||◌, Option, none, some, List, [], ◌∷◌, if◌then◌else◌, leb,
  ◌==◌, nat_eq,
}

-- `Status`
pub data Status : Type 0 where
  status_400 : Status
  status_401 : Status
  status_404 : Status
  status_409 : Status
  status_413 : Status
  status_422 : Status
  status_429 : Status
  status_500 : Status
  status_503 : Status

-- `STATUSES`
abbrev pub statuses : List Status
statuses =
    status_400 ∷ status_401 ∷ status_404 ∷ status_409 ∷ status_413 ∷ status_422 ∷ status_429
    ∷ status_500 ∷ status_503 ∷ []

abbrev pub digits : Status → String
digits status_400 = "400"
digits status_401 = "401"
digits status_404 = "404"
digits status_409 = "409"
digits status_413 = "413"
digits status_422 = "422"
digits status_429 = "429"
digits status_500 = "500"
digits status_503 = "503"

-- `ApiError`
pub record ApiError : Type 0 where
  pub status : Status
  pub code : String
  pub message : String

abbrev pub answer : Status → String → String → ApiError
answer status code message = record { status = status; code = code; message = message }

-- The text of two texts.
abbrev pub joined : String → String → String
joined end text = text
joined (cons c first) text = cons c (joined first text)

-- What `new ApiError` sets `name` to.
abbrev pub error_name : ApiError → String
error_name e = joined "AgentApiError:" (joined (digits e.status) (joined ":" e.code))

-- What a call of another object leaves of an error.
pub record RemoteError : Type 0 where
  pub name : String
  pub message : String

-- `text` after a prefix.
unfoldable pub after_prefix : String → String → Option String
after_prefix end text = some text
after_prefix (cons c prefix) end = none
after_prefix (cons c prefix) (cons d text) =
    let rest = after_prefix prefix text in if code c == code d then rest else none

-- `[a-z_]*`, to the end
unfoldable pub is_code : String → Bool
is_code end = true
is_code (cons c text) = (leb b'a' (code c) && leb (code c) b'z' || code c == b'_') && is_code text

abbrev pub is_empty : String → Bool
is_empty end = true
is_empty (cons c text) = false

-- The status that a text starts with, `:` after it, and the rest.
unfoldable pub status_of : List Status → String → Option (Status × String)
status_of [] text = none
status_of (s ∷ more) text = elim (after_prefix (joined (digits s) ":") text) [
  | none ↦ status_of more text
  | some rest ↦ some (s, rest)
]

abbrev pub coded : String → Option (Status × String) → Option ApiError
coded message none = none
coded message (some (status, code)) =
    if is_empty code then none else if is_code code then some (answer status code message) else none

abbrev pub named : String → Option String → Option ApiError
named message none = none
named message (some rest) = coded message (status_of statuses rest)

-- `remoteApiError(error)`, of an error that is no `ApiError`
unfoldable pub remote_api_error : RemoteError → Option ApiError
remote_api_error error = named error.message (after_prefix "AgentApiError:" error.name)

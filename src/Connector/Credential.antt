-- ===== src/Connector/Credential.antt =====
-- internal/connector/authorization.go: credentials, and the server's side of the handshake.
-- SHA-256 in hexadecimal and the random generator are parameters; a message is what JSON encodes.
pub mod Checks
use sqlgo.Base.{
  ℕ, Bytes, Bool, true, false, Option, some, none, List, [], ◌∷◌, ◌++◌, map, Result, ok, err,
  bytes_eq, if◌then◌else◌,
}

-- `Mode` is any string in the file; those that are none of the three constants are `other_mode`.
pub data AuthMode : Type 0 where
  mode_none mode_password mode_token : AuthMode
  other_mode : Bytes → AuthMode

pub record Credential : Type 0 where
  pub mode : AuthMode
  pub password_hash : Bytes
  pub salt : Bytes
  pub tokens : List Bytes

pub record HandshakeReq : Type 0 where
  pub version : ℕ
  pub password : Bytes
  pub token : Bytes

abbrev colon : Bytes
colon = 58 ∷ []

-- The side of the client in the handshake: it disconnects, or sends what JSON can not read, or a
-- request.
pub data Answer : Type 0 where
  disconnected malformed : Answer
  request : HandshakeReq → Answer

pub data Message : Type 0 where
  challenge : AuthMode → Bool → Message
  response : Bool → Message

pub data AuthError : Type 0 where
  send_failed client_disconnected parse_error authentication_failed : AuthError

-- `cred.Mode != ModeNone`.
abbrev pub requires : AuthMode → Bool
requires mode_none = false
requires mode_password = true
requires mode_token = true
requires (other_mode _) = true

-- The loop of `CheckToken`.
unfoldable pub has_token : Bytes → List Bytes → Bool
has_token got [] = false
has_token got (t ∷ tokens) =
    let rest = has_token got tokens in if bytes_eq got t then true else rest

module _ (sha256_hex : Bytes → Bytes) where
  unfoldable pub hash_password : Bytes → Bytes → Bytes
  hash_password password salt = sha256_hex (salt ++ colon ++ password)

  -- The salt is what `GenerateSalt` returns: none where the random generator fails.
  unfoldable pub new_password_credential : Option Bytes → Bytes → Option Credential
  new_password_credential none password = none
  new_password_credential (some salt) password = some (record {
    mode = mode_password;
    password_hash = hash_password password salt;
    salt = salt;
    tokens = [];
  })

  unfoldable pub new_token_credential : List Bytes → Credential
  new_token_credential tokens = record {
    mode = mode_token;
    password_hash = [];
    salt = [];
    tokens = map sha256_hex tokens;
  }

  unfoldable pub check_password : Credential → Bytes → Bool
  check_password c password = elim c.mode [
    | mode_none ↦ false
    | mode_password ↦ bytes_eq (hash_password password c.salt) c.password_hash
    | mode_token ↦ false
    | other_mode _ ↦ false
  ]

  unfoldable pub check_token : Credential → Bytes → Bool
  check_token c token = elim c.mode [
    | mode_none ↦ false
    | mode_password ↦ false
    | mode_token ↦ has_token (sha256_hex token) c.tokens
    | other_mode _ ↦ false
  ]

  unfoldable pub check : Credential → HandshakeReq → Bool
  check c req = elim c.mode [
    | mode_none ↦ true
    | mode_password ↦ check_password c req.password
    | mode_token ↦ check_token c req.token
    | other_mode _ ↦ false
  ]

  abbrev pub answered :
      (Message → Bool) → Credential → Message → Answer → Result AuthError (Unit {0}) × List Message
  answered sends c first disconnected = (err client_disconnected, first ∷ [])
  answered sends c first malformed = (err parse_error, first ∷ response false ∷ [])
  answered sends c first (request req) =
      if check c req
      then (if sends (response true) then ok tt else err send_failed, first ∷ response true ∷ [])
      else (err authentication_failed, first ∷ response false ∷ [])

  -- `ServerHandshake`, with what it writes; `sends` tells which writes work.
  unfoldable pub server_handshake :
      (Message → Bool) → Credential → Answer → Result AuthError (Unit {0}) × List Message
  server_handshake sends c answer =
      let first = challenge c.mode (requires c.mode) in
      if sends first
      then (if requires c.mode then answered sends c first answer else (ok tt, first ∷ []))
      else (err send_failed, first ∷ [])

-- ===== src/Connector/Tests.antt =====
-- The theorems on credentials with a hash that is the identity.
use sqlgo.Base.{◌≡◌, ◌⊎◌, refl, Bytes, Bool, List, [], ◌∷◌, some, ok, true}
use sqlgo.Connector.Credential.{
  mode_none, mode_password, Credential, HandshakeReq, request, Message, new_password_credential,
  hash_password, check, check_password, server_handshake,
}
use sqlgo.Connector.Credential.Checks.{server_handshake-check}

abbrev identity : Bytes → Bytes
identity bytes = bytes

abbrev req : HandshakeReq
req = record { version = 1; password = 112 ∷ 119 ∷ []; token = 116 ∷ [] }

abbrev password : Bytes
password = 112 ∷ 119 ∷ []

abbrev salt : Bytes
salt = 1 ∷ 2 ∷ []

abbrev credential : Credential
credential = record {
  mode = mode_password;
  password_hash = 1 ∷ 2 ∷ 58 ∷ 112 ∷ 119 ∷ [];
  salt = salt;
  tokens = [];
}

made : new_password_credential identity (some salt) password ≡ some credential
unfolding new_password_credential hash_password
made = refl

abbrev tokens : List Bytes
tokens = (120 ∷ []) ∷ (116 ∷ []) ∷ []

abbrev sends_all : Message → Bool
sends_all m = true

passes : (server_handshake identity sends_all credential (request req)).0 ≡ ok tt
unfolding server_handshake check check_password hash_password
passes = refl

server_handshake-check_example :
    (credential.mode ≡ mode_none)
    ⊎ ((r : HandshakeReq) × (request req ≡ request r) × (check identity credential r ≡ true))
server_handshake-check_example =
    server_handshake-check identity sends_all credential (request req) passes

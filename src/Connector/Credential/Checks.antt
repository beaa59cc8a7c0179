-- ===== src/Connector/Credential/Checks.antt =====
-- Who passes the check of a credential, and the handshake.
use sqlgo.Base.{
  ◌≡◌, ◌↔◌, ◌⊎◌, refl, sym, ap, ◌∙◌, arith, Bytes, Bool, true, some, List, [], ◌∷◌, ◌++◌, map,
  Result, ok, bytes_eq, bytes_eq_iff, bytes_eq_self, Bool-cases, if_then, inl, inr,
}
use sqlgo.Connector.Credential.{
  AuthError, AuthMode, mode_none, mode_password, mode_token, other_mode, Credential, HandshakeReq,
  Answer, request, disconnected, malformed, Message, challenge, requires, answered, hash_password,
  new_password_credential, new_token_credential, has_token, check, check_token, check_password,
  server_handshake,
}

-- An element of a list of tokens, as a position in it.
abbrev pub IsIn : Bytes → List Bytes → Type 0
IsIn t l = (before after : List Bytes) × (l ≡ before ++ t ∷ after)

suffix-eq : (p x y : Bytes) → p ++ (58 ∷ []) ++ x ≡ p ++ (58 ∷ []) ++ y → x ≡ y
suffix-eq [] x y h = cc
suffix-eq (b ∷ p) x y h = suffix-eq p x y cc

requires-cases : (m : AuthMode) → (m ≡ mode_none) ⊎ (requires m ≡ true)
requires-cases mode_none = inl refl
requires-cases mode_password = inr refl
requires-cases mode_token = inr refl
requires-cases (other_mode s) = inr refl

module _ (sha256_hex : Bytes → Bytes) where
  -- SHA-256 has no collision between the inputs at hand.
  abbrev pub Separates : Bytes → Bytes → Type 0
  Separates x y = sha256_hex x ≡ sha256_hex y → x ≡ y

  has_token-hashed :
      (before after : List Bytes) (t : Bytes)
      → has_token (sha256_hex t) (map sha256_hex (before ++ t ∷ after)) ≡ true
  unfolding has_token
  has_token-hashed [] after t = rw (bytes_eq_self (sha256_hex t)) refl
  has_token-hashed (b ∷ before) after t = ground (arith, has_token-hashed before after t)

  IsIn-hashed :
      (tokens : List Bytes) (t : Bytes)
      → ((u : Bytes) → IsIn u tokens → Separates t u)
      → has_token (sha256_hex t) (map sha256_hex tokens) ≡ true
      → IsIn t tokens
  unfolding has_token
  IsIn-hashed [] t sep h = cc
  IsIn-hashed (u ∷ tokens) t sep h = elim (Bool-cases (bytes_eq (sha256_hex t) (sha256_hex u))) [
    | inl same ↦
        let e = sep u ([], tokens, refl) ((bytes_eq_iff _ _).0 same) in ([], tokens, rw e refl)
    | inr other ↦
        let sep' = λ (v : Bytes) (i : IsIn v tokens). sep v (u ∷ i.0, i.1, ap (λ l. u ∷ l) i.2) in
        let (before, after, e) = IsIn-hashed tokens t sep' (rw other at h) in
        (u ∷ before, after, ap (λ l. u ∷ l) e)
  ]

  -- A request passes the check of a credential made from a password if it has this password, and,
  -- where the hash keeps the two salted passwords apart, only then.
  pub check-new_password_credential :
      (salt password : Bytes) (req : HandshakeReq) (c : Credential)
      → Separates (salt ++ (58 ∷ []) ++ req.password) (salt ++ (58 ∷ []) ++ password)
      → new_password_credential sha256_hex (some salt) password ≡ some c
      → check sha256_hex c req ≡ true ↔ req.password ≡ password
  unfolding check check_password new_password_credential hash_password
  check-new_password_credential salt password req c sep e =
      let made : (record {
        mode = mode_password;
        password_hash = sha256_hex (salt ++ (58 ∷ []) ++ password);
        salt = salt;
        tokens = [];
      }
          ≡ c) =
        cc in
      rw (sym made) (
        λ h. suffix-eq salt _ _ (sep ((bytes_eq_iff _ _).0 h)),
        λ h. rw h (bytes_eq_self (sha256_hex (salt ++ (58 ∷ []) ++ password))),
      )

  -- A request passes the check of a credential made from tokens exactly if its token is among
  -- them, where the hash keeps its token apart from the others.
  pub check-new_token_credential :
      (tokens : List Bytes) (req : HandshakeReq)
      → ((t : Bytes) → IsIn t tokens → Separates req.token t)
      → check sha256_hex (new_token_credential sha256_hex tokens) req ≡ true ↔ IsIn req.token tokens
  unfolding check check_token new_token_credential has_token
  check-new_token_credential tokens req sep = (
    λ h. IsIn-hashed tokens req.token sep h,
    λ (before, after, e). rw e (has_token-hashed before after req.token),
  )

  answered-check :
      (sends : Message → Bool) (c : Credential) (first : Message) (answer : Answer)
      → (answered sha256_hex sends c first answer).0 ≡ ok tt
      → (req : HandshakeReq) × (answer ≡ request req) × (check sha256_hex c req ≡ true)
  answered-check sends c first disconnected h = cc
  answered-check sends c first malformed h = cc
  answered-check sends c first (request req) h = elim (Bool-cases (check sha256_hex c req)) [
    | inl fine ↦ (req, refl, fine)
    | inr wrong ↦ absurd (ground (arith, h, wrong))
  ]

  -- A client passes the server's side of the handshake only if the server asks for nothing, or it
  -- sent a request that passes the check.
  pub server_handshake-check :
      (sends : Message → Bool) (c : Credential) (answer : Answer)
      → (server_handshake sha256_hex sends c answer).0 ≡ ok tt
      → (c.mode ≡ mode_none)
        ⊎ ((req : HandshakeReq) × (answer ≡ request req) × (check sha256_hex c req ≡ true))
  unfolding server_handshake
  server_handshake-check sends c answer h =
      let first = challenge c.mode (requires c.mode) in
      elim (Bool-cases (sends first)) [
        | inr fails ↦ absurd (ground (arith, h, fails))
        | inl works ↦ elim (requires-cases c.mode) [
          | inl open_ ↦ inl open_
          | inr closed ↦
              let e : (server_handshake sha256_hex sends c answer
                  ≡ answered sha256_hex sends c first answer) =
                if_then (sends first) _ _ works ∙ if_then (requires c.mode) _ _ closed in
              inr (
                answered-check sends c first answer
                  (sym (ap (λ (r : Result AuthError (Unit {0}) × List Message). r.0) e) ∙ h))
        ]
      ]

-- ===== src/Deploy/RoundTrip.antt =====
-- What a token of apps/api/src/deploy-confirmation-authority.ts stands for.
use ollama_remote_control.Prelude.{
  ◌+◌, ◌*◌, ◌≤◌, ◌<◌, ◌≡◌, refl, ap, true, false, not, ◌||◌, Option, none, some, [], ◌∷◌, ◌++◌,
  arith, any, ok, length, ltb,
}
use ollama_remote_control.Modelfile.Chars.{Text, is_empty}
use ollama_remote_control.Deploy.Authority.{
  DeployConfirmationAuthority, JsonNumber, TokenPayload, payload, token_prefix, is_hex_digit,
  is_url_char, is_digest, is_nonce, valid_authority, to_lower, create_deploy_confirmation_token,
  authority_of_payload, is_encoded, parse_deploy_confirmation_token, digest_json, size_json,
  digest_of, size_of,
}

-- Lower case does not change a digest.
lower-digits : (t : Text) → any (λ c. not (is_hex_digit c)) t ≡ false → to_lower t ≡ t
unfolding any to_lower
lower-digits [] h = refl
lower-digits (c ∷ cs) h = ground (arith, lower-digits cs)

digest_of-digest_json :
    (o : Option Text) → ((t : Text) → o ≡ some t → to_lower t ≡ t) → digest_of (digest_json o) ≡ o
digest_of-digest_json none same = refl
digest_of-digest_json (some t) same = ap some (same t refl)

size_of-size_json : (o : Option JsonNumber) → size_of (size_json o) ≡ o
size_of-size_json none = refl
size_of-size_json (some k) = refl

lower-digest :
    (a : DeployConfirmationAuthority) (t : Text)
    → valid_authority a ≡ true
    → a.existing_destination_digest ≡ some t
    → to_lower t ≡ t
unfolding valid_authority is_digest
lower-digest a t valid digest = ground (arith, lower-digits t)

payload-authority :
    (a : DeployConfirmationAuthority) (nonce : Text)
    → valid_authority a ≡ true
    → is_nonce nonce ≡ true
    → authority_of_payload (some (payload a nonce)) ≡ some a
unfolding authority_of_payload
payload-authority a nonce valid fresh =
    let digest =
      digest_of-digest_json a.existing_destination_digest (λ t. lower-digest a t valid) in
    let size = size_of-size_json a.existing_destination_size_bytes in
    rw (fresh, digest, size, valid) refl

-- What the code relies on of base64url: its characters, and four of them for three bytes.
pub record IsBase64url (base64url : Text → Text) : Type 0 where
  pub alphabet : (b : Text) → any (λ c. not (is_url_char c)) (base64url b) ≡ false
  pub at_least : (b : Text) → 4 * length b ≤ 3 * length (base64url b)
  pub at_most : (b : Text) → 3 * length (base64url b) ≤ 4 * length b + 2

module _ (base64url : Text → Text) (encoder : IsBase64url base64url) where
  -- 32 random bytes make a nonce.
  random-is_nonce : (random : Text) → length random ≡ 32 → is_nonce (base64url random) ≡ true
  unfolding is_nonce
  random-is_nonce random size =
      ground (arith, encoder.alphabet random, encoder.at_least random, encoder.at_most random)

  nonce-length : (random : Text) → length random ≡ 32 → length (base64url random) ≡ 43
  nonce-length random size = omega (arith, encoder.at_least random, encoder.at_most random)

  -- The encoded form of a short text fits into a token.
  short-is_encoded : (t : Text) → 0 < length t → length t ≤ 576 → is_encoded (base64url t) ≡ true
  unfolding is_encoded
  short-is_encoded t some_bytes short =
      let few : length (base64url t) ≤ 768 = omega (arith, encoder.at_most t) in
      let more : 0 < length (base64url t) = omega (arith, encoder.at_least t) in
      fits (base64url t) (encoder.alphabet t) more few
    where
      fits :
          (e : Text)
          → any (λ c. not (is_url_char c)) e ≡ false
          → 0 < length e
          → length e ≤ 768
          → not (is_empty e || ltb 768 (length e) || any (λ c. not (is_url_char c)) e) ≡ true
      fits [] good more few = absurd (omega arith)
      fits (c ∷ cs) good more few = ground arith

-- A token that is created for a valid authority is read back as that authority. The nonce is the base64url form of
-- 32 bytes, and the payload that of a JSON text, which is not empty, has at most 110 characters besides the nonce
-- (30 of its own, 64 of a digest, 16 of a size), and is decoded to the payload.
pub parse_deploy_confirmation_token-create :
    (json : TokenPayload → Text) (base64url : Text → Text) (decode : Text → Option TokenPayload)
    (random : Text) (a : DeployConfirmationAuthority)
    → IsBase64url base64url
    → length random ≡ 32
    → valid_authority a ≡ true
    → 0 < length (json (payload a (base64url random)))
    → length (json (payload a (base64url random))) ≤ 110 + length (base64url random)
    → decode (base64url (json (payload a (base64url random)))) ≡ some (payload a (base64url random))
    → (token : Text) × (create_deploy_confirmation_token
          (λ p. base64url (json p))
          (base64url random)
          a
        ≡ ok token)
      × (parse_deploy_confirmation_token decode token ≡ some a)
unfolding create_deploy_confirmation_token parse_deploy_confirmation_token
parse_deploy_confirmation_token-create json base64url decode random a encoder size valid nonempty
      short decodes =
    let nonce = base64url random in
    let fresh = random-is_nonce base64url encoder random size in
    let small : length (json (payload a nonce)) ≤ 576 =
      omega (arith, short, nonce-length base64url encoder random size) in
    let form = short-is_encoded base64url encoder (json (payload a nonce)) nonempty small in
    (
      token_prefix ++ base64url (json (payload a nonce)),
      rw valid refl,
      rw (form, decodes) (payload-authority a nonce valid fresh),
    )

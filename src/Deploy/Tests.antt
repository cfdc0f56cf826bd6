-- ===== src/Deploy/Tests.antt =====
-- A token with a base64url encoder, and the check of a destination.
use ollama_remote_control.Prelude.{
  ℕ, ◌+◌, ◌-◌, ◌*◌, ◌/◌, ◌%◌, ◌≤◌, ◌≡◌, refl, true, false, not, Option, none, some, [], ◌∷◌, arith,
  any, ok, ltb, ◌==◌, length, text_eq, text_eq_self, if◌then◌else◌,
}
use ollama_remote_control.Modelfile.Chars.{Text, codes}
use ollama_remote_control.Deploy.Authority.{
  DeployConfirmationAuthority, DestinationIdentity, passed, replacement_target_stale, TokenPayload,
  payload, is_digest, is_url_char, valid_authority, create_deploy_confirmation_token,
  parse_deploy_confirmation_token, check_destination_authority, natural,
}
use ollama_remote_control.Deploy.RoundTrip.{IsBase64url, parse_deploy_confirmation_token-create}

abbrev digest : Text
digest = codes "0123456789abcdef0123456789abcdef0123456789abcdef0123456789abcdef"

abbrev replacement : DeployConfirmationAuthority
replacement = record {
  replace_existing = true;
  existing_destination_digest = some digest;
  existing_destination_size_bytes = some (natural 7);
}

-- A digit of base64url.
abbrev url_digit : ℕ → ℕ
url_digit d =
    if ltb d 26
    then 65 + d
    else if ltb d 52
    then 71 + d
    else if ltb d 62
    then d - 4
    else if d == 62
    then b'-'
    else b'_'

-- base64url of bytes.
base64url : Text → Text
base64url [] = []
base64url (a ∷ []) = url_digit (a / 4) ∷ url_digit (a % 4 * 16) ∷ []
base64url (a ∷ b ∷ []) =
    url_digit (a / 4) ∷ url_digit (a % 4 * 16 + b / 16) ∷ url_digit (b % 16 * 4) ∷ []
base64url (a ∷ b ∷ c ∷ rest) =
    url_digit (a / 4)
    ∷ url_digit (a % 4 * 16 + b / 16)
    ∷ url_digit (b % 16 * 4 + c / 64)
    ∷ url_digit (c % 64)
    ∷ base64url rest

url_digit-is_url_char : (d : ℕ) → is_url_char (url_digit d) ≡ true
url_digit-is_url_char d = ground arith

base64url-alphabet : (b : Text) → any (λ c. not (is_url_char c)) (base64url b) ≡ false
unfolding any base64url
base64url-alphabet [] = refl
base64url-alphabet (a ∷ []) =
    rw (url_digit-is_url_char (a / 4), url_digit-is_url_char (a % 4 * 16)) refl
base64url-alphabet (a ∷ b ∷ []) =
    rw
      (
        url_digit-is_url_char (a / 4),
        url_digit-is_url_char (a % 4 * 16 + b / 16),
        url_digit-is_url_char (b % 16 * 4),
      )
      refl
base64url-alphabet (a ∷ b ∷ c ∷ rest) =
    rw
      (
        url_digit-is_url_char (a / 4),
        url_digit-is_url_char (a % 4 * 16 + b / 16),
        url_digit-is_url_char (b % 16 * 4 + c / 64),
        url_digit-is_url_char (c % 64),
      )
      (base64url-alphabet rest)

base64url-length :
    (b : Text)
    → (4 * length b ≤ 3 * length (base64url b)) × (3 * length (base64url b) ≤ 4 * length b + 2)
unfolding base64url
base64url-length [] = omega arith
base64url-length (a ∷ []) = omega arith
base64url-length (a ∷ b ∷ []) = omega arith
base64url-length (a ∷ b ∷ c ∷ rest) = omega (arith, base64url-length rest)

base64url-IsBase64url : IsBase64url base64url
base64url-IsBase64url = record {
  alphabet = base64url-alphabet;
  at_least = λ b. (base64url-length b).0;
  at_most = λ b. (base64url-length b).1;
}

abbrev random : Text
random = codes "0123456789abcdef0123456789abcdef"

-- The JSON text of the payload below.
abbrev json : TokenPayload → Text
json p =
    codes
      "{\"r\":true,\"d\":\"0123456789abcdef0123456789abcdef0123456789abcdef0123456789abcdef\",\"s\":7,\"n\":\"MDEyMzQ1Njc4OWFiY2RlZjAxMjM0NTY3ODlhYmNkZWY\"}"

decode : Text → Option TokenPayload
decode t =
    if text_eq t (base64url (json (payload replacement (base64url random))))
    then some (payload replacement (base64url random))
    else none

decode-encoded :
    decode (base64url (json (payload replacement (base64url random))))
    ≡ some (payload replacement (base64url random))
unfolding decode
decode-encoded = rw (text_eq_self (base64url (json (payload replacement (base64url random))))) refl

test_nonce : base64url random ≡ codes "MDEyMzQ1Njc4OWFiY2RlZjAxMjM0NTY3ODlhYmNkZWY"
unfolding base64url
test_nonce = refl

parse_deploy_confirmation_token-create_example :
    (token : Text) × (create_deploy_confirmation_token
        (λ p. base64url (json p))
        (base64url random)
        replacement
      ≡ ok token)
    × (parse_deploy_confirmation_token decode token ≡ some replacement)
unfolding valid_authority is_digest any base64url
parse_deploy_confirmation_token-create_example =
    parse_deploy_confirmation_token-create json base64url decode random replacement
      base64url-IsBase64url refl refl (omega arith) (omega arith) decode-encoded

abbrev same_destination : DestinationIdentity
same_destination = record { digest = digest; size_bytes = natural 7 }

test_confirmed : check_destination_authority replacement (some same_destination) ≡ passed
unfolding check_destination_authority
test_confirmed = refl

test_stale :
    check_destination_authority replacement
      (some (record { digest = digest; size_bytes = natural 8 }))
    ≡ replacement_target_stale
unfolding check_destination_authority
test_stale = refl

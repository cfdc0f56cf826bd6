-- ===== src/Deploy/Authority.antt =====
-- Tokens that confirm a deployment, apps/api/src/deploy-confirmation-authority.ts. JSON and base64url are
-- the arguments `encode` and `decode`, where `decode` gives `none` if it throws; the random nonce is an argument.
use ollama_remote_control.Prelude.{
  ℕ, ◌+◌, Bool, true, false, not, ◌&&◌, ◌||◌, Option, none, some, ◌++◌, map, ltb, leb, ◌==◌,
  if◌then◌else◌, text_eq, length, drop, take, any, Result, ok, err,
}
use ollama_remote_control.Modelfile.Chars.{Text, codes, is_empty, within}

-- A number of JSON: a natural number, or another one, as it is written.
pub data JsonNumber : Type 0 where
  natural : ℕ → JsonNumber
  other_number : Text → JsonNumber

pub data Json : Type 0 where
  boolean : Bool → Json
  text : Text → Json
  number : JsonNumber → Json
  null undefined other_value : Json

pub record DeployConfirmationAuthority : Type 0 where
  pub replace_existing : Bool
  pub existing_destination_digest : Option Text
  pub existing_destination_size_bytes : Option JsonNumber

pub record DestinationIdentity : Type 0 where
  pub digest : Text
  pub size_bytes : JsonNumber

pub data DestinationAuthorityCheck : Type 0 where
  passed destination_exists replacement_target_missing replacement_target_stale :
      DestinationAuthorityCheck

pub record TokenPayload : Type 0 where
  pub r : Json
  pub d : Json
  pub s : Json
  pub n : Json

pub data AuthorityError : Type 0 where
  invalid_authority : AuthorityError

abbrev pub token_prefix : Text
token_prefix = codes "orc-deploy-v1."

abbrev pub is_hex_digit : ℕ → Bool
is_hex_digit c = within b'a' b'f' c || within b'0' b'9' c

abbrev pub is_url_char : ℕ → Bool
is_url_char c =
    within b'A' b'Z' c || within b'a' b'z' c || within b'0' b'9' c || c == b'_' || c == b'-'

-- `DIGEST_PATTERN`
unfoldable pub is_digest : Text → Bool
is_digest t = length t == 64 && not (any (λ c. not (is_hex_digit c)) t)

-- `NONCE_PATTERN`
unfoldable pub is_nonce : Text → Bool
is_nonce t = leb 32 (length t) && leb (length t) 128 && not (any (λ c. not (is_url_char c)) t)

-- `Number.isSafeInteger(value) && value >= 0`
abbrev pub is_safe_size : JsonNumber → Bool
is_safe_size (natural k) = leb k 9007199254740991
is_safe_size (other_number t) = false

abbrev valid_replacement : Option Text → Option JsonNumber → Bool
valid_replacement (some digest) (some size) = is_digest digest && is_safe_size size
valid_replacement _ _ = false

abbrev nothing_confirmed : Option Text → Option JsonNumber → Bool
nothing_confirmed none none = true
nothing_confirmed _ _ = false

unfoldable pub valid_authority : DeployConfirmationAuthority → Bool
valid_authority a =
    if not a.replace_existing
    then nothing_confirmed a.existing_destination_digest a.existing_destination_size_bytes
    else valid_replacement a.existing_destination_digest a.existing_destination_size_bytes

-- `toLowerCase`, as far as a digest can tell: no character but a capital letter of ASCII becomes a
-- hexadecimal digit.
unfoldable pub to_lower : Text → Text
to_lower t = map (λ c. if within b'A' b'Z' c then c + 32 else c) t

abbrev pub digest_json : Option Text → Json
digest_json none = null
digest_json (some t) = text t

abbrev pub size_json : Option JsonNumber → Json
size_json none = null
size_json (some k) = number k

abbrev pub digest_of : Json → Option Text
digest_of (text t) = some (to_lower t)
digest_of _ = none

abbrev pub size_of : Json → Option JsonNumber
size_of (number k) = some k
size_of _ = none

abbrev pub payload : DeployConfirmationAuthority → Text → TokenPayload
payload a nonce = record {
  r = boolean a.replace_existing;
  d = digest_json a.existing_destination_digest;
  s = size_json a.existing_destination_size_bytes;
  n = text nonce;
}

unfoldable pub create_deploy_confirmation_token :
    (TokenPayload → Text) → Text → DeployConfirmationAuthority → Result AuthorityError Text
create_deploy_confirmation_token encode nonce a =
    if not (valid_authority a)
    then err invalid_authority
    else ok (token_prefix ++ encode (payload a nonce))

abbrev checked_authority : DeployConfirmationAuthority → Option DeployConfirmationAuthority
checked_authority a = if valid_authority a then some a else none

abbrev authority_of_fields : Json → Json → Json → Json → Option DeployConfirmationAuthority
authority_of_fields (boolean r) d s (text n) =
    if not (is_nonce n)
    then none
    else checked_authority (record {
      replace_existing = r;
      existing_destination_digest = digest_of d;
      existing_destination_size_bytes = size_of s;
    })
authority_of_fields _ d s _ = none

unfoldable pub authority_of_payload : Option TokenPayload → Option DeployConfirmationAuthority
authority_of_payload none = none
authority_of_payload (some p) = authority_of_fields p.r p.d p.s p.n

-- The length and the characters that an encoded payload may have.
unfoldable pub is_encoded : Text → Bool
is_encoded t = not (is_empty t || ltb 768 (length t) || any (λ c. not (is_url_char c)) t)

unfoldable pub parse_deploy_confirmation_token :
    (Text → Option TokenPayload) → Text → Option DeployConfirmationAuthority
parse_deploy_confirmation_token decode token =
    let encoded = drop (length token_prefix) token in
    if not (text_eq (take (length token_prefix) token) token_prefix)
    then none
    else if not (is_encoded encoded)
    then none
    else authority_of_payload (decode encoded)

abbrev pub same_number : JsonNumber → JsonNumber → Bool
same_number (natural a) (natural b) = a == b
same_number (other_number a) (other_number b) = text_eq a b
same_number _ _ = false

abbrev pub confirms : Option Text → Option JsonNumber → DestinationIdentity → Bool
confirms (some digest) (some size) destination =
    text_eq destination.digest digest && same_number destination.size_bytes size
confirms _ _ destination = false

abbrev check_fresh : Option DestinationIdentity → DestinationAuthorityCheck
check_fresh none = passed
check_fresh (some destination) = destination_exists

abbrev check_replacement :
    DeployConfirmationAuthority → Option DestinationIdentity → DestinationAuthorityCheck
check_replacement a none = replacement_target_missing
check_replacement a (some destination) =
    if confirms a.existing_destination_digest a.existing_destination_size_bytes destination
    then passed
    else replacement_target_stale

unfoldable pub check_destination_authority :
    DeployConfirmationAuthority → Option DestinationIdentity → DestinationAuthorityCheck
check_destination_authority a destination =
    if not a.replace_existing then check_fresh destination else check_replacement a destination

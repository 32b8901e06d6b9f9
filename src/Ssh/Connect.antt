-- ===== src/Ssh/Connect.antt =====
-- `SSHConnectionService.connect` and the functions that classify its errors.
use superflash_ia.Prelude.{
  ℕ, zero, suc, String, Bool, false, ◌||◌, Option, none, some, List, [], ◌∷◌, if◌then◌else◌,
  string_eq, truthy, or_else, or_text,
}
use superflash_ia.Text.{in_text}
use superflash_ia.Ssh.Catalogue.{SshCredentials, SshServiceError, coded}
use superflash_ia.Ssh.HostKey.{
  fingerprints_equal, HostKeyStatus, unknown, confirmed, already_trusted, policy_raised,
  not_the_known_key, accepted, check_key,
}

-- How a login ends: the key that the transport then tells, an authentication error that names the
-- methods or not, another error of the library, or one of the socket.
pub data Login : Type 0 where
  logged_in : Option String → Login
  rejected : Bool → String → Login
  interrupted : String → Login
  dropped : Bool → String → Login

-- What the network gives to one attempt: an error of the socket (a timeout or not), an error of the
-- library, or a host that offers a key.
pub data Network : Type 0 where
  socket_error : Bool → String → Network
  protocol_error : String → Network
  offers : String → Login → Network

-- `SSHSession`, as far as its construction decides it.
pub record Session : Type 0 where
  pub remote_fingerprint : Option String
  pub host_key_status : HostKeyStatus

pub data Attempt : Type 0 where
  connected : Session → Attempt
  service_error : SshServiceError → Attempt
  authentication_error : Bool → String → Attempt
  bad_host_key : String → Attempt
  ssh_exception : String → Attempt
  os_error : Bool → String → Attempt

abbrev any_in : List String → String → Bool
any_in [] text = false
any_in (m ∷ ms) text = in_text m text || any_in ms text

-- `lower` is `str.lower`; `is_key` is whether the library parses a private key; `known` is the key
-- that the loaded files have for the host, and `listed` the one that the client's own files have,
-- without those of the system.
module _ (lower : String → String) (is_key : String → Bool) (known listed : Option String) where
  -- `_looks_like_authentication_failure`
  unfoldable pub looks_like_authentication_failure : String → Bool
  looks_like_authentication_failure text =
      any_in
        ("authentication" ∷ "auth method" ∷ "no existing session" ∷ "publickey" ∷ "password" ∷ [])
        (lower text)

  -- `_classify_authentication_error`, its code; the first argument is whether the error is a
  -- `BadAuthenticationType`.
  unfoldable pub classify_authentication_error : Bool → String → SshCredentials → String
  classify_authentication_error bad_type message credentials =
      let text = lower message in
      if any_in ("unknown user" ∷ "invalid user" ∷ "user not found" ∷ []) text
      then "ssh_user_not_found"
      else if any_in ("root login" ∷ "root logins" ∷ []) text
      then "root_login_disabled"
      else if any_in ("public key required" ∷ "publickey required" ∷ []) text
      then "public_key_required"
      else if bad_type || in_text "publickey" text
      then "password_authentication_disabled"
      else if truthy credentials.password
      then "wrong_password"
      else "permission_denied"

  -- `_classify_connection_error`, its code.
  unfoldable pub classify_connection_error : Option (Bool × String) → String
  classify_connection_error none = "host_unreachable"
  classify_connection_error (some (is_timeout, message)) =
      let text = lower message in
      if is_timeout || any_in ("timed out" ∷ "timeout" ∷ []) text
      then "ssh_timeout"
      else if any_in ("refused" ∷ "connection reset" ∷ []) text
      then "firewall_blocked"
      else "host_unreachable"

  -- `_known_host_key_matches`
  abbrev pub known_host_key_matches : String → Bool
  known_host_key_matches key = elim listed [ none ↦ false | some k ↦ fingerprints_equal key k ]

  -- The session that a login gives; `answer` and `status` are the policy's.
  unfoldable pub session_of :
      SshCredentials → Option String → HostKeyStatus → Option String → Session
  session_of credentials answer status transport =
      let fingerprint = or_text answer credentials.expected_host_key_fingerprint in
      record {
        remote_fingerprint = elim fingerprint [ none ↦ transport | some f ↦ some f ];
        host_key_status = elim status [
          | unknown ↦ (elim transport [
            | none ↦ confirmed
            | some key ↦ if known_host_key_matches key then already_trusted else confirmed
          ])
          | confirmed ↦ confirmed
          | already_trusted ↦ already_trusted
        ];
      }

  abbrev log_in : SshCredentials → Option String → HostKeyStatus → Login → Attempt
  log_in credentials answer status (logged_in transport) =
      connected (session_of credentials answer status transport)
  log_in credentials answer status (rejected bad_type text) = authentication_error bad_type text
  log_in credentials answer status (interrupted text) = ssh_exception text
  log_in credentials answer status (dropped is_timeout text) = os_error is_timeout text

  -- `client.connect(**kwargs)`
  unfoldable pub client_connect : SshCredentials → Network → Attempt
  client_connect credentials (socket_error is_timeout text) = os_error is_timeout text
  client_connect credentials (protocol_error text) = ssh_exception text
  client_connect credentials (offers key login) =
      elim (check_key known credentials.expected_host_key_fingerprint key) [
        | policy_raised e ↦ service_error e
        | not_the_known_key ↦ bad_host_key key
        | accepted answer status ↦ log_in credentials answer status login
      ]

  -- The body of the `try`.
  unfoldable pub try_connect : SshCredentials → Network → Attempt
  try_connect credentials network =
      let attempt = client_connect credentials network in
      if truthy credentials.private_key
      then (if is_key (or_else credentials.private_key "")
          then attempt
          else service_error (coded "invalid_private_key"))
      else attempt

  pub data Connecting : Type 0 where
    opened : Session → Connecting
    raised : SshServiceError → Connecting

  -- One pass of the loop: it ends, or it goes on with `last_error`.
  pub data Pass : Type 0 where
    ends : Connecting → Pass
    goes_on : Bool × String → Pass

  unfoldable pub handle_attempt : SshCredentials → Attempt → Pass
  handle_attempt credentials (connected s) = ends (opened s)
  handle_attempt credentials (service_error e) = ends (raised e)
  handle_attempt credentials (authentication_error bad_type text) =
      ends (raised (coded (classify_authentication_error bad_type text credentials)))
  handle_attempt credentials (bad_host_key key) =
      ends (raised (record { error_code = "host_key_changed"; fingerprint = some key }))
  handle_attempt credentials (ssh_exception text) =
      if looks_like_authentication_failure text
      then ends (raised (coded (classify_authentication_error false text credentials)))
      else goes_on (false, text)
  handle_attempt credentials (os_error is_timeout text) = goes_on (is_timeout, text)

  -- The loop: the attempts left, the networks of the attempts and the last error. The second result is
  -- how many attempts were made.
  unfoldable pub attempts :
      ℕ → SshCredentials → (ℕ → Network) → ℕ → Option (Bool × String) → Connecting × ℕ
  attempts zero credentials networks made last =
      (raised (coded (classify_connection_error last)), made)
  attempts (suc n) credentials networks made last =
      let again = λ (e : Bool × String). attempts n credentials networks (suc made) (some e) in
      elim (handle_attempt credentials (try_connect credentials (networks made))) [
        | ends result ↦ (result, suc made)
        | goes_on e ↦ again e
      ]

  -- `connect`
  unfoldable pub connect : ℕ → SshCredentials → (ℕ → Network) → Connecting × ℕ
  connect retry_count credentials networks = attempts (suc retry_count) credentials networks 0 none

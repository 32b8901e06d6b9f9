-- ===== src/Ssh/Trust.antt =====
-- Which hosts a connection trusts, and how often it is tried.
use superflash_ia.Prelude.{
  ℕ, zero, suc, ◌+◌, ◌≤◌, String, Bool, true, false, ◌≡◌, refl, ◌⊎◌, inl, Option, none, some, arith,
  string_eq, truthy, or_else, eq_refl, eq_iff, ap,
}
use superflash_ia.Ssh.Catalogue.{SshCredentials}
use superflash_ia.Ssh.HostKey.{
  fingerprints_equal, check_key, missing_host_key, unknown, HostKeyStatus, KeyAnswer, accepted,
  policy_raised, not_the_known_key,
}
use superflash_ia.Ssh.Connect.{
  logged_in, rejected, interrupted, dropped, Network, offers, socket_error, protocol_error, Session,
  Attempt, connected, session_of, client_connect, try_connect, opened, raised, Pass, ends, goes_on,
  handle_attempt, attempts, connect,
}

-- A key that passes the check is the loaded one, or the expected one where none is loaded.
check_key-accepted :
    (known expected : Option String) (key : String) {answer : Option String}
    {status : HostKeyStatus}
    → check_key known expected key ≡ accepted answer status
    → (known ≡ some key)
      ⊎ ((known ≡ none)
          × (truthy expected ≡ true)
          × (fingerprints_equal (or_else expected "") key ≡ true))
unfolding check_key missing_host_key
check_key-accepted none expected key h = ground arith
check_key-accepted (some k) expected key h =
    let e : k ≡ key = (eq_iff k key).0 (ground arith) in inl (ap (λ x. some x) e)

module _ (lower : String → String) (is_key : String → Bool) (known listed : Option String) where
  -- The key is the one that the loaded files have for the host; if they have none, it is the one that
  -- the credentials expect.
  abbrev pub IsTrusted : SshCredentials → String → Type 0
  IsTrusted credentials key =
      (known ≡ some key)
      ⊎ ((known ≡ none)
          × (truthy credentials.expected_host_key_fingerprint ≡ true)
          × (fingerprints_equal (or_else credentials.expected_host_key_fingerprint "") key ≡ true))

  -- The host that was reached offered such a key and then accepted the login.
  abbrev pub IsLogin : SshCredentials → Network → Type 0
  IsLogin credentials network =
      (key : String) × (transport : Option String) × (network ≡ offers key (logged_in transport))
      × IsTrusted credentials key

  try_trusted :
      (credentials : SshCredentials) (network : Network) (s : Session)
      → try_connect lower is_key known listed credentials network ≡ connected s
      → IsLogin credentials network
  unfolding try_connect client_connect
  try_trusted credentials (offers key (logged_in transport)) s h = (
    key,
    transport,
    refl,
    lem (check_key known credentials.expected_host_key_fingerprint key) refl,
  )
    where
      lem :
          (a : KeyAnswer)
          → check_key known credentials.expected_host_key_fingerprint key ≡ a
          → IsTrusted credentials key
      lem (accepted answer status) e =
          check_key-accepted known credentials.expected_host_key_fingerprint key e
      lem (policy_raised x) e = ground arith
      lem not_the_known_key e = ground arith
  try_trusted credentials (offers key (rejected b text)) s h = ground arith
  try_trusted credentials (offers key (interrupted text)) s h = ground arith
  try_trusted credentials (offers key (dropped b text)) s h = ground arith
  try_trusted credentials (socket_error b text) s h = ground arith
  try_trusted credentials (protocol_error text) s h = ground arith

  -- A pass that ends with a session has connected.
  pass_connected :
      (credentials : SshCredentials) (a : Attempt) (s : Session)
      → handle_attempt lower is_key known listed credentials a ≡ ends (opened s)
      → a ≡ connected s
  unfolding handle_attempt
  pass_connected credentials a s h = ground arith

  attempts_trusted :
      (n : ℕ) (credentials : SshCredentials) (networks : ℕ → Network) (made : ℕ)
      (last : Option (Bool × String)) (s : Session) (k : ℕ)
      → attempts lower is_key known listed n credentials networks made last ≡ (opened s, k)
      → (m : ℕ) × (k ≡ suc m) × IsLogin credentials (networks m)
  unfolding attempts
  attempts_trusted zero credentials networks made last s k h = ground arith
  attempts_trusted (suc n) credentials networks made last s k h =
      next (λ x. attempts_trusted n credentials networks (suc made) (some x) s k)
        (handle_attempt lower is_key known listed credentials a) refl
    where
      a : Attempt
      a = try_connect lower is_key known listed credentials (networks made)

      next :
          ((x : Bool × String)
            → attempts lower is_key known listed n credentials networks (suc made) (some x)
              ≡ (opened s, k)
            → (m : ℕ) × (k ≡ suc m) × IsLogin credentials (networks m))
          → (p : Pass lower is_key known listed)
          → handle_attempt lower is_key known listed credentials a ≡ p
          → (m : ℕ) × (k ≡ suc m) × IsLogin credentials (networks m)
      next later (ends (opened x)) e =
          let same : x ≡ s = ground arith in
          (
            made,
            ground arith,
            try_trusted credentials (networks made) x (pass_connected credentials a x e),
          )
      next later (ends (raised x)) e = ground arith
      next later (goes_on x) e = later x (ground arith)

  attempts_bounded :
      (n : ℕ) (credentials : SshCredentials) (networks : ℕ → Network) (made : ℕ)
      (last : Option (Bool × String))
      → (attempts lower is_key known listed n credentials networks made last).1 ≤ made + n
  unfolding attempts
  attempts_bounded zero credentials networks made last = omega arith
  attempts_bounded (suc n) credentials networks made last =
      next (λ x. attempts_bounded n credentials networks (suc made) (some x))
        (handle_attempt lower is_key known listed credentials
          (try_connect lower is_key known listed credentials (networks made)))
        refl
    where
      next :
          ((x : Bool × String)
            → (attempts lower is_key known listed n credentials networks (suc made) (some x)).1
              ≤ suc made + n)
          → (p : Pass lower is_key known listed)
          → handle_attempt lower is_key known listed credentials
              (try_connect lower is_key known listed credentials (networks made))
            ≡ p
          → (attempts lower is_key known listed (suc n) credentials networks made last).1
            ≤ made + suc n
      next later (ends x) e = rw (attempts, e) (omega arith)
      next later (goes_on x) e = rw (attempts, e) (omega (arith, later x))

  -- A connection makes at most one attempt more than the retries of the settings.
  pub connect_bounded :
      (retry_count : ℕ) (credentials : SshCredentials) (networks : ℕ → Network)
      → (connect lower is_key known listed retry_count credentials networks).1 ≤ suc retry_count
  unfolding connect
  connect_bounded retry_count credentials networks =
      omega (arith, attempts_bounded (suc retry_count) credentials networks 0 none)

  -- A session that is opened was opened by the last attempt, to a host whose key is trusted: the
  -- loaded files have that key for the host, or they have none and the credentials expect it.
  pub connect_trusted :
      (retry_count : ℕ) (credentials : SshCredentials) (networks : ℕ → Network) (s : Session)
      {made : ℕ}
      → connect lower is_key known listed retry_count credentials networks ≡ (opened s, made)
      → (m : ℕ) × (made ≡ suc m) × IsLogin credentials (networks m)
  unfolding connect
  connect_trusted retry_count credentials networks s {made} h =
      attempts_trusted (suc retry_count) credentials networks 0 none s made h

  -- Where the loaded files have the host's key, and the first attempt logs in with a password, the
  -- fingerprint that the credentials expect is not compared with the key: whatever it is, the session
  -- is opened, and reports the expected fingerprint as the host's.
  pub known_over_expected :
      (retry_count : ℕ) (credentials : SshCredentials) (networks : ℕ → Network)
      (key expected : String) (transport : Option String)
      → known ≡ some key
      → truthy credentials.private_key ≡ false
      → credentials.expected_host_key_fingerprint ≡ some expected
      → networks 0 ≡ offers key (logged_in transport)
      → (s : Session) × (connect lower is_key known listed retry_count credentials networks
          ≡ (opened s, 1))
        × (s.remote_fingerprint ≡ some expected)
  unfolding connect attempts handle_attempt try_connect client_connect check_key session_of
  known_over_expected retry_count credentials networks key expected transport k p e n =
      let r = eq_refl key in
      (
        session_of lower is_key known listed credentials none unknown transport,
        ground arith,
        ground arith,
      )

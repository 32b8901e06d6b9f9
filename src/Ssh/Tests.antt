-- ===== src/Ssh/Tests.antt =====
-- The theorems of the connection at one host.
use superflash_ia.Prelude.{ℕ, zero, suc, true, ◌≡◌, refl, none, some}
use superflash_ia.Ssh.Catalogue.{SshCredentials}
use superflash_ia.Text.{strip, lstrip, rstrip, starts_with}
use superflash_ia.Ssh.HostKey.{
  confirmed, check_key, missing_host_key, fingerprints_equal, remove_prefix,
}
use superflash_ia.Ssh.Connect.{
  logged_in, Network, offers, socket_error, Session, opened, connect, attempts, handle_attempt,
  try_connect, client_connect, session_of,
}
use superflash_ia.Ssh.Trust.{IsLogin, connect_trusted, known_over_expected}

abbrev credentials : SshCredentials
credentials = record {
  host = "10.0.0.2";
  port = 22;
  username = "root";
  password = some "secret";
  private_key = none;
  expected_host_key_fingerprint = some "SHA256:expected";
}

-- The first attempt times out.
abbrev networks : ℕ → Network
networks zero = socket_error true "timed out"
networks (suc _) = offers "SHA256:expected" (logged_in (some "SHA256:expected"))

abbrev session : Session
session = record { remote_fingerprint = some "SHA256:expected"; host_key_status = confirmed }

second_attempt : connect (λ s. s) (λ _. true) none none 2 credentials networks ≡ (opened session, 2)
unfolding connect attempts handle_attempt try_connect client_connect check_key missing_host_key
    fingerprints_equal remove_prefix strip lstrip rstrip starts_with session_of
second_attempt = refl

connect_trusted_example :
    (m : ℕ) × (2 ≡ suc m) × IsLogin (λ s. s) (λ _. true) none none credentials (networks m)
connect_trusted_example =
    connect_trusted (λ s. s) (λ _. true) none none 2 credentials networks session second_attempt

abbrev offering : ℕ → Network
offering _ = offers "SHA256:other" (logged_in none)

known_over_expected_example :
    (s : Session) × (connect (λ s. s) (λ _. true) (some "SHA256:other") none 2 credentials offering
      ≡ (opened s, 1))
    × (s.remote_fingerprint ≡ some "SHA256:expected")
known_over_expected_example =
    known_over_expected (λ s. s) (λ _. true) (some "SHA256:other") none 2 credentials offering
      "SHA256:other" "SHA256:expected" none refl refl refl refl

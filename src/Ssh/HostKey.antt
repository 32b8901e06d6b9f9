-- ===== src/Ssh/HostKey.antt =====
-- The check of a host's key: `FingerprintHostKeyPolicy`, and the library's rule for calling it. A key
-- is taken by its fingerprint.
use superflash_ia.Prelude.{
  String, Bool, Option, none, some, if◌then◌else◌, ◌==◌, nat_eq, string_eq, truthy, or_else,
}
use superflash_ia.Text.{strip, starts_with}
use superflash_ia.Ssh.Catalogue.{SshServiceError}

-- The text after as many characters as the prefix has.
abbrev after_prefix : String → String → String
after_prefix s String.[] = s
after_prefix String.[] (String.◌∷◌ c p) = String.[]
after_prefix (String.◌∷◌ d s) (String.◌∷◌ c p) = after_prefix s p

-- `str.removeprefix`
unfoldable pub remove_prefix : String → String → String
remove_prefix s p = if starts_with s p then after_prefix s p else s

-- `_fingerprints_equal`
unfoldable pub fingerprints_equal : String → String → Bool
fingerprints_equal left right =
    remove_prefix (strip left) "SHA256:" == remove_prefix (strip right) "SHA256:"

-- `status` of the policy and of the session.
pub data HostKeyStatus : Type 0 where
  unknown confirmed already_trusted : HostKeyStatus

-- What a key that is offered comes to: it is refused, or accepted with the policy's fingerprint and
-- status.
pub data KeyAnswer : Type 0 where
  policy_raised : SshServiceError → KeyAnswer
  not_the_known_key : KeyAnswer
  accepted : Option String → HostKeyStatus → KeyAnswer

-- `missing_host_key`
unfoldable pub missing_host_key : Option String → String → KeyAnswer
missing_host_key expected offered =
    if truthy expected
    then (if fingerprints_equal (or_else expected "") offered
        then accepted (some offered) confirmed
        else policy_raised (record { error_code = "host_key_changed"; fingerprint = some offered }))
    else policy_raised (record { error_code = "host_key_new"; fingerprint = some offered })

-- `client.connect` asks the policy only about a host whose key it has not loaded; a loaded key has to
-- be the offered one.
unfoldable pub check_key : Option String → Option String → String → KeyAnswer
check_key none expected offered = missing_host_key expected offered
check_key (some key) expected offered =
    if key == offered then accepted none unknown else not_the_known_key

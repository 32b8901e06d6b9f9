-- ===== src/History/Cursor.antt =====
-- The opaque cursor of app/api/pagination.py. The base64 codec and Python's readers and writers of
-- instants and integers are parameters.
use Prim.Native.String.{◌++◌ as ◌<>◌}
use superflash_ia.Prelude.{ℤ, ◌>>=◌, ℕ, String, Option, some}
use superflash_ia.Text.{partition}
use superflash_ia.History.Samples.{MetricCursor}

pub record Codec : Type 0 where
  -- `base64.urlsafe_b64encode` of the encoded text
  pub encode64 : String → String
  -- the decoded text, or a `binascii.Error` or `UnicodeDecodeError`
  pub decode64 : String → Option String
  pub isoformat : ℕ → String
  pub fromisoformat : String → Option ℕ
  pub str : ℕ → String
  pub int : String → Option ℤ

module _ (codec : Codec) where
  open codec use {encode64, decode64, isoformat, fromisoformat, str, int}

  unfoldable pub encode_cursor : ℕ → ℕ → String
  encode_cursor collected_at item_id = encode64 (isoformat collected_at <> ("|" <> str item_id))

  -- `none` is the status 400.
  unfoldable pub decode_cursor : String → Option MetricCursor
  decode_cursor value = do
    raw ← decode64 value
    let parts = partition b'|' raw
    collected_at ← fromisoformat parts.0
    item_id ← int parts.2
    some (collected_at, item_id)

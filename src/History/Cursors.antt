-- ===== src/History/Cursors.antt =====
-- A cursor is read back as the position it was written for.
use Prim.Native.Char.{Char, code}
use Prim.Native.String.{◌++◌ as ◌<>◌}
use Prim.Native.String.append
use superflash_ia.Prelude.{
  ℕ, pos, String, true, false, ◌≡◌, refl, inl, inr, Bool-cases, some, arith, nat_beq,
}
use superflash_ia.Text.{partition}
use superflash_ia.History.Cursor.{Codec, encode_cursor, decode_cursor}

-- What is relied on of the codec: base64, the instants and the integers are read back as they were
-- written, and an instant is written without the separator.
pub record IsCodec (codec : Codec) : Type 0 where
  pub decode64-encode64 : (s : String) → codec.decode64 (codec.encode64 s) ≡ some s
  pub fromisoformat-isoformat : (at : ℕ) → codec.fromisoformat (codec.isoformat at) ≡ some at
  pub int-str : (n : ℕ) → codec.int (codec.str n) ≡ some (pos n)
  pub no_separator : (at : ℕ) → (partition b'|' (codec.isoformat at)).1 ≡ false

partition-append :
    (k : ℕ) (s t : String) (d : Char)
    → (partition k s).1 ≡ false
    → nat_beq (code d) k ≡ true
    → partition k (s <> String.◌∷◌ d t) ≡ (s, true, t)
unfolding partition
partition-append k String.[] t d h e = rw (append.nil (String.◌∷◌ d t), e) refl
partition-append k (String.◌∷◌ c s) t d h e = elim (Bool-cases (nat_beq (code c) k)) [
  | inl found ↦ absurd (ground (arith, found, h))
  | inr other ↦
      let r = partition-append k s t d (ground (arith, other, h)) e in
      rw (append.cons c s (String.◌∷◌ d t), other, r) refl
]

-- For a codec that reads what it writes, a cursor is decoded to the instant and the key that it was
-- made of.
pub decode_cursor-encode_cursor :
    (codec : Codec) (c : IsCodec codec) (at key : ℕ)
    → decode_cursor codec (encode_cursor codec at key) ≡ some (at, pos key)
unfolding decode_cursor encode_cursor
decode_cursor-encode_cursor codec c at key =
    let bar : "|" <> codec.str key ≡ String.◌∷◌ "|" (codec.str key) =
      rw (append.cons "|" String.[] (codec.str key), append.nil (codec.str key)) refl in
    rw
      (
        c.decode64-encode64 (codec.isoformat at <> ("|" <> codec.str key)),
        bar,
        partition-append b'|' (codec.isoformat at) (codec.str key) "|" (c.no_separator at) refl,
        c.fromisoformat-isoformat at,
        c.int-str key,
      )
      refl

-- ===== src/Text.antt =====
-- Python's operations on `str` that the code under app/services uses, by recursion on the text.
use Prim.Native.Char.{Char, code}
use superflash_ia.Prelude.{
  ℕ, zero, suc, String, ◌≡◌, refl, Bool, true, false, ◌&&◌, ◌||◌, List, [], ◌∷◌, leb, nat_beq,
  if◌then◌else◌,
}

-- `str.isspace` on one character.
abbrev pub is_space : ℕ → Bool
is_space c =
    (leb 9 c && leb c 13)
    || (leb 28 c && leb c 32)
    || nat_beq c 133
    || nat_beq c 160
    || nat_beq c 5760
    || (leb 8192 c && leb c 8202)
    || nat_beq c 8232
    || nat_beq c 8233
    || nat_beq c 8239
    || nat_beq c 8287
    || nat_beq c 12288

-- The line boundaries of `str.splitlines`.
abbrev pub is_break : ℕ → Bool
is_break c =
    (leb 10 c && leb c 13)
    || (leb 28 c && leb c 30)
    || nat_beq c 133
    || nat_beq c 8232
    || nat_beq c 8233

abbrev pub is_empty : String → Bool
is_empty String.[] = true
is_empty (String.◌∷◌ _ _) = false

-- `s.startswith(p)`
unfoldable pub starts_with : String → String → Bool
starts_with s String.[] = true
starts_with String.[] (String.◌∷◌ d p) = false
starts_with (String.◌∷◌ c s) (String.◌∷◌ d p) = nat_beq (code c) (code d) && starts_with s p

-- `p in s`
unfoldable pub in_text : String → String → Bool
unfolding starts_with
in_text p String.[] = starts_with String.[] p
in_text p (String.◌∷◌ c s) = starts_with (String.◌∷◌ c s) p || in_text p s

unfoldable pub lstrip : String → String
lstrip String.[] = String.[]
lstrip (String.◌∷◌ c s) = if is_space (code c) then lstrip s else String.◌∷◌ c s

unfoldable pub rstrip : String → String
rstrip String.[] = String.[]
rstrip (String.◌∷◌ c s) =
    let rest = rstrip s in
    if is_empty rest && is_space (code c) then String.[] else String.◌∷◌ c rest

-- `s.rstrip(c)` for one character
unfoldable pub rstrip_char : ℕ → String → String
rstrip_char k String.[] = String.[]
rstrip_char k (String.◌∷◌ c s) =
    let rest = rstrip_char k s in
    if is_empty rest && nat_beq (code c) k then String.[] else String.◌∷◌ c rest

unfoldable pub strip : String → String
unfolding lstrip rstrip
strip s = rstrip (lstrip s)

-- `s[:n]`
unfoldable pub take : ℕ → String → String
take zero s = String.[]
take (suc n) String.[] = String.[]
take (suc n) (String.◌∷◌ c s) = String.◌∷◌ c (take n s)

-- `s.partition(c)`: what precedes the separator, whether it is there, and what follows.
unfoldable pub partition : ℕ → String → String × Bool × String
partition k String.[] = (String.[], false, String.[])
partition k (String.◌∷◌ c s) =
    let rest = partition k s in
    if nat_beq (code c) k then (String.[], true, s) else (String.◌∷◌ c rest.0, rest.1, rest.2)

abbrev extend : Char → List String → List String
extend c [] = String.◌∷◌ c String.[] ∷ []
extend c (l ∷ ls) = String.◌∷◌ c l ∷ ls

-- `s.split(c)`
unfoldable pub split : ℕ → String → List String
split k String.[] = String.[] ∷ []
split k (String.◌∷◌ c s) =
    let rest = split k s in if nat_beq (code c) k then String.[] ∷ rest else extend c rest

-- `s.splitlines()`; a carriage return before a line feed is part of the same boundary.
unfoldable pub splitlines : String → List String
unfolding starts_with
splitlines String.[] = []
splitlines (String.◌∷◌ c s) =
    let rest = splitlines s in
    if nat_beq (code c) 13 && starts_with s "\n"
    then rest
    else if is_break (code c)
    then String.[] ∷ rest
    else extend c rest

-- the leading word and what follows it
word : String → String × String
word String.[] = (String.[], String.[])
word (String.◌∷◌ c s) =
    let rest = word s in
    if is_space (code c) then (String.[], String.◌∷◌ c s) else (String.◌∷◌ c rest.0, rest.1)

-- `s.split(None, n)`
unfoldable pub words : ℕ → String → List String
unfolding lstrip word
words zero s = let r = lstrip s in if is_empty r then [] else r ∷ []
words (suc n) s =
    let r = lstrip s in
    let rest = words n (word r).1 in if is_empty r then [] else (word r).0 ∷ rest

split_test : words 3 " sda  100 disk Fast SSD " ≡ "sda" ∷ "100" ∷ "disk" ∷ "Fast SSD " ∷ []
unfolding words
split_test = refl

splitlines_test : splitlines "a=1\r\n\nb=2\n" ≡ "a=1" ∷ "" ∷ "b=2" ∷ []
unfolding splitlines
splitlines_test = refl

strip_test : strip " x y\n" ≡ "x y"
unfolding strip
strip_test = refl

in_text_test : in_text "9100" "tcp 9100 deny" ≡ true
unfolding in_text
in_text_test = refl

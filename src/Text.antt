-- ===== src/Text.antt =====
-- Texts by their characters: lengths, slices and character classes of the regular expressions.
use Prim.Native.String.{String}
use Prim.Native.Char.{Char, code}
use a2a_superhub.Prelude.{zero, suc, ℕ, Bool, String, leb, true, ◌&&◌, false, ◌||◌, eqb}

-- `len(text)`
unfoldable pub count_chars : String → ℕ
count_chars String.[] = 0
count_chars (String.◌∷◌ c s) = suc (count_chars s)

-- `text[:n]`
unfoldable pub first_chars : ℕ → String → String
first_chars zero text = ""
first_chars (suc n) String.[] = ""
first_chars (suc n) (String.◌∷◌ c s) = String.◌∷◌ c (first_chars n s)

-- `text[n:]`
unfoldable pub skip_chars : ℕ → String → String
skip_chars zero text = text
skip_chars (suc n) String.[] = ""
skip_chars (suc n) (String.◌∷◌ c s) = skip_chars n s

unfoldable pub is_hex : Char → Bool
is_hex c = let n = code c in (leb b'a' n && leb n b'f') || (leb b'0' n && leb n b'9')

-- every character passes a test
unfoldable pub all_chars : (Char → Bool) → String → Bool
all_chars p String.[] = true
all_chars p (String.◌∷◌ c s) = p c && all_chars p s

-- `[0-9a-f]{n}`
unfoldable pub is_hex_of : ℕ → String → Bool
unfolding is_hex all_chars count_chars
is_hex_of n text = all_chars is_hex text && eqb (count_chars text) n

-- some character is that one
unfoldable pub has_char : ℕ → String → Bool
has_char c String.[] = false
has_char c (String.◌∷◌ d s) = eqb (code d) c || has_char c s

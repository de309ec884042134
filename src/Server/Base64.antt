-- ===== src/Server/Base64.antt =====
-- `base64_encode` of src/server/http_server.cpp. Bytes and characters are numbers below 256. The loop over
-- `i += 3` is a recursion that takes three bytes at a time.
use pulseport.Prelude.{List, [], bit_and, bit_or, get_or, suc, zero, ℕ, ◌*◌, ◌++◌, ◌/◌, ◌^◌, ◌∷◌}
pub mod Decoding

-- `n` numbers from `first` on.
unfoldable pub range : (first n : ℕ) → List ℕ
range first zero = []
range first (suc n) = first ∷ range (suc first) n

-- kBase64Chars: A to Z, a to z, 0 to 9, + and /.
unfoldable pub base64_chars : List ℕ
unfolding range
base64_chars = range 65 26 ++ range 97 26 ++ range 48 10 ++ 43 ∷ 47 ∷ []

abbrev pub pad_char : ℕ
pad_char = 61

-- `kBase64Chars[(n >> shift) & 0x3F]`
unfoldable pub char_at : (n shift : ℕ) → ℕ
char_at n shift = get_or base64_chars (bit_and (n / 2 ^ shift) 63) 0

-- The 24 bits of a round.
unfoldable pub triple : (a b c : ℕ) → ℕ
triple a b c = bit_or (bit_or (a * 2 ^ 16) (b * 2 ^ 8)) c

unfoldable pub base64_encode : List ℕ → List ℕ
unfolding char_at triple
base64_encode [] = []
base64_encode (a ∷ []) =
    let n = a * 2 ^ 16 in char_at n 18 ∷ char_at n 12 ∷ pad_char ∷ pad_char ∷ []
base64_encode (a ∷ b ∷ []) =
    let n = bit_or (a * 2 ^ 16) (b * 2 ^ 8) in
    char_at n 18 ∷ char_at n 12 ∷ char_at n 6 ∷ pad_char ∷ []
base64_encode (a ∷ b ∷ c ∷ rest) =
    let n = triple a b c in
    char_at n 18 ∷ char_at n 12 ∷ char_at n 6 ∷ char_at n 0 ∷ base64_encode rest

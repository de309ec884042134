-- ===== src/Server/Base64/Decoding.antt =====
-- base64_encode of src/server/http_server.cpp: a decoder of RFC 4648, written independently of the encoder.
use pulseport.Server.Base64.{pad_char, base64_chars, char_at, triple, base64_encode}
use pulseport.Prelude.{
  All, Bool, List, [], ap, ap₂, arith, bit_and, bit_or, false, get_or, if◌then◌else◌, leb, length,
  not, refl, suc, true, zero, ℕ, ℕ_discrete, ◌%◌, ◌&&◌, ◌*◌, ◌+◌, ◌-◌, ◌/◌, ◌<◌, ◌==◌, ◌^◌, ◌∷◌,
  ◌≡◌,
}
use pulseport.Prelude.Bits.{bit_and-mask, bit_or-disjoint}

-- The value of a character of the alphabet.
unfoldable pub sextet : ℕ → ℕ
sextet c =
    if leb 97 c
    then c - 97 + 26
    else if leb 65 c
    then c - 65
    else if leb 48 c
    then c - 48 + 52
    else if c == 43
    then 62
    else 63

unfoldable pub base64_decode : List ℕ → List ℕ
unfolding sextet
base64_decode (w ∷ x ∷ y ∷ z ∷ rest) =
    let a = sextet w * 4 + sextet x / 16 in
    let b = sextet x % 16 * 16 + sextet y / 4 in
    let c = sextet y % 4 * 64 + sextet z in
    let more = base64_decode rest in
    if y == pad_char then a ∷ [] else if z == pad_char then a ∷ b ∷ [] else a ∷ b ∷ c ∷ more
base64_decode _ = []

-- The test of a property of the numbers below a bound.
all_below : (ℕ → Bool) → ℕ → Bool
all_below p zero = true
all_below p (suc n) = p n && all_below p n

all_below_lem : (p : ℕ → Bool) (n k : ℕ) → all_below p n ≡ true → k < n → p k ≡ true
unfolding all_below
all_below_lem p zero k h lt = absurd (omega arith)
all_below_lem p (suc n) k h lt = elim (ℕ_discrete k n) [
  | yes e ↦ rw e (ground arith)
  | no ne ↦ all_below_lem p n k (ground arith) (omega arith)
]

readable : ℕ → Bool
unfolding sextet
readable k = let c = get_or base64_chars k 0 in sextet c == k && not (c == pad_char)

readable_below : (k : ℕ) → k < 64 → readable k ≡ true
unfolding readable all_below base64_chars
readable_below k h = all_below_lem readable 64 k refl h

readable_lem :
    (k : ℕ)
    → readable k ≡ true
    → (sextet (get_or base64_chars k 0) ≡ k) × ((get_or base64_chars k 0 == pad_char) ≡ false)
unfolding readable
readable_lem k h = (ground arith, ground arith)

sextet-char_at :
    (n shift : ℕ)
    → (sextet (char_at n shift) ≡ n / 2 ^ shift % 64) × ((char_at n shift == pad_char) ≡ false)
unfolding char_at
sextet-char_at n shift =
    let k = n / 2 ^ shift % 64 in
    let low : bit_and (n / 2 ^ shift) 63 ≡ k = bit_and-mask 6 (n / 2 ^ shift) in
    rw low (readable_lem k (readable_below k (omega arith)))

pair-sum : (a b : ℕ) → b < 256 → bit_or (a * 2 ^ 16) (b * 2 ^ 8) ≡ a * 65536 + b * 256
pair-sum a b hb = bit_or-disjoint 16 a (b * 256) (omega arith)

triple-sum : (a b c : ℕ) → b < 256 → c < 256 → triple a b c ≡ a * 65536 + b * 256 + c
unfolding triple
triple-sum a b c hb hc =
    let high : a * 65536 + b * 256 ≡ (a * 256 + b) * 256 = omega arith in
    rw (pair-sum a b hb, high) (bit_or-disjoint 8 (a * 256 + b) c hc)

-- The three bytes, put together again from the four groups of six bits.
first_byte :
    (n a r : ℕ)
    → n ≡ a * 65536 + r
    → r < 65536
    → a < 256
    → n / 2 ^ 18 % 64 * 4 + n / 2 ^ 12 % 64 / 16 ≡ a
first_byte n a r e hr ha = omega arith

second_byte :
    (n a b r : ℕ)
    → n ≡ a * 65536 + b * 256 + r
    → r < 256
    → b < 256
    → n / 2 ^ 12 % 64 % 16 * 16 + n / 2 ^ 6 % 64 / 4 ≡ b
second_byte n a b r e hr hb = omega arith

third_byte : (n m c : ℕ) → n ≡ m * 256 + c → c < 256 → n / 2 ^ 6 % 64 % 4 * 64 + n / 2 ^ 0 % 64 ≡ c
third_byte n m c e hc = omega arith

-- The decoder gives back the bytes that were encoded.
pub base64_decode-base64_encode :
    (bytes : List ℕ) → All (λ (b : ℕ). b < 256) bytes → base64_decode (base64_encode bytes) ≡ bytes
unfolding base64_decode base64_encode
base64_decode-base64_encode [] h = refl
base64_decode-base64_encode (a ∷ []) (ha, h) =
    let (w, _) = sextet-char_at (a * 2 ^ 16) 18 in
    let (x, _) = sextet-char_at (a * 2 ^ 16) 12 in
    rw (w, x) (ap (λ k. k ∷ []) (first_byte (a * 65536) a 0 (omega arith) (omega arith) ha))
base64_decode-base64_encode (a ∷ b ∷ []) (ha, (hb, h)) =
    let n = bit_or (a * 2 ^ 16) (b * 2 ^ 8) in
    let (w, _) = sextet-char_at n 18 in
    let (x, _) = sextet-char_at n 12 in
    let (y, no_pad) = sextet-char_at n 6 in
    rw (no_pad, w, x, y, pair-sum a b hb)
      (ap₂ (λ p q. p ∷ q ∷ []) (first_byte (a * 65536 + b * 256) a (b * 256) refl (omega arith) ha)
        (second_byte (a * 65536 + b * 256) a b 0 (omega arith) (omega arith) hb))
base64_decode-base64_encode (a ∷ b ∷ c ∷ rest) (ha, (hb, (hc, h))) =
    let n = triple a b c in
    let (w, _) = sextet-char_at n 18 in
    let (x, _) = sextet-char_at n 12 in
    let (y, no_pad_y) = sextet-char_at n 6 in
    let (z, no_pad_z) = sextet-char_at n 0 in
    rw (no_pad_y, no_pad_z, w, x, y, z, triple-sum a b c hb hc, base64_decode-base64_encode rest h)
      (let n = a * 65536 + b * 256 + c in
        ap₂ (λ p ps. p ∷ ps) (first_byte n a (b * 256 + c) (omega arith) (omega arith) ha)
          (ap₂ (λ p ps. p ∷ ps) (second_byte n a b c refl hc hb)
            (ap (λ p. p ∷ rest) (third_byte n (a * 256 + b) c (omega arith) hc))))

-- The encoder writes four characters for every three bytes begun, as many as it reserves.
pub length-base64_encode :
    (bytes : List ℕ) → length (base64_encode bytes) ≡ 4 * ((length bytes + 2) / 3)
unfolding base64_encode
length-base64_encode [] = refl
length-base64_encode (a ∷ []) = refl
length-base64_encode (a ∷ b ∷ []) = refl
length-base64_encode (a ∷ b ∷ c ∷ rest) = omega (arith, length-base64_encode rest)

-- ===== src/Server/Sha1.antt =====
-- `sha1` and `ws_accept_key` of src/server/http_server.cpp. Bytes are numbers below 256 and `uint32_t`
-- is arithmetic modulo 2 ^ 32. The loops count down on fuel that is their number of rounds; the loop of the
-- padding stops within 64 steps.
use pulseport.Prelude.{
  List, [], bit_and, bit_or, bit_xor, get_or, if◌then◌else◌, length, ltb, replicate, set, suc, zero,
  ℕ, ◌%◌, ◌*◌, ◌++◌, ◌+◌, ◌-◌, ◌/◌, ◌==◌, ◌^◌, ◌∷◌,
}
pub mod Padding
use pulseport.Server.Base64.{base64_encode}

unfoldable pub add_u32 : ℕ → ℕ → ℕ
add_u32 a b = (a + b) % 2 ^ 32

-- `~v`
unfoldable pub not_u32 : ℕ → ℕ
not_u32 v = 2 ^ 32 - 1 - v

unfoldable pub left_rotate : ℕ → ℕ → ℕ
left_rotate v n = bit_or (v * 2 ^ n % 2 ^ 32) (v / 2 ^ (32 - n))

-- `while (new_len % 64 != 56) ++new_len;`
unfoldable pub pad_loop : (fuel new_len : ℕ) → ℕ
pad_loop zero new_len = new_len
pad_loop (suc fuel) new_len =
    let more = pad_loop fuel (new_len + 1) in if new_len % 64 == 56 then new_len else more

unfoldable pub new_len_of : ℕ → ℕ
unfolding pad_loop
new_len_of len = pad_loop 64 (len + 1)

-- The loop that writes the eight bytes of the bit count at `new_len`, `n` rounds before its end.
unfoldable pub write_bits : (n new_len bits : ℕ) → List ℕ → List ℕ
write_bits zero new_len bits buf = buf
write_bits (suc n) new_len bits buf =
    let i = 7 - n in
    write_bits n new_len bits (set buf (new_len + i) (bits / 2 ^ (56 - 8 * i) % 256))

-- The zeroed buffer with the message copied in, the mark after it and the bit count at the end.
unfoldable pub padded : List ℕ → List ℕ
unfolding new_len_of write_bits
padded msg =
    let len = length msg in
    let new_len = new_len_of len in
    let copied = msg ++ replicate (new_len + 8 - len) 0 in
    write_bits 8 new_len (len * 8 % 2 ^ 64) (set copied len 128)

-- The sixteen words of the block at an offset, `n` words before the end.
unfoldable pub block_words : (n : ℕ) → (buf : List ℕ) → (at : ℕ) → List ℕ
block_words zero buf at = []
block_words (suc n) buf at =
    bit_or
      (bit_or (bit_or (get_or buf at 0 * 2 ^ 24) (get_or buf (at + 1) 0 * 2 ^ 16))
        (get_or buf (at + 2) 0 * 2 ^ 8))
      (get_or buf (at + 3) 0)
    ∷ block_words n buf (at + 4)

-- The words `w[i]` for `n` further indices.
unfoldable pub expand : (n i : ℕ) → List ℕ → List ℕ
unfolding left_rotate
expand zero i w = w
expand (suc n) i w =
    let mixed =
      bit_xor (bit_xor (get_or w (i - 3) 0) (get_or w (i - 8) 0))
        (bit_xor (get_or w (i - 14) 0) (get_or w (i - 16) 0)) in
    expand n (i + 1) (w ++ left_rotate mixed 1 ∷ [])

pub record Words : Type 0 where
  pub a : ℕ
  pub b : ℕ
  pub c : ℕ
  pub d : ℕ
  pub e : ℕ

-- f and k of round `i`.
unfoldable pub mix : ℕ → Words → ℕ × ℕ
unfolding not_u32
mix i s =
    if ltb i 20
    then (bit_or (bit_and s.b s.c) (bit_and (not_u32 s.b) s.d), 1518500249)
    else if ltb i 40
    then (bit_xor (bit_xor s.b s.c) s.d, 1859775393)
    else if ltb i 60
    then (bit_or (bit_or (bit_and s.b s.c) (bit_and s.b s.d)) (bit_and s.c s.d), 2400959708)
    else (bit_xor (bit_xor s.b s.c) s.d, 3395469782)

unfoldable pub round : (i w : ℕ) → Words → Words
unfolding mix left_rotate add_u32
round i w s =
    let (f, k) = mix i s in
    record {
      a = add_u32 (add_u32 (add_u32 (add_u32 (left_rotate s.a 5) f) s.e) k) w;
      b = s.a;
      c = left_rotate s.b 30;
      d = s.c;
      e = s.d;
    }

unfoldable pub rounds : (i : ℕ) → List ℕ → Words → Words
unfolding round
rounds i [] s = s
rounds i (w ∷ ws) s = rounds (i + 1) ws (round i w s)

unfoldable pub add_words : Words → Words → Words
unfolding add_u32
add_words h s = record {
  a = add_u32 h.a s.a;
  b = add_u32 h.b s.b;
  c = add_u32 h.c s.c;
  d = add_u32 h.d s.d;
  e = add_u32 h.e s.e;
}

-- `n` blocks from an offset on.
unfoldable pub blocks : (n : ℕ) → List ℕ → (offset : ℕ) → Words → Words
unfolding block_words expand rounds add_words
blocks zero buf offset h = h
blocks (suc n) buf offset h =
    blocks n buf (offset + 64) (add_words h (rounds 0 (expand 64 16 (block_words 16 buf offset)) h))

unfoldable pub word_bytes : ℕ → List ℕ
word_bytes h = h / 2 ^ 24 % 256 ∷ h / 2 ^ 16 % 256 ∷ h / 2 ^ 8 % 256 ∷ h / 2 ^ 0 % 256 ∷ []

abbrev pub initial_words : Words
initial_words = record {
  a = 1732584193;
  b = 4023233417;
  c = 2562383102;
  d = 271733878;
  e = 3285377520;
}

unfoldable pub sha1 : List ℕ → List ℕ
unfolding padded blocks word_bytes
sha1 msg =
    let buf = padded msg in
    let h = blocks (length buf / 64) buf 0 initial_words in
    word_bytes h.a ++ word_bytes h.b ++ word_bytes h.c ++ word_bytes h.d ++ word_bytes h.e

-- "258EAFA5-E914-47DA-95CA-C5AB0DC85B11"
abbrev pub magic : List ℕ
magic =
    50 ∷ 53 ∷ 56 ∷ 69 ∷ 65 ∷ 70 ∷ 65 ∷ 53 ∷ 45 ∷ 69 ∷ 57 ∷ 49 ∷ 52 ∷ 45 ∷ 52 ∷ 55 ∷ 68 ∷ 65 ∷ 45
    ∷ 57 ∷ 53 ∷ 67 ∷ 65 ∷ 45 ∷ 67 ∷ 53 ∷ 65 ∷ 66 ∷ 48 ∷ 68 ∷ 67 ∷ 56 ∷ 53 ∷ 66 ∷ 49 ∷ 49 ∷ []

unfoldable pub ws_accept_key : List ℕ → List ℕ
unfolding sha1 base64_encode
ws_accept_key client_key = base64_encode (sha1 (client_key ++ magic))

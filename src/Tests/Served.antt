-- ===== src/Tests/Served.antt =====
-- The server, the alerts it stores, and the configuration.
use pulseport.Server.Frame.{text_frame}
use pulseport.Server.Frame.Parsing.{parse_frame, parse_frame-text_frame}
use pulseport.Server.Base64.Decoding.{base64_decode, base64_decode-base64_encode}
use pulseport.Server.Sha1.{
  add_u32, add_words, block_words, blocks, expand, left_rotate, mix, new_len_of, not_u32, pad_loop,
  padded, round, rounds, sha1, word_bytes, write_bits, ws_accept_key,
}
use pulseport.Server.Base64.{base64_chars, base64_encode, char_at, range, triple}
use pulseport.Server.Sha1.Padding.{padded_lem}
use pulseport.Prelude.{
  List, [], arith, get_or, refl, some, ℕ, ◌%◌, ◌*◌, ◌++◌, ◌+◌, ◌-◌, ◌/◌, ◌<◌, ◌^◌, ◌∷◌, ◌≡◌, ◌≤◌,
}

base64_decode-base64_encode_example : base64_decode (base64_encode (77 ∷ 97 ∷ [])) ≡ 77 ∷ 97 ∷ []
base64_decode-base64_encode_example =
    base64_decode-base64_encode (77 ∷ 97 ∷ []) (omega arith, (omega arith, tt))

parse_frame-text_frame_example :
    parse_frame (text_frame (104 ∷ 105 ∷ []) ++ (7 ∷ [])) ≡ some (129, 104 ∷ 105 ∷ [], 7 ∷ [])
parse_frame-text_frame_example = parse_frame-text_frame (104 ∷ 105 ∷ []) (7 ∷ []) (omega arith)

padded_lem_example :
    (64 % 64 ≡ 0)
    × (3 + 9 ≤ 64)
    × (64 < 3 + 73)
    × ((i : ℕ) → i < 3 → get_or (padded (97 ∷ 98 ∷ 99 ∷ [])) i 0 ≡ get_or (97 ∷ 98 ∷ 99 ∷ []) i 0)
    × (get_or (padded (97 ∷ 98 ∷ 99 ∷ [])) 3 0 ≡ 128)
    × ((i : ℕ) → 3 < i → i + 8 < 64 → get_or (padded (97 ∷ 98 ∷ 99 ∷ [])) i 0 ≡ 0)
    × ((j : ℕ)
        → j < 8
        → get_or (padded (97 ∷ 98 ∷ 99 ∷ [])) (56 + j) 0 ≡ 24 / 2 ^ (56 - 8 * j) % 256)
unfolding padded new_len_of pad_loop write_bits
padded_lem_example = padded_lem (97 ∷ 98 ∷ 99 ∷ [])

-- "dGhlIHNhbXBsZSBub25jZQ==", the example of RFC 6455.
abbrev sample_key : List ℕ
sample_key =
    100 ∷ 71 ∷ 104 ∷ 108 ∷ 73 ∷ 72 ∷ 78 ∷ 104 ∷ 98 ∷ 88 ∷ 66 ∷ 115 ∷ 90 ∷ 83 ∷ 66 ∷ 117 ∷ 98 ∷ 50
    ∷ 53 ∷ 106 ∷ 90 ∷ 81 ∷ 61 ∷ 61 ∷ []

-- "s3pPLMBiTxaQ9kYGzzhZRbK+xOo="
ws_accept_key_sample :
    ws_accept_key sample_key
    ≡ 115 ∷ 51 ∷ 112 ∷ 80 ∷ 76 ∷ 77 ∷ 66 ∷ 105 ∷ 84 ∷ 120 ∷ 97 ∷ 81 ∷ 57 ∷ 107 ∷ 89 ∷ 71 ∷ 122 ∷ 122
      ∷ 104 ∷ 90 ∷ 82 ∷ 98 ∷ 75 ∷ 43 ∷ 120 ∷ 79 ∷ 111 ∷ 61 ∷ []
unfolding ws_accept_key sha1 padded new_len_of pad_loop write_bits blocks block_words expand
    left_rotate rounds round mix not_u32 add_u32 add_words word_bytes base64_encode char_at triple
    range base64_chars
ws_accept_key_sample = refl

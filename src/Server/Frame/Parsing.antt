-- ===== src/Server/Frame/Parsing.antt =====
-- ws_send_text of src/server/http_server.cpp: a parser for unmasked frames, written from RFC 6455.
use pulseport.Server.Frame.{length_bytes, text_frame}
use pulseport.Prelude.{
  Bool-cases, List, Option, [], ap, arith, bit_and, drop, get_or, if◌then◌else◌, inl, inr, leb,
  length, length-append, ltb, none, refl, some, take, true, ℕ, ◌%◌, ◌*◌, ◌++◌, ◌+◌, ◌/◌, ◌<◌, ◌==◌,
  ◌^◌, ◌∷◌, ◌≡◌,
}
use pulseport.Prelude.Bits.{bit_and-mask}

-- The first byte, the payload and what follows the frame.
unfoldable pub split_payload : (first len : ℕ) → List ℕ → Option (ℕ × List ℕ × List ℕ)
split_payload first len rest =
    if leb len (length rest) then some (first, take len rest, drop len rest) else none

unfoldable pub parse_frame : List ℕ → Option (ℕ × List ℕ × List ℕ)
unfolding split_payload
parse_frame (first ∷ short ∷ rest) =
    if ltb short 126
    then split_payload first short rest
    else if short == 126
    then split_payload first (get_or rest 0 0 * 256 + get_or rest 1 0) (drop 2 rest)
    else split_payload first
        (get_or rest 0 0 * 2 ^ 56
          + get_or rest 1 0 * 2 ^ 48
          + get_or rest 2 0 * 2 ^ 40
          + get_or rest 3 0 * 2 ^ 32
          + get_or rest 4 0 * 2 ^ 24
          + get_or rest 5 0 * 2 ^ 16
          + get_or rest 6 0 * 2 ^ 8
          + get_or rest 7 0)
        (drop 8 rest)
parse_frame _ = none

take_append : (xs ys : List ℕ) → take (length xs) (xs ++ ys) ≡ xs
take_append [] ys = refl
take_append (x ∷ xs) ys = ap (λ zs. x ∷ zs) (take_append xs ys)

drop_append : (xs ys : List ℕ) → drop (length xs) (xs ++ ys) ≡ ys
drop_append [] ys = refl
drop_append (x ∷ xs) ys = drop_append xs ys

split_payload_lem :
    (first len : ℕ) (msg more : List ℕ)
    → len ≡ length msg
    → split_payload first len (msg ++ more) ≡ some (first, msg, more)
unfolding split_payload
split_payload_lem first len msg more e =
    let fits : leb (length msg) (length (msg ++ more)) ≡ true =
      ground (arith, length-append msg more) in
    rw (e, fits, take_append msg more, drop_append msg more) refl

low_byte : (n : ℕ) → bit_and n 255 ≡ n % 256
low_byte = bit_and-mask 8

eight_bytes :
    (n : ℕ)
    → n < 2 ^ 64
    → n / 2 ^ 56 % 256 * 2 ^ 56
        + n / 2 ^ 48 % 256 * 2 ^ 48
        + n / 2 ^ 40 % 256 * 2 ^ 40
        + n / 2 ^ 32 % 256 * 2 ^ 32
        + n / 2 ^ 24 % 256 * 2 ^ 24
        + n / 2 ^ 16 % 256 * 2 ^ 16
        + n / 2 ^ 8 % 256 * 2 ^ 8
        + n % 256
      ≡ n
eight_bytes n h = omega arith

eight_masked :
    (n : ℕ)
    → n < 2 ^ 64
    → bit_and (n / 2 ^ 56) 255 * 2 ^ 56
        + bit_and (n / 2 ^ 48) 255 * 2 ^ 48
        + bit_and (n / 2 ^ 40) 255 * 2 ^ 40
        + bit_and (n / 2 ^ 32) 255 * 2 ^ 32
        + bit_and (n / 2 ^ 24) 255 * 2 ^ 24
        + bit_and (n / 2 ^ 16) 255 * 2 ^ 16
        + bit_and (n / 2 ^ 8) 255 * 2 ^ 8
        + bit_and (n / 2 ^ 0) 255
      ≡ n
eight_masked n h =
    rw
      (
        low_byte (n / 2 ^ 56),
        low_byte (n / 2 ^ 48),
        low_byte (n / 2 ^ 40),
        low_byte (n / 2 ^ 32),
        low_byte (n / 2 ^ 24),
        low_byte (n / 2 ^ 16),
        low_byte (n / 2 ^ 8),
        low_byte (n / 2 ^ 0),
      )
      (omega (arith, eight_bytes n h))

-- Of the frame of a message and bytes after it, the parser takes the message, marked as a final text
-- frame, and leaves the bytes.
pub parse_frame-text_frame :
    (msg more : List ℕ)
    → length msg < 2 ^ 64
    → parse_frame (text_frame msg ++ more) ≡ some (129, msg, more)
unfolding parse_frame text_frame length_bytes
parse_frame-text_frame msg more h = elim (Bool-cases (ltb (length msg) 126)) [
  | inl short ↦
      let small : ltb (length msg % 256) 126 ≡ true = ground arith in
      rw (short, small) (split_payload_lem 129 (length msg % 256) msg more (ground arith))
  | inr long ↦ elim (Bool-cases (ltb (length msg) 65536)) [
    | inl middle ↦
        rw (long, middle, low_byte (length msg / 2 ^ 8), low_byte (length msg))
          (split_payload_lem 129 (length msg / 2 ^ 8 % 256 * 256 + length msg % 256) msg more
            (ground arith))
    | inr huge ↦ rw (long, huge) (split_payload_lem 129 _ msg more (eight_masked (length msg) h))
  ]
]

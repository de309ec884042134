-- ===== src/Server/Frame.antt =====
-- The text frames of RFC 6455 that `ws_send_text` of src/server/http_server.cpp builds, as lists of bytes.
-- The operating system's `send` is a parameter: what it answers for the bytes.
use pulseport.Prelude.{
  Bool, List, [], bit_and, if◌then◌else◌, length, ltb, suc, zero, ℕ, ◌%◌, ◌*◌, ◌++◌, ◌/◌, ◌^◌, ◌∷◌,
}
use pulseport.Prelude.Int.{ltb_ℤ, pos, ℤ}
pub mod Parsing

-- The loop `for (int i = n - 1; i >= 0; --i)` that pushes the bytes of a length.
unfoldable pub length_bytes : (n len : ℕ) → List ℕ
length_bytes zero len = []
length_bytes (suc i) len = bit_and (len / 2 ^ (8 * i)) 255 ∷ length_bytes i len

unfoldable pub text_frame : List ℕ → List ℕ
unfolding length_bytes
text_frame msg =
    let len = length msg in
    let header =
      if ltb len 126
      then len % 256 ∷ []
      else if ltb len 65536
      then 126 ∷ bit_and (len / 2 ^ 8) 255 ∷ bit_and len 255 ∷ []
      else 127 ∷ length_bytes 8 len in
    129 ∷ (header ++ msg)

unfoldable pub ws_send_text : (send : List ℕ → ℤ) → List ℕ → Bool
unfolding text_frame
ws_send_text send msg = ltb_ℤ (pos 0) (send (text_frame msg))

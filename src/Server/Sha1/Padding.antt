-- ===== src/Server/Sha1/Padding.antt =====
-- sha1 of src/server/http_server.cpp: the layout of the padded message.
use pulseport.Server.Sha1.{pad_loop, write_bits, new_len_of, padded}
use pulseport.Prelude.{
  List, [], ap, arith, false, get_or, get_or-append_left, get_or-set_ne, get_or-set_self, length,
  length-append, length-replicate, length-set, refl, replicate, set, suc, true, zero, ℕ, ℕ_discrete,
  ◌%◌, ◌*◌, ◌++◌, ◌+◌, ◌-◌, ◌/◌, ◌<◌, ◌==◌, ◌^◌, ◌∙◌, ◌∷◌, ◌≡◌, ◌≤◌,
}

-- The loop stops at the next length that leaves 56, given fuel for the steps to it.
pad_loop_lem :
    (fuel new_len : ℕ)
    → (120 - new_len % 64) % 64 ≤ fuel
    → pad_loop fuel new_len ≡ new_len + (120 - new_len % 64) % 64
unfolding pad_loop
pad_loop_lem zero new_len h = omega arith
pad_loop_lem (suc fuel) new_len h = elim (ℕ_discrete (new_len % 64) 56) [
  | yes there ↦ let stop : (new_len % 64 == 56) ≡ true = ground arith in rw stop (omega arith)
  | no further ↦
      let go : (new_len % 64 == 56) ≡ false = ground arith in
      rw (go, pad_loop_lem fuel (new_len + 1) (omega arith)) (omega arith)
]

new_len_of_lem : (len : ℕ) → new_len_of len ≡ len + 1 + (120 - (len + 1) % 64) % 64
unfolding new_len_of
new_len_of_lem len = pad_loop_lem 64 (len + 1) (omega arith)

length-write_bits :
    (n new_len bits : ℕ) (buf : List ℕ) → length (write_bits n new_len bits buf) ≡ length buf
unfolding write_bits
length-write_bits zero new_len bits buf = refl
length-write_bits (suc n) new_len bits buf =
    let i = 7 - n in
    length-write_bits n new_len bits (set buf (new_len + i) (bits / 2 ^ (56 - 8 * i) % 256))
    ∙ length-set buf (new_len + i) (bits / 2 ^ (56 - 8 * i) % 256)

get_or-write_bits_before :
    (n new_len bits : ℕ) (buf : List ℕ) (j : ℕ)
    → n ≤ 8
    → j < new_len + (8 - n)
    → get_or (write_bits n new_len bits buf) j 0 ≡ get_or buf j 0
unfolding write_bits
get_or-write_bits_before zero new_len bits buf j h lt = refl
get_or-write_bits_before (suc n) new_len bits buf j h lt =
    let i = 7 - n in
    let byte = bits / 2 ^ (56 - 8 * i) % 256 in
    get_or-write_bits_before n new_len bits (set buf (new_len + i) byte) j (omega arith)
      (omega arith)
    ∙ get_or-set_ne buf (new_len + i) j byte 0 (omega arith)

get_or-write_bits :
    (n new_len bits : ℕ) (buf : List ℕ) (j : ℕ)
    → n ≤ 8
    → 8 ≤ j + n
    → j < 8
    → new_len + 8 ≤ length buf
    → get_or (write_bits n new_len bits buf) (new_len + j) 0 ≡ bits / 2 ^ (56 - 8 * j) % 256
unfolding write_bits
get_or-write_bits zero new_len bits buf j h from below room = absurd (omega arith)
get_or-write_bits (suc n) new_len bits buf j h from below room =
    let i = 7 - n in
    let byte = bits / 2 ^ (56 - 8 * i) % 256 in
    let next = set buf (new_len + i) byte in
    elim (ℕ_discrete j i) [
      | yes same ↦ rw same (
          get_or-write_bits_before n new_len bits next (new_len + i) (omega arith) (omega arith)
          ∙ get_or-set_self buf (new_len + i) byte 0 (omega arith))
      | no later ↦
          get_or-write_bits n new_len bits next j (omega arith) (omega arith) below
            (omega (arith, length-set buf (new_len + i) byte))
    ]

-- The buffer before the bit count is written.
marked : List ℕ → List ℕ
marked msg = set (msg ++ replicate (new_len_of (length msg) + 8 - length msg) 0) (length msg) 128

padded-marked :
    (msg : List ℕ)
    → padded msg ≡ write_bits 8 (new_len_of (length msg)) (length msg * 8 % 2 ^ 64) (marked msg)
unfolding padded marked
padded-marked msg = refl

length-marked : (msg : List ℕ) → length (marked msg) ≡ new_len_of (length msg) + 8
unfolding marked
length-marked msg =
    let zeros = new_len_of (length msg) + 8 - length msg in
    length-set (msg ++ replicate zeros 0) (length msg) 128
    ∙ length-append msg (replicate zeros 0)
    ∙ omega (arith, length-replicate {A = ℕ} zeros 0, new_len_of_lem (length msg))

length-padded : (msg : List ℕ) → length (padded msg) ≡ new_len_of (length msg) + 8
length-padded msg =
    ap length (padded-marked msg)
    ∙ length-write_bits 8 (new_len_of (length msg)) (length msg * 8 % 2 ^ 64) (marked msg)
    ∙ length-marked msg

get_or-padded_early :
    (msg : List ℕ) (i : ℕ)
    → i < new_len_of (length msg)
    → get_or (padded msg) i 0 ≡ get_or (marked msg) i 0
get_or-padded_early msg i h =
    ap (λ buf. get_or buf i 0) (padded-marked msg)
    ∙ get_or-write_bits_before 8 (new_len_of (length msg)) (length msg * 8 % 2 ^ 64) (marked msg) i
        (omega arith) (omega arith)

get_or-marked_message :
    (msg : List ℕ) (i : ℕ) → i < length msg → get_or (marked msg) i 0 ≡ get_or msg i 0
unfolding marked
get_or-marked_message msg i h =
    let zeros = replicate (new_len_of (length msg) + 8 - length msg) 0 in
    get_or-set_ne (msg ++ zeros) (length msg) i 128 0 (omega arith)
    ∙ get_or-append_left msg zeros i 0 h

get_or-marked_end : (msg : List ℕ) → get_or (marked msg) (length msg) 0 ≡ 128
unfolding marked
get_or-marked_end msg =
    let zeros = replicate (new_len_of (length msg) + 8 - length msg) 0 in
    get_or-set_self (msg ++ zeros) (length msg) 128 0 (
      omega (
        arith,
        length-append msg zeros,
        length-replicate {A = ℕ} (new_len_of (length msg) + 8 - length msg) 0,
        new_len_of_lem (length msg),
      ))

get_or-replicate : (n i : ℕ) → get_or (replicate {A = ℕ} n 0) i 0 ≡ 0
get_or-replicate zero i = refl
get_or-replicate (suc n) zero = refl
get_or-replicate (suc n) (suc i) = get_or-replicate n i

get_or_zeros : (msg : List ℕ) (n i : ℕ) → length msg ≤ i → get_or (msg ++ replicate n 0) i 0 ≡ 0
get_or_zeros [] n i h = get_or-replicate n i
get_or_zeros (x ∷ xs) n zero h = absurd (omega arith)
get_or_zeros (x ∷ xs) n (suc i) h = get_or_zeros xs n i (omega arith)

get_or-marked_zero : (msg : List ℕ) (i : ℕ) → length msg < i → get_or (marked msg) i 0 ≡ 0
unfolding marked
get_or-marked_zero msg i h =
    let n = new_len_of (length msg) + 8 - length msg in
    get_or-set_ne (msg ++ replicate n 0) (length msg) i 128 0 (omega arith)
    ∙ get_or_zeros msg n i (omega arith)

get_or-padded_count :
    (msg : List ℕ) (j : ℕ)
    → j < 8
    → get_or (padded msg) (new_len_of (length msg) + j) 0
      ≡ length msg * 8 % 2 ^ 64 / 2 ^ (56 - 8 * j) % 256
get_or-padded_count msg j h =
    ap (λ buf. get_or buf (new_len_of (length msg) + j) 0) (padded-marked msg)
    ∙ get_or-write_bits 8 (new_len_of (length msg)) (length msg * 8 % 2 ^ 64) (marked msg) j
        (omega arith) (omega arith) h (omega (arith, length-marked msg))

-- The padding of FIPS 180-4: the message, the byte 128, the bit count of the message in the last eight bytes,
-- and zeros between them, no more than the next multiple of 64 bytes takes.
pub padded_lem :
    (msg : List ℕ)
    → let total = length (padded msg) in
      (total % 64 ≡ 0)
      × (length msg + 9 ≤ total)
      × (total < length msg + 73)
      × ((i : ℕ) → i < length msg → get_or (padded msg) i 0 ≡ get_or msg i 0)
      × (get_or (padded msg) (length msg) 0 ≡ 128)
      × ((i : ℕ) → length msg < i → i + 8 < total → get_or (padded msg) i 0 ≡ 0)
      × ((j : ℕ)
          → j < 8
          → get_or (padded msg) (total - 8 + j) 0
            ≡ length msg * 8 % 2 ^ 64 / 2 ^ (56 - 8 * j) % 256)
padded_lem msg =
    let total = length-padded msg in
    let reached = new_len_of_lem (length msg) in
    (
      omega (arith, total, reached),
      omega (arith, total, reached),
      omega (arith, total, reached),
      λ i h. get_or-padded_early msg i (omega (arith, reached)) ∙ get_or-marked_message msg i h,
      get_or-padded_early msg (length msg) (omega (arith, reached)) ∙ get_or-marked_end msg,
      λ i after before.
          get_or-padded_early msg i (omega (arith, total)) ∙ get_or-marked_zero msg i after,
      λ j h.
          ap (λ at. get_or (padded msg) at 0) (omega (arith, total)) ∙ get_or-padded_count msg j h,
    )

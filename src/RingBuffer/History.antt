-- ===== src/RingBuffer/History.antt =====
-- include/pulseport/ring_buffer.h: a ring and the log of everything that was ever pushed to it.
use native.Mathlib.Nat.{div-add-mod', mod-lt, mul-le-mul_right}
use pulseport.RingBuffer.{RingBuffer, slot, empty_ring, push}
use pulseport.Prelude.{
  List, [], arith, dec_lt, get_or, get_or-append_left, get_or-append_right, get_or-set_ne,
  get_or-set_self, length, length-append, length-replicate, length-set, set, suc, sym, ℕ,
  ℕ_discrete, ◌%◌, ◌++◌, ◌+◌, ◌/◌, ◌<◌, ◌^◌, ◌∙◌, ◌∷◌, ◌≡◌, ◌≢◌, ◌≤◌,
}
use pulseport.Prelude.Bits.{bit_and-mask, pow_pos}

-- Two positions less than a lap apart have different slots.
pub mod-ne : (i n c : ℕ) → i < n → n < i + c → i % c ≢ n % c
mod-ne i n c h h' e = elim (dec_lt (i / c) (n / c)) [
  | yes p ↦ omega (
    arith,
    mul-le-mul_right {m = suc (i / c)} {n = n / c} c p,
    div-add-mod' i c,
    div-add-mod' n c,
  )
  | no p ↦ omega (
    arith,
    mul-le-mul_right {m = n / c} {n = i / c} c (omega arith),
    div-add-mod' i c,
    div-add-mod' n c,
  )
]

pub slot-mod : (k p : ℕ) → slot k p ≡ p % 2 ^ k
unfolding slot
slot-mod k p = bit_and-mask k p

module _ {ℓ} {A : Type ℓ} (k : ℕ) (blank : A) where
  -- The ring holds the items of `log`, everything pushed so far: the write position counts them,
  -- and each of the last `2 ^ k` stands in its slot.
  pub record Holds (r : RingBuffer A) (log : List A) : Type ℓ where
    pub written : r.write_pos ≡ length log
    pub fits : length log < 2 ^ 64
    pub room : length r.buffer ≡ 2 ^ k
    pub read_le : r.read_pos ≤ r.write_pos
    pub kept :
        (i : ℕ)
        → i < length log
        → length log ≤ i + 2 ^ k
        → get_or r.buffer (i % 2 ^ k) blank ≡ get_or log i blank

  -- A new ring holds nothing.
  pub empty_ring-Holds : Holds (empty_ring k blank) []
  unfolding empty_ring
  empty_ring-Holds = record {
    written = omega arith;
    fits = omega arith;
    room = length-replicate (2 ^ k) blank;
    read_le = omega arith;
    kept = λ i h. absurd (omega arith);
  }

  kept-push :
      (r : RingBuffer A) (log : List A) (x : A)
      → Holds r log
      → (i : ℕ) → i < length log + 1
      → length log + 1 ≤ i + 2 ^ k
      → get_or (set r.buffer (r.write_pos % 2 ^ k) x) (i % 2 ^ k) blank
        ≡ get_or (log ++ (x ∷ [])) i blank
  kept-push r log x v i h lap = elim (ℕ_discrete i (length log)) [
    | yes e ↦
        rw (v.written, get_or-append_right log (x ∷ []) i blank e, e)
          (get_or-set_self r.buffer (length log % 2 ^ k) x blank
            (omega (arith, v.room, mod-lt (length log) (pow_pos k))))
    | no ne ↦
        rw
          (
            v.written,
            get_or-append_left log (x ∷ []) i blank (omega arith),
            get_or-set_ne r.buffer (length log % 2 ^ k) (i % 2 ^ k) x blank
                (λ e. mod-ne i (length log) (2 ^ k) (omega arith) (omega arith) (sym e)),
          )
          (v.kept i (omega arith) (omega arith))
  ]

  -- Pushing appends to the log: every item of the last `capacity` pushes is kept, the oldest one is
  -- overwritten.
  pub push-Holds :
      (r : RingBuffer A) (log : List A) (x : A)
      → Holds r log
      → length log + 1 < 2 ^ 64
      → Holds (push k blank r x) (log ++ (x ∷ []))
  unfolding push
  push-Holds r log x v h =
      let longer : length (log ++ (x ∷ [])) ≡ length log + 1 = length-append log (x ∷ []) in
      record {
        written = omega (arith, v.written);
        fits = omega arith;
        room = length-set r.buffer (slot k r.write_pos) x ∙ v.room;
        read_le = omega (arith, v.written, v.read_le);
        kept = λ i lt lap.
            rw (slot-mod k r.write_pos) (kept-push r log x v i (omega arith) (omega arith));
      }

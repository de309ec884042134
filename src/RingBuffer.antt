-- ===== src/RingBuffer.antt =====
-- include/pulseport/ring_buffer.h: the lossy ring of live samples. The template parameter `Capacity`
-- is `2 ^ k`, which the source's static_assert demands; positions are `size_t` and wrap at `2 ^ 64`.
-- An operation runs alone: each atomic load and store is a read or write of the record.
pub mod History
pub mod Reads
pub mod Threads
use pulseport.Prelude.{
  ℕ, zero, suc, ◌+◌, ◌-◌, ◌%◌, ◌^◌, Bool, Option, none, some, List, [], ◌∷◌, bit_and, ltb, ◌==◌,
  if◌then◌else◌, get_or, set, replicate,
}

-- `size_t` addition and subtraction.
abbrev pub add_size : ℕ → ℕ → ℕ
add_size a b = (a + b) % 2 ^ 64

abbrev pub sub_size : ℕ → ℕ → ℕ
sub_size a b = (a + 2 ^ 64 - b) % 2 ^ 64

pub record RingBuffer {ℓ} (A : Type ℓ) : Type ℓ where
  pub buffer : List A
  pub write_pos : ℕ
  pub read_pos : ℕ

-- `capacity()`, by the exponent `k`.
abbrev pub capacity : ℕ → ℕ
capacity k = 2 ^ k

-- `pos & kMask`
unfoldable pub slot : ℕ → ℕ → ℕ
slot k p = bit_and p (capacity k - 1)

-- `k` gives the capacity, `blank` is the value-initialised element.
module _ {ℓ} {A : Type ℓ} (k : ℕ) (blank : A) where
  unfoldable pub empty_ring : RingBuffer A
  empty_ring = record { buffer = replicate (capacity k) blank; write_pos = 0; read_pos = 0 }

  unfoldable pub push : RingBuffer A → A → RingBuffer A
  push r item =
      let w = r.write_pos in
      record r { buffer = set r.buffer (slot k w) item; write_pos = add_size w 1 }

  unfoldable pub pop : RingBuffer A → Option A × RingBuffer A
  pop r = if r.read_pos == r.write_pos then (none, r) else (
    some (get_or r.buffer (slot k r.read_pos) blank),
    record r { read_pos = add_size r.read_pos 1 },
  )

  unfoldable pub size : RingBuffer A → ℕ
  size r = sub_size r.write_pos r.read_pos

  unfoldable pub is_empty : RingBuffer A → Bool
  unfolding size
  is_empty r = size r == 0

  -- The loop of `peek_last`: `n` items from position `start` on.
  unfoldable pub copy_from : List A → ℕ → ℕ → List A
  copy_from buf start zero = []
  copy_from buf start (suc n) = get_or buf (slot k start) blank ∷ copy_from buf (add_size start 1) n

  -- `count` after the two clamps of `peek_last`.
  abbrev pub clamped : RingBuffer A → ℕ → ℕ
  clamped r count =
      let available = sub_size r.write_pos r.read_pos in
      let c : ℕ = if ltb available count then available else count in
      if ltb (capacity k) c then capacity k else c

  -- The items that `peek_last` writes to `out`, whose number it returns.
  unfoldable pub peek_last : RingBuffer A → ℕ → List A
  unfolding copy_from
  peek_last r count = copy_from r.buffer (sub_size r.write_pos (clamped r count)) (clamped r count)

  unfoldable pub latest : RingBuffer A → Option A
  latest r =
      if r.write_pos == 0
      then none
      else some (get_or r.buffer (slot k (sub_size r.write_pos 1)) blank)

  -- `result.resize(actual)` keeps what `peek_last` wrote.
  unfoldable pub recent : RingBuffer A → ℕ → List A
  unfolding peek_last
  recent r count = peek_last r count

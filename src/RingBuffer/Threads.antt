-- ===== src/RingBuffer/Threads.antt =====
-- include/pulseport/ring_buffer.h: `push` of one thread and `pop` of another as the atomic loads and stores that they
-- make, in any order between the threads. An item is copied into the buffer and out of it over a stretch of time: while
-- it is copied in, its slot holds any value, and a copy out that overlaps with a copy into the same slot takes any
-- value.
mod Buffer
mod Copies
pub mod Interleaving
use pulseport.RingBuffer.History.{Holds}
use pulseport.RingBuffer.{RingBuffer, add_size, empty_ring, slot}
use mathlib.Core.Logic.{Lift}
use pulseport.Prelude.{
  Bool, List, [], false, get_or, length, not, set, true, ℕ, ◌&&◌, ◌++◌, ◌+◌, ◌<◌, ◌==◌, ◌^◌, ◌∷◌,
  ◌≡◌, ◌≤◌,
}

-- What the producer has done of a push: nothing, it loaded the write position, it copies the item while `torn` stands
-- in the slot, or it stored the item.
pub data Producer {ℓ} (A : Type ℓ) : Type ℓ where
  idle : Producer A
  loaded : A → (w : ℕ) → Producer A
  storing : (x torn : A) (w : ℕ) → Producer A
  stored : A → (w : ℕ) → Producer A

-- What the consumer has done of a pop: nothing, it loaded the two positions, it copies the item, `whole` unless
-- the producer wrote to the slot meanwhile, or it has copied it.
pub data Consumer {ℓ} (A : Type ℓ) : Type ℓ where
  idle : Consumer A
  saw : (w : ℕ) → Consumer A
  reading : (whole : Bool) (w : ℕ) → Consumer A
  took : A → Consumer A

-- The ring, what was pushed to it so far, and the two threads.
pub record Threads {ℓ} (A : Type ℓ) : Type ℓ where
  pub ring : RingBuffer A
  pub log : List A
  pub producer : Producer A
  pub consumer : Consumer A

abbrev pub threads {ℓ} : {A : Type ℓ} → RingBuffer A → List A → Producer A → Consumer A → Threads A
threads r log p c = record { ring = r; log = log; producer = p; consumer = c }

module _ {ℓ} {A : Type ℓ} (k : ℕ) (blank : A) where
  -- Whether the producer is copying an item into the slot `s`.
  unfoldable pub is_storing : Producer A → (s : ℕ) → Bool
  is_storing (Producer.storing x torn w) s = slot k w == s
  is_storing p s = false

  -- The consumer, which is at the position `read`, once the producer begins to write to the slot `s`.
  unfoldable pub written_over : (s read : ℕ) → Consumer A → Consumer A
  written_over s read (Consumer.reading whole w) =
      Consumer.reading (whole && not (s == slot k read)) w
  written_over s read c = c

  pub data Step : Threads A → Threads A → Type ℓ where
    load_write :
        (r : RingBuffer A) (log : List A) (c : Consumer A) (x : A)
        → Step (threads r log Producer.idle c) (threads r log (Producer.loaded x r.write_pos) c)
    begin_store :
        (r : RingBuffer A) (log : List A) (c : Consumer A) (x torn : A) (w : ℕ)
        → Step (threads r log (Producer.loaded x w) c) (
            threads
              (record r { buffer = set r.buffer (slot k w) torn })
              log
              (Producer.storing x torn w)
              (written_over (slot k w) r.read_pos c))
    store_item :
        (r : RingBuffer A) (log : List A) (c : Consumer A) (x torn : A) (w : ℕ)
        → Step
            (threads r log (Producer.storing x torn w) c)
            (threads (record r { buffer = set r.buffer (slot k w) x }) log (Producer.stored x w) c)
    publish :
        (r : RingBuffer A) (log : List A) (c : Consumer A) (x : A) (w : ℕ)
        → Step
            (threads r log (Producer.stored x w) c)
            (threads (record r { write_pos = add_size w 1 }) (log ++ x ∷ []) Producer.idle c)
    load_both :
        (r : RingBuffer A) (log : List A) (p : Producer A)
        → (r.read_pos == r.write_pos) ≡ false
        → Step (threads r log p Consumer.idle) (threads r log p (Consumer.saw r.write_pos))
    begin_read :
        (r : RingBuffer A) (log : List A) (p : Producer A) (w : ℕ)
        → Step
            (threads r log p (Consumer.saw w))
            (threads r log p (Consumer.reading (not (is_storing p (slot k r.read_pos))) w))
    read_item :
        (r : RingBuffer A) (log : List A) (p : Producer A) (w : ℕ)
        → Step
            (threads r log p (Consumer.reading true w))
            (threads r log p (Consumer.took (get_or r.buffer (slot k r.read_pos) blank)))
    read_torn :
        (r : RingBuffer A) (log : List A) (p : Producer A) (w : ℕ) (torn : A)
        → Step (threads r log p (Consumer.reading false w)) (threads r log p (Consumer.took torn))
    advance :
        (r : RingBuffer A) (log : List A) (p : Producer A) (x : A)
        → Step
            (threads r log p (Consumer.took x))
            (threads (record r { read_pos = add_size r.read_pos 1 }) log p Consumer.idle)

  -- What the threads can get to from an empty ring.
  pub data Reach : Threads A → Type ℓ where
    start : Reach (threads (empty_ring k blank) [] Producer.idle Consumer.idle)
    later : {s t : Threads A} → Reach s → Step s t → Reach t

  -- What stands in the buffer: the items, and after them what is not yet published.
  abbrev pub wrote : Threads A → List A
  wrote t = elim t.producer [
    | Producer.idle ↦ t.log
    | Producer.loaded x w ↦ t.log
    | Producer.storing x torn w ↦ t.log ++ torn ∷ []
    | Producer.stored x w ↦ t.log ++ x ∷ []
  ]

  -- The ring if that is published.
  abbrev pub settled : Threads A → RingBuffer A
  settled t = elim t.producer [
    | Producer.idle ↦ t.ring
    | Producer.loaded x w ↦ t.ring
    | Producer.storing x torn w ↦ record t.ring { write_pos = add_size w 1 }
    | Producer.stored x w ↦ record t.ring { write_pos = add_size w 1 }
  ]

  abbrev pub IsPlaced : Producer A → ℕ → Type 0
  IsPlaced Producer.idle n = Unit
  IsPlaced (Producer.loaded x w) n = w ≡ n
  IsPlaced (Producer.storing x torn w) n = w ≡ n
  IsPlaced (Producer.stored x w) n = w ≡ n

  abbrev pub IsBehind : Consumer A → (read n : ℕ) → Type 0
  IsBehind Consumer.idle read n = Unit
  IsBehind (Consumer.saw w) read n = (read < w) × (w ≤ n)
  IsBehind (Consumer.reading whole w) read n = (read < w) × (w ≤ n)
  IsBehind (Consumer.took x) read n = read < n

  -- The items pushed, the one that the producer began to write included, are not more than the capacity ahead of
  -- the read position.
  abbrev pub IsLap : (read under : ℕ) → Type 0
  IsLap read under = under ≤ read + 2 ^ k

  -- What is known of a copy out of the buffer while `under` items were pushed or begun.
  abbrev pub IsRead : Consumer A → (read : ℕ) → List A → (under : ℕ) → Type ℓ
  IsRead Consumer.idle read log under = Lift {0, ℓ} Unit
  IsRead (Consumer.saw w) read log under = Lift {0, ℓ} Unit
  IsRead (Consumer.reading whole w) read log under = Lift {0, ℓ} (IsLap read under → whole ≡ true)
  IsRead (Consumer.took x) read log under = IsLap read under → x ≡ get_or log read blank

  pub record Consistent (t : Threads A) : Type ℓ where
    pub published : t.ring.write_pos ≡ length t.log
    pub read_le : t.ring.read_pos ≤ length t.log
    pub held : Holds k blank (settled t) (wrote t)
    pub placed : IsPlaced t.producer (length t.log)
    pub behind : IsBehind t.consumer t.ring.read_pos (length t.log)
    pub item : IsRead t.consumer t.ring.read_pos t.log (length (wrote t))

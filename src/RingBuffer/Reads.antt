-- ===== src/RingBuffer/Reads.antt =====
-- What `pop`, `peek_last`, `latest` and `size` return, in terms of everything that was pushed.
use native.Mathlib.Nat.{add-mod_right}
use pulseport.RingBuffer.{
  RingBuffer, add_size, sub_size, capacity, clamped, copy_from, slot, pop, size, peek_last, latest,
}
use pulseport.RingBuffer.History.{Holds, slot-mod}
use pulseport.Prelude.{
  List, [], ap, arith, drop, drop-get_or, drop-length, get_or, get_or-append_right, length,
  length-append, min, none, refl, some, suc, sym, zero, ℕ, ◌%◌, ◌++◌, ◌+◌, ◌-◌, ◌<◌, ◌^◌, ◌∙◌, ◌∷◌,
  ◌≡◌, ◌≤◌,
}
use pulseport.Prelude.Bits.{pow_pos}

module _ {ℓ} {A : Type ℓ} (k : ℕ) (blank : A) where
  copy_from-drop :
      (r : RingBuffer A) (log : List A) (start n : ℕ)
      → Holds k blank r log
      → start + n ≡ length log
      → n ≤ 2 ^ k
      → copy_from k blank r.buffer start n ≡ drop start log
  unfolding copy_from
  copy_from-drop r log start zero v e h = sym (drop-length start log (omega arith))
  copy_from-drop r log start (suc n) v e h =
      let next : add_size start 1 ≡ suc start = omega (arith, v.fits) in
      rw (
        slot-mod k start,
        next,
        drop-get_or start log blank (omega arith),
        v.kept start (omega arith) (omega arith),
        copy_from-drop r log (suc start) n v (omega arith) (omega arith),
      )

  -- While the ring holds `log`, `size` is the number of items pushed and not popped. It is not bounded by the
  -- capacity.
  pub size_lem :
      (r : RingBuffer A) (log : List A)
      → Holds k blank r log
      → size k blank r + r.read_pos ≡ length log
  unfolding size
  size_lem r log v = omega (arith, v.fits, v.written, v.read_le)

  -- `peek_last` returns the last items pushed, oldest first and unchanged: as many as asked, but no more than
  -- are unread and than the capacity.
  pub peek_last-drop :
      (r : RingBuffer A) (log : List A) (count : ℕ)
      → Holds k blank r log
      → peek_last k blank r count
        ≡ drop (length log - min count (min (length log - r.read_pos) (capacity k))) log
  unfolding peek_last
  peek_last-drop r log count v =
      let c : clamped k blank r count ≡ min count (min (length log - r.read_pos) (capacity k)) =
        ground (arith, v.fits, v.written, v.read_le) in
      let s : sub_size r.write_pos (clamped k blank r count)
          ≡ length log - clamped k blank r count =
        omega (arith, v.fits, v.written, v.read_le) in
      rw (← c, s)
        (copy_from-drop r log (length log - clamped k blank r count) (clamped k blank r count) v
          (omega (arith, v.read_le)) (omega arith))

  -- In a ring that has been pushed to, `latest` is the item pushed last; in a new one there is none.
  pub latest_lem :
      (r : RingBuffer A) (log : List A) (x : A)
      → (Holds k blank r [] → latest k blank r ≡ none)
        × (Holds k blank r (log ++ (x ∷ [])) → latest k blank r ≡ some x)
  unfolding latest
  latest_lem r log x = (λ v. ground (arith, v.written), last)
    where
      last : Holds k blank r (log ++ (x ∷ [])) → latest k blank r ≡ some x
      last v =
          let n : length (log ++ (x ∷ [])) ≡ length log + 1 = length-append log (x ∷ []) in
          let p : sub_size r.write_pos 1 ≡ length log = omega (arith, v.fits, v.written) in
          let e : get_or r.buffer (length log % 2 ^ k) blank ≡ x =
            v.kept (length log) (omega arith) (omega (arith, pow_pos k))
            ∙ get_or-append_right log (x ∷ []) (length log) blank refl in
          rw (p, slot-mod k (length log), e) (ground (arith, v.written))

  held_at :
      (r : RingBuffer A) (log : List A) (i : ℕ)
      → Holds k blank r log
      → r.read_pos < length log
      → i < length log
      → length log ≤ i + 2 ^ k
      → i % 2 ^ k ≡ r.read_pos % 2 ^ k
      → (pop k blank r).0 ≡ some (get_or log i blank)
  unfolding pop
  held_at r log i v unread h lap e =
      let found : get_or r.buffer (slot k r.read_pos) blank ≡ get_or log i blank =
        rw (slot-mod k r.read_pos, ← e) (v.kept i h lap) in
      rw found (ground (arith, v.written))

  -- On a ring with unread items of which none was overwritten, `pop` returns the oldest unread item, moves the
  -- read position on by one and changes nothing else.
  pub pop_fifo :
      (r : RingBuffer A) (log : List A)
      → Holds k blank r log
      → r.read_pos < length log
      → length log ≤ r.read_pos + capacity k
      → ((pop k blank r).0 ≡ some (get_or log r.read_pos blank))
        × ((pop k blank r).1.read_pos ≡ r.read_pos + 1)
        × Holds k blank (pop k blank r).1 log
  unfolding pop
  pop_fifo r log v unread lap =
      (held_at r log r.read_pos v unread unread lap refl, ap (λ s. s.read_pos) after, rw after kept)
    where
      after : (pop k blank r).1 ≡ record r { read_pos = r.read_pos + 1 }
      after = ground (arith, v.written, v.fits)

      kept : Holds k blank (record r { read_pos = r.read_pos + 1 }) log
      kept = record {
        written = v.written;
        fits = v.fits;
        room = v.room;
        read_le = omega (arith, v.written);
        kept = v.kept;
      }

  -- When between one and two laps are unread, `pop` skips a whole lap: it returns the item that was pushed
  -- `capacity` pushes after the oldest unread one.
  pub pop_overrun :
      (r : RingBuffer A) (log : List A)
      → Holds k blank r log
      → r.read_pos + capacity k < length log
      → length log ≤ r.read_pos + capacity k + capacity k
      → (pop k blank r).0 ≡ some (get_or log (r.read_pos + capacity k) blank)
  pop_overrun r log v over lap =
      held_at r log (r.read_pos + 2 ^ k) v (omega arith) over lap (add-mod_right r.read_pos (2 ^ k))

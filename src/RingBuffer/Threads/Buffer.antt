-- ===== src/RingBuffer/Threads/Buffer.antt =====
-- include/pulseport/ring_buffer.h: what stands in the buffer while the two threads copy items.
use pulseport.RingBuffer.History.{Holds, mod-ne, push-Holds, slot-mod}
use native.Mathlib.Nat.{mod-lt}
use pulseport.RingBuffer.{RingBuffer, add_size, push, slot}
use pulseport.RingBuffer.Threads.{Consumer, Producer, settled, threads, wrote}
use mathlib.Core.Path.{subst}
use pulseport.Prelude.{
  List, [], arith, get_or, get_or-append_left, get_or-append_right, get_or-set_ne, get_or-set_self,
  length, length-append, length-set, set, sym, ℕ, ℕ_discrete, ◌%◌, ◌++◌, ◌+◌, ◌<◌, ◌^◌, ◌∙◌, ◌∷◌,
  ◌≡◌, ◌≤◌,
}
use pulseport.Prelude.Bits.{pow_pos}

module _ {ℓ} {A : Type ℓ} (k : ℕ) (blank : A) where
  Holds-read_pos :
      (r : RingBuffer A) (log : List A) (n : ℕ)
      → Holds k blank r log
      → n ≤ length log
      → Holds k blank (record r { read_pos = n }) log
  Holds-read_pos r log n h le = record {
    written = h.written;
    fits = h.fits;
    room = h.room;
    read_le = omega (arith, h.written);
    kept = h.kept;
  }

  pub settled-read_pos :
      (r : RingBuffer A) (log : List A) (p : Producer A) (b c : Consumer A) (n : ℕ)
      → Holds k blank (settled k blank (threads r log p b)) (wrote k blank (threads r log p b))
      → n ≤ length log
      → Holds k blank
          (settled k blank (threads (record r { read_pos = n }) log p c))
          (wrote k blank (threads (record r { read_pos = n }) log p c))
  settled-read_pos r log Producer.idle b c n h le = Holds-read_pos r log n h le
  settled-read_pos r log (Producer.loaded x w) b c n h le = Holds-read_pos r log n h le
  settled-read_pos r log (Producer.storing x torn w) b c n h le =
      Holds-read_pos (record r { write_pos = add_size w 1 }) (log ++ torn ∷ []) n h
        (omega (arith, length-append log (torn ∷ [])))
  settled-read_pos r log (Producer.stored x w) b c n h le =
      Holds-read_pos (record r { write_pos = add_size w 1 }) (log ++ x ∷ []) n h
        (omega (arith, length-append log (x ∷ [])))

  pub store-Holds :
      (r : RingBuffer A) (log : List A) (x : A) (w : ℕ)
      → r.write_pos ≡ w
      → Holds k blank r log
      → length log + 1 < 2 ^ 64
      → Holds k blank
          (record r { buffer = set r.buffer (slot k w) x; write_pos = add_size w 1 })
          (log ++ x ∷ [])
  unfolding push
  store-Holds r log x w e h fits =
      subst
        (λ v.
          Holds k blank (record r { buffer = set r.buffer (slot k v) x; write_pos = add_size v 1 })
            (log ++ x ∷ []))
        e (push-Holds k blank r log x h fits)

  restored :
      (r : RingBuffer A) (log : List A) (x torn : A) (w i : ℕ)
      → w ≡ length log
      → length r.buffer ≡ 2 ^ k
      → i < length log + 1
      → length log + 1 ≤ i + 2 ^ k
      → (i < length log → get_or r.buffer (i % 2 ^ k) blank ≡ get_or (log ++ torn ∷ []) i blank)
      → get_or (set r.buffer (w % 2 ^ k) x) (i % 2 ^ k) blank ≡ get_or (log ++ x ∷ []) i blank
  restored r log x torn w i e room lt lap old = elim (ℕ_discrete i (length log)) [
    | yes at ↦
        rw (e, get_or-append_right log (x ∷ []) i blank at, at)
          (get_or-set_self r.buffer (length log % 2 ^ k) x blank
            (omega (arith, room, mod-lt (length log) (pow_pos k))))
    | no ne ↦
        rw
          (
            e,
            get_or-append_left log (x ∷ []) i blank (omega arith),
            get_or-set_ne r.buffer (length log % 2 ^ k) (i % 2 ^ k) x blank
                (λ f. mod-ne i (length log) (2 ^ k) (omega arith) (omega arith) (sym f)),
          )
          (old (omega arith) ∙ get_or-append_left log (torn ∷ []) i blank (omega arith))
  ]

  -- The item takes the place of what stood in its slot while it was copied.
  pub restore-Holds :
      (r : RingBuffer A) (log : List A) (x torn : A) (w : ℕ)
      → w ≡ length log
      → Holds k blank (record r { write_pos = add_size w 1 }) (log ++ torn ∷ [])
      → Holds k blank
          (record r { buffer = set r.buffer (slot k w) x; write_pos = add_size w 1 })
          (log ++ x ∷ [])
  restore-Holds r log x torn w e h =
      let old : length (log ++ torn ∷ []) ≡ length log + 1 = length-append log (torn ∷ []) in
      let new : length (log ++ x ∷ []) ≡ length log + 1 = length-append log (x ∷ []) in
      record {
        written = h.written ∙ old ∙ sym new;
        fits = omega (arith, h.fits);
        room = length-set r.buffer (slot k w) x ∙ h.room;
        read_le = h.read_le;
        kept = λ i lt lap. rw (slot-mod k w) (
            restored r log x torn w i e h.room (omega arith) (omega arith)
              (λ lt'. h.kept i (omega arith) (omega arith)));
      }

  Holds-item :
      (r : RingBuffer A) (log : List A) (n : ℕ)
      → Holds k blank r log
      → n < length log
      → length log ≤ n + 2 ^ k
      → get_or r.buffer (slot k n) blank ≡ get_or log n blank
  Holds-item r log n h lt lap = rw (slot-mod k n) (h.kept n lt lap)

  pub settled-item :
      (r : RingBuffer A) (log : List A) (p : Producer A) (c : Consumer A)
      → Holds k blank (settled k blank (threads r log p c)) (wrote k blank (threads r log p c))
      → r.read_pos < length log
      → length (wrote k blank (threads r log p c)) ≤ r.read_pos + 2 ^ k
      → get_or r.buffer (slot k r.read_pos) blank ≡ get_or log r.read_pos blank
  settled-item r log Producer.idle c h lt lap = Holds-item r log r.read_pos h lt lap
  settled-item r log (Producer.loaded x w) c h lt lap = Holds-item r log r.read_pos h lt lap
  settled-item r log (Producer.storing x torn w) c h lt lap =
      Holds-item (record r { write_pos = add_size w 1 }) (log ++ torn ∷ []) r.read_pos h
        (omega (arith, length-append log (torn ∷ []))) lap
      ∙ get_or-append_left log (torn ∷ []) r.read_pos blank lt
  settled-item r log (Producer.stored x w) c h lt lap =
      Holds-item (record r { write_pos = add_size w 1 }) (log ++ x ∷ []) r.read_pos h
        (omega (arith, length-append log (x ∷ []))) lap
      ∙ get_or-append_left log (x ∷ []) r.read_pos blank lt

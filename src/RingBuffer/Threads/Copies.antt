-- ===== src/RingBuffer/Threads/Copies.antt =====
-- include/pulseport/ring_buffer.h: what a copy out of the buffer is while the producer writes.
use pulseport.RingBuffer.History.{mod-ne, slot-mod}
use pulseport.RingBuffer.{RingBuffer, slot}
use pulseport.RingBuffer.Threads.{
  Consumer, IsBehind, IsLap, IsPlaced, IsRead, Producer, is_storing, written_over, threads, wrote,
}
use pulseport.Prelude.{
  List, [], arith, false, get_or-append_left, length, length-append, ne→==_false, not, refl, sym,
  true, ℕ, ◌%◌, ◌++◌, ◌+◌, ◌<◌, ◌==◌, ◌^◌, ◌∙◌, ◌∷◌, ◌≡◌, ◌≤◌,
}

module _ {ℓ} {A : Type ℓ} (k : ℕ) (blank : A) where
  pub IsBehind-later :
      (c : Consumer A) (read n m : ℕ)
      → n ≤ m
      → IsBehind k blank c read n
      → IsBehind k blank c read m
  IsBehind-later Consumer.idle read n m le h = tt
  IsBehind-later (Consumer.saw w) read n m le (h, h2) = (h, omega arith)
  IsBehind-later (Consumer.reading whole w) read n m le (h, h2) = (h, omega arith)
  IsBehind-later (Consumer.took x) read n m le h = omega arith

  pub IsBehind-written_over :
      (c : Consumer A) (s read n : ℕ)
      → IsBehind k blank c read n
      → IsBehind k blank (written_over k blank s read c) read n
  unfolding written_over
  IsBehind-written_over Consumer.idle s read n h = h
  IsBehind-written_over (Consumer.saw w) s read n h = h
  IsBehind-written_over (Consumer.reading whole w) s read n h = h
  IsBehind-written_over (Consumer.took x) s read n h = h

  -- Less than a lap behind, the slot that is read is not the slot that is written.
  slot-ne : (read w : ℕ) → read < w → IsLap k blank read (w + 1) → (slot k w == slot k read) ≡ false
  slot-ne read w lt lap =
      rw (slot-mod k w, slot-mod k read)
        (ne→==_false (w % 2 ^ k) (read % 2 ^ k)
          (λ e. mod-ne read w (2 ^ k) lt (omega arith) (sym e)))

  pub IsRead-written_over :
      (c : Consumer A) (read w n : ℕ) (log : List A)
      → n ≡ w + 1
      → IsBehind k blank c read w
      → IsRead k blank c read log w
      → IsRead k blank (written_over k blank (slot k w) read c) read log n
  unfolding written_over
  IsRead-written_over Consumer.idle read w n log e h i = i
  IsRead-written_over (Consumer.saw v) read w n log e h i = i
  IsRead-written_over (Consumer.reading whole v) read w n log e (h, h2) i = record {
    lower = λ lap. rw (i.lower (omega arith), slot-ne read w (omega arith) (omega arith)) refl;
  }
  IsRead-written_over (Consumer.took x) read w n log e h i = λ lap. i (omega arith)

  pub IsRead-publish :
      (c : Consumer A) (read n m : ℕ) (log : List A) (x : A)
      → m ≡ n
      → IsBehind k blank c read (length log)
      → IsRead k blank c read log n
      → IsRead k blank c read (log ++ x ∷ []) m
  IsRead-publish Consumer.idle read n m log x e h i = i
  IsRead-publish (Consumer.saw v) read n m log x e h i = i
  IsRead-publish (Consumer.reading whole v) read n m log x e h i = record {
    lower = λ lap. i.lower (omega arith);
  }
  IsRead-publish (Consumer.took y) read n m log x e h i =
      λ lap. i (omega arith) ∙ sym (get_or-append_left log (x ∷ []) read blank h)

  pub is_storing-lap :
      (r : RingBuffer A) (log : List A) (p : Producer A) (c : Consumer A)
      → IsPlaced k blank p (length log)
      → r.read_pos < length log
      → IsLap k blank r.read_pos (length (wrote k blank (threads r log p c)))
      → not (is_storing k blank p (slot k r.read_pos)) ≡ true
  unfolding is_storing
  is_storing-lap r log Producer.idle c e lt lap = refl
  is_storing-lap r log (Producer.loaded x w) c e lt lap = refl
  is_storing-lap r log (Producer.storing x torn w) c e lt lap =
      rw (slot-ne r.read_pos w (omega (arith, e)) (omega (arith, e, length-append log (torn ∷ []))))
        refl
  is_storing-lap r log (Producer.stored x w) c e lt lap = refl

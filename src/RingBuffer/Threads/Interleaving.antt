-- ===== src/RingBuffer/Threads/Interleaving.antt =====
-- include/pulseport/ring_buffer.h: what holds however a pushing and a popping thread interleave.
use pulseport.RingBuffer.History.{empty_ring-Holds}
use mathlib.Core.Bool.{true≢false}
use pulseport.RingBuffer.{RingBuffer, add_size, empty_ring, slot}
use pulseport.RingBuffer.Threads.{
  Consistent, Consumer, IsBehind, IsRead, Producer, written_over, Reach, Step, Threads, threads,
  wrote,
}
use mathlib.Core.Path.{subst}
use pulseport.Prelude.{
  List, [], arith, get_or, length, length-append, refl, sym, true, ℕ, ◌++◌, ◌+◌, ◌<◌, ◌^◌, ◌∙◌, ◌∷◌,
  ◌≡◌, ◌≤◌,
}
use pulseport.RingBuffer.Threads.Copies.{
  IsBehind-later, IsBehind-written_over, IsRead-written_over, IsRead-publish, is_storing-lap,
}
use pulseport.RingBuffer.Threads.Buffer.{settled-read_pos, store-Holds, restore-Holds, settled-item}

module _ {ℓ} {A : Type ℓ} (k : ℕ) (blank : A) where
  Step-length : {s t : Threads A} → Step k blank s t → length s.log ≤ length t.log
  Step-length (Step.load_write r log c x) = omega arith
  Step-length (Step.begin_store r log c x torn w) = omega arith
  Step-length (Step.store_item r log c x torn w) = omega arith
  Step-length (Step.publish r log c x w) = omega (arith, length-append log (x ∷ []))
  Step-length (Step.load_both r log p h) = omega arith
  Step-length (Step.begin_read r log p w) = omega arith
  Step-length (Step.read_item r log p w) = omega arith
  Step-length (Step.read_torn r log p w torn) = omega arith
  Step-length (Step.advance r log p x) = omega arith

  Step-Consistent :
      {s t : Threads A}
      → Step k blank s t
      → length t.log + 1 < 2 ^ 64
      → Consistent k blank s
      → Consistent k blank t
  Step-Consistent (Step.load_write r log c x) fits i = record {
    published = i.published;
    read_le = i.read_le;
    held = i.held;
    placed = i.published;
    behind = i.behind;
    item = i.item;
  }
  Step-Consistent (Step.begin_store r log c x torn w) fits i = record {
    published = i.published;
    read_le = i.read_le;
    held = store-Holds k blank r log torn w (i.published ∙ sym i.placed) i.held fits;
    placed = i.placed;
    behind = IsBehind-written_over k blank c (slot k w) r.read_pos (length log) i.behind;
    item =
        subst
          (λ n.
            IsRead k blank (written_over k blank (slot k n) r.read_pos c) r.read_pos log
              (length (log ++ torn ∷ [])))
          (sym i.placed)
          (IsRead-written_over k blank c r.read_pos (length log) (length (log ++ torn ∷ [])) log
            (length-append log (torn ∷ [])) i.behind i.item);
  }
  Step-Consistent (Step.store_item r log c x torn w) fits i = record {
    published = i.published;
    read_le = i.read_le;
    held = restore-Holds k blank r log x torn w i.placed i.held;
    placed = i.placed;
    behind = i.behind;
    item =
        subst (λ n. IsRead k blank c r.read_pos log n)
          (length-append log (torn ∷ []) ∙ sym (length-append log (x ∷ []))) i.item;
  }
  Step-Consistent (Step.publish r log c x w) fits i = record {
    published = i.held.written;
    read_le = omega (arith, i.read_le, length-append log (x ∷ []));
    held = i.held;
    placed = tt;
    behind =
        IsBehind-later k blank c r.read_pos (length log) (length (log ++ x ∷ []))
          (omega (arith, length-append log (x ∷ []))) i.behind;
    item =
        IsRead-publish k blank c r.read_pos (length (log ++ x ∷ [])) (length (log ++ x ∷ [])) log x
          refl i.behind i.item;
  }
  Step-Consistent (Step.load_both r log p h) fits i = record {
    published = i.published;
    read_le = i.read_le;
    held = i.held;
    placed = i.placed;
    behind = ground (arith, i.published, i.read_le);
    item = record { lower = tt };
  }
  Step-Consistent (Step.begin_read r log p w) fits i = record {
    published = i.published;
    read_le = i.read_le;
    held = i.held;
    placed = i.placed;
    behind = i.behind;
    item = record {
      lower =
          is_storing-lap k blank r log p (Consumer.saw w) i.placed
            (omega (arith, i.behind.0, i.behind.1));
    };
  }
  Step-Consistent (Step.read_item r log p w) fits i = record {
    published = i.published;
    read_le = i.read_le;
    held = i.held;
    placed = i.placed;
    behind = omega (arith, i.behind.0, i.behind.1);
    item = λ lap.
        settled-item k blank r log p (Consumer.reading true w) i.held
          (omega (arith, i.behind.0, i.behind.1)) lap;
  }
  Step-Consistent (Step.read_torn r log p w torn) fits i = record {
    published = i.published;
    read_le = i.read_le;
    held = i.held;
    placed = i.placed;
    behind = omega (arith, i.behind.0, i.behind.1);
    item = λ lap. absurd (true≢false (sym (i.item.lower lap)));
  }
  Step-Consistent (Step.advance r log p x) fits i = record {
    published = i.published;
    read_le = omega (arith, i.behind);
    held =
        settled-read_pos k blank r log p (Consumer.took x) Consumer.idle (add_size r.read_pos 1)
          i.held (omega (arith, i.behind));
    placed = i.placed;
    behind = tt;
    item = record { lower = tt };
  }

  Reach-Consistent :
      {t : Threads A} → Reach k blank t → length t.log + 1 < 2 ^ 64 → Consistent k blank t
  unfolding empty_ring
  Reach-Consistent Reach.start fits = record {
    published = refl;
    read_le = omega arith;
    held = empty_ring-Holds k blank;
    placed = tt;
    behind = tt;
    item = record { lower = tt };
  }
  Reach-Consistent (Reach.later reached step) fits =
      Step-Consistent step fits (Reach-Consistent reached (omega (arith, Step-length step)))

  -- However the steps of the two threads interleave from an empty ring, fewer than 2^64 - 1 items pushed, the
  -- positions keep to their bounds: the write position counts the published items, the read position is not
  -- past it, and while a pop is between its loads and its end an item is there to be popped.
  pub Reach-bounds :
      {t : Threads A}
      → Reach k blank t
      → length t.log + 1 < 2 ^ 64
      → (t.ring.write_pos ≡ length t.log)
        × (t.ring.read_pos ≤ t.ring.write_pos)
        × IsBehind k blank t.consumer t.ring.read_pos t.ring.write_pos
  Reach-bounds {t} reached fits =
      let i = Reach-Consistent reached fits in
      (
        i.published,
        omega (arith, i.published, i.read_le),
        IsBehind-later k blank t.consumer t.ring.read_pos (length t.log) t.ring.write_pos
            (omega (arith, i.published)) i.behind,
      )

  -- However the steps interleave, fewer than 2^64 - 1 items pushed, the copy that a pop has made is the item that was
  -- pushed at the read position, if the producer, the item that it began to write included, is not more than the
  -- capacity ahead.
  pub Reach-read_item :
      (r : RingBuffer A) (log : List A) (p : Producer A) (x : A)
      → Reach k blank (threads r log p (Consumer.took x))
      → length log + 1 < 2 ^ 64
      → length (wrote k blank (threads r log p (Consumer.took x))) ≤ r.read_pos + 2 ^ k
      → x ≡ get_or log r.read_pos blank
  Reach-read_item r log p x reached fits lap = let i = Reach-Consistent reached fits in i.item lap

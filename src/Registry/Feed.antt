-- ===== src/Registry/Feed.antt =====
-- What the registry returns for a metric, in terms of every sample pushed since it was registered.
use pulseport.RingBuffer.{RingBuffer}
use pulseport.RingBuffer.History.{Holds, push-Holds, empty_ring-Holds}
use pulseport.RingBuffer.Reads.{peek_last-drop}
use mathlib.Core.Path.{subst}
use pulseport.RingBuffer
use pulseport.Registry.{
  Registry, Entry, live_bits, new_entry, record_sample, register_metric, push_sample, latest,
  recent,
}
use pulseport.Prelude.{
  Bool-cases, List, Option-cases, String, [], append-nil, append_assoc, arith, drop, eq_iff, false,
  if◌then◌else◌, inl, inr, length, length-append, min, none, refl, some, str_eq, sym, ℕ, ◌++◌, ◌+◌,
  ◌-◌, ◌<◌, ◌^◌, ◌∙◌, ◌∷◌, ◌≡◌, ◌≤◌,
}
use pulseport.Prelude.Int.{eqb_ℤ, pos}
use pulseport.Prelude.Double.{Double}
use pulseport.Prelude.Dict.{lookup, lookup-insert, lookup-insert_self}
use pulseport.Types.{MetricInfo, MetricSample, empty_sample}

module _ {ℓ} {D : Type ℓ} ⦃d : Double D⦄ where
  -- Samples pushed one after the other.
  unfoldable pub push_all : Registry D → List (MetricSample D) → Registry D
  push_all r [] = r
  push_all r (s ∷ ss) = push_all (push_sample r s) ss

  -- The samples of one metric.
  unfoldable pub of_key : String → List (MetricSample D) → List (MetricSample D)
  of_key key [] = []
  of_key key (s ∷ ss) = if str_eq s.key key then s ∷ of_key key ss else of_key key ss

  -- The last of the samples, or the one before them all.
  abbrev pub last_of : MetricSample D → List (MetricSample D) → MetricSample D
  last_of s [] = s
  last_of s (t ∷ ss) = last_of t ss

  last_of-append :
      (s t : MetricSample D) (ss : List (MetricSample D)) → last_of s (ss ++ (t ∷ [])) ≡ t
  last_of-append s t [] = refl
  last_of-append s t (u ∷ ss) = last_of-append u t ss

  pub length-of_key :
      (key : String) (ss : List (MetricSample D)) → length (of_key key ss) ≤ length ss
  unfolding of_key
  length-of_key key [] = omega arith
  length-of_key key (s ∷ ss) = ground (arith, length-of_key key ss)

  -- The entry of a metric has the samples of `log` in its ring, none of them popped, and the last of them at
  -- hand (`start` before there is one).
  pub record Tracks (r : Registry D) (key : String) (start : MetricSample D)
      (log : List (MetricSample D)) : Type ℓ where
    pub entry : Entry D
    pub found : lookup key r ≡ some entry
    pub held : Holds live_bits empty_sample entry.buffer log
    pub unread : entry.buffer.read_pos ≡ 0
    pub last : entry.last_sample ≡ last_of start log

  pub lookup-push_sample_same :
      (r : Registry D) (s : MetricSample D) (e : Entry D)
      → lookup s.key r ≡ some e
      → lookup s.key (push_sample r s) ≡ some (record_sample e s)
  unfolding push_sample
  lookup-push_sample_same r s e h =
      rw (h, push_sample) (lookup-insert_self s.key (record_sample e s) r)

  pub lookup-push_sample_other :
      (r : Registry D) (s : MetricSample D) (key : String)
      → str_eq s.key key ≡ false
      → lookup key (push_sample r s) ≡ lookup key r
  unfolding push_sample
  lookup-push_sample_other r s key ne = elim (Option-cases (lookup s.key r)) [
    | inl h ↦ rw (h, push_sample)
    | inr (e, h) ↦ rw (h, push_sample, lookup-insert s.key key (record_sample e s) r, ne)
  ]

  push_sample-Tracks_same :
      (r : Registry D) (s start : MetricSample D) (log : List (MetricSample D))
      → Tracks r s.key start log
      → length log + 1 < 2 ^ 64
      → Tracks (push_sample r s) s.key start (log ++ (s ∷ []))
  unfolding record_sample RingBuffer.push
  push_sample-Tracks_same r s start log t h = record {
    entry = record_sample t.entry s;
    found = lookup-push_sample_same r s t.entry t.found;
    held = push-Holds live_bits empty_sample t.entry.buffer log s t.held h;
    unread = t.unread;
    last = sym (last_of-append start s log);
  }

  push_sample-Tracks :
      (r : Registry D) (key : String) (s start : MetricSample D) (log : List (MetricSample D))
      → Tracks r key start log
      → length log + 1 < 2 ^ 64
      → Tracks (push_sample r s) key start (if str_eq s.key key then log ++ (s ∷ []) else log)
  push_sample-Tracks r key s start log t h = elim (Bool-cases (str_eq s.key key)) [
    | inl same ↦
        let e : s.key ≡ key = (eq_iff s.key key).0 same in
        rw same (
          subst (λ j. Tracks (push_sample r s) j start (log ++ (s ∷ []))) e
            (push_sample-Tracks_same r s start log (subst (λ j. Tracks r j start log) (sym e) t) h))
    | inr other ↦ rw other (record {
      entry = t.entry;
      found = lookup-push_sample_other r s key other ∙ t.found;
      held = t.held;
      unread = t.unread;
      last = t.last;
    })
  ]

  push_all-Tracks :
      (ss : List (MetricSample D)) (r : Registry D) (key : String) (start : MetricSample D)
      (log : List (MetricSample D))
      → Tracks r key start log
      → length log + length ss < 2 ^ 64
      → Tracks (push_all r ss) key start (log ++ of_key key ss)
  unfolding push_all of_key
  push_all-Tracks [] r key start log t h = rw append-nil t
  push_all-Tracks (s ∷ ss) r key start log t h =
      let now = push_sample-Tracks r key s start log t (omega arith) in
      elim (Bool-cases (str_eq s.key key)) [
        | inl same ↦
            rw (same, ← append_assoc log (s ∷ []) (of_key key ss))
              (push_all-Tracks ss (push_sample r s) key start (log ++ (s ∷ [])) (rw same at now)
                (omega (arith, length-append log (s ∷ []))))
        | inr other ↦
            rw other
              (push_all-Tracks ss (push_sample r s) key start log (rw other at now) (omega arith))
      ]

  register_metric-Tracks :
      (r : Registry D) (info : MetricInfo)
      → lookup info.key r ≡ none
      → Tracks (register_metric r info) info.key (new_entry info).last_sample []
  unfolding register_metric new_entry
  register_metric-Tracks r info h = record {
    entry = new_entry info;
    found = rw (h, register_metric) (lookup-insert_self info.key (new_entry info) r);
    held = empty_ring-Holds live_bits empty_sample;
    unread = refl;
    last = refl;
  }

  -- After a metric was registered for the first time, whatever samples of this and other metrics are pushed,
  -- `recent` returns the last of this metric's samples, oldest first: as many as asked, at most 2048, and no
  -- sample of another metric.
  pub recent-push_all :
      (r : Registry D) (info : MetricInfo) (ss : List (MetricSample D)) (count : ℕ)
      → lookup info.key r ≡ none
      → length ss < 2 ^ 64
      → let log = of_key info.key ss in
        recent (push_all (register_metric r info) ss) info.key count
        ≡ drop (length log - min count (min (length log) 2048)) log
  unfolding recent
  recent-push_all r info ss count h fits =
      let log = of_key info.key ss in
      let t =
        push_all-Tracks ss (register_metric r info) info.key (new_entry info).last_sample []
          (register_metric-Tracks r info h) (omega arith) in
      let all_unread : length log - t.entry.buffer.read_pos ≡ length log =
        omega (arith, t.unread) in
      rw (
        t.found,
        recent,
        peek_last-drop live_bits empty_sample t.entry.buffer log count t.held,
        all_unread,
      )

  -- After a metric was registered for the first time and some samples were pushed, `latest` returns the last of
  -- this metric's samples, unless there is none or its time stamp is 0.
  pub latest-push_all :
      (r : Registry D) (info : MetricInfo) (ss : List (MetricSample D))
      → lookup info.key r ≡ none
      → length ss < 2 ^ 64
      → let log = of_key info.key ss in
        let s = last_of (record (empty_sample {D = D}) { key = info.key; unit = info.unit }) log in
        latest (push_all (register_metric r info) ss) info.key
        ≡ (if eqb_ℤ s.ts (pos 0) then none else some s)
  unfolding latest new_entry
  latest-push_all r info ss h fits =
      let t =
        push_all-Tracks ss (register_metric r info) info.key (new_entry info).last_sample []
          (register_metric-Tracks r info h) (omega arith) in
      rw (t.found, latest, t.last)

-- ===== src/Event/LockFreeQueue/Steps.antt =====
-- What the steps of the two threads keep of the ring buffer.
use mxrc.Common.{
  append_assoc, ℕ, zero, suc, ◌+◌, ◌%◌, ◌<◌, ◌≤◌, ◌≡◌, ◌∙◌, ap, refl, sym, subst, inl, inr, [], ◌∷◌,
  ◌++◌, arith, ◌==◌, Bool-cases,
}
use mxrc.Event.LockFreeQueue.{SpscLockFreeQueue, Producer, Consumer, produce, consume, set}
use mxrc.Event.LockFreeQueue.Ring.{wrap, mod_wrap, segment, segment-append, segment-set}

module _ {A : Type 0} where
  -- What the producer knows between its steps, when `n` items wait.
  abbrev Producing : SpscLockFreeQueue A → ℕ → Producer A → Type 0
  Producing q n Producer.idle = Unit
  Producing q n (Producer.checked y i next) =
      (i ≡ q.write_pos) × (next ≡ (q.write_pos + 1) % q.capacity) × (n + 1 < q.capacity)
  Producing q n (Producer.written y next) =
      (q.buffer q.write_pos ≡ y) × (next ≡ (q.write_pos + 1) % q.capacity) × (n + 1 < q.capacity)

  abbrev Consuming : SpscLockFreeQueue A → ℕ → Consumer A → Type 0
  Consuming q n Consumer.idle = Unit
  Consuming q n (Consumer.checked i) = (i ≡ q.read_pos) × (0 < n)
  Consuming q n (Consumer.read i y) = (i ≡ q.read_pos) × (0 < n) × (y ≡ q.buffer q.read_pos)

  -- `n` items wait, and they are the ones pushed but not popped.
  pub record Waits (capacity n : ℕ) (q : SpscLockFreeQueue A) : Type 0 where
    pub whole : q.capacity ≡ capacity
    pub begins : q.read_pos < capacity
    pub ends : q.write_pos ≡ wrap capacity (q.read_pos + n)
    pub fits : n < capacity
    pub order : q.pushed ≡ q.popped ++ segment capacity q.buffer q.read_pos n
    pub producing : Producing q n q.producer
    pub consuming : Consuming q n q.consumer

  Consuming-keeps :
      (k : Consumer A) (q r : SpscLockFreeQueue A) (n m : ℕ)
      → r.read_pos ≡ q.read_pos
      → n ≤ m
      → (0 < n → r.buffer r.read_pos ≡ q.buffer q.read_pos)
      → Consuming q n k
      → Consuming r m k
  Consuming-keeps Consumer.idle q r n m same more b h = tt
  Consuming-keeps (Consumer.checked i) q r n m same more b h =
      (h.0 ∙ sym same, omega (arith, h.1, more))
  Consuming-keeps (Consumer.read i y) q r n m same more b h =
      (h.0 ∙ sym same, omega (arith, h.1, more), h.2 ∙ sym (b h.1))

  module _ (c n : ℕ) (q : SpscLockFreeQueue A) (h : Waits c n q) where
    at_end : q.write_pos < c
    at_end = ground (arith, h.ends, h.begins, h.fits)

    next_end : (q.write_pos + 1) % q.capacity ≡ wrap c (q.write_pos + 1)
    next_end = ap (λ k. (q.write_pos + 1) % k) h.whole ∙ mod_wrap c q.write_pos at_end

    -- The three steps of the producer.
    pub starts : (x : A) → q.producer ≡ Producer.idle → Waits c n (produce x q)
    unfolding produce
    starts x e = elim (Bool-cases ((q.write_pos + 1) % q.capacity == q.read_pos)) [
      | inl full ↦ rw (produce, e, full) h
      | inr free ↦
          let room : n + 1 < q.capacity =
            ground (arith, free, h.ends, h.begins, h.fits, h.whole, next_end) in
          rw (produce, e, free)
            (record {
              whole = h.whole;
              begins = h.begins;
              ends = h.ends;
              fits = h.fits;
              order = h.order;
              producing = (refl, refl, room);
              consuming = h.consuming;
            })
    ]

    pub writes :
        (x y : A) (i next : ℕ) → q.producer ≡ Producer.checked y i next → Waits c n (produce x q)
    unfolding produce
    writes x y i next e =
        let p = subst (Producing q n) e h.producing in
        let place : i ≡ wrap c (q.read_pos + (n + 0)) =
          p.0 ∙ h.ends ∙ ap (λ k. wrap c (q.read_pos + k)) (omega arith) in
        let apart : 0 < n → set i y q.buffer q.read_pos ≡ q.buffer q.read_pos =
          λ some_wait. ground (arith, p.0, h.ends, h.begins, h.fits, some_wait) in
        rw (produce, e)
          (record {
            whole = h.whole;
            begins = h.begins;
            ends = h.ends;
            fits = h.fits;
            order =
                h.order
                ∙ ap (λ l. q.popped ++ l)
                    (sym (
                      ap (λ j. segment c (set j y q.buffer) q.read_pos n) place
                      ∙ segment-set c q.buffer y q.read_pos n 0 h.begins (omega (arith, h.fits))));
            producing = (ground (arith, p.0), p.1, p.2);
            consuming =
                Consuming-keeps q.consumer q (record q { buffer = set i y q.buffer }) n n refl
                  (omega arith) apart h.consuming;
          })

    pub publishes :
        (x y : A) (next : ℕ) → q.producer ≡ Producer.written y next → Waits c (suc n) (produce x q)
    unfolding produce
    publishes x y next e =
        let p = subst (Producing q n) e h.producing in
        rw (produce, e)
          (record {
            whole = h.whole;
            begins = h.begins;
            ends = p.1 ∙ next_end ∙ ground (arith, h.ends, h.begins, h.fits, h.whole, p.2);
            fits = omega (arith, p.2, h.whole);
            order =
                ap (λ l. l ++ y ∷ []) h.order
                ∙ append_assoc q.popped (segment c q.buffer q.read_pos n) (y ∷ [])
                ∙ ap (λ l. q.popped ++ l)
                    (ap (λ z. segment c q.buffer q.read_pos n ++ z ∷ [])
                        (sym p.0 ∙ ap q.buffer h.ends)
                      ∙ sym (segment-append c q.buffer q.read_pos n h.begins h.fits));
            producing = tt;
            consuming =
                Consuming-keeps q.consumer q (record q { write_pos = next }) n (suc n) refl
                  (omega arith) (λ some_wait. refl) h.consuming;
          })

    -- The three steps of the consumer; its first leaves an empty queue alone.
    pub tests : q.consumer ≡ Consumer.idle → Waits c n (consume q)
    unfolding consume
    tests e = elim (Bool-cases (q.read_pos == q.write_pos)) [
      | inl nothing ↦ rw (consume, e, nothing) h
      | inr some_wait ↦
          let more : 0 < n = ground (arith, some_wait, h.ends, h.begins) in
          rw (consume, e, some_wait)
            (record {
              whole = h.whole;
              begins = h.begins;
              ends = h.ends;
              fits = h.fits;
              order = h.order;
              producing = h.producing;
              consuming = (refl, more);
            })
    ]

    pub reads : (i : ℕ) → q.consumer ≡ Consumer.checked i → Waits c n (consume q)
    unfolding consume
    reads i e =
        let k = subst (Consuming q n) e h.consuming in
        rw (consume, e)
          (record {
            whole = h.whole;
            begins = h.begins;
            ends = h.ends;
            fits = h.fits;
            order = h.order;
            producing = h.producing;
            consuming = (k.0, k.1, ap q.buffer k.0);
          })

  Producing-keeps :
      (k : Producer A) (q r : SpscLockFreeQueue A) (n m : ℕ)
      → r.write_pos ≡ q.write_pos
      → r.capacity ≡ q.capacity
      → m ≤ n
      → r.buffer ≡ q.buffer
      → Producing q n k
      → Producing r m k
  Producing-keeps Producer.idle q r n m w c less b h = tt
  Producing-keeps (Producer.checked y i next) q r n m w c less b h =
      (h.0 ∙ sym w, rw (w, c) h.1, rw c (omega (arith, h.2, less)))
  Producing-keeps (Producer.written y next) q r n m w c less b h =
      (rw (b, w) h.0, rw (w, c) h.1, rw c (omega (arith, h.2, less)))

  pub pops :
      (c n : ℕ) (q : SpscLockFreeQueue A) (i : ℕ) (y : A)
      → Waits c n q
      → q.consumer ≡ Consumer.read i y
      → (m : ℕ) × Waits c m (consume q)
  unfolding consume
  pops c zero q i y h e = let k = subst (Consuming q 0) e h.consuming in ground (arith, k.1)
  pops c (suc n) q i y h e =
      let k = subst (Consuming q (suc n)) e h.consuming in
      let next : (i + 1) % q.capacity ≡ wrap c (q.read_pos + 1) =
        ap (λ j. (j + 1) % q.capacity) k.0
        ∙ ap (λ l. (q.read_pos + 1) % l) h.whole
        ∙ mod_wrap c q.read_pos h.begins in
      (
        n,
        rw (consume, e)
            (record {
              whole = h.whole;
              begins = ground (arith, next, h.begins);
              ends = ground (arith, next, h.ends, h.begins, h.fits);
              fits = omega (arith, h.fits);
              order =
                  h.order
                  ∙ ap (λ z. q.popped ++ z ∷ segment c q.buffer (wrap c (q.read_pos + 1)) n)
                      (sym k.2)
                  ∙ ap (λ j. q.popped ++ y ∷ segment c q.buffer j n) (sym next)
                  ∙ sym (
                      append_assoc q.popped (y ∷ []) (segment c q.buffer ((i + 1) % q.capacity) n));
              producing =
                  Producing-keeps q.producer q (record q { read_pos = (i + 1) % q.capacity })
                    (suc n) n refl refl (omega arith) refl h.producing;
              consuming = tt;
            }),
      )

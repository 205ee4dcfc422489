-- ===== src/Its/Link/Receive.antt =====
-- What receiving and resetting do to a packet link.
use spangap_core.Base.{
  ◌>>=◌, ℕ, ◌+◌, ◌/◌, ◌<◌, ◌≡◌, refl, sym, ap, ◌∙◌, subst, true, false, none, some, List, [], ◌∷◌,
  map, arith, ltb, if◌then◌else◌, lt→ltb, le→ltb, length, take-all, u32, sub_u32,
}
use spangap_core.Its.Counter.{Ctr, ctr_sub}
use spangap_core.Its.Link.{
  StreamBuffer, Side, link_dequeue, recv_message, its_recv, hand_off, its_recv_ref, drain_ring,
  link_purge,
}
use spangap_core.Its.Link.Queue.{
  Laws, Limits, total, desc_of, recv, recv_ref, reset, received, referenced, queue_step, side_step,
  Stands, Follows,
}
use spangap_core.Its.Link.Send.{length-map}

module _ (b : StreamBuffer) (laws : Laws b) (k : Limits) (base : ℕ) where
  -- The side after its oldest message was received and its payload uncounted.
  dequeued :
      (s : Side b) (q : List (List ℕ)) (m : List ℕ) (r' : b.R)
      → Stands b laws k base s (m ∷ q)
      → laws.items r' ≡ map desc_of q
      → laws.capacity r' ≡ laws.capacity s.link.ring
      → Stands b laws k base
          (record {
            link = record s.link { ring = r'; outstanding = sub_u32 s.link.outstanding (length m) };
            pay = ctr_sub s.pay (length m);
          })
          q
  unfolding ctr_sub
  dequeued s q m r' st rest same = record {
    held = rest;
    charged = omega (arith, st.charged, st.within, k.small);
    counted = omega (arith, st.counted, st.within, k.small);
    no_empty = st.no_empty.1;
    within = omega (arith, st.within);
    fits = same ∙ st.fits;
    cap = st.cap;
    max = st.max;
  }

  empty-dequeue : (s : Side b) → Stands b laws k base s [] → link_dequeue b s.link ≡ none
  unfolding link_dequeue
  empty-dequeue s st =
      let r = s.link.ring in
      let nothing : ltb (b.available r) 8 ≡ true =
        lt→ltb (b.available r) 8 (omega (arith, laws.available-items r, ap length st.held)) in
      rw nothing refl

  some-dequeue :
      (s : Side b) (m : List ℕ) (q : List (List ℕ))
      → Stands b laws k base s (m ∷ q)
      → (r' : b.R) × (link_dequeue b s.link
          ≡ some (
            desc_of m,
            record s.link { ring = r'; outstanding = sub_u32 s.link.outstanding (length m) },
          ))
        × (laws.items r' ≡ map desc_of q)
        × (laws.capacity r' ≡ laws.capacity s.link.ring)
  unfolding link_dequeue
  some-dequeue s m q st =
      let r = s.link.ring in
      let some_there : ltb (b.available r) 8 ≡ false =
        le→ltb (b.available r) 8 (omega (arith, laws.available-items r, ap length st.held)) in
      let got = laws.receive-items r (desc_of m) (map desc_of q) st.held in
      (
        got.0,
        rw some_there (
            ap
              (λ o. o >>= (λ x. some (
                x.0,
                record s.link { ring = x.1; outstanding = sub_u32 s.link.outstanding x.0.len },
              )))
              got.1),
        got.2,
        got.3,
      )

  pub recv-step :
      (s : Side b) (q : List (List ℕ)) (max_len : ℕ)
      → Stands b laws k base s q
      → Follows b laws k base (side_step b (recv max_len) s) (queue_step k (recv max_len) q)
  unfolding side_step queue_step its_recv
  recv-step s [] max_len st =
      let ended : recv_message b s max_len (link_dequeue b s.link) ≡ ([], s) =
        ap (recv_message b s max_len) (empty-dequeue s st) in
      (ap (λ r. received r.0) ended, subst (λ r. Stands b laws k base r.1 []) (sym ended) st)
  recv-step s (m ∷ q) max_len st =
      let got = some-dequeue s m q st in
      let after = dequeued s q m got.0 st got.2 got.3 in
      let ended = ap (recv_message b s max_len) got.1 in
      (
        ap (λ r. received r.0) ended
            ∙ ap (λ w. received (if ltb max_len (length m) then [] else w))
                (take-all (length m) m (omega arith)),
        subst (λ r. Stands b laws k base r.1 q) (sym ended) after,
      )

  pub recv_ref-step :
      (s : Side b) (q : List (List ℕ))
      → Stands b laws k base s q
      → Follows b laws k base (side_step b recv_ref s) (queue_step k recv_ref q)
  unfolding side_step queue_step its_recv_ref
  recv_ref-step s [] st =
      let ended : hand_off b s (link_dequeue b s.link) ≡ (none, s) =
        ap (hand_off b s) (empty-dequeue s st) in
      (ap (λ r. referenced r.0) ended, subst (λ r. Stands b laws k base r.1 []) (sym ended) st)
  recv_ref-step s (m ∷ q) st =
      let got = some-dequeue s m q st in
      let after = dequeued s q m got.0 st got.2 got.3 in
      let ended = ap (hand_off b s) got.1 in
      (ap (λ r. referenced r.0) ended, subst (λ r. Stands b laws k base r.1 q) (sym ended) after)

  -- What draining the ring leaves: an empty ring, and the payloads uncounted.
  drained :
      (q : List (List ℕ)) (r : b.R) (c : Ctr) (elsewhere : ℕ)
      → laws.items r ≡ map desc_of q
      → c.live_bytes ≡ u32 (elsewhere + total q)
      → total q < 4294967296
      → (laws.items (drain_ring b (length q) r c).0 ≡ [])
        × (laws.capacity (drain_ring b (length q) r c).0 ≡ laws.capacity r)
        × ((drain_ring b (length q) r c).1.live_bytes ≡ u32 elsewhere)
  unfolding drain_ring ctr_sub
  drained [] r c elsewhere held counted small = (held, refl, omega (arith, counted))
  drained (m ∷ q) r c elsewhere held counted small =
      let some_there : ltb (b.available r) 8 ≡ false =
        le→ltb (b.available r) 8 (omega (arith, laws.available-items r, ap length held)) in
      let got = laws.receive-items r (desc_of m) (map desc_of q) held in
      let c' = ctr_sub c (length m) in
      let rest =
        drained q got.0 c' elsewhere got.2 (omega (arith, counted, small)) (omega (arith, small)) in
      rw some_there (rw got.1 (rest.0, rest.1 ∙ got.3, rest.2))

  pub reset-step :
      (s : Side b) (q : List (List ℕ))
      → Stands b laws k base s q
      → Follows b laws k base (side_step b reset s) (queue_step k reset q)
  unfolding side_step queue_step link_purge
  reset-step s q st =
      let r = s.link.ring in
      let fuel : b.available r / 8 ≡ length q =
        omega (arith, laws.available-items r, ap length st.held, length-map q) in
      let small : total q < 4294967296 = omega (arith, st.within, k.small) in
      let rest = drained q r s.pay base st.held st.counted small in
      let after = λ (n : ℕ). drain_ring b n r s.pay in
      let fill : laws.capacity (b.reset (after (b.available r / 8)).0) ≡ laws.capacity r =
        laws.capacity-reset (after (b.available r / 8)).0
        ∙ ap (λ (n : ℕ). laws.capacity (after n).0) fuel
        ∙ rest.1 in
      let uncounted : (after (b.available r / 8)).1.live_bytes ≡ u32 base =
        ap (λ (n : ℕ). (after n).1.live_bytes) fuel ∙ rest.2 in
      (
        refl,
        record {
          held = laws.reset-items (after (b.available r / 8)).0;
          charged = refl;
          counted = uncounted ∙ ap u32 (omega arith);
          no_empty = _;
          within = omega arith;
          fits = fill ∙ st.fits;
          cap = st.cap;
          max = st.max;
        },
      )

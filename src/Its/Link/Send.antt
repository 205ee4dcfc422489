-- ===== src/Its/Link/Send.antt =====
-- What sending does to a packet link.
use spangap_core.Base.{
  ℕ, suc, ◌+◌, ◌-◌, ◌≤◌, ◌<◌, ◌≡◌, refl, sym, ap, ◌∙◌, ◌≢◌, ◌⊎◌, inl, inr, Bool, true, false, not,
  ◌||◌, List, [], ◌∷◌, ◌++◌, map, arith, ltb, leb, ◌==◌, if◌then◌else◌, Bool-cases, ltb→le, leb→le,
  leb→lt, lt→ltb, le→ltb, ne→==, length, All-append, u32,
}
use spangap_core.Its.Counter.{Ctr, ctr_add, pay_alloc}
use spangap_core.Its.Link.{
  StreamBuffer, Source, owned, copied, Side, link_send_space, link_can_send, link_enqueue,
  take_payload, queue_payload, its_send_packet,
}
use spangap_core.Its.Link.Queue.{
  Laws, Limits, total, desc_of, send, Answer, sent, admits, has_block, queue_step, side_step,
  Stands, Follows,
}

pub length-map : (q : List (List ℕ)) → length (map desc_of q) ≡ length q
length-map [] = refl
length-map (m ∷ q) = ap suc (length-map q)

total-last : (q : List (List ℕ)) (m : List ℕ) → total (q ++ m ∷ []) ≡ total q + length m
total-last [] m = omega arith
total-last (x ∷ q) m = omega (arith, total-last q m)

map-last :
    (q : List (List ℕ)) (m : List ℕ) → map desc_of (q ++ m ∷ []) ≡ map desc_of q ++ desc_of m ∷ []
map-last [] m = refl
map-last (x ∷ q) m = ap (λ w. desc_of x ∷ w) (map-last q m)

both-if {ℓ κ μ} :
    {A : Type ℓ} {B : Type κ} (P : A → B → Type μ) (t t' : Bool) (x y : A) (x' y' : B)
    → t ≡ t'
    → P x x'
    → (t' ≡ false → P y y')
    → P (if t then x else y) (if t' then x' else y')
both-if P true true x y x' y' e h f = h
both-if P true false x y x' y' e h f = ground (arith, e)
both-if P false true x y x' y' e h f = ground (arith, e)
both-if P false false x y x' y' e h f = f refl

in-range : (n longest : ℕ) → (n == 0 || ltb longest n) ≡ false → (n ≢ 0) × (n ≤ longest)
in-range n longest e = ground (arith, e)

abbrev pub space_of : Bool → ℕ → ℕ → ℕ → ℕ
space_of full out max_msg byte_cap =
    if full then 0 else if out == 0 then max_msg else if ltb out byte_cap then byte_cap - out else 0

abbrev pub admit_of : Bool → ℕ → ℕ → ℕ → Bool
admit_of full out sum byte_cap = if full then false else out == 0 || leb sum byte_cap

admits-room :
    (k : Limits) (q : List (List ℕ)) (len : ℕ)
    → admits k q len ≡ true
    → (leb k.depth (length q) ≡ false) × (total q ≡ 0 ⊎ total q + len ≤ k.window)
admits-room k q len ok = elim (Bool-cases (leb k.depth (length q))) [
  | inl e ↦
      let bad : false ≡ true =
        ap (λ f. admit_of f (total q) (total q + len) k.window) (sym e) ∙ ok in
      ground (arith, bad)
  | inr e ↦
      let rest : (total q == 0 || leb (total q + len) k.window) ≡ true =
        ap (λ f. admit_of f (total q) (total q + len) k.window) (sym e) ∙ ok in
      (e, ground (arith, rest))
]

module _ (b : StreamBuffer) (laws : Laws b) (k : Limits) (base : ℕ) where
  pub full_iff :
      (s : Side b) (q : List (List ℕ))
      → Stands b laws k base s q
      → ltb (b.spaces s.link.ring) 8 ≡ leb k.depth (length q)
  full_iff s q st =
      let r = s.link.ring in
      let count : length (laws.items r) ≡ length q = ap length st.held ∙ length-map q in
      let left = laws.spaces-items r in
      elim (Bool-cases (leb k.depth (length q))) [
        | inl e ↦
            lt→ltb (b.spaces r) 8 (omega (arith, left, count, st.fits, leb→le k.depth (length q) e))
            ∙ sym e
        | inr e ↦
            le→ltb (b.spaces r) 8 (omega (arith, left, count, st.fits, leb→lt k.depth (length q) e))
            ∙ sym e
      ]

  pub space-step :
      (s : Side b) (q : List (List ℕ))
      → Stands b laws k base s q
      → link_send_space b s.link ≡ (
          if leb k.depth (length q)
          then 0
          else if total q == 0
          then k.longest
          else if ltb (total q) k.window
          then k.window - total q
          else 0)
  unfolding link_send_space
  space-step s q st =
      let l = s.link in
      ap (λ f. space_of f l.outstanding l.max_msg l.byte_cap) (full_iff s q st)
      ∙ ap (λ (o : ℕ). space_of (leb k.depth (length q)) o l.max_msg l.byte_cap) st.charged
      ∙ ap (λ (o : ℕ). space_of (leb k.depth (length q)) (total q) o l.byte_cap) st.max
      ∙ ap (space_of (leb k.depth (length q)) (total q) k.longest) st.cap

  admits_iff :
      (s : Side b) (q : List (List ℕ)) (len : ℕ)
      → Stands b laws k base s q
      → len ≤ k.longest
      → link_can_send b s.link len ≡ admits k q len
  unfolding link_can_send
  admits_iff s q len st short =
      let l = s.link in
      let whole : u32 (total q + len) ≡ total q + len = omega (arith, st.within, short, k.small) in
      ap (λ f. admit_of f l.outstanding (u32 (l.outstanding + len)) l.byte_cap) (full_iff s q st)
      ∙ ap (λ (o : ℕ). admit_of (leb k.depth (length q)) o (u32 (o + len)) l.byte_cap) st.charged
      ∙ ap (λ (o : ℕ). admit_of (leb k.depth (length q)) (total q) o l.byte_cap) whole
      ∙ ap (admit_of (leb k.depth (length q)) (total q) (total q + len)) st.cap

  -- The side after the message was queued.
  enqueued :
      (s : Side b) (q : List (List ℕ)) (m : List ℕ) (pay : Ctr)
      → Stands b laws k base s q
      → length m ≢ 0
      → length m ≤ k.longest
      → admits k q (length m) ≡ true
      → pay.live_bytes ≡ u32 (s.pay.live_bytes + length m)
      → Stands b laws k base
          (record { link = link_enqueue b s.link (desc_of m); pay = pay })
          (q ++ m ∷ [])
  unfolding link_enqueue
  enqueued s q m pay st some_bytes short ok counted =
      let r = s.link.ring in
      let longer = total-last q m in
      let room : 8 ≤ b.spaces r =
        ltb→le (b.spaces r) 8 (full_iff s q st ∙ (admits-room k q (length m) ok).0) in
      record {
        held =
            laws.send-items r (desc_of m) room
            ∙ ap (λ w. w ++ desc_of m ∷ []) st.held
            ∙ sym (map-last q m);
        charged = omega (arith, st.charged, longer, st.within, short, k.small);
        counted = omega (arith, counted, st.counted, longer);
        no_empty =
            All-append (λ x. 0 < length x) q (m ∷ []) st.no_empty (omega (arith, some_bytes), _);
        within = omega (arith, longer, (admits-room k q (length m) ok).1, short);
        fits = laws.capacity-send r (desc_of m) ∙ st.fits;
        cap = st.cap;
        max = st.max;
      }

  -- The same, of a send.
  abbrev Sends : ℕ × Side b → Answer × List (List ℕ) → Type 0
  Sends r a = Follows b laws k base (sent r.0, r.1) a

  payload-step :
      (s : Side b) (q : List (List ℕ)) (source : Source) (m : List ℕ)
      → Stands b laws k base s q
      → length m ≢ 0
      → length m ≤ k.longest
      → admits k q (length m) ≡ true
      → Sends
          (queue_payload b s (desc_of m) (take_payload b source s.pay (length m)))
          (if has_block source then (sent (length m), q ++ m ∷ []) else (sent 0, q))
  unfolding take_payload pay_alloc ctr_add
  payload-step s q owned m st some_bytes short ok =
      (refl, enqueued s q m (ctr_add s.pay (length m)) st some_bytes short ok refl)
  payload-step s q (copied true) m st some_bytes short ok =
      rw (ne→== (length m) 0 some_bytes)
        (refl, enqueued s q m (ctr_add s.pay (length m)) st some_bytes short ok refl)
  payload-step s q (copied false) m st some_bytes short ok =
      rw (ne→== (length m) 0 some_bytes) (refl, st)

  pub send-step :
      (s : Side b) (q : List (List ℕ)) (source : Source) (m : List ℕ)
      → Stands b laws k base s q
      → Follows b laws k base (side_step b (send source m) s) (queue_step k (send source m) q)
  unfolding side_step queue_step its_send_packet
  send-step s q source m st =
      let n = length m in
      both-if Sends (n == 0 || ltb s.link.max_msg n) (n == 0 || ltb k.longest n) _ _ _ _
        (ap (λ (x : ℕ). n == 0 || ltb x n) st.max) (refl, st)
        (λ e.
          let short : n ≤ k.longest = (in-range n k.longest e).1 in
          both-if Sends (not (link_can_send b s.link n)) (not (admits k q n)) _ _ _ _
            (ap not (admits_iff s q n st short)) (refl, st)
            (λ ok.
              payload-step s q source m st (in-range n k.longest e).0 short (ground (arith, ok))))

-- ===== src/WireLink/Order.antt =====
-- src/wire_link.c: a run of sends and interrupts.
use mathlib.Core.Path.{ap₂, subst}
use mathlib.Core.List.{append_assoc, append-nil}
use zmk_feature_split_esb.Prelude.{
  ℕ, zero, suc, ◌-◌, min, ◌≡◌, ◌≢◌, refl, sym, ◌∙◌, ap, ◌⊎◌, inl, inr, Bool, true, false, not, ltb,
  ◌==◌, Option, none, some, List, [], ◌∷◌, ◌++◌, length, length-take, take, drop, All, arith,
  Bool-cases, if_split, if_either, if_true, if_false,
}
use zmk_feature_split_esb.WireFrame.{
  max_payload, max_frame, Encoded, encoded, message_too_long, no_memory, wire_frame_encode,
  parser_ingest,
}
use zmk_feature_split_esb.WireFrame.Frames.{idle}
use zmk_feature_split_esb.WireLink.{
  RingName, event, input, keepalive, WireTx, put_ring, pick_idle, tx_pick_ring, claimed,
  chunk_bytes, tx_take, tx_loop, SendError, not_supported, message_size, out_of_memory, no_buffers,
  ring_capacity, enqueue_encoded, enqueue, send,
}
use zmk_feature_split_esb.WireLink.Splice.{same_ring_self}
use zmk_feature_split_esb.WireLink.Stream.{
  IsWhole, IsOpen, Fits, frame, stream, of, part, now_waiting, bytes_out, cut_waits, each_ring,
  put_self, put_other, of-snoc_self, of-snoc_other, stream-snoc, sent_stream, payloads,
  parsed_payloads, owed_nothing, part-Nonzero, frame-encoded, All-snoc_any,
}

pub data WireStep : Type 0 where
  sends : RingName → List ℕ → WireStep
  interrupted : List (ℕ × ℕ) → WireStep

abbrev pub taken : RingName → List ℕ → Option SendError → List (RingName × List ℕ)
taken r payload none = (r, payload) ∷ []
taken r payload (some error) = []

abbrev pub idle_tx : WireTx
idle_tx = record { rings = λ r. []; frame_ring = none; tx_irq = false }

length_zero : (xs : List ℕ) → (length xs == 0) ≡ true → xs ≡ []
length_zero [] h = refl
length_zero (x ∷ xs) h = absurd (ground (arith, h))

-- What was taken of a piece of a list, and the rest of the list.
prefix_split :
    (xs : List ℕ) (a b : ℕ) → xs ≡ take a (take b xs) ++ drop (length (take a (take b xs))) xs
prefix_split xs zero b = refl
prefix_split xs (suc a) zero = refl
prefix_split [] (suc a) (suc b) = refl
prefix_split (x ∷ xs) (suc a) (suc b) = ap (λ t. x ∷ t) (prefix_split xs a b)

claimed_empty :
    (contiguous : ℕ) (xs : List ℕ) → (length (claimed contiguous xs) == 0) ≡ true → xs ≡ []
claimed_empty contiguous [] h = refl
claimed_empty contiguous (x ∷ xs) h =
    absurd (ground (arith, length-take (min chunk_bytes (suc contiguous)) (x ∷ xs), h))

claimed_of_empty :
    (contiguous : ℕ) (xs : List ℕ) → xs ≡ [] → (length (claimed contiguous xs) == 0) ≢ false
claimed_of_empty contiguous [] h e =
    ground (arith, length-take {A = ℕ} (min chunk_bytes (suc contiguous)) [], e)
claimed_of_empty contiguous (x ∷ xs) h e = cc

module _ (crc8 : List ℕ → ℕ) (transmits : Bool) where
  -- A run from a state on: the payloads that a send took, the bytes on the wire, and the state behind.
  unfoldable pub run : List WireStep → WireTx → List (RingName × List ℕ) × List ℕ × WireTx
  unfolding send tx_loop
  run [] l = ([], [], l)
  run (sends r payload ∷ steps) l =
      let (error, next) = send crc8 transmits r payload l in
      let (accepted, wire, last) = run steps next in (taken r payload error ++ accepted, wire, last)
  run (interrupted rounds ∷ steps) l =
      let (out, next) = tx_loop rounds l in
      let (accepted, wire, last) = run steps next in (accepted, out ++ wire, last)

  abbrev pub IsWholeAt : List (RingName × List ℕ) → List ℕ → WireTx → Type 0
  IsWholeAt accepted wire l = IsWhole crc8 accepted wire l.rings l.frame_ring

  -- An interrupt is only off while no byte waits.
  abbrev pub IsAwake : WireTx → Type 0
  IsAwake l = l.tx_irq ≡ false → (r : RingName) → l.rings r ≡ []

  tx_pick_ring-IsOpen :
      (fr : Option RingName) (rings : RingName → List ℕ) → IsOpen fr (tx_pick_ring fr rings)
  unfolding tx_pick_ring
  tx_pick_ring-IsOpen none rings = tt
  tx_pick_ring-IsOpen (some r) rings = refl

  pick_event : (rings : RingName → List ℕ) → rings (pick_idle rings) ≡ [] → rings event ≡ []
  unfolding pick_idle
  pick_event rings e = elim (Bool-cases (length (rings event) == 0)) [
    | inl z ↦ length_zero (rings event) z
    | inr n ↦ rw (n) at e
  ]

  pick_input :
      (rings : RingName → List ℕ)
      → rings (pick_idle rings) ≡ []
      → rings event ≡ []
      → rings input ≡ []
  unfolding pick_idle
  pick_input rings e h = elim (Bool-cases (length (rings input) == 0)) [
    | inl z ↦ length_zero (rings input) z
    | inr n ↦ rw (h, n) at e
  ]

  pick_keepalive :
      (rings : RingName → List ℕ)
      → rings (pick_idle rings) ≡ []
      → rings event ≡ []
      → rings input ≡ []
      → rings keepalive ≡ []
  unfolding pick_idle
  pick_keepalive rings e h k = rw (h, k) at e

  all_rings :
      (rings : RingName → List ℕ)
      → rings event ≡ []
      → rings input ≡ []
      → rings keepalive ≡ []
      → (q : RingName) → rings q ≡ []
  all_rings rings a b c event = a
  all_rings rings a b c input = b
  all_rings rings a b c keepalive = c

  -- A picked ring with nothing in it means that no ring has anything.
  pick_empty :
      (accepted : List (RingName × List ℕ)) (wire : List ℕ) (rings : RingName → List ℕ)
      (fr : Option RingName)
      → IsWhole crc8 accepted wire rings fr
      → rings (tx_pick_ring fr rings) ≡ []
      → (q : RingName) → rings q ≡ []
  unfolding tx_pick_ring
  pick_empty accepted wire rings none w e =
      let a = pick_event rings e in
      let b = pick_input rings e a in all_rings rings a b (pick_keepalive rings e a b)
  pick_empty accepted wire rings (some r) w e = absurd (
      w.begun r refl (
        cut_waits crc8 (w.waiting r) w.cut (w.fits r) w.clean (
          sym (append-nil w.cut)
          ∙ ap₂ ◌++◌ (sym (if_true w.cut [] (same_ring_self r))) (sym e)
          ∙ w.backlog r)))

  round_IsWhole :
      (accepted : List (RingName × List ℕ)) (wire : List ℕ) (l : WireTx) (contiguous sent : ℕ)
      → IsWholeAt accepted wire l
      → let active = tx_pick_ring l.frame_ring l.rings in
        let moved = take sent (claimed contiguous (l.rings active)) in
        IsWholeAt accepted (wire ++ moved) (tx_take active moved l)
  unfolding tx_take
  round_IsWhole accepted wire l contiguous sent w =
      let active = tx_pick_ring l.frame_ring l.rings in
      let moved = take sent (claimed contiguous (l.rings active)) in
      bytes_out crc8 accepted moved (drop (length moved) (l.rings active)) wire l.rings l.frame_ring
        active (tx_pick_ring-IsOpen l.frame_ring l.rings)
        (prefix_split (l.rings active) sent (min chunk_bytes (suc contiguous))) w

  -- What the transmit loop keeps, with what it put on the wire.
  abbrev Kept : List (RingName × List ℕ) → List ℕ → List ℕ × WireTx → Type 0
  Kept accepted wire r = IsWholeAt accepted (wire ++ r.0) r.1 × IsAwake r.1

  tx_loop-Kept :
      (rounds : List (ℕ × ℕ)) (accepted : List (RingName × List ℕ)) (wire : List ℕ) (l : WireTx)
      → IsWholeAt accepted wire l
      → IsAwake l
      → Kept accepted wire (tx_loop rounds l)
  unfolding tx_loop
  tx_loop-Kept [] accepted wire l w a =
      (subst (λ t. IsWholeAt accepted t l) (sym (append-nil wire)) w, a)
  tx_loop-Kept ((contiguous, sent) ∷ rounds) accepted wire l w a =
      let active = tx_pick_ring l.frame_ring l.rings in
      let chunk = claimed contiguous (l.rings active) in
      let moved = take sent chunk in
      let next = tx_take active moved l in
      let stepped = round_IsWhole accepted wire l contiguous sent w in
      if_split (Kept accepted wire) (length chunk == 0)
        (λ e. (
          subst (λ t. IsWholeAt accepted t l) (sym (append-nil wire)) w,
          λ off.
              pick_empty accepted wire l.rings l.frame_ring w
                (claimed_empty contiguous (l.rings active) e),
        ))
        (λ e.
          let awake : IsAwake next =
            λ off. absurd (claimed_of_empty contiguous (l.rings active) (a off active) e) in
          if_either (Kept accepted wire) (ltb sent (length chunk)) (stepped, awake)
            (let (later, end) = tx_loop-Kept rounds accepted (wire ++ moved) next stepped awake in
              (
                subst (λ t. IsWholeAt accepted t (tx_loop rounds next).1)
                    (append_assoc wire moved (tx_loop rounds next).0) later,
                end,
              )))

  -- A send takes the payload whole or leaves all as it was.
  enqueued_IsWhole :
      (accepted : List (RingName × List ℕ)) (wire : List ℕ) (l : WireTx) (r : RingName)
      (payload : List ℕ)
      → Fits payload
      → IsWholeAt accepted wire l
      → IsWhole crc8
          (accepted ++ ((r, payload) ∷ []))
          wire
          (put_ring l.rings r (l.rings r ++ frame crc8 payload))
          l.frame_ring
  unfolding stream
  enqueued_IsWhole accepted wire l r payload small w = record {
    sent = w.sent;
    cut = w.cut;
    waiting = now_waiting crc8 w.waiting r (w.waiting r ++ (payload ∷ []));
    on_wire = w.on_wire;
    clean = w.clean;
    parked = w.parked;
    begun = w.begun;
    backlog =
        each_ring crc8
          (λ q.
            part l.frame_ring w.cut q ++ put_ring l.rings r (l.rings r ++ frame crc8 payload) q
            ≡ stream crc8 (now_waiting crc8 w.waiting r (w.waiting r ++ (payload ∷ [])) q))
          r
          (ap (λ t. part l.frame_ring w.cut r ++ t) (put_self crc8 l.rings r _)
            ∙ sym (append_assoc (part l.frame_ring w.cut r) (l.rings r) (frame crc8 payload))
            ∙ ap (λ t. t ++ frame crc8 payload) (w.backlog r)
            ∙ sym (stream-snoc crc8 (w.waiting r) payload)
            ∙ ap (stream crc8)
                (sym (if_true (w.waiting r ++ (payload ∷ [])) (w.waiting r) (same_ring_self r))))
          (λ q apart.
            ap (λ t. part l.frame_ring w.cut q ++ t) (put_other crc8 l.rings r q _ apart)
            ∙ w.backlog q
            ∙ ap (stream crc8)
                (sym (if_false (w.waiting r ++ (payload ∷ [])) (w.waiting q) apart)));
    fits =
        each_ring crc8
          (λ q. All Fits (now_waiting crc8 w.waiting r (w.waiting r ++ (payload ∷ [])) q)) r
          (subst (All Fits)
            (sym (if_true (w.waiting r ++ (payload ∷ [])) (w.waiting r) (same_ring_self r)))
            (All-snoc_any Fits (w.waiting r) payload (w.fits r) small))
          (λ q apart.
            subst (All Fits) (sym (if_false (w.waiting r ++ (payload ∷ [])) (w.waiting q) apart))
              (w.fits q));
    sent_fit = w.sent_fit;
    in_order =
        each_ring crc8
          (λ q.
            of q (accepted ++ ((r, payload) ∷ []))
            ≡ of q w.sent ++ now_waiting crc8 w.waiting r (w.waiting r ++ (payload ∷ [])) q)
          r
          (of-snoc_self crc8 r accepted payload
            ∙ ap (λ t. t ++ (payload ∷ [])) (w.in_order r)
            ∙ append_assoc (of r w.sent) (w.waiting r) (payload ∷ [])
            ∙ ap (λ t. of r w.sent ++ t)
                (sym (if_true (w.waiting r ++ (payload ∷ [])) (w.waiting r) (same_ring_self r))))
          (λ q apart.
            of-snoc_other crc8 r q accepted payload apart
            ∙ w.in_order q
            ∙ ap (λ t. of q w.sent ++ t)
                (sym (if_false (w.waiting r ++ (payload ∷ [])) (w.waiting q) apart)));
  }

  -- What a send keeps, with what it took.
  abbrev Taken :
      RingName → List ℕ → List (RingName × List ℕ) → List ℕ → Option SendError × WireTx → Type 0
  Taken r payload accepted wire answer =
      IsWholeAt (accepted ++ taken r payload answer.0) wire answer.1 × IsAwake answer.1

  refused-Taken :
      (r : RingName) (payload : List ℕ) (accepted : List (RingName × List ℕ)) (wire : List ℕ)
      (l : WireTx) (error : SendError)
      → IsWholeAt accepted wire l
      → IsAwake l
      → Taken r payload accepted wire (some error, l)
  refused-Taken r payload accepted wire l error w a =
      (subst (λ t. IsWholeAt t wire l) (sym (append-nil accepted)) w, a)

  enqueue_encoded-Taken :
      (r : RingName) (payload : List ℕ) (accepted : List (RingName × List ℕ)) (wire : List ℕ)
      (l : WireTx) (e : Encoded)
      → wire_frame_encode crc8 payload max_frame ≡ e
      → Fits payload
      → IsWholeAt accepted wire l
      → IsAwake l
      → Taken r payload accepted wire (enqueue_encoded r e l)
  unfolding enqueue_encoded
  enqueue_encoded-Taken r payload accepted wire l message_too_long q small w a =
      refused-Taken r payload accepted wire l message_size w a
  enqueue_encoded-Taken r payload accepted wire l no_memory q small w a =
      refused-Taken r payload accepted wire l out_of_memory w a
  enqueue_encoded-Taken r payload accepted wire l (encoded framed) q small w a =
      if_either (Taken r payload accepted wire)
        (ltb (ring_capacity r - length (l.rings r)) (length framed))
        (refused-Taken r payload accepted wire l no_buffers w a)
        (
          subst
              (λ t.
                IsWhole crc8 (accepted ++ ((r, payload) ∷ [])) wire
                  (put_ring l.rings r (l.rings r ++ t)) l.frame_ring)
              (frame-encoded crc8 payload framed q)
              (enqueued_IsWhole accepted wire l r payload small w),
          λ off. absurd (cc),
        )

  send-Taken :
      (r : RingName) (payload : List ℕ) (accepted : List (RingName × List ℕ)) (wire : List ℕ)
      (l : WireTx)
      → IsWholeAt accepted wire l
      → IsAwake l
      → Taken r payload accepted wire (send crc8 transmits r payload l)
  unfolding send enqueue
  send-Taken r payload accepted wire l w a =
      if_split (Taken r payload accepted wire) (ltb max_payload (length payload))
        (λ e. refused-Taken r payload accepted wire l message_size w a)
        (λ e.
          if_either (Taken r payload accepted wire) (not transmits)
            (refused-Taken r payload accepted wire l not_supported w a)
            (enqueue_encoded-Taken r payload accepted wire l _ refl (ground (arith, e)) w a))

  -- A run keeps whole frames on the wire, and what it took in order.
  run-IsWhole :
      (steps : List WireStep) (accepted : List (RingName × List ℕ)) (wire : List ℕ) (l : WireTx)
      → IsWholeAt accepted wire l
      → IsAwake l
      → let (more, out, last) = run steps l in
        IsWholeAt (accepted ++ more) (wire ++ out) last × IsAwake last
  unfolding run
  run-IsWhole [] accepted wire l w a = (
    subst (λ t. IsWholeAt t (wire ++ []) l) (sym (append-nil accepted))
        (subst (λ t. IsWholeAt accepted t l) (sym (append-nil wire)) w),
    a,
  )
  run-IsWhole (sends r payload ∷ steps) accepted wire l w a =
      let answer = send crc8 transmits r payload l in
      let (v, b) = send-Taken r payload accepted wire l w a in
      let (x, c) = run-IsWhole steps (accepted ++ taken r payload answer.0) wire answer.1 v b in
      (
        subst (λ t. IsWholeAt t (wire ++ (run steps answer.1).1) (run steps answer.1).2)
            (append_assoc accepted (taken r payload answer.0) (run steps answer.1).0) x,
        c,
      )
  run-IsWhole (interrupted rounds ∷ steps) accepted wire l w a =
      let out = tx_loop rounds l in
      let (v, b) = tx_loop-Kept rounds accepted wire l w a in
      let (x, c) = run-IsWhole steps accepted (wire ++ out.0) out.1 v b in
      (
        subst (λ t. IsWholeAt (accepted ++ (run steps out.1).0) t (run steps out.1).2)
            (append_assoc wire out.0 (run steps out.1).1) x,
        c,
      )

  -- A ring with nothing in it owes nothing.
  nothing_waits :
      {accepted : List (RingName × List ℕ)} {wire : List ℕ} {rings : RingName → List ℕ}
      {fr : Option RingName} (r : RingName) (w : IsWhole crc8 accepted wire rings fr)
      → rings r ≡ []
      → w.waiting r ≡ []
  nothing_waits {fr} r w e =
      owed_nothing crc8 (w.waiting r) (part fr w.cut r) (w.fits r) (part-Nonzero fr w.cut r w.clean)
        (sym (append-nil _) ∙ ap (λ t. part fr w.cut r ++ t) (sym e) ∙ w.backlog r)

  idle_tx-IsWhole : IsWholeAt [] [] idle_tx
  unfolding sent_stream stream
  idle_tx-IsWhole = record {
    sent = [];
    cut = [];
    waiting = λ r. [];
    on_wire = refl;
    clean = tt;
    parked = λ h. refl;
    begun = λ r h. absurd (cc);
    backlog = λ r. refl;
    fits = λ r. tt;
    sent_fit = tt;
    in_order = λ r. refl;
  }

  -- Whatever is sent on the three rings and whenever the UART interrupts and takes whatever part, no
  -- two frames are spliced: a parser that starts idle hands on payloads that are, for each ring, the
  -- first of those that a send took, in their order; with the interrupt off none is left out.
  pub run-parsed :
      (steps : List WireStep)
      → let (accepted, wire, last) = run steps idle_tx in
        (sent : List (RingName × List ℕ)) × ((parser_ingest crc8 wire idle).0 ≡ payloads crc8 sent)
        × ((r : RingName)
            → (left : List (List ℕ)) × (of r accepted ≡ of r sent ++ left)
              × ((last.tx_irq ≡ true) ⊎ (left ≡ [])))
  run-parsed steps =
      let (w, a) = run-IsWhole steps [] [] idle_tx idle_tx-IsWhole (λ off r. refl) in
      (
        w.sent,
        ap {B = List (List ℕ)} (λ t. (parser_ingest crc8 t idle).0) w.on_wire
            ∙ parsed_payloads crc8 w.sent w.cut w.sent_fit w.clean,
        λ r. (
          w.waiting r,
          w.in_order r,
          elim (Bool-cases (run steps idle_tx).2.tx_irq) [
            | inl on ↦ inl on
            | inr off ↦ inr (nothing_waits r w (a off r))
          ],
        ),
      )

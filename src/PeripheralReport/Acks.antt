-- ===== src/PeripheralReport/Acks.antt =====
-- src/esb_peripheral.c and src/esb_batch.c: which packets ask the radio for an acknowledgement.
use zmk_feature_split_esb.Prelude.{
  ℕ, ◌%◌, ◌≡◌, refl, sym, ◌∙◌, ap, Bool, true, false, ◌||◌, not, ltb, ◌==◌, if◌then◌else◌,
  if_either, Option, none, some, List, [], ◌∷◌, ◌++◌, length, arith,
}
use zmk_feature_split_esb.Prelude.Int.{ℤ}
use zmk_feature_split_esb.EventWire.{Event, input_event, other_event}
use zmk_feature_split_esb.EventWire.Batch.{
  Batch, Packet, append_events, batch_flush, batch_flush_due, batch_report_event,
}
use zmk_feature_split_esb.CentralInput.State.{InputEvent}
use zmk_feature_split_esb.PeripheralMotion.{MotionSlot, add_to_slot, as_total, motion_to_total}
use zmk_feature_split_esb.PeripheralReport.{
  input_is_lossy, event_wants_ack, Transport, Sent, waits, unsupported, packet, sent_batch,
  sent_wire, sent_input, report_event,
}
use zmk_feature_split_esb.PeripheralCore.{Layout, peripheral_encode_event}

module _ (z : Layout) (cells : List (ℕ × ℕ))
    (input_ev_key input_ev_rel max_payload wire_size : ℕ) where
  -- An event needs an acknowledgement if its pair of a type and a code is not a lossy one.
  abbrev pub wants : InputEvent → Bool
  wants e = not (input_is_lossy cells e.type e.code)

  abbrev pub any_wants : List InputEvent → Bool
  any_wants [] = false
  any_wants (e ∷ es) = wants e || any_wants es

  abbrev pub IsMarked : Batch → Type 0
  IsMarked b = b.wants_ack ≡ any_wants b.events

  -- The packet holds the events, and asks for an acknowledgement just if one of them needs it.
  abbrev pub IsAcked : List InputEvent → Option Packet → Type 0
  IsAcked events none = Unit
  IsAcked events (some p) =
      (p.bytes ≡ append_events z.types max_payload input_ev_key events [])
      × (p.wants_ack ≡ any_wants events)

  any_wants-snoc :
      (es : List InputEvent) (e : InputEvent)
      → any_wants (es ++ (e ∷ [])) ≡ (if wants e then true else any_wants es)
  any_wants-snoc [] e = ground arith
  any_wants-snoc (x ∷ es) e = let ih = any_wants-snoc es e in ground (arith, ih)

  as_total-wants :
      (e : InputEvent) (slots : List MotionSlot) (found : Option (ℤ × List MotionSlot))
      → wants (as_total e slots found).0 ≡ wants e
  unfolding as_total event_wants_ack
  as_total-wants e slots none = refl
  as_total-wants e slots (some (total, after)) = refl

  sent_input-wants :
      (e : InputEvent) (slots : List MotionSlot)
      → wants (sent_input cells input_ev_rel e slots).0 ≡ wants e
  unfolding sent_input motion_to_total
  sent_input-wants e slots =
      if_either (λ (r : InputEvent × List MotionSlot). wants r.0 ≡ wants e)
        (not (event_wants_ack cells (input_event e)))
        (if_either (λ (r : InputEvent × List MotionSlot). wants r.0 ≡ wants e)
          (not (e.type == input_ev_rel) || ltb 255 e.code) refl
          (as_total-wants e slots (add_to_slot e.reg (e.code % 256) e.value slots)))
        refl

  any_marked :
      (wants_ack : Bool) (b : Batch) (e : InputEvent)
      → wants_ack ≡ wants e
      → IsMarked b
      → (if wants_ack then true else b.wants_ack) ≡ any_wants (b.events ++ (e ∷ []))
  any_marked wants_ack b e w m =
      ap (λ c. if c then true else b.wants_ack) w
      ∙ ap (λ c. if wants e then true else c) m
      ∙ sym (any_wants-snoc b.events e)

  batch_report_event-IsAcked :
      (b : Batch) (e : InputEvent) (wants_ack : Bool)
      → IsMarked b
      → wants_ack ≡ wants e
      → let (flushed, after) = batch_report_event z.types max_payload input_ev_key b e wants_ack in
        IsMarked after × IsAcked (b.events ++ (e ∷ [])) flushed
  unfolding batch_report_event batch_flush
  batch_report_event-IsAcked b e wants_ack m w =
      let events = b.events ++ (e ∷ []) in
      let noted : Batch = record {
        events = events;
        wants_ack = if wants_ack then true else b.wants_ack;
      } in
      let marked : noted.wants_ack ≡ any_wants events = any_marked wants_ack b e w m in
      let P : Option Packet × Batch → Type 0 = λ r. IsMarked r.1 × IsAcked events r.0 in
      if_either P (batch_flush_due z.types max_payload input_ev_key noted e)
        (if_either P (length events == 0) (marked, tt) (refl, (refl, marked))) (marked, tt)

  -- What a report answers with: an input event waits or goes out behind the batch's events, with its
  -- total if it is lossy; another event goes out alone, with an acknowledgement, or not at all.
  abbrev pub IsReported : Event → Transport → Sent → Type 0
  IsReported (input_event e) t (packet p) =
      IsAcked (t.batch.events ++ ((sent_input cells input_ev_rel e t.motion_slots).0 ∷ [])) (some p)
  IsReported (input_event e) t waits = Unit
  IsReported (input_event e) t unsupported = ⊥
  IsReported (other_event type bytes) t (packet p) = p.wants_ack ≡ true
  IsReported (other_event type bytes) t waits = ⊥
  IsReported (other_event type bytes) t unsupported = Unit

  batch_sent :
      (e : InputEvent) (t : Transport) (flushed : Option Packet)
      → IsAcked
          (t.batch.events ++ ((sent_input cells input_ev_rel e t.motion_slots).0 ∷ []))
          flushed
      → IsReported (input_event e) t (sent_batch flushed)
  batch_sent e t none h = tt
  batch_sent e t (some p) h = h

  wire_sent :
      (type : ℕ) (bytes : List ℕ) (t : Transport) (wire : Option (List ℕ))
      → IsReported
          (other_event type bytes)
          t
          (sent_wire wire (event_wants_ack cells (other_event type bytes)))
  unfolding event_wants_ack
  wire_sent type bytes t none = tt
  wire_sent type bytes t (some wire) = refl

  -- Whatever event is reported, the batch's mark stays the one that its events need, and a packet of
  -- input events asks for an acknowledgement just if one of them is not lossy, the totals that stand
  -- in for lossy motion included; any other event always asks for one.
  pub report_event-IsReported :
      (event : Event) (t : Transport)
      → IsMarked t.batch
      → let (sent, after) =
          report_event z cells input_ev_key input_ev_rel max_payload wire_size event t in
        IsMarked after.batch × IsReported event t sent
  unfolding report_event event_wants_ack
  report_event-IsReported (input_event e) t m =
      let sent = sent_input cells input_ev_rel e t.motion_slots in
      let r =
        batch_report_event-IsAcked t.batch sent.0 (wants e) m
          (sym (sent_input-wants e t.motion_slots)) in
      (
        r.0,
        batch_sent e t
            (batch_report_event z.types max_payload input_ev_key t.batch sent.0 (wants e)).0 r.1,
      )
  report_event-IsReported (other_event type bytes) t m = (
    m,
    wire_sent type bytes t
        (peripheral_encode_event z input_ev_key wire_size (other_event type bytes) t.core).0,
  )

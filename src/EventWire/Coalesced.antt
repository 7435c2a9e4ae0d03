-- ===== src/EventWire/Coalesced.antt =====
-- src/esb_batch.c and src/central.c: what was reported comes out of the packets.
use mathlib.Core.List.{append_assoc, append-nil, map-append}
use zmk_feature_split_esb.Prelude.{
  ℕ, zero, suc, ◌+◌, ◌-◌, ◌*◌, ◌≤◌, ◌<◌, ◌≡◌, refl, sym, ◌∙◌, ap, Bool, true, ◌==◌, if◌then◌else◌,
  Option, none, some, List, [], ◌∷◌, ◌++◌, map, length, length-append, drop-append, All, arith,
  if_split,
}
use zmk_feature_split_esb.CentralInput.State.{InputEvent}
use zmk_feature_split_esb.EventWire.{Event, input_event, EventTypes, input_wire, payload_of}
use zmk_feature_split_esb.EventWire.RoundTrip.{
  IsInput, IsTypes, IsEvent, encoded, decode_event-encode_event,
}
use zmk_feature_split_esb.EventWire.Batch.{
  Batch, Packet, batch_max, append_events, batch_flush, batch_flush_due, batch_report_event,
  ingest_events,
}

module _ (z : EventTypes) (types : IsTypes z) (max_payload input_ev_key : ℕ) where
  coalesced : List InputEvent → List ℕ
  coalesced [] = []
  coalesced (e ∷ es) = encoded z (input_event e) ++ coalesced es

  length-encoded : (e : InputEvent) → length (encoded z (input_event e)) ≡ 10
  unfolding encoded payload_of input_wire
  length-encoded e = refl

  length-coalesced : (es : List InputEvent) → length (coalesced es) ≡ 10 * length es
  unfolding coalesced
  length-coalesced [] = refl
  length-coalesced (e ∷ es) = omega (
    arith,
    length-append (encoded z (input_event e)) (coalesced es),
    length-encoded e,
    length-coalesced es,
  )

  append_events-coalesced :
      (es : List InputEvent) (wire : List ℕ)
      → All IsInput es
      → length wire + 10 * length es ≤ max_payload
      → append_events z max_payload input_ev_key es wire ≡ wire ++ coalesced es
  unfolding append_events coalesced IsEvent
  append_events-coalesced [] wire v room = sym (append-nil wire)
  append_events-coalesced (e ∷ es) wire (v, vs) room =
      let size = length-encoded e in
      let coded =
        (decode_event-encode_event z types (max_payload - length wire) (input_event e) [] v
          (omega (arith, size, room))).0 in
      rw (coded) (
        append_events-coalesced es (wire ++ encoded z (input_event e)) vs
          (omega (arith, length-append wire (encoded z (input_event e)), size, room))
        ∙ append_assoc wire (encoded z (input_event e)) (coalesced es))

  ingest_events-coalesced :
      (fuel : ℕ) (es : List InputEvent)
      → All IsInput es
      → length es ≤ fuel
      → ingest_events z max_payload input_ev_key fuel (coalesced es) ≡ map input_event es
  unfolding ingest_events coalesced IsEvent
  ingest_events-coalesced zero [] v h = refl
  ingest_events-coalesced zero (e ∷ es) v h = absurd (omega arith)
  ingest_events-coalesced (suc fuel) [] v h = refl
  ingest_events-coalesced (suc fuel) (e ∷ es) (v, vs) h =
      let decoded =
        (decode_event-encode_event z types 10 (input_event e) (coalesced es) v
          (omega (arith, length-encoded e))).1 in
      rw (decoded, ingest_events)
        (ap (λ (rest : List Event). input_event e ∷ rest)
          (ap (ingest_events z max_payload input_ev_key fuel)
              (drop-append (encoded z (input_event e)) (coalesced es))
            ∙ ingest_events-coalesced fuel es vs (omega arith)))

  -- What the central takes out of what is sent.
  unfoldable pub events_of : Option Packet → List Event
  events_of none = []
  events_of (some packet) =
      ingest_events z max_payload input_ev_key (length packet.bytes) packet.bytes

  unfoldable pub Fits : Option Packet → Type 0
  Fits none = Unit
  Fits (some packet) = length packet.bytes ≤ max_payload

  -- A batch between two reports: there is room for one event more.
  pub record IsOpen (batch : Batch) : Type 0 where
    pub fit : All IsInput batch.events
    pub room : length batch.events < batch_max z max_payload input_ev_key

  -- A step that hands these events on: those sent, then those still waiting, and a packet that is
  -- sent fits.
  pub record IsHandedOn (before : List InputEvent) (r : Option Packet × Batch) : Type 0 where
    pub order : events_of r.0 ++ map input_event r.1.events ≡ map input_event before
    pub open_after : IsOpen r.1
    pub sized : Fits r.0

  batch_flush-IsHandedOn :
      (batch : Batch)
      → 0 < batch_max z max_payload input_ev_key
      → All IsInput batch.events
      → length batch.events ≤ batch_max z max_payload input_ev_key
      → IsHandedOn batch.events (batch_flush z max_payload input_ev_key batch)
  unfolding batch_flush events_of Fits batch_max
  batch_flush-IsHandedOn batch some_room fit within =
      let wire = append_events-coalesced batch.events [] fit (omega arith) in
      let long = length-coalesced batch.events in
      if_split (IsHandedOn batch.events) (length batch.events == 0)
        (λ e. record {
          order = refl;
          open_after = record { fit = fit; room = ground (arith, e, some_room) };
          sized = tt;
        })
        (λ _. record {
          order =
              append-nil _
              ∙ (ap
                    (λ (bytes : List ℕ).
                      ingest_events z max_payload input_ev_key (length bytes) bytes)
                    wire
                  ∙ ingest_events-coalesced _ batch.events fit (omega (arith, long)));
          open_after = record { fit = tt; room = some_room };
          sized = omega (arith, ap length wire, long);
        })

  All-snoc :
      (es : List InputEvent) (e : InputEvent)
      → All IsInput es
      → IsInput e
      → All IsInput (es ++ (e ∷ []))
  All-snoc [] e vs v = (v, tt)
  All-snoc (x ∷ es) e (w, vs) v = (w, All-snoc es e vs v)

  batch_report_event-IsHandedOn :
      (batch : Batch) (e : InputEvent) (wants_ack : Bool)
      → IsOpen batch
      → IsInput e
      → IsHandedOn
          (batch.events ++ (e ∷ []))
          (batch_report_event z max_payload input_ev_key batch e wants_ack)
  unfolding batch_report_event events_of Fits batch_flush_due
  batch_report_event-IsHandedOn batch e wants_ack v w =
      let fit = All-snoc batch.events e v.fit w in
      let long = length-append batch.events (e ∷ []) in
      let noted : Batch = record {
        events = batch.events ++ (e ∷ []);
        wants_ack = if wants_ack then true else batch.wants_ack;
      } in
      if_split (IsHandedOn noted.events) (batch_flush_due z max_payload input_ev_key noted e)
        (λ _.
          batch_flush-IsHandedOn noted (omega (arith, v.room)) fit (omega (arith, long, v.room)))
        (λ due. record {
          order = refl;
          open_after = record { fit = fit; room = ground (arith, due) };
          sized = tt;
        })

  -- The events are reported one after the other: the packets sent, and the batch behind them.
  unfoldable pub report_events : List (InputEvent × Bool) → Batch → List (Option Packet) × Batch
  unfolding batch_report_event
  report_events [] batch = ([], batch)
  report_events ((e, wants_ack) ∷ es) batch =
      let (sent, after) = batch_report_event z max_payload input_ev_key batch e wants_ack in
      let (rest, last) = report_events es after in (sent ∷ rest, last)

  unfoldable pub events_of_all : List (Option Packet) → List Event
  unfolding events_of
  events_of_all [] = []
  events_of_all (p ∷ ps) = events_of p ++ events_of_all ps

  abbrev pub reported : List (InputEvent × Bool) → List InputEvent
  reported [] = []
  reported ((e, wants_ack) ∷ es) = e ∷ reported es

  -- Events of the C types' ranges, reported to an open batch: what the central takes out of the
  -- packets, then what still waits, is what waited and was reported, in order and each once; every
  -- packet fits the payload, and the batch stays open.
  pub report_events-ingest_events :
      (es : List (InputEvent × Bool)) (batch : Batch)
      → IsOpen batch
      → All IsInput (reported es)
      → (events_of_all (report_events es batch).0
            ++ map input_event (report_events es batch).1.events
          ≡ map input_event (batch.events ++ reported es))
        × All Fits (report_events es batch).0
        × IsOpen (report_events es batch).1
  unfolding report_events events_of_all
  report_events-ingest_events [] batch v vs =
      (ap (map input_event) (sym (append-nil batch.events)), tt, v)
  report_events-ingest_events ((e, wants_ack) ∷ es) batch v (w, vs) =
      let r = batch_report_event z max_payload input_ev_key batch e wants_ack in
      let one = batch_report_event-IsHandedOn batch e wants_ack v w in
      let (order, sized, last) = report_events-ingest_events es r.1 one.open_after vs in
      (
        append_assoc (events_of r.0) _ _
            ∙ (ap (λ (l : List Event). events_of r.0 ++ l)
                  (order ∙ map-append input_event r.1.events (reported es))
                ∙ (sym (append_assoc (events_of r.0) _ _)
                    ∙ (ap (λ (l : List Event). l ++ map input_event (reported es)) one.order
                        ∙ (sym (map-append input_event (batch.events ++ (e ∷ [])) (reported es))
                            ∙ ap (map input_event)
                                (append_assoc batch.events (e ∷ []) (reported es)))))),
        (one.sized, sized),
        last,
      )

-- ===== src/WireLink/Receive.antt =====
-- src/wire_link.c: the received bytes, from the interrupt to the subscriber, and the age of the last.
use zmk_feature_split_esb.Prelude.{
  ℕ, zero, suc, ◌+◌, ◌-◌, ◌*◌, ◌%◌, ◌^◌, ◌≤◌, ◌≡◌, refl, sym, ◌∙◌, ap, Bool, false, leb, ◌==◌,
  if◌then◌else◌, List, [], ◌∷◌, ◌++◌, length, length-drop, take, drop, take-append-drop, arith,
  if_false,
}
use zmk_feature_split_esb.WireFrame.{FrameParser, max_frame, parser_ingest}
use zmk_feature_split_esb.WireFrame.Stream.{parser_ingest-append}
use zmk_feature_split_esb.WireLink.{chunk_bytes}

-- WIRE_LINK_RX_RING_BYTES
abbrev pub rx_capacity : ℕ
rx_capacity = max_frame * 2

-- The receive loop of `wire_uart_isr` over what the UART read, a list of bytes for each round: the
-- ring takes what it has room for.
unfoldable pub rx_loop : List (List ℕ) → List ℕ → List ℕ
rx_loop [] ring = ring
rx_loop ([] ∷ rounds) ring = ring
rx_loop ((byte ∷ bytes) ∷ rounds) ring =
    rx_loop rounds (ring ++ take (rx_capacity - length ring) (byte ∷ bytes))

-- `wire_on_frame` with a subscriber: an empty payload is only a sign of life.
unfoldable pub on_frames : List (List ℕ) → List (List ℕ)
on_frames [] = []
on_frames ([] ∷ payloads) = on_frames payloads
on_frames ((byte ∷ bytes) ∷ payloads) = (byte ∷ bytes) ∷ on_frames payloads

-- `wire_link_is_up`: `last_rx` and `now` are uptimes in 32 bits.
unfoldable pub is_up : ℕ → ℕ → ℕ → Bool
is_up timeout_ms now last_rx =
    if last_rx == 0 then false else leb ((now + 2 ^ 32 - last_rx) % 2 ^ 32) timeout_ms

module _ (crc8 : List ℕ → ℕ) where
  -- `wire_process_ring`, `fuel` chunks at most: what the subscriber hears and the parser behind it.
  unfoldable pub process_ring : ℕ → List ℕ → FrameParser → List (List ℕ) × List ℕ × FrameParser
  unfolding on_frames
  process_ring zero ring parser = ([], ring, parser)
  process_ring (suc fuel) ring parser =
      let (payloads, next) = parser_ingest crc8 (take chunk_bytes ring) parser in
      let (later, left, last) = process_ring fuel (drop chunk_bytes ring) next in
      if length ring == 0 then ([], ring, parser) else (on_frames payloads ++ later, left, last)

  on_frames-append : (xs ys : List (List ℕ)) → on_frames (xs ++ ys) ≡ on_frames xs ++ on_frames ys
  unfolding on_frames
  on_frames-append [] ys = refl
  on_frames-append ([] ∷ xs) ys = on_frames-append xs ys
  on_frames-append ((byte ∷ bytes) ∷ xs) ys = ap (λ t. (byte ∷ bytes) ∷ t) (on_frames-append xs ys)

  no_bytes : (parser : FrameParser) → parser_ingest crc8 [] parser ≡ ([], parser)
  unfolding parser_ingest
  no_bytes parser = refl

  -- With a chunk for each byte of the ring the loop ends with the ring empty, and the subscriber
  -- hears the payloads of the ring's bytes that are not empty, wherever the chunks cut them.
  pub process_ring-parser_ingest :
      (fuel : ℕ) (ring : List ℕ) (parser : FrameParser)
      → length ring ≤ fuel
      → process_ring fuel ring parser
        ≡ (on_frames (parser_ingest crc8 ring parser).0, [], (parser_ingest crc8 ring parser).1)
  unfolding process_ring on_frames
  process_ring-parser_ingest zero [] parser h = sym (
      ap {B = List (List ℕ) × List ℕ × FrameParser}
        (λ (q : List (List ℕ) × FrameParser). (on_frames q.0, [], q.1)) (no_bytes parser))
  process_ring-parser_ingest zero (x ∷ xs) parser h = absurd (omega arith)
  process_ring-parser_ingest (suc fuel) [] parser h = sym (
      ap {B = List (List ℕ) × List ℕ × FrameParser}
        (λ (q : List (List ℕ) × FrameParser). (on_frames q.0, [], q.1)) (no_bytes parser))
  process_ring-parser_ingest (suc fuel) (x ∷ xs) parser h =
      let ring = x ∷ xs in
      let first = parser_ingest crc8 (take chunk_bytes ring) parser in
      let ih =
        process_ring-parser_ingest fuel (drop chunk_bytes ring) first.1
          (omega (arith, length-drop chunk_bytes ring)) in
      let whole =
        ap (λ t. parser_ingest crc8 t parser) (sym (take-append-drop chunk_bytes ring))
        ∙ parser_ingest-append crc8 (take chunk_bytes ring) (drop chunk_bytes ring) parser in
      let busy : (length ring == 0) ≡ false = ground arith in
      let last = parser_ingest crc8 (drop chunk_bytes ring) first.1 in
      if_false {A = List (List ℕ) × List ℕ × FrameParser} ([], ring, parser) _ busy
      ∙ ap {B = List (List ℕ) × List ℕ × FrameParser}
          (λ (q : List (List ℕ) × List ℕ × FrameParser). (on_frames first.0 ++ q.0, q.1, q.2)) ih
      ∙ sym (
          ap {B = List (List ℕ) × List ℕ × FrameParser}
            (λ (q : List (List ℕ) × FrameParser). (on_frames q.0, [], q.1)) whole
          ∙ ap {B = List (List ℕ) × List ℕ × FrameParser} (λ t. (t, [], last.1))
              (on_frames-append first.0 last.0))

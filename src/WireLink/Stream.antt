-- ===== src/WireLink/Stream.antt =====
-- src/wire_link.c: what stands on the wire while frames are queued and interrupts empty the rings.
use mathlib.Core.Path.{ap₂, subst}
use mathlib.Core.List.{append_assoc, append-nil}
use zmk_feature_split_esb.Prelude.{
  ℕ, ◌+◌, ◌≤◌, ◌≡◌, ◌≢◌, refl, sym, ◌∙◌, ap, inl, inr, false, ltb, leb, ◌==◌, if◌then◌else◌, Option,
  none, some, List, [], ◌∷◌, ◌++◌, length, length-append, All, arith, Bool-cases, ℕ_discrete,
  if_either, if_true, if_false,
}
use zmk_feature_split_esb.WireFrame.{
  max_payload, max_frame, Encoded, encoded, FrameParser, wire_frame_encode, ingest_byte,
  parser_ingest,
}
use zmk_feature_split_esb.WireFrame.Stream.{frame_delivered}
use zmk_feature_split_esb.WireFrame.Frames.{idle, Nonzero, encoded_frame}
use zmk_feature_split_esb.WireLink.{RingName, same_ring, put_ring, tx_track_frame}
use zmk_feature_split_esb.WireLink.Splice.{
  same_ring_self, same_ring_eq, cut_at_delimiter, no_delimiter, All-snoc,
}

pub All-snoc_any {ℓ κ} :
    {A : Type ℓ} (P : A → Type κ) (xs : List A) (x : A) → All P xs → P x → All P (xs ++ (x ∷ []))
All-snoc_any P [] x h p = (p, tt)
All-snoc_any P (y ∷ xs) x (h, hs) p = (h, All-snoc_any P xs x hs p)

abbrev bytes_of : Encoded → List ℕ
bytes_of (encoded bytes) = bytes
bytes_of e = []

-- The part of a frame that is out already, if it is a frame of the ring.
abbrev pub part : Option RingName → List ℕ → RingName → List ℕ
part none cut r = []
part (some q) cut r = if same_ring q r then cut else []

pub part-Nonzero :
    (fr : Option RingName) (cut : List ℕ) (r : RingName)
    → All Nonzero cut
    → All Nonzero (part fr cut r)
part-Nonzero none cut r h = tt
part-Nonzero (some q) cut r h = if_either (All Nonzero) (same_ring q r) h tt

-- The payloads of a ring among those of all.
abbrev pub of : RingName → List (RingName × List ℕ) → List (List ℕ)
of r [] = []
of r ((q, p) ∷ rest) = if same_ring q r then p ∷ of r rest else of r rest

abbrev pub Fits : List ℕ → Type 0
Fits p = length p ≤ max_payload

-- The ring that the interrupt may take from: the one whose frame is begun, or any.
abbrev pub IsOpen : Option RingName → RingName → Type 0
IsOpen none r = Unit
IsOpen (some q) r = q ≡ r

module _ (crc8 : List ℕ → ℕ) where
  unfoldable pub frame : List ℕ → List ℕ
  frame payload = bytes_of (wire_frame_encode crc8 payload max_frame)

  unfoldable pub stream : List (List ℕ) → List ℕ
  unfolding frame
  stream [] = []
  stream (p ∷ ps) = frame p ++ stream ps

  unfoldable pub sent_stream : List (RingName × List ℕ) → List ℕ
  unfolding frame
  sent_stream [] = []
  sent_stream ((q, p) ∷ rest) = frame p ++ sent_stream rest

  frame_shape :
      (p : List ℕ) → Fits p → (body : List ℕ) × (frame p ≡ body ++ (0 ∷ [])) × All Nonzero body
  unfolding frame wire_frame_encode
  frame_shape p h =
      let size : length (p ++ (crc8 p ∷ [])) ≡ length p + 1 =
        omega (arith, length-append p (crc8 p ∷ [])) in
      let (body, rest, e, d, clean, short) =
        encoded_frame (p ++ (crc8 p ∷ [])) max_frame (omega (arith, size)) (omega (arith, size)) in
      let some_room : ltb max_payload (length p) ≡ false = ground arith in
      (body, rw (some_room, e) refl, clean)

  -- The wire, the frames that went out whole and the part of the next one, and what waits.
  pub record IsWhole (accepted : List (RingName × List ℕ)) (wire : List ℕ)
      (rings : RingName → List ℕ) (frame_ring : Option RingName) : Type 0 where
    pub sent : List (RingName × List ℕ)
    pub cut : List ℕ
    pub waiting : RingName → List (List ℕ)
    pub on_wire : wire ≡ sent_stream sent ++ cut
    pub clean : All Nonzero cut
    pub parked : frame_ring ≡ none → cut ≡ []
    pub begun : (r : RingName) → frame_ring ≡ some r → cut ≢ []
    pub backlog : (r : RingName) → part frame_ring cut r ++ rings r ≡ stream (waiting r)
    pub fits : (r : RingName) → All Fits (waiting r)
    pub sent_fit : All (λ (q : RingName × List ℕ). Fits q.1) sent
    pub in_order : (r : RingName) → of r accepted ≡ of r sent ++ waiting r

  part_open :
      (fr : Option RingName) (r : RingName) (cut : List ℕ)
      → IsOpen fr r
      → (fr ≡ none → cut ≡ [])
      → part fr cut r ≡ cut
  part_open none r cut o parked = sym (parked refl)
  part_open (some q) r cut o parked =
      ap (λ (t : RingName). if same_ring t r then cut else []) o ∙ rw (same_ring_self r) refl

  part_other :
      (fr : Option RingName) (r q : RingName) (cut : List ℕ)
      → IsOpen fr r
      → same_ring r q ≡ false
      → part fr cut q ≡ []
  part_other none r q cut o apart = refl
  part_other (some t) r q cut o apart =
      ap (λ (t : RingName). if same_ring t q then cut else []) o ∙ rw (apart) refl

  pub put_self :
      (rings : RingName → List ℕ) (r : RingName) (bs : List ℕ) → put_ring rings r bs r ≡ bs
  put_self rings r bs = rw (same_ring_self r) refl

  pub put_other :
      (rings : RingName → List ℕ) (r q : RingName) (bs : List ℕ)
      → same_ring r q ≡ false
      → put_ring rings r bs q ≡ rings q
  put_other rings r q bs apart = rw (apart) refl

  -- A fact of every ring from one of the ring itself and one of the others.
  pub each_ring :
      (P : RingName → Type 0) (r : RingName)
      → P r
      → ((q : RingName) → same_ring r q ≡ false → P q)
      → (q : RingName) → P q
  each_ring P r h k q = elim (Bool-cases (same_ring r q)) [
    | inl e ↦ subst P (same_ring_eq r q e) h
    | inr e ↦ k q e
  ]

  sent_stream-snoc :
      (sent : List (RingName × List ℕ)) (r : RingName) (p : List ℕ)
      → sent_stream (sent ++ ((r, p) ∷ [])) ≡ sent_stream sent ++ frame p
  unfolding sent_stream
  sent_stream-snoc [] r p = append-nil (frame p)
  sent_stream-snoc ((q, p') ∷ sent) r p =
      ap (λ t. frame p' ++ t) (sent_stream-snoc sent r p)
      ∙ sym (append_assoc (frame p') (sent_stream sent) (frame p))

  of-append :
      (q : RingName) (xs ys : List (RingName × List ℕ)) → of q (xs ++ ys) ≡ of q xs ++ of q ys
  of-append q [] ys = refl
  of-append q ((r, p) ∷ xs) ys = elim (Bool-cases (same_ring r q)) [
    | inl e ↦ rw (e) (ap (λ t. p ∷ t) (of-append q xs ys))
    | inr e ↦ rw (e) (of-append q xs ys)
  ]

  pub of-snoc_self :
      (r : RingName) (xs : List (RingName × List ℕ)) (p : List ℕ)
      → of r (xs ++ ((r, p) ∷ [])) ≡ of r xs ++ (p ∷ [])
  of-snoc_self r xs p =
      of-append r xs ((r, p) ∷ []) ∙ ap (λ t. of r xs ++ t) (if_true (p ∷ []) [] (same_ring_self r))

  pub of-snoc_other :
      (r q : RingName) (xs : List (RingName × List ℕ)) (p : List ℕ)
      → same_ring r q ≡ false
      → of q (xs ++ ((r, p) ∷ [])) ≡ of q xs
  of-snoc_other r q xs p apart =
      of-append q xs ((r, p) ∷ [])
      ∙ ap (λ t. of q xs ++ t) (if_false (p ∷ []) [] apart)
      ∙ append-nil (of q xs)

  -- Any other byte of a frame lengthens the part that is out.
  byte_out :
      (accepted : List (RingName × List ℕ)) (wire : List ℕ) (rings : RingName → List ℕ)
      (fr : Option RingName) (r : RingName) (b : ℕ) (bs : List ℕ)
      → IsOpen fr r
      → rings r ≡ b ∷ bs
      → b ≢ 0
      → IsWhole accepted wire rings fr
      → IsWhole accepted (wire ++ (b ∷ [])) (put_ring rings r bs) (some r)
  byte_out accepted wire rings fr r b bs o e n w = record {
    sent = w.sent;
    cut = w.cut ++ (b ∷ []);
    waiting = w.waiting;
    on_wire = ap (λ t. t ++ (b ∷ [])) w.on_wire ∙ append_assoc (sent_stream w.sent) w.cut (b ∷ []);
    clean = All-snoc w.cut b w.clean n;
    parked = λ h. absurd (cc);
    begun = λ q h z. omega (arith, ap length z, length-append w.cut (b ∷ []));
    backlog =
        each_ring
          (λ q. part (some r) (w.cut ++ (b ∷ [])) q ++ put_ring rings r bs q ≡ stream (w.waiting q))
          r
          (ap₂ ◌++◌ (part_open (some r) r (w.cut ++ (b ∷ [])) refl (λ h. absurd (cc)))
              (put_self rings r bs)
            ∙ append_assoc w.cut (b ∷ []) bs
            ∙ ap₂ ◌++◌ (sym (part_open fr r w.cut o w.parked)) (sym e)
            ∙ w.backlog r)
          (λ q apart.
            ap₂ ◌++◌ (part_other (some r) r q (w.cut ++ (b ∷ [])) refl apart)
              (put_other rings r q bs apart)
            ∙ ap (λ t. t ++ rings q) (sym (part_other fr r q w.cut o apart))
            ∙ w.backlog q);
    fits = w.fits;
    sent_fit = w.sent_fit;
    in_order = w.in_order;
  }

  -- At a delimiter the part that is out and the delimiter are the first frame that waits.
  head_frame :
      (ws : List (List ℕ)) (cut bs : List ℕ)
      → All Fits ws
      → All Nonzero cut
      → cut ++ (0 ∷ bs) ≡ stream ws
      → (p : List ℕ) × (ps : List (List ℕ)) × (ws ≡ p ∷ ps)
        × (frame p ≡ cut ++ (0 ∷ []))
        × (bs ≡ stream ps)
  unfolding stream
  head_frame [] [] bs fits clean e = absurd (cc)
  head_frame [] (x ∷ cut) bs fits clean e = absurd (cc)
  head_frame (p ∷ ps) cut bs (small, fits) clean e =
      let (body, shape, whole) = frame_shape p small in
      let (same, rest) =
        cut_at_delimiter cut body bs (stream ps) clean whole
          (e ∙ ap (λ t. t ++ stream ps) shape ∙ append_assoc body (0 ∷ []) (stream ps)) in
      (p, ps, refl, shape ∙ ap (λ t. t ++ (0 ∷ [])) (sym same), rest)

  abbrev pub now_waiting :
      (RingName → List (List ℕ)) → RingName → List (List ℕ) → RingName → List (List ℕ)
  now_waiting waiting r ps q = if same_ring r q then ps else waiting q

  -- A delimiter ends a frame.
  delimiter_out :
      (accepted : List (RingName × List ℕ)) (wire : List ℕ) (rings : RingName → List ℕ)
      (fr : Option RingName) (r : RingName) (bs : List ℕ)
      → IsOpen fr r
      → rings r ≡ 0 ∷ bs
      → IsWhole accepted wire rings fr
      → IsWhole accepted (wire ++ (0 ∷ [])) (put_ring rings r bs) none
  unfolding stream
  delimiter_out accepted wire rings fr r bs o e w =
      let (p, ps, front, shape, rest) =
        head_frame (w.waiting r) w.cut bs (w.fits r) w.clean
          (ap₂ ◌++◌ (sym (part_open fr r w.cut o w.parked)) (sym e) ∙ w.backlog r) in
      let (small, smalls) = subst (All Fits) front (w.fits r) in
      let own : now_waiting w.waiting r ps r ≡ ps = rw (same_ring_self r) refl in
      record {
        sent = w.sent ++ ((r, p) ∷ []);
        cut = [];
        waiting = now_waiting w.waiting r ps;
        on_wire =
            ap (λ t. t ++ (0 ∷ [])) w.on_wire
            ∙ append_assoc (sent_stream w.sent) w.cut (0 ∷ [])
            ∙ ap (λ t. sent_stream w.sent ++ t) (sym shape)
            ∙ sym (sent_stream-snoc w.sent r p)
            ∙ sym (append-nil _);
        clean = tt;
        parked = λ h. refl;
        begun = λ q h. absurd (cc);
        backlog =
            each_ring (λ q. put_ring rings r bs q ≡ stream (now_waiting w.waiting r ps q)) r
              (put_self rings r bs ∙ rest ∙ ap stream (sym own))
              (λ q apart.
                put_other rings r q bs apart
                ∙ ap (λ t. t ++ rings q) (sym (part_other fr r q w.cut o apart))
                ∙ w.backlog q
                ∙ ap stream (sym (if_false ps (w.waiting q) apart)));
        fits =
            each_ring (λ q. All Fits (now_waiting w.waiting r ps q)) r
              (subst (All Fits) (sym own) smalls)
              (λ q apart. subst (All Fits) (sym (if_false ps (w.waiting q) apart)) (w.fits q));
        sent_fit = All-snoc_any _ w.sent (r, p) w.sent_fit small;
        in_order =
            each_ring
              (λ q. of q accepted ≡ of q (w.sent ++ ((r, p) ∷ [])) ++ now_waiting w.waiting r ps q)
              r
              (w.in_order r
                ∙ ap (λ t. of r w.sent ++ t) front
                ∙ sym (append_assoc (of r w.sent) (p ∷ []) ps)
                ∙ ap₂ ◌++◌ (sym (of-snoc_self r w.sent p)) (sym own))
              (λ q apart.
                w.in_order q
                ∙ ap₂ ◌++◌ (sym (of-snoc_other r q w.sent p apart))
                    (sym (if_false ps (w.waiting q) apart)));
      }

  same_rings :
      (accepted : List (RingName × List ℕ)) (wire : List ℕ) (rings rings' : RingName → List ℕ)
      (fr : Option RingName)
      → ((q : RingName) → rings q ≡ rings' q)
      → IsWhole accepted wire rings fr
      → IsWhole accepted wire rings' fr
  same_rings accepted wire rings rings' fr h w = record {
    sent = w.sent;
    cut = w.cut;
    waiting = w.waiting;
    on_wire = w.on_wire;
    clean = w.clean;
    parked = w.parked;
    begun = w.begun;
    backlog = λ q. ap (λ t. part fr w.cut q ++ t) (sym (h q)) ∙ w.backlog q;
    fits = w.fits;
    sent_fit = w.sent_fit;
    in_order = w.in_order;
  }

  -- What the UART took of a ring, byte by byte.
  pub bytes_out :
      (accepted : List (RingName × List ℕ)) (moved rest wire : List ℕ) (rings : RingName → List ℕ)
      (fr : Option RingName) (r : RingName)
      → IsOpen fr r
      → rings r ≡ moved ++ rest
      → IsWhole accepted wire rings fr
      → IsWhole accepted (wire ++ moved) (put_ring rings r rest) (tx_track_frame r moved fr)
  unfolding tx_track_frame
  bytes_out accepted [] rest wire rings fr r o e w =
      subst (λ t. IsWhole accepted t (put_ring rings r rest) fr) (sym (append-nil wire))
        (same_rings accepted wire rings (put_ring rings r rest) fr
          (each_ring (λ q. rings q ≡ put_ring rings r rest q) r (e ∙ sym (put_self rings r rest))
            (λ q apart. sym (put_other rings r q rest apart)))
          w)
  bytes_out accepted (b ∷ moved) rest wire rings fr r o e w =
      let next = if b == 0 then none else some r in
      let one : IsWhole accepted (wire ++ (b ∷ [])) (put_ring rings r (moved ++ rest)) next =
        elim (ℕ_discrete b 0) [
          | yes z ↦ rw (z) (
              delimiter_out accepted wire rings fr r (moved ++ rest) o
                (e ∙ ap (λ t. t ∷ (moved ++ rest)) z) w)
          | no n ↦
              let other : (b == 0) ≡ false = ground arith in
              rw (other) (byte_out accepted wire rings fr r b (moved ++ rest) o e n w)
        ] in
      let more =
        bytes_out accepted moved rest (wire ++ (b ∷ [])) (put_ring rings r (moved ++ rest)) next r
          (if_either (λ t. IsOpen t r) (b == 0) tt refl) (put_self rings r (moved ++ rest)) one in
      subst (λ t. IsWhole accepted t (put_ring rings r rest) (tx_track_frame r moved next))
        (append_assoc wire (b ∷ []) moved)
        (same_rings accepted _ (put_ring (put_ring rings r (moved ++ rest)) r rest)
          (put_ring rings r rest) (tx_track_frame r moved next)
          (each_ring
            (λ q. put_ring (put_ring rings r (moved ++ rest)) r rest q ≡ put_ring rings r rest q) r
            (put_self (put_ring rings r (moved ++ rest)) r rest ∙ sym (put_self rings r rest))
            (λ q apart.
              put_other (put_ring rings r (moved ++ rest)) r q rest apart
              ∙ put_other rings r q (moved ++ rest) apart
              ∙ sym (put_other rings r q rest apart)))
          more)

  -- A part of a frame is not all that its ring owes.
  pub owed_nothing :
      (ws : List (List ℕ)) (cut : List ℕ)
      → All Fits ws
      → All Nonzero cut
      → cut ≡ stream ws
      → ws ≡ []
  unfolding stream
  owed_nothing [] cut fits clean e = refl
  owed_nothing (p ∷ ps) cut (small, fits) clean e =
      let (body, shape, whole) = frame_shape p small in
      absurd (
        no_delimiter cut body (stream ps) clean
          (e ∙ ap (λ t. t ++ stream ps) shape ∙ append_assoc body (0 ∷ []) (stream ps)))

  pub cut_waits :
      (ws : List (List ℕ)) (cut : List ℕ)
      → All Fits ws
      → All Nonzero cut
      → cut ≡ stream ws
      → cut ≡ []
  unfolding stream
  cut_waits ws cut fits clean e = e ∙ ap stream (owed_nothing ws cut fits clean e)

  pub stream-snoc :
      (ws : List (List ℕ)) (p : List ℕ) → stream (ws ++ (p ∷ [])) ≡ stream ws ++ frame p
  unfolding stream
  stream-snoc [] p = append-nil (frame p)
  stream-snoc (w ∷ ws) p =
      ap (λ t. frame w ++ t) (stream-snoc ws p) ∙ sym (append_assoc (frame w) (stream ws) (frame p))

  pub frame-encoded :
      (p framed : List ℕ) → wire_frame_encode crc8 p max_frame ≡ encoded framed → frame p ≡ framed
  unfolding frame
  frame-encoded p framed e = ap bytes_of e

  -- Bytes with no delimiter give no payload.
  silent_lem :
      (bytes : List ℕ) (q : FrameParser) → All Nonzero bytes → (parser_ingest crc8 bytes q).0 ≡ []
  unfolding parser_ingest ingest_byte
  silent_lem [] q h = refl
  silent_lem (b ∷ bytes) q (n, h) =
      let other : (b == 0) ≡ false = ground arith in
      let quiet : (ingest_byte crc8 b q).0 ≡ [] = rw (other) (
        if_either (λ (t : List (List ℕ) × FrameParser). t.0 ≡ []) q.discarding refl
          (if_either (λ (t : List (List ℕ) × FrameParser). t.0 ≡ [])
            (leb max_frame (length q.accumulator)) refl refl)) in
      ap₂ ◌++◌ quiet (silent_lem bytes (ingest_byte crc8 b q).1 h)

  abbrev pub payloads : List (RingName × List ℕ) → List (List ℕ)
  payloads [] = []
  payloads ((q, p) ∷ rest) = p ∷ payloads rest

  -- The parser at the other end hands on the payloads of the frames that are out whole.
  pub parsed_payloads :
      (sent : List (RingName × List ℕ)) (cut : List ℕ)
      → All (λ (q : RingName × List ℕ). Fits q.1) sent
      → All Nonzero cut
      → (parser_ingest crc8 (sent_stream sent ++ cut) idle).0 ≡ payloads sent
  unfolding sent_stream
  parsed_payloads [] cut fits clean = silent_lem cut idle clean
  parsed_payloads ((q, p) ∷ sent) cut (small, fits) clean =
      let (bytes, e, delivered) = frame_delivered crc8 p max_frame small (omega arith) in
      ap {B = List (List ℕ)} (λ t. (parser_ingest crc8 (t ++ cut) idle).0)
        (ap (λ t. t ++ sent_stream sent) (frame-encoded p bytes e))
      ∙ ap {B = List (List ℕ)} (λ t. (parser_ingest crc8 t idle).0)
          (append_assoc bytes (sent_stream sent) cut)
      ∙ ap {B = List (List ℕ)} (λ (t : List (List ℕ) × FrameParser). t.0)
          (delivered (sent_stream sent ++ cut))
      ∙ ap (λ t. p ∷ t) (parsed_payloads sent cut fits clean)

-- ===== src/EventWire/RoundTrip.antt =====
-- src/esb_wire.c: a decoded event is the one that was encoded.
use mathlib.Core.Path.{ap₂}
use zmk_feature_split_esb.Prelude.{
  ℕ, zero, suc, ◌+◌, ◌*◌, ◌/◌, ◌%◌, ◌^◌, ◌≤◌, ◌<◌, ◌≡◌, ◌≢◌, refl, ◌∙◌, ap, true, false, ltb, ◌==◌,
  none, some, List, ◌∷◌, ◌++◌, length, length-append, length-take, take, take_all, take-append, min,
  arith, if_true, if_false,
}
use zmk_feature_split_esb.Prelude.Int.{ℤ, IsInt, to_word, of_word, to_word-lt}
use zmk_feature_split_esb.Totals.Motion.{word_back}
use zmk_feature_split_esb.CentralInput.State.{InputEvent}
use zmk_feature_split_esb.EventWire.{
  Event, input_event, other_event, EventTypes, input_wire, read_input_wire, payload_size, type_of,
  payload_of, encode_event, read_event, decode_event,
}

-- The fields hold in their C types.
pub record IsInput (e : InputEvent) : Type 0 where
  pub code_fits : e.code < 2 ^ 16
  pub value_fits : IsInt 32 e.value

pub read_input_wire-input_wire :
    (e : InputEvent) (rest : List ℕ) → IsInput e → read_input_wire (input_wire e ++ rest) ≡ e
unfolding read_input_wire input_wire
read_input_wire-input_wire e rest v =
    let w = to_word 32 e.value in
    let below : w < 2 ^ 32 = to_word-lt 32 e.value in
    let code : e.code % 256 + e.code / 256 % 256 * 2 ^ 8 ≡ e.code = omega (arith, v.code_fits) in
    let whole : w % 256
          + w / 2 ^ 8 % 256 * 2 ^ 8
          + w / 2 ^ 16 % 256 * 2 ^ 16
          + w / 2 ^ 24 % 256 * 2 ^ 24
        ≡ w =
      omega (arith, below) in
    let value = ap (of_word 32) whole ∙ word_back e.value v.value_fits in
    ap₂
      (λ (c : ℕ) (z : ℤ). record { reg = e.reg; sync = e.sync; type = e.type; code = c; value = z })
      code value

module _ (z : EventTypes) where
  -- What ZMK's types give: the input type lies in the table.
  pub record IsTypes : Type 0 where
    pub bytes : z.slots ≤ 256
    pub input : z.input_type < z.slots

  -- An event of the table, with the bytes of its member.
  unfoldable pub IsEvent : Event → Type 0
  IsEvent (input_event e) = IsInput e
  IsEvent (other_event type bytes) =
      (type < z.slots)
      × (type ≢ z.input_type)
      × (z.member_size type ≢ 0)
      × (length bytes ≡ z.member_size type)

  record Fits (e : Event) : Type 0 where
    byte : type_of z e < 256
    size : length (payload_of z e) ≡ payload_size z (type_of z e)
    known : payload_size z (type_of z e) ≢ 0
    read : (rest : List ℕ) → read_event z (type_of z e) (payload_of z e ++ rest) ≡ e

  same_type : (a : ℕ) → (a == a) ≡ true
  same_type a = ground arith

  other_type : (a b : ℕ) → a ≢ b → (a == b) ≡ false
  other_type a b h = ground (arith, h)

  IsEvent-Fits : IsTypes → (e : Event) → IsEvent e → Fits e
  unfolding IsEvent type_of payload_of payload_size read_event input_wire
  IsEvent-Fits t (input_event e) v = record {
    byte = omega (arith, t.bytes, t.input);
    size = ground (arith, t.input);
    known = ground (arith, t.input);
    read = λ rest.
        if_true (input_event _) _ (same_type z.input_type)
        ∙ ap input_event (read_input_wire-input_wire e rest v);
  }
  IsEvent-Fits t (other_event type bytes) (l, n, m, s) = record {
    byte = omega (arith, t.bytes, l);
    size = ground (arith, l, n, s);
    known = ground (arith, l, n, m);
    read = λ rest.
        if_false (input_event _) _ (other_type type z.input_type n)
        ∙ ap (other_event type)
            (ap (λ k. take k (bytes ++ rest)) (ground (arith, l, n, s)) ∙ take-append bytes rest);
  }

  -- The bytes of an event.
  unfoldable pub encoded : Event → List ℕ
  encoded e = type_of z e ∷ payload_of z e

  encode_event-encoded :
      (free : ℕ) (e : Event)
      → Fits e
      → length (encoded e) ≤ free
      → encode_event z free e ≡ some (encoded e)
  unfolding encode_event encoded
  encode_event-encoded free e f room =
      let type : type_of z e % 256 ≡ type_of z e = omega (arith, f.byte) in
      rw (type) (
        if_false _ _ (other_type (payload_size z (type_of z e)) 0 f.known)
        ∙ (if_false _ _ (fits f.size room)
            ∙ ap (λ bytes. some (type_of z e ∷ bytes)) (take_all _ _ f.size)))
    where
      fits : {n size : ℕ} → n ≡ size → suc n ≤ free → ltb free (1 + size) ≡ false
      fits h r = ground (arith, h, r)

  decode_event-encoded :
      (e : Event) (rest : List ℕ)
      → Fits e
      → decode_event z (encoded e ++ rest) ≡ some (e, length (encoded e))
  unfolding decode_event encoded
  decode_event-encoded e rest f =
      if_false _ _ (other_type (payload_size z (type_of z e)) 0 f.known)
      ∙ (if_false _ _ (long _ (length-append (payload_of z e) rest) f.size)
          ∙ ap₂ (λ (d : Event) (n : ℕ). some (d, n)) (f.read rest) (one f.size))
    where
      one : {n size : ℕ} → n ≡ size → 1 + size ≡ suc n
      one h = omega (arith, h)

      long : {n m size : ℕ} (k : ℕ) → n ≡ m + k → m ≡ size → ltb n size ≡ false
      long k h r = ground (arith, h, r)

  -- An event of the table that fits the free bytes is encoded, and decoded as it was, with the bytes
  -- behind it left.
  pub decode_event-encode_event :
      IsTypes
      → (free : ℕ) (e : Event) (rest : List ℕ) → IsEvent e
      → length (encoded e) ≤ free
      → (encode_event z free e ≡ some (encoded e))
        × (decode_event z (encoded e ++ rest) ≡ some (e, length (encoded e)))
  decode_event-encode_event t free e rest v room =
      let f = IsEvent-Fits t e v in
      (encode_event-encoded free e f room, decode_event-encoded e rest f)

  encode_event-too_long :
      (free : ℕ) (e : Event) → Fits e → free < length (encoded e) → encode_event z free e ≡ none
  unfolding encode_event encoded
  encode_event-too_long free e f full =
      let type : type_of z e % 256 ≡ type_of z e = omega (arith, f.byte) in
      rw (type) (
        if_false _ _ (other_type (payload_size z (type_of z e)) 0 f.known)
        ∙ if_true _ _ (tight f.size full))
    where
      tight : {n size : ℕ} → n ≡ size → free < suc n → ltb free (1 + size) ≡ true
      tight h r = ground (arith, h, r)

  decode_event-short :
      (n : ℕ) (e : Event)
      → Fits e
      → n < length (encoded e)
      → decode_event z (take n (encoded e)) ≡ none
  unfolding decode_event encoded
  decode_event-short zero e f short = refl
  decode_event-short (suc n) e f short =
      if_false _ _ (other_type (payload_size z (type_of z e)) 0 f.known)
      ∙ if_true _ _ (cut (length-take n (payload_of z e)) f.size short)
    where
      cut : {m k size : ℕ} → m ≡ min n k → k ≡ size → suc n < suc k → ltb m size ≡ true
      cut h r l = ground (arith, h, r, l)

  -- An event of the table that does not fit is not encoded, and no part of an encoded event that was
  -- cut short is taken for an event.
  pub decode_event-cut_short :
      IsTypes
      → (free n : ℕ) (e : Event) → IsEvent e
      → (free < length (encoded e) → encode_event z free e ≡ none)
        × (n < length (encoded e) → decode_event z (take n (encoded e)) ≡ none)
  decode_event-cut_short t free n e v =
      let f = IsEvent-Fits t e v in (encode_event-too_long free e f, decode_event-short n e f)

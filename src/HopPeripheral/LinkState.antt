-- ===== src/HopPeripheral/LinkState.antt =====
-- src/hop_peripheral.c: what the radio reports between two ticks, and what the tick makes of it.
use zmk_feature_split_esb.Prelude.{
  ℕ, ◌≡◌, refl, ◌∙◌, Bool, true, false, ◌&&◌, ◌||◌, if◌then◌else◌, List, [], ◌∷◌, arith,
}
use zmk_feature_split_esb.HopPeripheral.State.{Config, Peripheral}
use zmk_feature_split_esb.HopPeripheral.Step.{
  record_tx_attempts, note_tx_success, note_tx_failed, note_noack_sent, settle_link_state,
}

pub data TxEvent : Type 0 where
  succeeded : ℕ → TxEvent
  failed noack : TxEvent

unfoldable pub note_event : Config → TxEvent → Peripheral → Peripheral
note_event c (succeeded attempts) p = note_tx_success c attempts p
note_event c failed p = note_tx_failed c p
note_event c noack p = note_noack_sent c p

unfoldable pub note_events : Config → List TxEvent → Peripheral → Peripheral
note_events c [] p = p
note_events c (e ∷ es) p = note_events c es (note_event c e p)

unfoldable pub has_failed : List TxEvent → Bool
has_failed [] = false
has_failed (succeeded _ ∷ es) = has_failed es
has_failed (failed ∷ es) = true
has_failed (noack ∷ es) = has_failed es

unfoldable pub has_noack : List TxEvent → Bool
has_noack [] = false
has_noack (succeeded _ ∷ es) = has_noack es
has_noack (failed ∷ es) = has_noack es
has_noack (noack ∷ es) = true

-- What the last transmission came to, or `otherwise` where there was none.
unfoldable pub last_outcome : Bool → List TxEvent → Bool
last_outcome otherwise [] = otherwise
last_outcome otherwise (succeeded _ ∷ es) = last_outcome true es
last_outcome otherwise (failed ∷ es) = last_outcome false es
last_outcome otherwise (noack ∷ es) = last_outcome otherwise es

-- The flags of a state that has heard nothing since the tick.
pub record IsQuiet (p : Peripheral) : Type 0 where
  pub no_success : p.tx_succeeded_since_tick ≡ false
  pub no_failure : p.tx_failed_since_tick ≡ false
  pub no_noack : p.noack_sent_since_tick ≡ false

-- The flags and the link after the notes.
abbrev IsNoted : (fail ack good : Bool) (link : Bool) → Peripheral → Type 0
IsNoted fail ack good link q =
    (q.tx_failed_since_tick ≡ fail)
    × (q.noack_sent_since_tick ≡ ack)
    × (q.tx_succeeded_since_tick ≡ good)
    × (q.link_acked ≡ link)

note_success-IsNoted :
    (c : Config) (n : ℕ) (p : Peripheral)
    → IsNoted p.tx_failed_since_tick p.noack_sent_since_tick true p.link_acked
        (note_tx_success c n p)
unfolding note_tx_success record_tx_attempts
note_success-IsNoted c n p = ground arith

note_failed-IsNoted :
    (c : Config) (p : Peripheral)
    → IsNoted true p.noack_sent_since_tick false p.link_acked (note_tx_failed c p)
unfolding note_tx_failed record_tx_attempts
note_failed-IsNoted c p = ground arith

note_noack-IsNoted :
    (c : Config) (p : Peripheral)
    → IsNoted p.tx_failed_since_tick true p.tx_succeeded_since_tick p.link_acked
        (note_noack_sent c p)
unfolding note_noack_sent
note_noack-IsNoted c p = ground arith

note_events-IsNoted :
    (c : Config) (es : List TxEvent) (p : Peripheral)
    → IsNoted
        (p.tx_failed_since_tick || has_failed es)
        (p.noack_sent_since_tick || has_noack es)
        (last_outcome p.tx_succeeded_since_tick es)
        p.link_acked
        (note_events c es p)
unfolding note_events note_event has_failed has_noack last_outcome
note_events-IsNoted c [] p = ground arith
note_events-IsNoted c (succeeded n ∷ es) p =
    let (f, a, s, l) = note_success-IsNoted c n p in
    let (f', a', s', l') = note_events-IsNoted c es (note_tx_success c n p) in
    (cc (f', f), cc (a', a), cc (s', s), l' ∙ l)
note_events-IsNoted c (failed ∷ es) p =
    let (f, a, s, l) = note_failed-IsNoted c p in
    let (f', a', s', l') = note_events-IsNoted c es (note_tx_failed c p) in
    (ground (arith, f', f), cc (a', a), cc (s', s), l' ∙ l)
note_events-IsNoted c (noack ∷ es) p =
    let (f, a, s, l) = note_noack-IsNoted c p in
    let (f', a', s', l') = note_events-IsNoted c es (note_noack_sent c p) in
    (cc (f', f), ground (arith, a', a), cc (s', s), l' ∙ l)

last_outcome-otherwise :
    (l : Bool) (es : List TxEvent)
    → last_outcome l es
      ≡ (if last_outcome false es then true else if has_failed es then false else l)
unfolding last_outcome has_failed
last_outcome-otherwise l [] = refl
last_outcome-otherwise l (succeeded _ ∷ es) = ground (arith, last_outcome-otherwise true es)
last_outcome-otherwise l (failed ∷ es) = ground arith
last_outcome-otherwise l (noack ∷ es) = last_outcome-otherwise l es

-- What a tick makes of the notes since the last one: the link is up or down as its last
-- transmission went, and as it was if there was none; but where one failed and a packet went out
-- that asks for no acknowledgement, the link is down, since such a packet counts as a success.
pub settle_link_state-note_events :
    (c : Config) (es : List TxEvent) (p : Peripheral)
    → IsQuiet p
    → (settle_link_state (note_events c es p)).link_acked
      ≡ (if has_failed es && has_noack es then false else last_outcome p.link_acked es)
unfolding settle_link_state
settle_link_state-note_events c es p quiet =
    let (f, a, s, l) = note_events-IsNoted c es p in
    rw
      (
        f,
        a,
        s,
        l,
        quiet.no_success,
        quiet.no_failure,
        quiet.no_noack,
        last_outcome-otherwise p.link_acked es,
      )
      (ground arith)

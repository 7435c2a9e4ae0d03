-- ===== src/Tests/WireLink.antt =====
-- src/wire_link.c.
use zmk_feature_split_esb.Prelude.{ℕ, ◌≡◌, ◌⊎◌, true, List, [], ◌∷◌, ◌++◌}
use zmk_feature_split_esb.WireFrame.{parser_ingest}
use zmk_feature_split_esb.WireFrame.Frames.{idle}
use zmk_feature_split_esb.WireLink.{RingName, event, keepalive}
use zmk_feature_split_esb.WireLink.Stream.{of, payloads}
use zmk_feature_split_esb.WireLink.Order.{WireStep, sends, interrupted, idle_tx, run, run-parsed}
use zmk_feature_split_esb.Tests.WireFrame.{checksum}

-- A keepalive is half out when an event is sent; the UART takes four bytes at a time.
abbrev wire_steps : List WireStep
wire_steps =
    sends keepalive (1 ∷ 0 ∷ 2 ∷ [])
    ∷ interrupted ((4, 4) ∷ [])
    ∷ sends event (7 ∷ [])
    ∷ interrupted ((4, 4) ∷ (4, 4) ∷ (4, 4) ∷ (4, 4) ∷ [])
    ∷ []

run-parsed_example :
    (sent : List (RingName × List ℕ)) × ((parser_ingest checksum
        (run checksum true wire_steps idle_tx).1
        idle).0
      ≡ payloads checksum sent)
    × ((r : RingName)
        → (left : List (List ℕ)) × (of r (run checksum true wire_steps idle_tx).0
            ≡ of r sent ++ left)
          × (((run checksum true wire_steps idle_tx).2.tx_irq ≡ true) ⊎ (left ≡ [])))
run-parsed_example = run-parsed checksum true wire_steps

-- ===== src/Rendezvous/Received.antt =====
-- src/hop_peripheral.c: a mask update and a beacon of the central, received.
use zmk_feature_split_esb.Prelude.{
  ℕ, zero, suc, ◌+◌, ◌*◌, ◌/◌, ◌<◌, ◌≡◌, refl, ◌∙◌, ap, Bool, true, false, not, leb, ◌==◌, some,
  List, ◌∷◌, length, get_or, take_all, get_or-set, arith, if_true, if_false, if_split,
}
use zmk_feature_split_esb.SpscLatch.{claim, publish, peek}
use zmk_feature_split_esb.HopCentral.State.{CentralConfig, Central, Surroundings, pipe_count}
use zmk_feature_split_esb.HopCentral.Beacon.{beacon_peers, beacon_packet, mask_packet}
use zmk_feature_split_esb.HopPeripheral.State.{Config, mask_bytes, Peripheral}
use zmk_feature_split_esb.HopPeripheral.Receive.{
  Note, beacon_length, mask_update_length, has_beacon_tag, has_mask_update_tag, consume_beacon,
  consume_mask_update, consume_rx,
}
use zmk_feature_split_esb.Rendezvous.Central.{announced}

-- The peripheral with the announced mask in a published slot and the epoch not yet adopted.
pub record IsStaged (p : Peripheral) (slot : ℕ) (mask : List ℕ) (q : Peripheral) : Type 0 where
  pub published : peek q.staged_mask_latch ≡ some slot
  pub stored : get_or q.staged_mask_pool slot q.active_mask ≡ mask
  pub ready : q.mask_ready ≡ p.mask_ready
  pub adopted : q.adopted_epoch ≡ p.adopted_epoch

module _ (c : CentralConfig) (pc : Config) (same_count : pc.hop_count ≡ c.hop_count)
    (same_peers : pc.peer_count ≡ pipe_count c) (hopping : 1 < c.hop_count) where
  many : leb pc.hop_count 1 ≡ false
  many = ground (arith, same_count, hopping)

  -- A mask update, of a mask of the pool's size, goes into the claimed slot and is published.
  pub mask_update-IsStaged :
      (p : Peripheral) (mask : List ℕ)
      → length mask ≡ mask_bytes pc
      → (claim p.staged_mask_latch).0 < length p.staged_mask_pool
      → IsStaged p (claim p.staged_mask_latch).0 mask (consume_mask_update pc (0xFD ∷ mask) p).1
  unfolding consume_mask_update publish peek
  mask_update-IsStaged p mask size room =
      let slot = (claim p.staged_mask_latch).0 in
      if_split (λ (r : Note × Peripheral). IsStaged p slot mask r.1)
        (not (length (0xFD ∷ mask) == mask_update_length pc))
        (λ e. absurd (ground (arith, size, e)))
        (λ _. record {
          published = refl;
          stored =
              get_or-set p.staged_mask_pool slot slot _ p.active_mask room
              ∙ (if_true {test = slot == slot} _ _ (ground arith)
                  ∙ take_all (mask_bytes pc) mask size);
          ready = refl;
          adopted = refl;
        })

  pub mask_packet-announced :
      (central : Central)
      → length (announced central) ≡ mask_bytes pc
      → mask_packet c central ≡ 0xFD ∷ announced central
  unfolding mask_packet
  mask_packet-announced central size =
      ap (λ (bytes : List ℕ). 0xFD ∷ bytes) (take_all _ _ (size ∙ ap (λ n. (n + 7) / 8) same_count))

  pub on_mask_update :
      (owns : Bool) (mask : List ℕ) (p : Peripheral)
      → (consume_rx pc owns (0xFD ∷ mask) p).2 ≡ (consume_mask_update pc (0xFD ∷ mask) p).1
  unfolding consume_rx has_beacon_tag has_mask_update_tag
  on_mask_update owns mask p =
      let other : has_beacon_tag (0xFD ∷ mask) ≡ false = ground arith in
      let tagged : has_mask_update_tag (0xFD ∷ mask) ≡ true = ground arith in
      ap (λ (r : Bool × Note × Peripheral). r.2)
        (if_false _ _ other ∙ (if_false _ _ many ∙ if_true _ _ tagged))

  length-beacon_peers :
      (s : Surroundings) (central : Central) (n peer : ℕ)
      → length (beacon_peers s central n peer) ≡ 2 * n
  unfolding beacon_peers
  length-beacon_peers s central zero peer = refl
  length-beacon_peers s central (suc n) peer =
      omega (arith, length-beacon_peers s central n (suc peer))

  length-beacon_packet :
      (s : Surroundings) (central : Central) → length (beacon_packet c s central) ≡ beacon_length pc
  unfolding beacon_packet
  length-beacon_packet s central =
      omega (arith, length-beacon_peers s central (pipe_count c) 0, same_peers)

  -- The state when the beacon came: the epoch is heard, and the rest as it was.
  pub record HasHeard (epoch : ℕ) (p q : Peripheral) : Type 0 where
    pub epoch_is : q.beacon_epoch ≡ epoch
    pub latch : q.staged_mask_latch ≡ p.staged_mask_latch
    pub pool : q.staged_mask_pool ≡ p.staged_mask_pool
    pub active : q.active_mask ≡ p.active_mask
    pub ready : q.mask_ready ≡ p.mask_ready
    pub adopted : q.adopted_epoch ≡ p.adopted_epoch

  beacon_tagged :
      (s : Surroundings) (central : Central) → has_beacon_tag (beacon_packet c s central) ≡ true
  unfolding has_beacon_tag beacon_packet
  beacon_tagged s central = ground arith

  pub beacon-HasHeard :
      (owns : Bool) (s : Surroundings) (central : Central) (p : Peripheral)
      → HasHeard central.hop_epoch p (consume_rx pc owns (beacon_packet c s central) p).2
  unfolding consume_rx consume_beacon beacon_packet
  beacon-HasHeard owns s central p =
      let packet = beacon_packet c s central in
      if_split (λ (r : Bool × Note × Peripheral). HasHeard central.hop_epoch p r.2)
        (has_beacon_tag packet)
        (λ _.
          if_split (λ (r : Note × Peripheral). HasHeard central.hop_epoch p r.1)
            (not (length packet == beacon_length pc))
            (λ e. absurd (ground (arith, length-beacon_packet s central, e)))
            (λ _. record {
              epoch_is = refl;
              latch = refl;
              pool = refl;
              active = refl;
              ready = refl;
              adopted = refl;
            }))
        (λ e. absurd (ground (arith, beacon_tagged s central, e)))

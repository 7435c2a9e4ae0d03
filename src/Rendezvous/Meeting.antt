-- ===== src/Rendezvous/Meeting.antt =====
-- src/hop_central.c and src/hop_peripheral.c: both sides after the exchange.
use mathlib.Core.Path.{ap₂, subst}
use zmk_feature_split_esb.Prelude.{
  ℕ, ◌+◌, ◌/◌, ◌%◌, ◌<◌, ◌≡◌, ◌≢◌, sym, ◌∙◌, ap, Bool, true, List, length, get_or, arith, if_either,
}
use zmk_feature_split_esb.SpscLatch.{claim, peek}
use zmk_feature_split_esb.HopPolicy.Channel.{channel_for_epoch_masked}
use zmk_feature_split_esb.HopCentral.State.{CentralConfig, Central, Surroundings, pipe_count}
use zmk_feature_split_esb.HopCentral.Beacon.{beacon_packet, mask_packet}
use zmk_feature_split_esb.HopCentral.Decision.{hop_to_next_epoch}
use zmk_feature_split_esb.HopCentral.Invariant.{IsSound}
use zmk_feature_split_esb.HopPeripheral.State.{Config, mask_bytes, Peripheral}
use zmk_feature_split_esb.HopPeripheral.Receive.{consume_rx}
use zmk_feature_split_esb.HopPeripheral.Step.{keepalive_tick}
use zmk_feature_split_esb.Rendezvous.Central.{announced, hop_to_next_epoch-IsHopped}
use zmk_feature_split_esb.Rendezvous.Received.{
  IsStaged, mask_update-IsStaged, mask_packet-announced, on_mask_update, beacon-HasHeard,
}
use zmk_feature_split_esb.Rendezvous.Tick.{HasMet, keepalive_tick-HasMet}

-- The peripheral after the central's mask update, the beacon of the central `hopped` and a tick.
unfoldable pub follow :
    Config
    → CentralConfig
    → Surroundings
    → Bool
    → Bool
    → Central
    → Central
    → Peripheral
    → Peripheral
unfolding consume_rx keepalive_tick mask_packet beacon_packet
follow pc c s owns tunes central hopped p =
    let staged = (consume_rx pc owns (mask_packet c central) p).2 in
    (keepalive_tick pc tunes (consume_rx pc owns (beacon_packet c s hopped) staged).2).0

module _ (c : CentralConfig) (pc : Config) (same_count : pc.hop_count ≡ c.hop_count)
    (same_peers : pc.peer_count ≡ pipe_count c) (hopping : 1 < c.hop_count) where
  length-announced :
      (floor : ℕ) (central : Central)
      → IsSound c floor central
      → length (announced central) ≡ mask_bytes pc
  length-announced floor central v =
      if_either (λ (mask : List ℕ). length mask ≡ mask_bytes pc) central.pending_valid
        (v.state.pending_is.size ∙ bytes) (v.state.active_is.size ∙ bytes)
    where
      bytes : (c.hop_count + 7) / 8 ≡ mask_bytes pc
      bytes = ap (λ n. (n + 7) / 8) (sym same_count)

  -- A central in its invariant announces its mask, hops and sends its beacon. A peripheral with ready
  -- masks and room in its pool, which has not adopted that epoch, stands after its next tick on the
  -- central's channel index with the central's mask, whatever the radios answer to a retune.
  pub follow-hop_to_next_epoch :
      (floor : ℕ) (s : Surroundings) (owns tunes central_tunes : Bool) (central : Central)
      (p : Peripheral)
      → IsSound c floor central
      → p.mask_ready ≡ true
      → (claim p.staged_mask_latch).0 < length p.staged_mask_pool
      → p.adopted_epoch ≢ (central.hop_epoch + 1) % 256
      → ((follow pc c s owns tunes central (hop_to_next_epoch c central_tunes central) p).hop_index
          ≡ (hop_to_next_epoch c central_tunes central).hop_index)
        × ((follow pc c s owns tunes central
              (hop_to_next_epoch c central_tunes central)
              p).active_mask
            ≡ (hop_to_next_epoch c central_tunes central).active_mask)
  unfolding follow
  follow-hop_to_next_epoch floor s owns tunes central_tunes central p v ready room new =
      let epoch : ℕ = (central.hop_epoch + 1) % 256 in
      let hopped = hop_to_next_epoch c central_tunes central in
      let h = hop_to_next_epoch-IsHopped c central_tunes central in
      let size = length-announced floor central v in
      let slot = (claim p.staged_mask_latch).0 in
      let packet = mask_packet-announced c pc same_count same_peers hopping central size in
      let staged : IsStaged p slot (announced central)
          (consume_rx pc owns (mask_packet c central) p).2 =
        subst (IsStaged p slot (announced central))
          (sym (
            ap (λ bytes. (consume_rx pc owns bytes p).2) packet
            ∙ on_mask_update c pc same_count same_peers hopping owns (announced central) p))
          (mask_update-IsStaged c pc same_count same_peers hopping p (announced central) size
            room) in
      let q = (consume_rx pc owns (mask_packet c central) p).2 in
      let heard = beacon-HasHeard c pc same_count same_peers hopping owns s hopped q in
      let r = (consume_rx pc owns (beacon_packet c s hopped) q).2 in
      let met : HasMet pc epoch (announced central) (keepalive_tick pc tunes r).0 =
        keepalive_tick-HasMet pc tunes epoch (announced central) slot r (omega (arith, same_count))
          (heard.ready ∙ (staged.ready ∙ ready)) (ground (arith, heard.epoch_is, h.epoch_is))
          (λ e. new (sym (heard.adopted ∙ staged.adopted) ∙ e))
          (ap peek heard.latch ∙ staged.published)
          (ap₂ (λ pool active. get_or pool slot active) heard.pool heard.active ∙ staged.stored) in
      (
        met.index_is
            ∙ (ap (channel_for_epoch_masked epoch (announced central)) same_count ∙ sym h.index_is),
        met.mask_is ∙ sym h.mask_is,
      )

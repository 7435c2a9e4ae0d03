-- ===== src/Tests/Rendezvous.antt =====
-- src/hop_central.c and src/hop_peripheral.c together.
use zmk_feature_split_esb.Prelude.{
  ◌+◌, ◌%◌, ◌<◌, ◌≡◌, ◌≢◌, refl, ◌∙◌, ap, true, false, length, arith,
}
use zmk_feature_split_esb.SpscLatch.{claim}
use zmk_feature_split_esb.HopPolicy.Mask.{mask_active_count, mask_get, mask_set}
use zmk_feature_split_esb.HopPolicy.Survey.{survey_mask, noisiest}
use zmk_feature_split_esb.HopCentral.State.{Central}
use zmk_feature_split_esb.HopCentral.Mask.{hop_boot_mask}
use zmk_feature_split_esb.HopCentral.Decision.{hop_to_next_epoch}
use zmk_feature_split_esb.Rendezvous.Meeting.{follow, follow-hop_to_next_epoch}
use zmk_feature_split_esb.Tests.HopCentral.{
  central_config, energy_dbm, loaded, surroundings, booted-IsSound,
}
use zmk_feature_split_esb.Tests.HopPeripheral.{config, peripheral}

abbrev central : Central
central = hop_boot_mask central_config energy_dbm loaded

abbrev hopped : Central
hopped = hop_to_next_epoch central_config true central

booted_epoch : central.hop_epoch ≡ 1
unfolding hop_boot_mask mask_active_count mask_get survey_mask mask_set noisiest
booted_epoch = refl

room : (claim peripheral.staged_mask_latch).0 < length peripheral.staged_mask_pool
unfolding claim
room = omega arith

new : peripheral.adopted_epoch ≢ (central.hop_epoch + 1) % 256
new e = omega (arith, e ∙ ap (λ n. (n + 1) % 256) booted_epoch)

follow-hop_to_next_epoch_example :
    ((follow config central_config surroundings false true central hopped peripheral).hop_index
      ≡ hopped.hop_index)
    × ((follow config central_config surroundings false true central hopped peripheral).active_mask
        ≡ hopped.active_mask)
follow-hop_to_next_epoch_example =
    follow-hop_to_next_epoch central_config config refl refl (omega arith) 0 surroundings false true
      true central peripheral booted-IsSound refl room new

-- ===== src/Rendezvous/Central.antt =====
-- src/hop_central.c: what the central announces and what a hop makes of it.
use mathlib.Core.Path.{ap₂}
use zmk_feature_split_esb.Prelude.{
  ℕ, ◌+◌, ◌%◌, ◌≡◌, refl, ap, Bool, true, false, ◌==◌, if◌then◌else◌, List, if_either,
}
use zmk_feature_split_esb.HopPolicy.Channel.{channel_for_epoch_masked}
use zmk_feature_split_esb.HopCentral.State.{CentralConfig, Central, apply_hop_channel}
use zmk_feature_split_esb.HopCentral.Mask.{commit_pending_mask}
use zmk_feature_split_esb.HopCentral.Decision.{clear_pipe_loss, hop_to_next_epoch}

-- The mask that the central announces, and that its next hop makes the active one.
abbrev pub announced : Central → List ℕ
announced p = if p.pending_valid then p.pending_mask else p.active_mask

-- What a hop leaves: the announced mask, and the channel of the new epoch on it.
pub record IsHopped (c : CentralConfig) (epoch : ℕ) (mask : List ℕ) (p : Central) : Type 0 where
  pub epoch_is : p.hop_epoch ≡ epoch
  pub mask_is : p.active_mask ≡ mask
  pub index_is : p.hop_index ≡ channel_for_epoch_masked epoch mask c.hop_count

committed :
    (b : Bool) (p : Central)
    → ((if b then record p { active_mask = p.pending_mask; pending_valid = false } else p).hop_epoch
        ≡ p.hop_epoch)
      × ((if b
            then record p { active_mask = p.pending_mask; pending_valid = false }
            else p).active_mask
          ≡ (if b then p.pending_mask else p.active_mask))
committed true p = (refl, refl)
committed false p = (refl, refl)

retuned-IsHopped :
    (c : CentralConfig) (tunes : Bool) (epoch : ℕ) (mask : List ℕ) (p : Central)
    → IsHopped c epoch mask p
    → IsHopped c epoch mask (apply_hop_channel tunes p)
unfolding apply_hop_channel
retuned-IsHopped c tunes epoch mask p h =
    let tuned : IsHopped c epoch mask (record p { applied_index = p.hop_index }) = record {
      epoch_is = h.epoch_is;
      mask_is = h.mask_is;
      index_is = h.index_is;
    } in
    if_either (IsHopped c epoch mask) (p.hop_index == p.applied_index) h
      (if_either (IsHopped c epoch mask) tunes tuned h)

pub hop_to_next_epoch-IsHopped :
    (c : CentralConfig) (tunes : Bool) (p : Central)
    → IsHopped c ((p.hop_epoch + 1) % 256) (announced p) (hop_to_next_epoch c tunes p)
unfolding hop_to_next_epoch clear_pipe_loss commit_pending_mask
hop_to_next_epoch-IsHopped c tunes p =
    let (same_epoch, same_mask) = committed p.pending_valid p in
    let next = ap (λ e. (e + 1) % 256) same_epoch in
    let h = retuned-IsHopped c tunes ((p.hop_epoch + 1) % 256) (announced p) _ (record {
      epoch_is = next;
      mask_is = same_mask;
      index_is = ap₂ (λ e m. channel_for_epoch_masked e m c.hop_count) next same_mask;
    }) in
    record { epoch_is = h.epoch_is; mask_is = h.mask_is; index_is = h.index_is }

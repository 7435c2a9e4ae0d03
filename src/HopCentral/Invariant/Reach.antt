-- ===== src/HopCentral/Invariant/Reach.antt =====
-- src/hop_central.c: what the central can come to, from the boot on by ticks and packets.
use zmk_feature_split_esb.Prelude.{
  ℕ, ◌<◌, ◌≡◌, refl, ◌∙◌, ap, ◌⊎◌, inl, inr, Bool, true, false, leb, List, length, arith, if_either,
}
use zmk_feature_split_esb.Prelude.Int.{ℤ}
use zmk_feature_split_esb.Keepalive.Codec.{keepalive_matches, state_of, keepalive_is_active}
use zmk_feature_split_esb.HopCentral.State.{CentralConfig, Central, Surroundings, pipe_count}
use zmk_feature_split_esb.HopCentral.Mask.{hop_boot_mask}
use zmk_feature_split_esb.HopCentral.Decision.{decision_tick}
use zmk_feature_split_esb.HopCentral.Receive.{consume_rx}
use zmk_feature_split_esb.HopPolicy.Mask.{mask_get}
use zmk_feature_split_esb.HopCentral.Invariant.{IsPool, mask_bytes, IsSound}
use zmk_feature_split_esb.HopCentral.Invariant.Anchors.{HasAnchors, hop_boot_mask-HasAnchors}
use zmk_feature_split_esb.HopCentral.Invariant.Kept.{
  IsKept, decision_tick-IsKept, consume_rx-IsKept,
}
use zmk_feature_split_esb.HopCentral.Invariant.Tick.{decision_tick-IsSound}
use zmk_feature_split_esb.HopCentral.Invariant.Boot.{IsLoaded, hop_boot_mask-IsSound}

-- A step: a tick, or a packet with its time, whether it is a relay's poll, its pipe, bytes and level.
pub data CentralStep : Type 0 where
  ticked : Surroundings → CentralStep
  received : ℕ → Bool → ℕ → List ℕ → ℤ → CentralStep

unfoldable pub central_step : CentralConfig → CentralStep → Central → Central
unfolding decision_tick consume_rx
central_step c (ticked s) p = (decision_tick c s p).1
central_step c (received uptime_ms poll pipe packet rssi) p =
    (consume_rx c uptime_ms poll pipe packet rssi p).1

-- The states that a boot from `loaded`, with what its survey measured, and steps lead to.
pub data IsReachable (c : CentralConfig) (energy_dbm : List ℤ) (loaded : Central)
    : Central → Type 0 where
  booted : IsReachable c energy_dbm loaded (hop_boot_mask c energy_dbm loaded)
  stepped :
      {p : Central} (step : CentralStep)
      → IsReachable c energy_dbm loaded p
      → IsReachable c energy_dbm loaded (central_step c step p)

module _ (c : CentralConfig) (ok : IsPool c) where
  consume_rx-IsSound :
      (uptime_ms : ℕ) (poll : Bool) (pipe : ℕ) (packet : List ℕ) (rssi : ℤ) (p : Central)
      → IsSound c 0 p
      → IsSound c 0 (consume_rx c uptime_ms poll pipe packet rssi p).1
  unfolding consume_rx
  consume_rx-IsSound uptime_ms poll pipe packet rssi p v =
      let Keeps = λ (r : Bool × Central). IsSound c 0 r.1 in
      if_either Keeps (leb (pipe_count c) pipe) v (
        if_either Keeps poll (record { ready = v.ready; state = v.state })
          (if_either Keeps (leb c.hop_count 1) (record { ready = v.ready; state = v.state })
            (if_either Keeps (keepalive_matches packet (length packet))
              (if_either (IsSound c 0) (keepalive_is_active (state_of packet))
                (record { ready = v.ready; state = v.state })
                (record { ready = v.ready; state = v.state }))
              (record { ready = v.ready; state = v.state }))))

  central_step-IsSound :
      (step : CentralStep) (p : Central) → IsSound c 0 p → IsSound c 0 (central_step c step p)
  unfolding central_step
  central_step-IsSound (ticked s) p v = decision_tick-IsSound c ok 0 (omega arith) s p v
  central_step-IsSound (received uptime_ms poll pipe packet rssi) p v =
      consume_rx-IsSound uptime_ms poll pipe packet rssi p v

  central_step-IsKept :
      (anchors : List ℕ) (step : CentralStep) (p : Central)
      → IsKept c anchors p
      → IsKept c anchors (central_step c step p)
  unfolding central_step
  central_step-IsKept anchors (ticked s) p v = decision_tick-IsKept c anchors s p v
  central_step-IsKept anchors (received uptime_ms poll pipe packet rssi) p v =
      consume_rx-IsKept c anchors uptime_ms poll pipe packet rssi p v

  central_step-HasAnchors :
      (step : CentralStep) (p : Central) → HasAnchors c p → HasAnchors c (central_step c step p)
  central_step-HasAnchors step p v =
      let kept =
        central_step-IsKept p.anchor_mask step p (record { ready = v.ready; same = refl }) in
      record {
        ready = kept.ready;
        anchors = λ k l a. ap (λ m. mask_get m k) kept.same ∙ v.anchors k l a;
      }

  reachable-HasAnchors :
      (energy_dbm : List ℤ) (loaded p : Central)
      → 1 < c.hop_count
      → loaded.mask_ready ≡ false
      → length loaded.anchor_mask ≡ mask_bytes c
      → IsReachable c energy_dbm loaded p
      → HasAnchors c p
  reachable-HasAnchors energy_dbm loaded p hopping fresh size booted =
      hop_boot_mask-HasAnchors c ok energy_dbm loaded hopping fresh size
  reachable-HasAnchors energy_dbm loaded p hopping fresh size (stepped step r) =
      central_step-HasAnchors step _ (reachable-HasAnchors energy_dbm loaded _ hopping fresh size r)

  kept_in :
      (anchors mask : List ℕ) (k : ℕ)
      → (mask_get anchors k ≡ false) ⊎ (mask_get mask k ≡ true)
      → mask_get anchors k ≡ true
      → mask_get mask k ≡ true
  kept_in anchors mask k (inl e) a = absurd (cc)
  kept_in anchors mask k (inr e) a = e

  -- Every anchor of the devicetree is in the active mask and in the pending one.
  abbrev pub HoldsAnchors : Central → Type 0
  HoldsAnchors p =
      (k : ℕ)
      → k < c.hop_count
      → c.is_anchor k ≡ true
      → (mask_get p.active_mask k ≡ true) × (mask_get p.pending_mask k ≡ true)

  holds_anchors : (p : Central) → IsSound c 0 p → HasAnchors c p → HoldsAnchors p
  holds_anchors p v w k l a = (
    kept_in p.anchor_mask p.active_mask k (v.state.active_is.anchored k l) (w.anchors k l a),
    kept_in p.anchor_mask p.pending_mask k (v.state.pending_is.anchored k l) (w.anchors k l a),
  )

  reached :
      (energy_dbm : List ℤ) (loaded p : Central)
      → 1 < c.hop_count
      → loaded.mask_ready ≡ false
      → IsLoaded c 0 loaded
      → IsReachable c energy_dbm loaded p
      → IsSound c 0 p
  reached energy_dbm loaded p hopping fresh v booted =
      hop_boot_mask-IsSound c ok energy_dbm loaded hopping fresh v
  reached energy_dbm loaded p hopping fresh v (stepped step r) =
      central_step-IsSound step _ (reached energy_dbm loaded _ hopping fresh v r)

  -- In every state that the central comes to from a boot on a hopping link, with its variables as
  -- they are loaded, by ticks and packets in any order, the active mask and the pending one hold every
  -- anchor of the devicetree, and the index is the epoch's channel on the active mask.
  pub reachable-IsSound :
      (energy_dbm : List ℤ) (loaded p : Central)
      → 1 < c.hop_count
      → loaded.mask_ready ≡ false
      → IsLoaded c 0 loaded
      → length loaded.anchor_mask ≡ mask_bytes c
      → IsReachable c energy_dbm loaded p
      → HoldsAnchors p × IsSound c 0 p
  reachable-IsSound energy_dbm loaded p hopping fresh v size r =
      let sound = reached energy_dbm loaded p hopping fresh v r in
      (holds_anchors p sound (reachable-HasAnchors energy_dbm loaded p hopping fresh size r), sound)

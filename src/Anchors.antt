-- ===== src/Anchors.antt =====
-- src/hop.c: the channels that are never masked, resolved from the device tree to indices in the
-- pool.
pub mod Laws
use zmk_feature_split_esb.Prelude.{
  ℕ, zero, suc, Bool, true, false, ◌==◌, if◌then◌else◌, Option, none, some, List, [], ◌∷◌, length,
  set, replicate,
}
use zmk_feature_split_esb.HopPolicy.Channel.{anchor_default_index}

-- The device tree's `hop-channels` and `hop-anchors`, and ESB_HOP_ANCHOR_COUNT.
pub record AnchorConfig : Type 0 where
  pub hop_channels : List ℕ
  pub hop_anchors : Option (List ℕ)
  pub anchor_count : ℕ

-- The static variables.
pub record Anchors : Type 0 where
  pub anchor_indices : List ℕ
  pub anchors_resolved : Bool

abbrev pub unresolved : AnchorConfig → Anchors
unresolved c = record { anchor_indices = replicate c.anchor_count 0; anchors_resolved = false }

-- The inner loop of `resolve_anchors`, from `index` on: a channel that is not in the pool leaves
-- its slot as it is.
unfoldable pub resolve_slot : List ℕ → ℕ → ℕ → ℕ → List ℕ → List ℕ
resolve_slot [] channel slot index indices = indices
resolve_slot (hop_channel ∷ rest) channel slot index indices =
    let later = resolve_slot rest channel slot (suc index) indices in
    if hop_channel == channel then set indices slot index else later

unfoldable pub resolve_listed : List ℕ → List ℕ → ℕ → List ℕ → List ℕ
unfolding resolve_slot
resolve_listed hop_channels [] slot indices = indices
resolve_listed hop_channels (channel ∷ channels) slot indices =
    resolve_listed hop_channels channels (suc slot)
      (resolve_slot hop_channels channel slot 0 indices)

unfoldable pub resolve_defaults : AnchorConfig → ℕ → ℕ → List ℕ → List ℕ
unfolding anchor_default_index
resolve_defaults c zero slot indices = indices
resolve_defaults c (suc n) slot indices =
    resolve_defaults c n (suc slot)
      (set indices slot (anchor_default_index slot (length c.hop_channels) c.anchor_count))

unfoldable resolved_indices : AnchorConfig → Option (List ℕ) → List ℕ → List ℕ
unfolding resolve_listed resolve_defaults
resolved_indices c none indices = resolve_defaults c c.anchor_count 0 indices
resolved_indices c (some channels) indices = resolve_listed c.hop_channels channels 0 indices

unfoldable pub resolve_anchors : AnchorConfig → Anchors → Anchors
unfolding resolved_indices
resolve_anchors c anchors = if anchors.anchors_resolved then anchors else record {
  anchor_indices = resolved_indices c c.hop_anchors anchors.anchor_indices;
  anchors_resolved = true;
}

-- The loop of `hop_is_anchor_index`.
unfoldable pub lists_index : List ℕ → ℕ → Bool
lists_index [] index = false
lists_index (anchor ∷ rest) index = if anchor == index then true else lists_index rest index

unfoldable pub hop_is_anchor_index : AnchorConfig → ℕ → Anchors → Bool × Anchors
unfolding resolve_anchors lists_index
hop_is_anchor_index c index anchors =
    let resolved = resolve_anchors c anchors in
    (lists_index resolved.anchor_indices index, resolved)

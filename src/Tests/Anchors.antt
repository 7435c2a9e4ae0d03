-- ===== src/Tests/Anchors.antt =====
-- src/hop.c: the anchors.
use zmk_feature_split_esb.Prelude.{◌≡◌, refl, some, [], ◌∷◌, arith}
use zmk_feature_split_esb.Anchors.{AnchorConfig, unresolved, hop_is_anchor_index, lists_index}
use zmk_feature_split_esb.Anchors.Laws.{IsDistinct, AllIn, after_calls, hop_is_anchor_index-listed}

abbrev config : AnchorConfig
config = record {
  hop_channels = 2 ∷ 26 ∷ 50 ∷ 80 ∷ [];
  hop_anchors = some (80 ∷ 26 ∷ []);
  anchor_count = 2;
}

config-IsDistinct : IsDistinct config.hop_channels
unfolding lists_index
config-IsDistinct = (refl, (refl, (refl, (refl, tt))))

config-AllIn : AllIn config.hop_channels (80 ∷ 26 ∷ [])
unfolding lists_index
config-AllIn = (refl, (refl, tt))

hop_is_anchor_index-listed_example :
    (hop_is_anchor_index config 3 (after_calls config (0 ∷ 1 ∷ []) (unresolved config))).0
    ≡ lists_index (80 ∷ 26 ∷ []) 80
hop_is_anchor_index-listed_example =
    hop_is_anchor_index-listed config (80 ∷ 26 ∷ []) (0 ∷ 1 ∷ []) 3 refl refl config-IsDistinct
      config-AllIn (omega arith)

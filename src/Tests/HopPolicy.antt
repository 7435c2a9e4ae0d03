-- ===== src/Tests/HopPolicy.antt =====
-- src/hop_policy.c.
use zmk_feature_split_esb.Prelude.{ℕ, refl, List, [], ◌∷◌, arith}
use zmk_feature_split_esb.Prelude.Int.{ℤ, negsuc}
use zmk_feature_split_esb.HopPolicy.Mask.{mask_get}
use zmk_feature_split_esb.HopPolicy.Channel.{channel_for_epoch_masked}
use zmk_feature_split_esb.HopPolicy.Channel.Laws.{IsActive, channel_for_epoch_masked-IsActive}
use zmk_feature_split_esb.HopPolicy.Survey.{survey_mask}
use zmk_feature_split_esb.HopPolicy.Survey.Laws.{IsSurveyed, survey_mask-IsSurveyed}

abbrev mask : List ℕ
mask = 0b00100100 ∷ 0b00000001 ∷ []

two-IsActive : IsActive mask 10 (omega arith) (omega arith) 2
unfolding mask_get
two-IsActive = (omega arith, refl)

channel_for_epoch_masked-IsActive_example :
    IsActive mask 10 (omega arith) (omega arith) (channel_for_epoch_masked 33 mask 10)
channel_for_epoch_masked-IsActive_example =
    channel_for_epoch_masked-IsActive mask 10 (omega arith) (omega arith) 33 2 two-IsActive

abbrev energy_dbm : List ℤ
energy_dbm = negsuc 94 ∷ negsuc 49 ∷ negsuc 59 ∷ negsuc 90 ∷ []

survey_mask-IsSurveyed_example :
    IsSurveyed energy_dbm 4
      (1 ∷ [])
      (negsuc 69)
      2
      0
      (15 ∷ [])
      (survey_mask energy_dbm 4 (1 ∷ []) 2 (negsuc 69) (15 ∷ []))
survey_mask-IsSurveyed_example =
    survey_mask-IsSurveyed energy_dbm 4 (1 ∷ []) (negsuc 69) 2 (15 ∷ []) (omega arith)

abbrev rssi_dbm : List ℤ
rssi_dbm = negsuc 49 ∷ negsuc 84 ∷ []

abbrev channels : List ℕ
channels = 2 ∷ 40 ∷ 80 ∷ []

abbrev moved : List ℕ
moved = 2 ∷ 40 ∷ 81 ∷ []

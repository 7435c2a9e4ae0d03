-- ===== src/RelayDongle/Shown.antt =====
-- src/esb_hid_relay_peripheral.c: what the host has been told is what the dongle keeps as delivered.
use zmk_feature_split_esb.Prelude.{
  ℕ, ◌≡◌, Bool, if◌then◌else◌, Option, none, some, List, [], ◌∷◌, get_or,
}
use zmk_feature_split_esb.ByteOrder.{ByteOrder}
use zmk_feature_split_esb.RelayDongle.{
  Reports, Told, Dongle, Slot, keyboard, consumer, buttons_offset, relay_report_find, relay_deliver,
}

-- What a host has of the reports that its sink took.
pub record Host : Type 0 where
  pub keys : List ℕ
  pub usages : List ℕ
  pub buttons : ℕ

module _ (z : Reports) where
  abbrev pub hear_as : Option Slot → List ℕ → Host → Host
  hear_as (some keyboard) bytes host = record host { keys = bytes }
  hear_as (some consumer) bytes host = record host { usages = bytes }
  hear_as none bytes host = record host { buttons = get_or bytes buttons_offset 0 }

  abbrev pub hear : Told → Host → Host
  hear t host =
      if t.took then hear_as (relay_report_find z (get_or t.bytes 0 0)) t.bytes host else host

  abbrev pub hear_all : List Told → Host → Host
  hear_all [] host = host
  hear_all (t ∷ ts) host = hear_all ts (hear t host)

  -- The host of a boot, and all that it was told since, is what the dongle keeps.
  pub record IsShown (boot : Host) (d : Dongle) : Type 0 where
    pub keys : (hear_all d.told boot).keys ≡ d.delivered_keyboard
    pub usages : (hear_all d.told boot).usages ≡ d.delivered_consumer
    pub buttons : (hear_all d.told boot).buttons ≡ d.delivered_buttons

  module _ (order : ByteOrder) (takes : List Told → List ℕ → Bool → Bool) (boot : Host) where
    -- The payloads of a run, each with the time that it comes and whether the callback is registered.
    unfoldable pub run : ℕ → List (Bool × ℕ × List ℕ) → Dongle → Dongle
    unfolding relay_deliver
    run loss_detect_ms [] d = d
    run loss_detect_ms ((registered, now_ms, bytes) ∷ payloads) d =
        run loss_detect_ms payloads
          (relay_deliver order z takes registered loss_detect_ms now_ms bytes d)

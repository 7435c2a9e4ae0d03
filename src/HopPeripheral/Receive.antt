-- ===== src/HopPeripheral/Receive.antt =====
-- src/hop_peripheral.c, src/hop_internal.h: control packets from the central, the beacon and the
-- mask update, and the table of peers that a beacon fills.
use zmk_feature_split_esb.Prelude.{
  ℕ, zero, suc, ◌+◌, ◌*◌, ◌/◌, ◌%◌, ◌^◌, bit_or, Bool, true, false, not, leb, ◌==◌, if◌then◌else◌,
  List, length, get_or, set, take, drop,
}
use zmk_feature_split_esb.Prelude.Int.{ℤ, to_word, of_word}
use zmk_feature_split_esb.SpscLatch.{claim, publish}
use zmk_feature_split_esb.HopPeripheral.State.{Config, mask_bytes, Peripheral}

abbrev pub mask_update_tag : ℕ
mask_update_tag = 0xFD

abbrev pub beacon_tag : ℕ
beacon_tag = 0xFE

abbrev pub mask_update_length : Config → ℕ
mask_update_length c = 1 + mask_bytes c

abbrev pub beacon_length : Config → ℕ
beacon_length c = 4 + c.peer_count * 2

unfoldable pub has_mask_update_tag : List ℕ → Bool
has_mask_update_tag packet =
    if length packet == 0 then false else get_or packet 0 0 == mask_update_tag

unfoldable pub has_beacon_tag : List ℕ → Bool
has_beacon_tag packet = if length packet == 0 then false else get_or packet 0 0 == beacon_tag

-- A peer's battery level and signal level in one word; the level is a byte, read as signed.
unfoldable pub peer_pack : ℕ → ℤ → ℕ
peer_pack battery rssi_dbm = bit_or battery (to_word 8 rssi_dbm * 2 ^ 8) % 2 ^ 16

unfoldable pub peer_unpack_battery : ℕ → ℕ
peer_unpack_battery entry = entry % 256

unfoldable pub peer_unpack_rssi_dbm : ℕ → ℤ
peer_unpack_rssi_dbm entry = of_word 8 (entry / 2 ^ 8 % 256)

-- The entries of the peers from `peer` on, `n` of them, written into the table.
store_peers : List ℕ → ℕ → ℕ → List ℕ → List ℕ
store_peers packet zero peer table = table
store_peers packet (suc n) peer table = store_peers packet n (suc peer) (
    set table peer
      (peer_pack (get_or packet (4 + 2 * peer) 0) (of_word 8 (get_or packet (5 + 2 * peer) 0))))

-- What a packet does outside this file: the HID state stored, or a configuration mismatch noted.
pub data Note : Type 0 where
  nothing mismatch : Note
  hid_state : ℕ → ℕ → Note

unfoldable pub consume_beacon : Config → List ℕ → Peripheral → Note × Peripheral
unfolding store_peers
consume_beacon c packet p = if not (length packet == beacon_length c) then (mismatch, p) else (
  hid_state (get_or packet 2 0) (get_or packet 3 0),
  record p {
    beacon_epoch = get_or packet 1 0;
    uplink_rssi_dbm = of_word 8 (get_or packet (5 + 2 * c.self_pipe) 0);
    peer_table = store_peers packet c.peer_count 0 p.peer_table;
  },
)

unfoldable pub consume_mask_update : Config → List ℕ → Peripheral → Note × Peripheral
consume_mask_update c packet p =
    let (index, claimed) = claim p.staged_mask_latch in
    if not (length packet == mask_update_length c) then (mismatch, p) else (
      nothing,
      record p {
        staged_mask_pool = set p.staged_mask_pool index (take (mask_bytes c) (drop 1 packet));
        staged_mask_latch = publish claimed index;
      },
    )

-- `owns_pipe` is the wire relay's answer for the packet's pipe. The first part says whether the
-- caller must not queue the packet.
unfoldable pub consume_rx : Config → Bool → List ℕ → Peripheral → Bool × Note × Peripheral
unfolding consume_beacon consume_mask_update has_beacon_tag has_mask_update_tag
consume_rx c owns_pipe packet p =
    let (noted, q) = consume_beacon c packet p in
    let (staged, r) = consume_mask_update c packet p in
    if has_beacon_tag packet
    then (not owns_pipe, noted, q)
    else if leb c.hop_count 1
    then (false, nothing, p)
    else if has_mask_update_tag packet
    then (true, staged, r)
    else (false, nothing, p)

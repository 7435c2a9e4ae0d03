-- ===== src/HopPeripheral/Invariant.antt =====
-- The invariant of the state of src/hop_peripheral.c, and the ways of changing a part of it.
pub mod Tick
pub mod Receive
use zmk_feature_split_esb.Prelude.{
  ℕ, zero, suc, ◌+◌, ◌-◌, ◌*◌, ◌/◌, ◌%◌, ◌^◌, ◌≤◌, ◌<◌, ◌≡◌, ◌≢◌, refl, Bool, true, false, ◌&&◌,
  not, ltb, leb, ◌==◌, if◌then◌else◌, Option, none, some, List, [], ◌∷◌, length, get_or, set, take,
  drop, length-set, length-take, length-drop, All, All-get_or, arith, Bool-cases, inl, inr, ◌∙◌,
}
use native.Mathlib.Nat.{mod-lt, mod-le}
use zmk_feature_split_esb.HopPolicy.Mask.{mask_set, length-mask_set}
use zmk_feature_split_esb.HopPolicy.Channel.{
  index_next, index_next_active, channel_for_epoch_masked,
}
use zmk_feature_split_esb.HopPolicy.Channel.Laws.{channel_for_epoch_masked-lt, index_next_active-lt}
use zmk_feature_split_esb.SpscLatch.{peek, claim, publish, release}
use zmk_feature_split_esb.HopPeripheral.State.{
  Config, mask_bytes, sweep_dwell, Retained, Peripheral,
}
use zmk_feature_split_esb.HopPeripheral.Step.{
  adopt_slot, apply_hop_channel, set_channels, ensure_mask, adopt_staged_mask, adopt_epoch,
  connected_window, degrade_hop, lost_window, hop_window, keepalive_tick, settle_link_state,
  retain_link_state, clear_window_attempts, hop_restore, is_retained, record_tx_attempts,
  note_tx_success, note_tx_failed, note_noack_sent, set_retransmit_ceiling,
}
use zmk_feature_split_esb.HopPeripheral.Receive.{
  Note, nothing, has_beacon_tag, has_mask_update_tag, mask_update_length, consume_rx,
  consume_beacon, consume_mask_update,
}

-- What the build asserts of the pool, and a dwell that fits its 16 bits.
pub record IsConfig (c : Config) : Type 0 where
  pub hops : 1 ≤ c.hop_count
  pub few : c.hop_count < 255
  pub dwell : sweep_dwell c.idle_keepalive_ms c.hop_window_ms < 2 ^ 16

-- The part of the state that the invariant reads.
pub record IsShape (c : Config) (hop_index undo_index sweep_windows ceiling : ℕ)
    (active kept : List ℕ) (pool : List (List ℕ)) : Type 0 where
  pub index : hop_index < c.hop_count
  pub undo : undo_index < c.hop_count
  pub sweep : sweep_windows < sweep_dwell c.idle_keepalive_ms c.hop_window_ms
  pub within : ceiling ≤ c.retransmit_count
  pub active_size : length active ≡ mask_bytes c
  pub kept_size : length kept ≡ mask_bytes c
  pub pool_size : All (λ m. length m ≡ mask_bytes c) pool

pub record IsValid (c : Config) (p : Peripheral) : Type 0 where
  pub shape :
      IsShape c p.hop_index p.degrade_undo_index p.sweep_windows p.retransmit_ceiling p.active_mask
        p.retained_link.mask p.staged_mask_pool

module _ {c : Config} {i u s r : ℕ} {a k : List ℕ} {pool : List (List ℕ)}
    (v : IsShape c i u s r a k pool) where
  pub with_index : {j : ℕ} → j < c.hop_count → IsShape c j u s r a k pool
  with_index h = record {
    index = h;
    undo = v.undo;
    sweep = v.sweep;
    within = v.within;
    active_size = v.active_size;
    kept_size = v.kept_size;
    pool_size = v.pool_size;
  }

  pub with_undo : {j : ℕ} → j < c.hop_count → IsShape c i j s r a k pool
  with_undo h = record {
    index = v.index;
    undo = h;
    sweep = v.sweep;
    within = v.within;
    active_size = v.active_size;
    kept_size = v.kept_size;
    pool_size = v.pool_size;
  }

  pub with_sweep :
      {n : ℕ} → n < sweep_dwell c.idle_keepalive_ms c.hop_window_ms → IsShape c i u n r a k pool
  with_sweep h = record {
    index = v.index;
    undo = v.undo;
    sweep = h;
    within = v.within;
    active_size = v.active_size;
    kept_size = v.kept_size;
    pool_size = v.pool_size;
  }

  pub with_pool :
      {ms : List (List ℕ)} → All (λ m. length m ≡ mask_bytes c) ms → IsShape c i u s r a k ms
  with_pool h = record {
    index = v.index;
    undo = v.undo;
    sweep = v.sweep;
    within = v.within;
    active_size = v.active_size;
    kept_size = v.kept_size;
    pool_size = h;
  }

  pub with_active : {m : List ℕ} → length m ≡ mask_bytes c → IsShape c i u s r m k pool
  with_active h = record {
    index = v.index;
    undo = v.undo;
    sweep = v.sweep;
    within = v.within;
    active_size = h;
    kept_size = v.kept_size;
    pool_size = v.pool_size;
  }

pub record IsValidResult (c : Config) (r : Bool × Note × Peripheral) : Type 0 where
  pub result : IsValid c r.2

pub mod_below : (m n : ℕ) → 0 < n → m % n < n
mod_below m n h = mod-lt m h

pub get_or-All :
    (P : List ℕ → Type 0) (xs : List (List ℕ)) (i : ℕ) (d : List ℕ)
    → All P xs
    → P d
    → P (get_or xs i d)
get_or-All P [] i d h k = k
get_or-All P (x ∷ xs) zero d (h, _) k = h
get_or-All P (x ∷ xs) (suc i) d (_, hs) k = get_or-All P xs i d hs k

pub set-All :
    (P : List ℕ → Type 0) (xs : List (List ℕ)) (i : ℕ) (d : List ℕ)
    → All P xs
    → P d
    → All P (set xs i d)
set-All P [] i d h k = h
set-All P (x ∷ xs) zero d (h, hs) k = (k, hs)
set-All P (x ∷ xs) (suc i) d (h, hs) k = (h, set-All P xs i d hs k)

abbrev pub Keeps : Config → (Peripheral → Peripheral) → Type 0
Keeps c f = (p : Peripheral) → IsValid c p → IsValid c (f p)

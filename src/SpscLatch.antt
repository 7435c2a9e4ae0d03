-- ===== src/SpscLatch.antt =====
-- src/spsc_latch.c, src/spsc_latch.h: the single-producer latch. A slot pointer is the index of the
-- slot, NULL is `none`, and an atomic access is one step.
use zmk_feature_split_esb.Prelude.{
  ℕ, ◌+◌, ◌%◌, ◌^◌, ◌≤◌, ◌<◌, ◌≡◌, ◌≢◌, Bool, true, false, ◌==◌, if◌then◌else◌, Option, none, some,
  arith, ap,
}
use native.Mathlib.Nat.{mod-lt}

pub record SpscLatch : Type 0 where
  pub published : Option ℕ
  pub next_index : ℕ
  pub slot_count : ℕ

-- The slot to write, and the latch with its counter advanced; `atomic_t` is 32 bits wide.
unfoldable pub claim : SpscLatch → ℕ × SpscLatch
claim latch = (
  latch.next_index % 2 ^ 32 % latch.slot_count % 256,
  record latch { next_index = (latch.next_index + 1) % 2 ^ 32 },
)

unfoldable pub publish : SpscLatch → ℕ → SpscLatch
publish latch slot = record latch { published = some slot }

unfoldable pub peek : SpscLatch → Option ℕ
peek latch = latch.published

abbrev holds : Option ℕ → ℕ → Bool
holds none expected = false
holds (some slot) expected = slot == expected

-- A compare-and-swap to NULL.
unfoldable pub release : SpscLatch → ℕ → Bool × SpscLatch
release latch expected =
    if holds latch.published expected
    then (true, record latch { published = none })
    else (false, latch)

-- A slot published after a reader's peek survives that reader's release; without one the release
-- empties the latch.
pub release-keeps_newer :
    (latch : SpscLatch) (seen newer : ℕ)
    → seen ≢ newer
    → (release (publish (publish latch seen) newer) seen
        ≡ (false, publish (publish latch seen) newer))
      × (peek (release (publish latch seen) seen).1 ≡ none)
unfolding release publish peek
release-keeps_newer latch seen newer h = (ground arith, ground arith)

next-mod-ne : (i n : ℕ) → 2 ≤ n → (i + 1) % n ≢ i % n
next-mod-ne i n h e = grind arith

-- The producer never claims the slot that it published last: the next claim is another slot, until
-- the counter wraps, for 2 to 256 slots.
pub claim-ne-previous :
    (latch : SpscLatch)
    → 2 ≤ latch.slot_count
    → latch.slot_count ≤ 256
    → latch.next_index + 1 < 2 ^ 32
    → (claim (publish (claim latch).1 (claim latch).0)).0 ≢ (claim latch).0
unfolding claim publish
claim-ne-previous latch h k l e = next-mod-ne latch.next_index latch.slot_count h (
    omega (
      arith,
      mod-lt latch.next_index {m = latch.slot_count} (omega arith),
      mod-lt (latch.next_index + 1) {m = latch.slot_count} (omega arith),
      ap (λ k. k % latch.slot_count) first,
      ap (λ k. k % latch.slot_count) second,
    ))
  where
    first : latch.next_index % 2 ^ 32 ≡ latch.next_index
    first = omega arith

    second : (latch.next_index + 1) % 2 ^ 32 % 2 ^ 32 ≡ latch.next_index + 1
    second = omega arith

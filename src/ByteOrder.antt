-- ===== src/ByteOrder.antt =====
-- Zephyr's little-endian stores and loads, `sys_put_le16` and its kin, which the repository only
-- calls: an interface with what Zephyr documents of them.
use zmk_feature_split_esb.Prelude.{ℕ, ◌^◌, ◌<◌, ◌≡◌, List, ◌++◌, length}

-- A store gives the bytes written, and a load reads the bytes at the front.
pub record ByteOrder : Type 0 where
  pub put_le16 : ℕ → List ℕ
  pub get_le16 : List ℕ → ℕ
  pub put_le64 : ℕ → List ℕ
  pub get_le64 : List ℕ → ℕ
  pub length-put_le16 : (v : ℕ) → length (put_le16 v) ≡ 2
  pub get-put_le16 : (v : ℕ) (rest : List ℕ) → v < 2 ^ 16 → get_le16 (put_le16 v ++ rest) ≡ v
  pub length-put_le64 : (v : ℕ) → length (put_le64 v) ≡ 8
  pub get-put_le64 : (v : ℕ) (rest : List ℕ) → v < 2 ^ 64 → get_le64 (put_le64 v ++ rest) ≡ v

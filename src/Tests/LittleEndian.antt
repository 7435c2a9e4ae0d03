-- ===== src/Tests/LittleEndian.antt =====
-- A byte order that keeps the laws that src/esb_keepalive.c relies on: the least byte first.
use zmk_feature_split_esb.Prelude.{
  ℕ, zero, suc, ◌+◌, ◌*◌, ◌/◌, ◌%◌, ◌<◌, ◌≡◌, refl, List, [], ◌∷◌, ◌++◌, length, arith,
}
use zmk_feature_split_esb.ByteOrder.{ByteOrder}

unfoldable pub put_le : ℕ → ℕ → List ℕ
put_le zero v = []
put_le (suc n) v = v % 256 ∷ put_le n (v / 256)

unfoldable pub get_le : ℕ → List ℕ → ℕ
get_le zero bytes = 0
get_le (suc n) [] = 0
get_le (suc n) (b ∷ bytes) = b + 256 * get_le n bytes

abbrev pub bound : ℕ → ℕ
bound zero = 1
bound (suc n) = 256 * bound n

pub length-put_le : (n v : ℕ) → length (put_le n v) ≡ n
unfolding put_le
length-put_le zero v = refl
length-put_le (suc n) v = omega (arith, length-put_le n (v / 256))

pub get_le-put_le : (n v : ℕ) (rest : List ℕ) → v < bound n → get_le n (put_le n v ++ rest) ≡ v
unfolding put_le get_le
get_le-put_le zero v rest h = omega arith
get_le-put_le (suc n) v rest h = omega (arith, get_le-put_le n (v / 256) rest (omega arith))

abbrev pub little_endian : ByteOrder
little_endian = record {
  put_le16 = put_le 2;
  get_le16 = get_le 2;
  put_le64 = put_le 8;
  get_le64 = get_le 8;
  length-put_le16 = length-put_le 2;
  get-put_le16 = get_le-put_le 2;
  length-put_le64 = length-put_le 8;
  get-put_le64 = get_le-put_le 8;
}

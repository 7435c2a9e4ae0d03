-- ===== src/WireLink/Splice.antt =====
-- src/wire_link.c: where a frame ends among the bytes of a ring.
use zmk_feature_split_esb.Prelude.{ℕ, ◌≡◌, ◌≢◌, refl, true, List, [], ◌∷◌, ◌++◌, All}
use zmk_feature_split_esb.WireFrame.Frames.{Nonzero}
use zmk_feature_split_esb.WireLink.{RingName, event, input, keepalive, same_ring}

pub same_ring_self : (r : RingName) → same_ring r r ≡ true
same_ring_self event = refl
same_ring_self input = refl
same_ring_self keepalive = refl

pub same_ring_eq : (r q : RingName) → same_ring r q ≡ true → r ≡ q
same_ring_eq event event h = refl
same_ring_eq event input h = cc
same_ring_eq event keepalive h = cc
same_ring_eq input event h = cc
same_ring_eq input input h = refl
same_ring_eq input keepalive h = cc
same_ring_eq keepalive event h = cc
same_ring_eq keepalive input h = cc
same_ring_eq keepalive keepalive h = refl

-- Two lists with no 0 before their first delimiter are cut at the same place.
pub cut_at_delimiter :
    (xs ys us vs : List ℕ)
    → All Nonzero xs
    → All Nonzero ys
    → xs ++ (0 ∷ us) ≡ ys ++ (0 ∷ vs)
    → (xs ≡ ys) × (us ≡ vs)
cut_at_delimiter [] [] us vs h k e = (refl, cc)
cut_at_delimiter [] (y ∷ ys) us vs h (n, k) e = absurd (n (cc))
cut_at_delimiter (x ∷ xs) [] us vs (n, h) k e = absurd (n (cc))
cut_at_delimiter (x ∷ xs) (y ∷ ys) us vs (n, h) (m, k) e =
    let same : x ≡ y = cc in let (front, back) = cut_at_delimiter xs ys us vs h k (cc) in (cc, back)

-- Bytes with no 0 hold no delimiter.
pub no_delimiter : (xs ys us : List ℕ) → All Nonzero xs → xs ≢ ys ++ (0 ∷ us)
no_delimiter [] [] us h e = cc
no_delimiter [] (y ∷ ys) us h e = cc
no_delimiter (x ∷ xs) [] us (n, h) e = n (cc)
no_delimiter (x ∷ xs) (y ∷ ys) us (n, h) e = no_delimiter xs ys us h (cc)

pub All-snoc : (xs : List ℕ) (b : ℕ) → All Nonzero xs → b ≢ 0 → All Nonzero (xs ++ (b ∷ []))
All-snoc [] b h n = (n, tt)
All-snoc (x ∷ xs) b (m, h) n = (m, All-snoc xs b h n)

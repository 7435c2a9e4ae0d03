-- ===== src/Anchors/Laws.antt =====
-- src/hop.c: which indices of the pool are anchors.
use zmk_feature_split_esb.Prelude.{
  ℕ, zero, suc, ◌+◌, ◌<◌, ◌≡◌, refl, sym, ◌∙◌, ap, Bool, true, false, ◌==◌, if◌then◌else◌, Option,
  some, List, [], ◌∷◌, ◌++◌, map, length, set, get_or, replicate, arith, if_split, Bool-cases,
  ℕ_discrete, set-append, length-append, length-replicate, inl, inr,
}
use mathlib.Core.Path.{ap₂}
use mathlib.Core.List.{append_assoc}
use zmk_feature_split_esb.Anchors.{
  AnchorConfig, Anchors, unresolved, resolve_slot, resolve_listed, resolved_indices,
  resolve_anchors, lists_index, hop_is_anchor_index,
}

-- Where a channel stands first.
unfoldable position : List ℕ → ℕ → ℕ
position [] channel = 0
position (x ∷ xs) channel = let rest = position xs channel in if x == channel then 0 else suc rest

-- Every channel of the second list is one of the pool.
abbrev pub AllIn : List ℕ → List ℕ → Type 0
AllIn pool [] = Unit
AllIn pool (channel ∷ channels) = (lists_index pool channel ≡ true) × AllIn pool channels

abbrev pub IsDistinct : List ℕ → Type 0
IsDistinct [] = Unit
IsDistinct (x ∷ xs) = (lists_index xs x ≡ false) × IsDistinct xs

resolve_slot-position :
    (pool : List ℕ) (channel slot index : ℕ) (indices : List ℕ)
    → lists_index pool channel ≡ true
    → resolve_slot pool channel slot index indices
      ≡ set indices slot (index + position pool channel)
unfolding resolve_slot lists_index position
resolve_slot-position [] channel slot index indices h = absurd (ground (arith, h))
resolve_slot-position (x ∷ xs) channel slot index indices h =
    if_split (λ (table : List ℕ). table ≡ set indices slot (index + position (x ∷ xs) channel))
      (x == channel) (λ e. rw e (ap (set indices slot) (omega arith)))
      (λ e. rw e (
        resolve_slot-position xs channel slot (suc index) indices (ground (arith, e, h))
        ∙ ap (set indices slot) (omega arith)))

-- The slots from `done` on are filled with the positions.
resolve_listed-append :
    (pool channels filled left : List ℕ)
    → AllIn pool channels
    → length left ≡ length channels
    → resolve_listed pool channels (length filled) (filled ++ left)
      ≡ filled ++ map (position pool) channels
unfolding resolve_listed
resolve_listed-append pool [] filled [] h e = refl
resolve_listed-append pool [] filled (x ∷ left) h e = absurd (omega arith)
resolve_listed-append pool (channel ∷ channels) filled [] h e = absurd (omega arith)
resolve_listed-append pool (channel ∷ channels) filled (x ∷ left) (m, h) e =
    let slot_lem : set (filled ++ x ∷ left) (length filled) (position pool channel)
        ≡ (filled ++ position pool channel ∷ []) ++ left =
      ap (λ k. set (filled ++ x ∷ left) k (position pool channel)) (omega arith)
      ∙ set-append filled (x ∷ left) 0 (position pool channel)
      ∙ sym (append_assoc filled _ left) in
    let rest =
      resolve_listed-append pool channels (filled ++ position pool channel ∷ []) left h
        (omega arith) in
    let n : suc (length filled) ≡ length (filled ++ position pool channel ∷ []) =
      omega (arith, length-append filled (position pool channel ∷ [])) in
    ap (resolve_listed pool channels (suc (length filled))) (
      resolve_slot-position pool channel (length filled) 0 (filled ++ x ∷ left) m
      ∙ ap (set (filled ++ x ∷ left) (length filled)) (omega arith)
      ∙ slot_lem)
    ∙ ap (λ k. resolve_listed pool channels k ((filled ++ position pool channel ∷ []) ++ left)) n
    ∙ rest
    ∙ append_assoc filled _ _

lists_index-get_or :
    (xs : List ℕ) (index : ℕ) → index < length xs → lists_index xs (get_or xs index 0) ≡ true
unfolding lists_index
lists_index-get_or [] index l = absurd (omega arith)
lists_index-get_or (x ∷ xs) zero l = ground arith
lists_index-get_or (x ∷ xs) (suc index) l =
    ground (arith, lists_index-get_or xs index (omega arith))

-- In a pool with no channel twice a channel's position is any index where it stands.
position_eq :
    (pool : List ℕ) (channel index : ℕ)
    → IsDistinct pool
    → lists_index pool channel ≡ true
    → index < length pool
    → (position pool channel == index) ≡ (channel == get_or pool index 0)
unfolding position lists_index
position_eq [] channel index d h l = absurd (omega arith)
position_eq (x ∷ xs) channel zero (f, d) h l =
    if_split (λ p. (p == 0) ≡ (channel == x)) (x == channel) {a = 0} {b = suc (position xs channel)}
      (λ e. ground (arith, e)) (λ e. ground (arith, e))
position_eq (x ∷ xs) channel (suc index) (f, d) h l =
    if_split (λ p. (p == suc index) ≡ (channel == get_or xs index 0)) (x == channel) {a = 0}
      {b = suc (position xs channel)}
      (λ e.
        let here : x ≡ channel = ground (arith, e) in
        let listed = lists_index-get_or xs index (omega arith) in
        let apart : lists_index xs channel ≡ false = ap (lists_index xs) (sym here) ∙ f in
        let free : channel ≡ get_or xs index 0 → false ≡ true =
          λ q. sym apart ∙ ap (lists_index xs) q ∙ listed in
        elim (ℕ_discrete channel (get_or xs index 0)) [
          | yes q ↦ absurd (ground (arith, free q))
          | no q ↦ ground (arith, q)
        ])
      (λ e.
        let step : (suc (position xs channel) == suc index) ≡ (position xs channel == index) =
          ground arith in
        step ∙ position_eq xs channel index d (ground (arith, e, h)) (omega arith))

lists_index-positions :
    (pool channels : List ℕ) (index : ℕ)
    → IsDistinct pool
    → AllIn pool channels
    → index < length pool
    → lists_index (map (position pool) channels) index ≡ lists_index channels (get_or pool index 0)
unfolding lists_index
lists_index-positions pool [] index d h l = refl
lists_index-positions pool (channel ∷ channels) index d (m, h) l =
    ap₂ (λ (here rest : Bool). if here then true else rest) (position_eq pool channel index d m l)
      (lists_index-positions pool channels index d h l)

-- The state after some calls.
unfoldable pub after_calls : AnchorConfig → List ℕ → Anchors → Anchors
unfolding hop_is_anchor_index
after_calls c [] anchors = anchors
after_calls c (index ∷ rest) anchors = after_calls c rest (hop_is_anchor_index c index anchors).1

resolve_anchors-after_calls :
    (c : AnchorConfig) (calls : List ℕ) (anchors : Anchors)
    → resolve_anchors c (after_calls c calls anchors) ≡ resolve_anchors c anchors
unfolding resolve_anchors after_calls hop_is_anchor_index
resolve_anchors-after_calls c [] anchors = refl
resolve_anchors-after_calls c (index ∷ rest) anchors =
    resolve_anchors-after_calls c rest (resolve_anchors c anchors)
    ∙ elim (Bool-cases anchors.anchors_resolved) [ inl e ↦ rw e refl | inr e ↦ rw e refl ]

-- On a pool with no channel twice that has each of the listed anchors, after any calls since the
-- boot, an index of the pool is an anchor's just if its channel is listed.
pub hop_is_anchor_index-listed :
    (c : AnchorConfig) (channels calls : List ℕ) (index : ℕ)
    → c.hop_anchors ≡ some channels
    → c.anchor_count ≡ length channels
    → IsDistinct c.hop_channels
    → AllIn c.hop_channels channels
    → index < length c.hop_channels
    → (hop_is_anchor_index c index (after_calls c calls (unresolved c))).0
      ≡ lists_index channels (get_or c.hop_channels index 0)
unfolding hop_is_anchor_index resolve_anchors resolved_indices
hop_is_anchor_index-listed c channels calls index listed count d h l =
    ap (λ (q : Anchors). lists_index q.anchor_indices index)
      (resolve_anchors-after_calls c calls (unresolved c))
    ∙ ap
        (λ (o : Option (List ℕ)).
          lists_index (resolved_indices c o (replicate c.anchor_count 0)) index)
        listed
    ∙ ap (λ (t : List ℕ). lists_index t index)
        (resolve_listed-append c.hop_channels channels [] (replicate c.anchor_count 0) h
          (length-replicate c.anchor_count 0 ∙ count))
    ∙ lists_index-positions c.hop_channels channels index d h l

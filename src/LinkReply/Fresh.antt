-- ===== src/LinkReply/Fresh.antt =====
-- src/esb_link_central.c: when an idle reply leaves.
use zmk_feature_split_esb.Prelude.{
  ℕ, ◌+◌, ◌^◌, ◌≤◌, ◌<◌, ◌≡◌, refl, sym, ◌∙◌, ap, inl, inr, Bool, true, false, not, ltb, ◌==◌,
  Option, none, some, List, [], ◌∷◌, length, All, arith, if_either, if_split,
}
use zmk_feature_split_esb.SpscLatch.{claim, peek}
use zmk_feature_split_esb.LinkReply.{
  ReplyConfig, ControlLatch, IdleReply, ReplyPipe, latch_idle_reply, Written, control, reply, idle,
  control_round, write_pending_control, write_queued_replies, idle_at, fresh_at, fresh_idle_reply,
  idle_written, write_idle_reply, serve_queued, serve_control, serve_pipe,
}
use mathlib.Core.Path.{subst}
use zmk_feature_split_esb.LinkReply.Order.{ReplyStep, run, latch_idle_reply-queue}
use zmk_feature_split_esb.LinkReply.History.{
  IsSince, NoIdle, run-IsSince, latch_idle_reply-IsSince, run-fits,
}

-- Whether what is written is an idle reply.
abbrev pub is_idle : Option Written → Bool
is_idle none = false
is_idle (some (idle bytes)) = true
is_idle (some (control bytes)) = false
is_idle (some (reply bytes)) = false

abbrev pub is_none {ℓ} : {A : Type ℓ} → Option A → Bool
is_none none = true
is_none (some a) = false

-- What is written is the latched idle reply, which counts as many staged replies as there are now.
unfoldable IsFresh : ReplyPipe → Option Written → Type 0
IsFresh p written =
    (slot : ℕ) × (peek p.idle_latch ≡ some slot)
    × ((idle_at p slot).replies_staged ≡ p.replies_staged)
    × (written ≡ some (idle (idle_at p slot).bytes))

module _ (c : ReplyConfig) (accepts : Bool) where
  idle_written-IsFresh :
      (p : ReplyPipe) (o : Option ℕ)
      → peek p.idle_latch ≡ o
      → is_idle (idle_written accepts (fresh_at p o)).0 ≡ true
      → IsFresh p (idle_written accepts (fresh_at p o)).0
  unfolding idle_written fresh_at IsFresh
  idle_written-IsFresh p none e h = absurd (ground (arith, h))
  idle_written-IsFresh p (some slot) e h =
      if_split
        (λ (r : Option ℕ × ReplyPipe).
          is_idle (idle_written accepts r).0 ≡ true → IsFresh p (idle_written accepts r).0)
        (not ((idle_at p slot).replies_staged == p.replies_staged))
        (λ _ g. absurd (ground (arith, g)))
        (λ f.
          if_split (λ (r : Option Written × ReplyPipe). is_idle r.0 ≡ true → IsFresh p r.0)
            (length (idle_at p slot).bytes == 0) {a = (none, p)} (λ _ g. absurd (ground (arith, g)))
            (λ _ _. (slot, e, ground (arith, f), refl)))
        h

  pending_first :
      (ks : List ControlLatch)
      → is_none (write_pending_control accepts ks).0 ≡ true
      → All (λ k. is_none (peek k.latch) ≡ true) ks
  unfolding write_pending_control control_round
  pending_first [] h = tt
  pending_first (k ∷ ks) h = first (peek k.latch) refl h (pending_first ks)
    where
      first :
          (o : Option ℕ)
          → peek k.latch ≡ o
          → is_none (control_round accepts k ks (write_pending_control accepts ks) o).0 ≡ true
          → (is_none (write_pending_control accepts ks).0 ≡ true
              → All (λ j. is_none (peek j.latch) ≡ true) ks)
          → (is_none (peek k.latch) ≡ true) × All (λ j. is_none (peek j.latch) ≡ true) ks
      first none e g rest = (ap is_none e, rest g)
      first (some slot) e g rest = absurd (ground (arith, g))

  no_idle : (queue : List (List ℕ)) → is_idle (write_queued_replies c accepts queue).0 ≡ false
  unfolding write_queued_replies
  no_idle [] = refl
  no_idle (packet ∷ rest) =
      if_either (λ (r : Option Written × List (List ℕ)). is_idle r.0 ≡ false)
        (ltb c.max_payload (length packet)) refl refl

  pending_no_idle : (ks : List ControlLatch) → is_idle (write_pending_control accepts ks).0 ≡ false
  unfolding write_pending_control control_round
  pending_no_idle [] = refl
  pending_no_idle (k ∷ ks) = round (peek k.latch) (pending_no_idle ks)
    where
      round :
          (o : Option ℕ)
          → is_idle (write_pending_control accepts ks).0 ≡ false
          → is_idle (control_round accepts k ks (write_pending_control accepts ks) o).0 ≡ false
      round none h = h
      round (some slot) h = refl

  queued_first :
      (queue : List (List ℕ))
      → All (λ packet. length packet ≤ c.max_payload) queue
      → is_none (write_queued_replies c accepts queue).0 ≡ true
      → queue ≡ []
  unfolding write_queued_replies
  queued_first [] v h = refl
  queued_first (packet ∷ rest) (v, vs) h =
      if_split (λ (r : Option Written × List (List ℕ)). is_none r.0 ≡ true → packet ∷ rest ≡ [])
        (ltb c.max_payload (length packet)) (λ e _. absurd (ground (arith, e, v)))
        (λ _ g. absurd (ground (arith, g))) h

  serve_queued-IsFresh :
      (p : ReplyPipe) (r : Option Written × List (List ℕ))
      → is_idle r.0 ≡ false
      → is_idle (serve_queued accepts p r).0 ≡ true
      → IsFresh p (serve_queued accepts p r).0 × (is_none r.0 ≡ true)
  unfolding serve_queued write_idle_reply fresh_idle_reply
  serve_queued-IsFresh p (none, queue) n h =
      (idle_written-IsFresh p (peek p.idle_latch) refl h, refl)
  serve_queued-IsFresh p (some w, queue) n h = absurd (ground (arith, n, h))

  serve_control-IsFresh :
      (p : ReplyPipe) (r : Option Written × List ControlLatch)
      → is_idle r.0 ≡ false
      → is_idle (serve_control c accepts p r).0 ≡ true
      → IsFresh p (serve_control c accepts p r).0
        × (is_none (write_queued_replies c accepts p.queue).0 ≡ true)
        × (is_none r.0 ≡ true)
  unfolding serve_control
  serve_control-IsFresh p (none, controls) n h =
      let (fresh, queued) =
        serve_queued-IsFresh p (write_queued_replies c accepts p.queue) (no_idle p.queue) h in
      (fresh, queued, refl)
  serve_control-IsFresh p (some w, controls) n h = absurd (ground (arith, n, h))

  serve_pipe-IsFresh :
      (p : ReplyPipe)
      → All (λ packet. length packet ≤ c.max_payload) p.queue
      → is_idle (serve_pipe c accepts p).0 ≡ true
      → IsFresh p (serve_pipe c accepts p).0
        × (p.queue ≡ [])
        × All (λ k. is_none (peek k.latch) ≡ true) p.controls
  unfolding serve_pipe
  serve_pipe-IsFresh p v h =
      let (fresh, queued, pending) =
        serve_control-IsFresh p (write_pending_control accepts p.controls)
          (pending_no_idle p.controls) h in
      (fresh, queued_first p.queue v queued, pending_first p.controls pending)

-- What is fresh is what was latched, with nothing staged since.
fresh_since :
    (c : ReplyConfig) (latched : IdleReply) (slot staged : ℕ) (p : ReplyPipe)
    (written : Option Written)
    → latched.replies_staged < 2 ^ 32
    → staged < 2 ^ 32
    → IsSince c latched slot staged p
    → IsFresh p written
    → (written ≡ some (idle latched.bytes)) × (staged ≡ 0)
unfolding IsFresh
fresh_since c latched slot staged p written small few v (found, e, same, wrote) = elim v.waits [
  | inl empty ↦ absurd (ground (arith, e, empty))
  | inr (there, is_latched) ↦
      let at : found ≡ slot = cc in
      let entry : idle_at p found ≡ latched = ap (λ k. idle_at p k) at ∙ is_latched in
      (
        wrote ∙ ap (λ (r : IdleReply). some (idle r.bytes)) entry,
        omega (arith, v.count, same, ap (λ (r : IdleReply). r.replies_staged) entry, small, few),
      )
]

none_staged : (staged : List (List ℕ)) → length staged ≡ 0 → staged ≡ []
none_staged [] e = refl
none_staged (packet ∷ staged) e = absurd (omega (arith, e))

-- An idle reply is latched, and any calls follow but another one of its kind, with the radio taking or
-- refusing each write and fewer than 2^32 replies staged. If a packet that asks for an ACK is then
-- answered with an idle reply, it is the latched one, none was staged since it was latched, no reply is
-- queued and no control packet is latched: it never overtakes a newer reply. The queued replies fit the
-- payload, as `esb_link_stage_reply` lets them in, the pool has the slot and the count is 32 bits wide.
pub serve_pipe-idle_last :
    (c : ReplyConfig) (accepts : Bool) (bytes : List ℕ) (steps : List ReplyStep) (p : ReplyPipe)
    → (claim p.idle_latch).0 < length p.idle_pool
    → p.replies_staged < 2 ^ 32
    → All (λ packet. length packet ≤ c.max_payload) p.queue
    → (latch_idle_reply c bytes p).0 ≡ none
    → All NoIdle steps
    → let (staged, gone, last) = run c steps (latch_idle_reply c bytes p).1 in
      length staged < 2 ^ 32
      → is_idle (serve_pipe c accepts last).0 ≡ true
      → ((serve_pipe c accepts last).0 ≡ some (idle bytes))
        × (staged ≡ [])
        × (last.queue ≡ [])
        × All (λ k. is_none (peek k.latch) ≡ true) last.controls
serve_pipe-idle_last c accepts bytes steps p there small fits ok alone few wrote =
    let q = (latch_idle_reply c bytes p).1 in
    let (staged, gone, last) = run c steps q in
    let latched : IdleReply = record { bytes = bytes; replies_staged = p.replies_staged } in
    let slot = (claim p.idle_latch).0 in
    let since =
      run-IsSince c latched slot steps 0 q alone
        (latch_idle_reply-IsSince c bytes p there small ok) in
    let kept = run-fits c steps q (
      subst (All (λ packet. length packet ≤ c.max_payload)) (sym (latch_idle_reply-queue c bytes p))
        fits) in
    let (fresh, empty, idle_controls) = serve_pipe-IsFresh c accepts last kept wrote in
    let (is_it, zero_staged) =
      fresh_since c latched slot (0 + length staged) last (serve_pipe c accepts last).0 small
        (omega (arith, few)) since fresh in
    (is_it, none_staged staged (omega (arith, zero_staged)), empty, idle_controls)

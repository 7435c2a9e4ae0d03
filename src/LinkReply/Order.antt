-- ===== src/LinkReply/Order.antt =====
-- src/esb_link_central.c: the order in which the replies of a pipe leave.
use mathlib.Core.List.{append_assoc, append-nil}
use zmk_feature_split_esb.Prelude.{
  ℕ, ◌≡◌, refl, sym, ◌∙◌, ap, Bool, true, false, ◌||◌, ltb, leb, ◌==◌, if◌then◌else◌, Option, none,
  some, List, [], ◌∷◌, ◌++◌, length, if_either,
}
use zmk_feature_split_esb.SpscLatch.{peek}
use zmk_feature_split_esb.LinkReply.{
  ReplyConfig, ControlLatch, ReplyPipe, ReplyError, latch_control, stage_reply, latch_idle_reply,
  Written, control, reply, idle, control_round, write_pending_control, write_queued_replies,
  idle_at, fresh_at, fresh_idle_reply, idle_written, write_idle_reply, serve_queued, serve_control,
  serve_pipe,
}

-- A call on the pipe: the three that stage, and a packet that asked for an ACK.
pub data ReplyStep : Type 0 where
  with_control : ℕ → List ℕ → ReplyStep
  with_reply with_idle : List ℕ → ReplyStep
  served : Bool → ReplyStep

-- The queued reply that left, if the radio took one.
abbrev pub left : Bool → Option Written → List (List ℕ)
left accepts (some (reply bytes)) = if accepts then bytes ∷ [] else []
left accepts (some (control bytes)) = []
left accepts (some (idle bytes)) = []
left accepts none = []

-- The reply that the call staged, if it answered 0.
abbrev pub staged_by : List ℕ → Option ReplyError → List (List ℕ)
staged_by bytes none = bytes ∷ []
staged_by bytes (some error) = []

-- A run of calls: the replies staged, the replies that left, and the pipe behind it.
unfoldable pub run :
    ReplyConfig → List ReplyStep → ReplyPipe → List (List ℕ) × List (List ℕ) × ReplyPipe
unfolding latch_control stage_reply latch_idle_reply serve_pipe
run c [] p = ([], [], p)
run c (with_control kind bytes ∷ steps) p = run c steps (latch_control c kind bytes p).1
run c (with_idle bytes ∷ steps) p = run c steps (latch_idle_reply c bytes p).1
run c (with_reply bytes ∷ steps) p =
    let (error, q) = stage_reply c bytes p in
    let (staged, gone, last) = run c steps q in (staged_by bytes error ++ staged, gone, last)
run c (served accepts ∷ steps) p =
    let (written, q) = serve_pipe c accepts p in
    let (staged, gone, last) = run c steps q in (staged, left accepts written ++ gone, last)

module _ (c : ReplyConfig) where
  latch_control-queue :
      (kind : ℕ) (bytes : List ℕ) (p : ReplyPipe) → (latch_control c kind bytes p).1.queue ≡ p.queue
  unfolding latch_control
  latch_control-queue kind bytes p =
      if_either (λ (r : Option ReplyError × ReplyPipe). r.1.queue ≡ p.queue)
        (leb (length p.controls) kind) refl
        (if_either (λ (r : Option ReplyError × ReplyPipe). r.1.queue ≡ p.queue)
          (length bytes == 0 || ltb c.control_max_length (length bytes)) refl refl)

  pub latch_idle_reply-queue :
      (bytes : List ℕ) (p : ReplyPipe) → (latch_idle_reply c bytes p).1.queue ≡ p.queue
  unfolding latch_idle_reply
  latch_idle_reply-queue bytes p =
      if_either (λ (r : Option ReplyError × ReplyPipe). r.1.queue ≡ p.queue)
        (length bytes == 0 || ltb c.max_payload (length bytes)) refl refl

  stage_reply-queue :
      (bytes : List ℕ) (p : ReplyPipe)
      → (stage_reply c bytes p).1.queue ≡ p.queue ++ staged_by bytes (stage_reply c bytes p).0
  unfolding stage_reply
  stage_reply-queue bytes p =
      let Staged =
        λ (r : Option ReplyError × ReplyPipe). r.1.queue ≡ p.queue ++ staged_by bytes r.0 in
      if_either Staged (length bytes == 0 || ltb c.max_payload (length bytes))
        (sym (append-nil p.queue))
        (if_either Staged (leb c.queue_depth (length p.queue)) (sym (append-nil p.queue)) refl)

  -- What a pipe's round takes from the queue.
  Took : Bool → List (List ℕ) → Option Written × ReplyPipe → Type 0
  Took accepts queue r = queue ≡ left accepts r.0 ++ r.1.queue

  idle_written-Took :
      (accepts : Bool) (r : Option ℕ × ReplyPipe) → Took accepts r.1.queue (idle_written accepts r)
  unfolding idle_written Took
  idle_written-Took accepts (none, q) = refl
  idle_written-Took accepts (some slot, q) =
      if_either (Took accepts q.queue) (length (idle_at q slot).bytes == 0) refl refl

  fresh_at-queue : (p : ReplyPipe) (o : Option ℕ) → (fresh_at p o).1.queue ≡ p.queue
  unfolding fresh_at
  fresh_at-queue p none = refl
  fresh_at-queue p (some slot) =
      if_either (λ (r : Option ℕ × ReplyPipe). r.1.queue ≡ p.queue) _ refl refl

  write_idle_reply-Took :
      (accepts : Bool) (p : ReplyPipe) → Took accepts p.queue (write_idle_reply accepts p)
  unfolding write_idle_reply fresh_idle_reply Took
  write_idle_reply-Took accepts p =
      sym (fresh_at-queue p (peek p.idle_latch)) ∙ idle_written-Took accepts (fresh_idle_reply p)

  write_pending_control-left :
      (accepts : Bool) (ks : List ControlLatch)
      → left accepts (write_pending_control accepts ks).0 ≡ []
  unfolding write_pending_control control_round
  write_pending_control-left accepts [] = refl
  write_pending_control-left accepts (k ∷ ks) =
      round (peek k.latch) (write_pending_control-left accepts ks)
    where
      round :
          (o : Option ℕ)
          → left accepts (write_pending_control accepts ks).0 ≡ []
          → left accepts (control_round accepts k ks (write_pending_control accepts ks) o).0 ≡ []
      round none h = h
      round (some slot) h = refl

  write_queued_replies-left :
      (accepts : Bool) (queue : List (List ℕ))
      → queue
        ≡ left accepts (write_queued_replies c accepts queue).0
          ++ (write_queued_replies c accepts queue).1
  unfolding write_queued_replies
  write_queued_replies-left accepts [] = refl
  write_queued_replies-left true (packet ∷ rest) =
      if_either (λ (r : Option Written × List (List ℕ)). packet ∷ rest ≡ left true r.0 ++ r.1)
        (ltb c.max_payload (length packet)) refl refl
  write_queued_replies-left false (packet ∷ rest) =
      if_either (λ (r : Option Written × List (List ℕ)). packet ∷ rest ≡ left false r.0 ++ r.1)
        (ltb c.max_payload (length packet)) refl refl

  serve_queued-Took :
      (accepts : Bool) (p : ReplyPipe) (r : Option Written × List (List ℕ))
      → p.queue ≡ left accepts r.0 ++ r.1
      → Took accepts p.queue (serve_queued accepts p r)
  unfolding serve_queued Took
  serve_queued-Took accepts p (none, queue) h = write_idle_reply-Took accepts p
  serve_queued-Took accepts p (some w, queue) h = h

  serve_control-Took :
      (accepts : Bool) (p : ReplyPipe) (r : Option Written × List ControlLatch)
      → left accepts r.0 ≡ []
      → Took accepts p.queue (serve_control c accepts p r)
  unfolding serve_control Took
  serve_control-Took accepts p (none, controls) h =
      serve_queued-Took accepts p (write_queued_replies c accepts p.queue)
        (write_queued_replies-left accepts p.queue)
  serve_control-Took accepts p (some w, controls) h =
      sym (ap (λ (l : List (List ℕ)). l ++ p.queue) h)

  -- Over any run of calls, with the radio taking or refusing each write, the replies that left and
  -- those still queued are those queued before and those staged by a call that answered 0, in the
  -- order they were staged and each once.
  pub run-queue :
      (steps : List ReplyStep) (p : ReplyPipe)
      → p.queue ++ (run c steps p).0 ≡ (run c steps p).1 ++ (run c steps p).2.queue
  unfolding run Took serve_pipe
  run-queue [] p = append-nil p.queue
  run-queue (with_control kind bytes ∷ steps) p =
      ap (λ (q : List (List ℕ)). q ++ (run c steps (latch_control c kind bytes p).1).0)
        (sym (latch_control-queue kind bytes p))
      ∙ run-queue steps (latch_control c kind bytes p).1
  run-queue (with_idle bytes ∷ steps) p =
      ap (λ (q : List (List ℕ)). q ++ (run c steps (latch_idle_reply c bytes p).1).0)
        (sym (latch_idle_reply-queue bytes p))
      ∙ run-queue steps (latch_idle_reply c bytes p).1
  run-queue (with_reply bytes ∷ steps) p =
      let r = stage_reply c bytes p in
      sym (append_assoc p.queue (staged_by bytes r.0) _)
      ∙ (ap (λ (q : List (List ℕ)). q ++ (run c steps r.1).0) (sym (stage_reply-queue bytes p))
          ∙ run-queue steps r.1)
  run-queue (served accepts ∷ steps) p =
      let r = serve_pipe c accepts p in
      let took : Took accepts p.queue r =
        serve_control-Took accepts p (write_pending_control accepts p.controls)
          (write_pending_control-left accepts p.controls) in
      ap (λ (q : List (List ℕ)). q ++ (run c steps r.1).0) took
      ∙ (append_assoc (left accepts r.0) r.1.queue _
          ∙ (ap (λ (q : List (List ℕ)). left accepts r.0 ++ q) (run-queue steps r.1)
              ∙ sym (append_assoc (left accepts r.0) _ _)))

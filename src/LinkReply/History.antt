-- ===== src/LinkReply/History.antt =====
-- src/esb_link_central.c: what becomes of an idle reply, and of the count of staged replies, over the
-- calls behind its latching.
use zmk_feature_split_esb.Prelude.{
  ℕ, ◌+◌, ◌%◌, ◌^◌, ◌≤◌, ◌<◌, ◌≡◌, refl, ◌∙◌, ap, ◌⊎◌, inl, inr, Bool, true, false, ◌||◌, not, ltb,
  leb, ◌==◌, Option, none, some, List, [], ◌∷◌, ◌++◌, length, length-append, get_or, set,
  get_or-set, if_true, All, arith, if_either, if_split,
}
use mathlib.Core.Path.{subst}
use zmk_feature_split_esb.SpscLatch.{SpscLatch, claim, publish, peek, release}
use zmk_feature_split_esb.LinkReply.{
  ReplyConfig, ControlLatch, IdleReply, ReplyPipe, ReplyError, latch_control, stage_reply,
  latch_idle_reply, Written, released, write_pending_control, write_queued_replies, idle_at,
  fresh_at, fresh_idle_reply, idle_written, write_idle_reply, serve_queued, serve_control,
  serve_pipe,
}
use zmk_feature_split_esb.LinkReply.Order.{
  ReplyStep, with_control, with_reply, with_idle, served, staged_by, run, run-queue,
}

-- A call that leaves the idle reply as it is, or empties its latch.
record Spares (p q : ReplyPipe) : Type 0 where
  pool : q.idle_pool ≡ p.idle_pool
  count : q.replies_staged ≡ p.replies_staged
  latch : (q.idle_latch ≡ p.idle_latch) ⊎ (peek q.idle_latch ≡ none)

unchanged : (p : ReplyPipe) → Spares p p
unchanged p = record { pool = refl; count = refl; latch = inl refl }

composed : {p q r : ReplyPipe} → Spares p q → Spares q r → Spares p r
composed v w = record {
  pool = w.pool ∙ v.pool;
  count = w.count ∙ v.count;
  latch = elim w.latch [
    | inr e ↦ inr e
    | inl same ↦ elim v.latch [ inl e ↦ inl (same ∙ e) | inr e ↦ inr (ap peek same ∙ e) ]
  ];
}

release-latch :
    (latch : SpscLatch) (slot : ℕ)
    → ((release latch slot).1 ≡ latch) ⊎ (peek (release latch slot).1 ≡ none)
unfolding release peek
release-latch latch slot =
    if_either (λ (r : Bool × SpscLatch). (r.1 ≡ latch) ⊎ (peek r.1 ≡ none)) _ (inr refl) (inl refl)

released-latch :
    (accepts : Bool) (latch : SpscLatch) (slot : ℕ)
    → (released accepts latch slot ≡ latch) ⊎ (peek (released accepts latch slot) ≡ none)
released-latch true latch slot = release-latch latch slot
released-latch false latch slot = inl refl

fresh_at-Spares : (p : ReplyPipe) (o : Option ℕ) → Spares p (fresh_at p o).1
unfolding fresh_at
fresh_at-Spares p none = unchanged p
fresh_at-Spares p (some slot) =
    if_either (λ (r : Option ℕ × ReplyPipe). Spares p r.1)
      (not ((idle_at p slot).replies_staged == p.replies_staged))
      {a = (none, record p { idle_latch = (release p.idle_latch slot).1 })}
      (record { pool = refl; count = refl; latch = release-latch p.idle_latch slot }) (unchanged p)

idle_written-Spares :
    (accepts : Bool) (r : Option ℕ × ReplyPipe) → Spares r.1 (idle_written accepts r).1
unfolding idle_written
idle_written-Spares accepts (none, q) = unchanged q
idle_written-Spares accepts (some slot, q) =
    if_either (λ (r : Option Written × ReplyPipe). Spares q r.1)
      (length (idle_at q slot).bytes == 0) (unchanged q)
      (record { pool = refl; count = refl; latch = released-latch accepts q.idle_latch slot })

serve_queued-Spares :
    (accepts : Bool) (p : ReplyPipe) (r : Option Written × List (List ℕ))
    → Spares p (serve_queued accepts p r).1
unfolding serve_queued write_idle_reply fresh_idle_reply
serve_queued-Spares accepts p (some w, queue) = record {
  pool = refl;
  count = refl;
  latch = inl refl;
}
serve_queued-Spares accepts p (none, queue) =
    composed (fresh_at-Spares p (peek p.idle_latch))
      (idle_written-Spares accepts (fresh_at p (peek p.idle_latch)))

-- The call latches no idle reply.
abbrev pub NoIdle : ReplyStep → Type 0
NoIdle (with_idle bytes) = false ≡ true
NoIdle (with_control kind bytes) = Unit
NoIdle (with_reply bytes) = Unit
NoIdle (served accepts) = Unit

module _ (c : ReplyConfig) where
  serve_control-Spares :
      (accepts : Bool) (p : ReplyPipe) (r : Option Written × List ControlLatch)
      → Spares p (serve_control c accepts p r).1
  unfolding serve_control
  serve_control-Spares accepts p (some w, controls) = record {
    pool = refl;
    count = refl;
    latch = inl refl;
  }
  serve_control-Spares accepts p (none, controls) =
      serve_queued-Spares accepts p (write_queued_replies c accepts p.queue)

  latch_control-Spares :
      (kind : ℕ) (bytes : List ℕ) (p : ReplyPipe) → Spares p (latch_control c kind bytes p).1
  unfolding latch_control
  latch_control-Spares kind bytes p =
      let P = λ (r : Option ReplyError × ReplyPipe). Spares p r.1 in
      if_either P (leb (length p.controls) kind) (unchanged p) (
        if_either P (length bytes == 0 || ltb c.control_max_length (length bytes)) (unchanged p)
          (record { pool = refl; count = refl; latch = inl refl }))

  -- `latched` is in slot `slot` or out of the latch, and `staged` replies were staged since.
  pub record IsSince (latched : IdleReply) (slot staged : ℕ) (p : ReplyPipe) : Type 0 where
    pub count : p.replies_staged ≡ (latched.replies_staged + staged) % 2 ^ 32
    pub waits :
        (peek p.idle_latch ≡ none) ⊎ ((peek p.idle_latch ≡ some slot) × (idle_at p slot ≡ latched))

  module _ (latched : IdleReply) (slot : ℕ) where
    spared :
        {p q : ReplyPipe} (staged : ℕ)
        → Spares p q
        → IsSince latched slot staged p
        → IsSince latched slot staged q
    spared staged v w = record {
      count = v.count ∙ w.count;
      waits = elim v.latch [
        | inr e ↦ inl e
        | inl same ↦ elim w.waits [
          | inl e ↦ inl (ap peek same ∙ e)
          | inr (e, there) ↦ inr (
            ap peek same ∙ e,
            ap (λ pool. get_or pool slot (record { bytes = []; replies_staged = 0 })) v.pool
                ∙ there,
          )
        ]
      ];
    }

    stage_reply-IsSince :
        (bytes : List ℕ) (staged : ℕ) (p : ReplyPipe)
        → IsSince latched slot staged p
        → let r = stage_reply c bytes p in
          IsSince latched slot (staged + length (staged_by bytes r.0)) r.1
    unfolding stage_reply
    stage_reply-IsSince bytes staged p v =
        let P = λ (r : Option ReplyError × ReplyPipe).
          IsSince latched slot (staged + length (staged_by bytes r.0)) r.1 in
        let refused : IsSince latched slot (staged + 0) p =
          subst (λ n. IsSince latched slot n p) (omega arith) v in
        if_either P (length bytes == 0 || ltb c.max_payload (length bytes)) refused (
          if_either P (leb c.queue_depth (length p.queue)) refused
            (record { count = omega (arith, v.count); waits = v.waits }))

    pub run-IsSince :
        (steps : List ReplyStep) (staged : ℕ) (p : ReplyPipe)
        → All NoIdle steps
        → IsSince latched slot staged p
        → IsSince latched slot (staged + length (run c steps p).0) (run c steps p).2
    unfolding run serve_pipe
    run-IsSince [] staged p h v = subst (λ n. IsSince latched slot n p) (omega arith) v
    run-IsSince (with_control kind bytes ∷ steps) staged p (_, h) v =
        run-IsSince steps staged _ h (spared staged (latch_control-Spares kind bytes p) v)
    run-IsSince (with_idle bytes ∷ steps) staged p (n, h) v = absurd (cc)
    run-IsSince (with_reply bytes ∷ steps) staged p (_, h) v =
        let (error, q) = stage_reply c bytes p in
        let rest =
          run-IsSince steps (staged + length (staged_by bytes error)) q h
            (stage_reply-IsSince bytes staged p v) in
        subst (λ n. IsSince latched slot n (run c steps q).2)
          (omega (arith, length-append (staged_by bytes error) (run c steps q).0)) rest
    run-IsSince (served accepts ∷ steps) staged p (_, h) v = run-IsSince steps staged _ h (
        spared staged (serve_control-Spares accepts p (write_pending_control accepts p.controls)) v)

  -- A call that latches an idle reply, in a pool that has the slot, starts the count.
  pub latch_idle_reply-IsSince :
      (bytes : List ℕ) (p : ReplyPipe)
      → (claim p.idle_latch).0 < length p.idle_pool
      → p.replies_staged < 2 ^ 32
      → (latch_idle_reply c bytes p).0 ≡ none
      → IsSince
          (record { bytes = bytes; replies_staged = p.replies_staged })
          (claim p.idle_latch).0
          0
          (latch_idle_reply c bytes p).1
  unfolding latch_idle_reply publish peek
  latch_idle_reply-IsSince bytes p there small h =
      let latched : IdleReply = record { bytes = bytes; replies_staged = p.replies_staged } in
      let slot = (claim p.idle_latch).0 in
      let found : get_or (set p.idle_pool slot latched) slot
            (record { bytes = []; replies_staged = 0 })
          ≡ latched =
        get_or-set p.idle_pool slot slot latched _ there
        ∙ if_true {test = slot == slot} latched _ (ground arith) in
      if_split (λ (r : Option ReplyError × ReplyPipe). r.0 ≡ none → IsSince latched slot 0 r.1)
        (length bytes == 0 || ltb c.max_payload (length bytes)) (λ _ e. absurd (cc))
        (λ _ _. record { count = omega (arith, small); waits = inr (refl, found) }) h

  -- The payload has room for every packet.
  abbrev pub AllFit : List (List ℕ) → Type 0
  AllFit queue = All (λ packet. length packet ≤ c.max_payload) queue

  fit_append : (queue more : List (List ℕ)) → AllFit queue → AllFit more → AllFit (queue ++ more)
  fit_append [] more h k = k
  fit_append (packet ∷ queue) more (f, h) k = (f, fit_append queue more h k)

  fit_rest : (gone rest : List (List ℕ)) → AllFit (gone ++ rest) → AllFit rest
  fit_rest [] rest h = h
  fit_rest (packet ∷ gone) rest (_, h) = fit_rest gone rest h

  stage_reply-fit :
      (bytes : List ℕ) (p : ReplyPipe) → AllFit (staged_by bytes (stage_reply c bytes p).0)
  unfolding stage_reply
  stage_reply-fit bytes p =
      let P = λ (r : Option ReplyError × ReplyPipe). AllFit (staged_by bytes r.0) in
      if_split P (length bytes == 0 || ltb c.max_payload (length bytes)) (λ _. tt)
        (λ e. if_either P (leb c.queue_depth (length p.queue)) tt (ground (arith, e), tt))

  staged-fit : (steps : List ReplyStep) (p : ReplyPipe) → AllFit (run c steps p).0
  unfolding run
  staged-fit [] p = tt
  staged-fit (with_control kind bytes ∷ steps) p = staged-fit steps _
  staged-fit (with_idle bytes ∷ steps) p = staged-fit steps _
  staged-fit (with_reply bytes ∷ steps) p =
      fit_append (staged_by bytes (stage_reply c bytes p).0) _ (stage_reply-fit bytes p)
        (staged-fit steps (stage_reply c bytes p).1)
  staged-fit (served accepts ∷ steps) p = staged-fit steps _

  -- A run keeps a queue whose replies fit.
  pub run-fits :
      (steps : List ReplyStep) (p : ReplyPipe) → AllFit p.queue → AllFit (run c steps p).2.queue
  run-fits steps p h =
      fit_rest (run c steps p).1 (run c steps p).2.queue
        (subst AllFit (run-queue c steps p) (fit_append p.queue _ h (staged-fit steps p)))

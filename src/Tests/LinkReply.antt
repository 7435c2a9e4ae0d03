-- ===== src/Tests/LinkReply.antt =====
-- src/esb_link_central.c.
use zmk_feature_split_esb.Prelude.{
  ℕ, ◌^◌, ◌<◌, ◌≡◌, refl, true, false, none, some, List, [], ◌∷◌, ◌++◌, length, All, arith,
}
use zmk_feature_split_esb.SpscLatch.{claim, publish, peek}
use zmk_feature_split_esb.LinkReply.{ReplyConfig, ReplyPipe, idle, latch_idle_reply, serve_pipe}
use zmk_feature_split_esb.LinkReply.Order.{
  ReplyStep, with_control, with_reply, served, run, run-queue,
}
use zmk_feature_split_esb.LinkReply.Fresh.{is_idle, is_none, serve_pipe-idle_last}

abbrev reply_config : ReplyConfig
reply_config = record { control_max_length = 20; max_payload = 32; queue_depth = 2 }

-- No reply is queued, and an idle reply is latched that is still fresh.
abbrev reply_pipe : ReplyPipe
reply_pipe = record {
  controls =
      record {
        pool = [] ∷ [] ∷ [];
        latch = record { published = none; next_index = 0; slot_count = 2 };
      }
      ∷ [];
  queue = [];
  idle_pool =
      record { bytes = 5 ∷ []; replies_staged = 3 }
      ∷ record { bytes = []; replies_staged = 0 }
      ∷ [];
  idle_latch = record { published = some 0; next_index = 1; slot_count = 2 };
  replies_staged = 3;
}

run-queue_example :
    reply_pipe.queue
      ++ (run reply_config
          (with_reply (1 ∷ []) ∷ with_control 0 (9 ∷ []) ∷ served false ∷ served true ∷ [])
          reply_pipe).0
    ≡ (run reply_config
        (with_reply (1 ∷ []) ∷ with_control 0 (9 ∷ []) ∷ served false ∷ served true ∷ [])
        reply_pipe).1
      ++ (run reply_config
          (with_reply (1 ∷ []) ∷ with_control 0 (9 ∷ []) ∷ served false ∷ served true ∷ [])
          reply_pipe).2.queue
run-queue_example =
    run-queue reply_config
      (with_reply (1 ∷ []) ∷ with_control 0 (9 ∷ []) ∷ served false ∷ served true ∷ []) reply_pipe

-- The pipe before its idle reply is latched, and a packet whose ACK the radio refuses to load.
abbrev waiting : ReplyPipe
waiting = record reply_pipe {
  idle_latch = record { published = none; next_index = 0; slot_count = 2 };
}

abbrev calls : List ReplyStep
calls = with_control 0 [] ∷ served false ∷ []

abbrev after_calls : List (List ℕ) × List (List ℕ) × ReplyPipe
after_calls = run reply_config calls (latch_idle_reply reply_config (6 ∷ []) waiting).1

latched_now : (latch_idle_reply reply_config (6 ∷ []) waiting).0 ≡ none
unfolding latch_idle_reply
latched_now = refl

few_staged : length after_calls.0 < 2 ^ 32
unfolding run
few_staged = omega arith

idle_leaves : is_idle (serve_pipe reply_config true after_calls.2).0 ≡ true
unfolding run serve_pipe peek claim publish
idle_leaves = refl

slot_there : (claim waiting.idle_latch).0 < 2
unfolding claim
slot_there = omega arith

serve_pipe-idle_last_example :
    ((serve_pipe reply_config true after_calls.2).0 ≡ some (idle (6 ∷ [])))
    × (after_calls.0 ≡ [])
    × (after_calls.2.queue ≡ [])
    × All (λ k. is_none (peek k.latch) ≡ true) after_calls.2.controls
serve_pipe-idle_last_example =
    serve_pipe-idle_last reply_config true (6 ∷ []) calls waiting slot_there (omega arith) tt
      latched_now (tt, (tt, tt)) few_staged idle_leaves

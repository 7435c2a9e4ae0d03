-- ===== src/LinkReply.antt =====
-- src/esb_link_central.c: the replies that leave with an ACK, for a pipe that is no relay: the control
-- latches, the queue of staged replies and the idle reply. `accepts` says whether `esb_write_payload`
-- of the radio's library takes the payload.
pub mod Order
pub mod History
pub mod Fresh
use zmk_feature_split_esb.Prelude.{
  ℕ, zero, suc, ◌+◌, ◌%◌, ◌^◌, Bool, true, false, ◌||◌, not, ltb, leb, ◌==◌, if◌then◌else◌, Option,
  none, some, List, [], ◌∷◌, ◌++◌, length, get_or, set,
}
use zmk_feature_split_esb.Prelude.Bits.{test_bit}
use zmk_feature_split_esb.SpscLatch.{SpscLatch, claim, publish, peek, release}

-- ESB_LINK_CONTROL_MAX_LENGTH, CONFIG_ZMK_SPLIT_ESB_MAX_PAYLOAD and the pipe's reply-queue-depth.
pub record ReplyConfig : Type 0 where
  pub control_max_length : ℕ
  pub max_payload : ℕ
  pub queue_depth : ℕ

pub record ControlLatch : Type 0 where
  pub pool : List (List ℕ)
  pub latch : SpscLatch

pub record IdleReply : Type 0 where
  pub bytes : List ℕ
  pub replies_staged : ℕ

-- What the arrays hold for one pipe; a control latch for each kind.
pub record ReplyPipe : Type 0 where
  pub controls : List ControlLatch
  pub queue : List (List ℕ)
  pub idle_pool : List IdleReply
  pub idle_latch : SpscLatch
  pub replies_staged : ℕ

-- EINVAL, EMSGSIZE and ENOBUFS.
pub data ReplyError : Type 0 where
  invalid message_size no_buffers : ReplyError

abbrev pub no_control : ControlLatch
no_control = record {
  pool = [];
  latch = record { published = none; next_index = 0; slot_count = 0 };
}

unfoldable pub latch_control : ReplyConfig → ℕ → List ℕ → ReplyPipe → Option ReplyError × ReplyPipe
latch_control c kind bytes p =
    let control = get_or p.controls kind no_control in
    let (index, claimed) = claim control.latch in
    if leb (length p.controls) kind
    then (some invalid, p)
    else if length bytes == 0 || ltb c.control_max_length (length bytes)
    then (some message_size, p)
    else (
      none,
      record p {
        controls =
            set p.controls kind
              (record { pool = set control.pool index bytes; latch = publish claimed index });
      },
    )

unfoldable pub stage_reply : ReplyConfig → List ℕ → ReplyPipe → Option ReplyError × ReplyPipe
stage_reply c bytes p =
    if length bytes == 0 || ltb c.max_payload (length bytes)
    then (some message_size, p)
    else if leb c.queue_depth (length p.queue)
    then (some no_buffers, p)
    else (
      none,
      record p {
        queue = p.queue ++ (bytes ∷ []);
        replies_staged = (p.replies_staged + 1) % 2 ^ 32;
      },
    )

unfoldable pub latch_idle_reply : ReplyConfig → List ℕ → ReplyPipe → Option ReplyError × ReplyPipe
latch_idle_reply c bytes p =
    let (index, claimed) = claim p.idle_latch in
    if length bytes == 0 || ltb c.max_payload (length bytes) then (some message_size, p) else (
      none,
      record p {
        idle_pool =
            set p.idle_pool index (record { bytes = bytes; replies_staged = p.replies_staged });
        idle_latch = publish claimed index;
      },
    )

-- What a write hands to the radio, by where it comes from.
pub data Written : Type 0 where
  control reply idle : List ℕ → Written

abbrev pub released : Bool → SpscLatch → ℕ → SpscLatch
released accepts latch slot = if accepts then (release latch slot).1 else latch

-- A round of the loop over the kinds, with what the other kinds give.
unfoldable pub control_round :
    Bool
    → ControlLatch
    → List ControlLatch
    → Option Written × List ControlLatch
    → Option ℕ
    → Option Written × List ControlLatch
control_round accepts k ks others none = (others.0, k ∷ others.1)
control_round accepts k ks others (some slot) = (
  some (control (get_or k.pool slot [])),
  record k { latch = released accepts k.latch slot } ∷ ks,
)

-- The loop over the kinds, and the latches behind it; `none` where none is pending.
unfoldable pub write_pending_control : Bool → List ControlLatch → Option Written × List ControlLatch
unfolding control_round
write_pending_control accepts [] = (none, [])
write_pending_control accepts (k ∷ ks) =
    control_round accepts k ks (write_pending_control accepts ks) (peek k.latch)

unfoldable pub write_queued_replies :
    ReplyConfig → Bool → List (List ℕ) → Option Written × List (List ℕ)
write_queued_replies c accepts [] = (none, [])
write_queued_replies c accepts (packet ∷ rest) =
    if ltb c.max_payload (length packet)
    then (none, packet ∷ rest)
    else (some (reply packet), if accepts then rest else packet ∷ rest)

abbrev pub idle_at : ReplyPipe → ℕ → IdleReply
idle_at p slot = get_or p.idle_pool slot (record { bytes = []; replies_staged = 0 })

unfoldable pub fresh_at : ReplyPipe → Option ℕ → Option ℕ × ReplyPipe
fresh_at p none = (none, p)
fresh_at p (some slot) =
    if not ((idle_at p slot).replies_staged == p.replies_staged)
    then (none, record p { idle_latch = (release p.idle_latch slot).1 })
    else (some slot, p)

-- A reply staged since then makes the idle reply stale; `none` where there is none or a stale one.
unfoldable pub fresh_idle_reply : ReplyPipe → Option ℕ × ReplyPipe
unfolding fresh_at
fresh_idle_reply p = fresh_at p (peek p.idle_latch)

unfoldable pub idle_written : Bool → Option ℕ × ReplyPipe → Option Written × ReplyPipe
idle_written accepts (none, q) = (none, q)
idle_written accepts (some slot, q) = if length (idle_at q slot).bytes == 0 then (none, q) else (
  some (idle (idle_at q slot).bytes),
  record q { idle_latch = released accepts q.idle_latch slot },
)

unfoldable pub write_idle_reply : Bool → ReplyPipe → Option Written × ReplyPipe
unfolding fresh_idle_reply idle_written
write_idle_reply accepts p = idle_written accepts (fresh_idle_reply p)

-- A round of `esb_link_role_rx_done`, for a pipe that asked for an ACK, from the queue on.
unfoldable pub serve_queued :
    Bool → ReplyPipe → Option Written × List (List ℕ) → Option Written × ReplyPipe
unfolding write_idle_reply
serve_queued accepts p (some w, queue) = (some w, record p { queue = queue })
serve_queued accepts p (none, queue) = write_idle_reply accepts p

unfoldable pub serve_control :
    ReplyConfig → Bool → ReplyPipe → Option Written × List ControlLatch → Option Written × ReplyPipe
unfolding write_queued_replies serve_queued
serve_control c accepts p (some w, controls) = (some w, record p { controls = controls })
serve_control c accepts p (none, controls) =
    serve_queued accepts p (write_queued_replies c accepts p.queue)

-- The whole round: a control packet first, then a queued reply, then the idle reply.
unfoldable pub serve_pipe : ReplyConfig → Bool → ReplyPipe → Option Written × ReplyPipe
unfolding write_pending_control serve_control
serve_pipe c accepts p = serve_control c accepts p (write_pending_control accepts p.controls)

abbrev pub written_list : Option Written → List Written
written_list none = []
written_list (some w) = w ∷ []

-- The three calls guard against a pipe beyond the array.
unfoldable pub at_pipe :
    ℕ
    → (ReplyPipe → Option ReplyError × ReplyPipe)
    → List ReplyPipe
    → Option ReplyError × List ReplyPipe
at_pipe pipe call [] = (some invalid, [])
at_pipe zero call (p ∷ ps) = let (error, q) = call p in (error, q ∷ ps)
at_pipe (suc pipe) call (p ∷ ps) = let (error, rest) = at_pipe pipe call ps in (error, p ∷ rest)

-- `esb_link_role_rx_done` over the pipes from `pipe` on: the writes, in their order.
unfoldable pub role_rx_done :
    ReplyConfig → ℕ → (ℕ → Bool) → ℕ → List ReplyPipe → List Written × List ReplyPipe
unfolding serve_pipe
role_rx_done c pipes_acked accepts pipe [] = ([], [])
role_rx_done c pipes_acked accepts pipe (p ∷ ps) =
    let (rest, after) = role_rx_done c pipes_acked accepts (suc pipe) ps in
    let (written, q) = serve_pipe c (accepts pipe) p in
    if not (test_bit pipes_acked pipe)
    then (rest, p ∷ after)
    else (written_list written ++ rest, q ∷ after)

-- ===== src/LinkPeripheral/Restarts.antt =====
-- src/esb_link_peripheral.c and src/esb_link.c: a failed packet is sent again, but not for ever.
use zmk_feature_split_esb.Prelude.{
  ℕ, ◌+◌, ◌-◌, ◌<◌, Bool, true, false, not, leb, ◌||◌, if◌then◌else◌, List, [], ◌∷◌,
}

-- ESB_LINK_TX_RESTARTS_MAX
abbrev pub restarts_max : ℕ
restarts_max = 2

-- `esb_link_role_retry_failed_tx` after its retune, on `tx_restarts`: whether the packet at the head of
-- the FIFO is sent again. `acked` is `hop_link_acked`.
unfoldable pub retry_failed_tx : Bool → ℕ → Bool × ℕ
retry_failed_tx acked tx_restarts =
    if not acked || leb restarts_max tx_restarts then (false, 0) else (true, tx_restarts + 1)

-- What the radio's interrupt reports of a transmission, and the stop of the link.
pub data TxEvent : Type 0 where
  tx_success : TxEvent
  tx_failed : Bool → TxEvent
  link_stop : TxEvent

-- What becomes of the packets in the FIFO: the head is sent again, all are flushed, or nothing.
pub data FifoAction : Type 0 where
  restart flush_fifo keep_fifo : FifoAction

abbrev pub on_failed : Bool × ℕ → FifoAction × ℕ
on_failed (true, restarts) = (restart, restarts)
on_failed (false, restarts) = (flush_fifo, restarts)

-- The cases of `on_esb_event` for transmissions, and `esb_link_role_stop` before a flush.
unfoldable pub on_tx_event : TxEvent → ℕ → FifoAction × ℕ
unfolding retry_failed_tx
on_tx_event tx_success tx_restarts = (keep_fifo, 0)
on_tx_event (tx_failed acked) tx_restarts = on_failed (retry_failed_tx acked tx_restarts)
on_tx_event link_stop tx_restarts = (flush_fifo, 0)

unfoldable pub actions : List TxEvent → ℕ → List FifoAction
unfolding on_tx_event
actions [] tx_restarts = []
actions (e ∷ es) tx_restarts =
    let (action, next) = on_tx_event e tx_restarts in action ∷ actions es next

-- No more than `n` restarts stand at the front, and nowhere more than `restarts_max` in a row.
abbrev pub IsBounded : ℕ → List FifoAction → Type 0
IsBounded n [] = Unit
IsBounded n (restart ∷ rest) = (0 < n) × IsBounded (n - 1) rest
IsBounded n (flush_fifo ∷ rest) = IsBounded restarts_max rest
IsBounded n (keep_fifo ∷ rest) = IsBounded restarts_max rest

-- ===== src/PeripheralCore/Commands.antt =====
-- src/peripheral.c: the queue of the central's commands.
use mathlib.Core.List.{append_assoc, append-nil}
use zmk_feature_split_esb.Prelude.{
  ℕ, suc, ◌≡◌, refl, sym, ◌∙◌, ap, Bool, true, false, ◌&&◌, not, ltb, if_either, if_split, if_true,
  if_false, ◌⊎◌, inl, inr, length-append, arith, ◌==◌, if◌then◌else◌, List, [], ◌∷◌, ◌++◌, length,
}

-- `peripheral_command_msgq`, and whether its work is submitted.
pub record Commands : Type 0 where
  pub queue : List (List ℕ)
  pub submitted : Bool

pub data Command : Type 0 where
  deliver : List ℕ → Command
  work : Command

-- Commands that wait are never forgotten: their work is submitted.
abbrev pub IsAwake : Commands → Type 0
IsAwake c = c.submitted ≡ false → c.queue ≡ []

-- A command is the bytes of the struct, `command_size` of them; the queue takes `queue_size`.
module _ (command_size queue_size : ℕ) where
  unfoldable pub deliver_command : List ℕ → Commands → Commands
  deliver_command bytes c =
      if not (length bytes == command_size)
      then c
      else if ltb (length c.queue) queue_size
      then record { queue = c.queue ++ (bytes ∷ []); submitted = true }
      else c

  -- The work drains the queue: what ZMK's handler is called with. Without a transport the commands
  -- are dropped.
  unfoldable pub command_work : Bool → Commands → List (List ℕ) × Commands
  command_work has_transport c =
      (if has_transport then c.queue else [], record { queue = []; submitted = false })

  -- What the handler is called with over a run, and the queue after it.
  unfoldable pub run : List Command → Commands → List (List ℕ) × Commands
  unfolding deliver_command command_work
  run [] c = ([], c)
  run (deliver bytes ∷ steps) c = run steps (deliver_command bytes c)
  run (work ∷ steps) c =
      let (handled, after) = command_work true c in
      let (later, last) = run steps after in (handled ++ later, last)

  -- The commands of a run that the queue takes: those of the size of a command that come while fewer
  -- than `queue_size` wait.
  unfoldable pub accepted : List Command → ℕ → List (List ℕ)
  accepted [] waiting = []
  accepted (deliver bytes ∷ steps) waiting =
      let taken = accepted steps (suc waiting) in
      let dropped = accepted steps waiting in
      if length bytes == command_size && ltb waiting queue_size then bytes ∷ taken else dropped
  accepted (work ∷ steps) waiting = accepted steps 0

  deliver_command-IsAwake :
      (bytes : List ℕ) (c : Commands) → IsAwake c → IsAwake (deliver_command bytes c)
  unfolding deliver_command
  deliver_command-IsAwake bytes c h = if_either IsAwake (not (length bytes == command_size)) h (
      if_either IsAwake (ltb (length c.queue) queue_size)
        {a = record { queue = c.queue ++ (bytes ∷ []); submitted = true }} (λ e. absurd (cc)) h)

  not_taken :
      (bytes : List ℕ) (queue : List (List ℕ))
      → (not (length bytes == command_size) ≡ true) ⊎ (ltb (length queue) queue_size ≡ false)
      → (length bytes == command_size && ltb (length queue) queue_size) ≡ false
  not_taken bytes queue (inl e) = ground (arith, e)
  not_taken bytes queue (inr e) = ground (arith, e)

  taken :
      (bytes : List ℕ) (queue : List (List ℕ))
      → not (length bytes == command_size) ≡ false
      → ltb (length queue) queue_size ≡ true
      → (length bytes == command_size && ltb (length queue) queue_size) ≡ true
  taken bytes queue e f = ground (arith, e, f)

  abbrev IsNext : List ℕ → List Command → Commands → Commands → Type 0
  IsNext bytes steps c next =
      let (handled, after) = run steps next in
      (handled ++ after.queue ≡ c.queue ++ accepted (deliver bytes ∷ steps) (length c.queue))
      × IsAwake after

  -- What the handler has been called with, and then what still waits, is what waited before and the
  -- commands that the queue took, in order and each once, whatever comes in and whenever the work
  -- runs; and a run that starts with the work submitted for what waits ends so.
  pub run-accepted :
      (steps : List Command) (c : Commands)
      → IsAwake c
      → let (handled, after) = run steps c in
        (handled ++ after.queue ≡ c.queue ++ accepted steps (length c.queue)) × IsAwake after
  unfolding run accepted
  run-accepted [] c h = (sym (append-nil c.queue), h)
  run-accepted (deliver bytes ∷ steps) c h =
      let noted : Commands = record { queue = c.queue ++ (bytes ∷ []); submitted = true } in
      let (kept_queue, kept) = run-accepted steps c h in
      let (noted_queue, awake) = run-accepted steps noted (λ e. absurd (cc)) in
      if_split (IsNext bytes steps c) (not (length bytes == command_size))
        (λ e. (
          kept_queue
              ∙ ap (λ l. c.queue ++ l) (sym (if_false _ _ (not_taken bytes c.queue (inl e)))),
          kept,
        ))
        (λ e.
          if_split (IsNext bytes steps c) (ltb (length c.queue) queue_size)
            (λ room. (
              noted_queue
                  ∙ append_assoc c.queue (bytes ∷ []) _
                  ∙ ap (λ n. c.queue ++ (bytes ∷ accepted steps n))
                      (length-append c.queue (bytes ∷ []) ∙ omega arith)
                  ∙ ap (λ l. c.queue ++ l) (sym (if_true _ _ (taken bytes c.queue e room))),
              awake,
            ))
            (λ full. (
              kept_queue
                  ∙ ap (λ l. c.queue ++ l)
                      (sym (if_false _ _ (not_taken bytes c.queue (inr full)))),
              kept,
            )))
  run-accepted (work ∷ steps) c h =
      let (queue, awake) =
        run-accepted steps (record { queue = []; submitted = false }) (λ e. refl) in
      (append_assoc c.queue _ _ ∙ ap (λ l. c.queue ++ l) queue, awake)

-- ===== src/CentralPipes/Shown.antt =====
-- src/central.c: what a listener of the central's events believes.
pub mod Receipts
pub mod Runs
use mathlib.Core.Path.{ap₂, subst}
use zmk_feature_split_esb.Prelude.{
  ℕ, zero, suc, ◌+◌, ◌≤◌, ◌<◌, ◌≡◌, ◌≢◌, refl, sym, ◌∙◌, ap, Bool, true, false, ◌&&◌, not, ltb, leb,
  ◌==◌, if◌then◌else◌, Option, none, some, List, [], ◌∷◌, ◌++◌, length, Bool-cases, inl, inr,
  if_either, if_split, arith,
}
use zmk_feature_split_esb.Prelude.Int.{ℤ}
use zmk_feature_split_esb.ByteOrder.{ByteOrder}
use zmk_feature_split_esb.CentralInput.Reconcile.{release_tables}
use zmk_feature_split_esb.Keepalive.Bitmap.{position_count, key_verdict}
use zmk_feature_split_esb.EventWire.{other_event}
use zmk_feature_split_esb.CentralKeys.{KeyEvent, deliver_verdict, replay_tracked}
use zmk_feature_split_esb.Keepalive.Codec.{
  sensor_total_udeg_at, bitmap_of, battery_level_of, sensor_count_of,
}
use zmk_feature_split_esb.Totals.Sensor.{SensorTrack, sensor_udeg}
use zmk_feature_split_esb.CentralPipes.{
  battery_unknown, Connections, disconnected, some_connected, all_connected, PipeState, Call,
  key_position, rotation, split_event, input_disconnected, battery_changed, peripheral_changed,
  status_changed, key_calls, input_calls,
}
use zmk_feature_split_esb.CentralPipes.Staleness.{
  PipeView, no_positions, release_stale_pipe, peer_active, same_bool, same_connections,
  count_connected, central_connections_status, check_heard, note_connected, check_pipe, check_pipes,
  staleness_work,
}
use zmk_feature_split_esb.CentralPipes.Inbound.{
  ZmkEvents, Inbound, keepalive, event, reconcile_battery, rotation_calls, sensor_delta_value,
  deliver_key, sensors_from, process_keepalive, process_sensor, process_event, process_inbound,
}

-- What was last told of each peripheral, of each battery and of the connections.
pub record Listener : Type 0 where
  pub connected : ℕ → Bool
  pub battery : ℕ → ℕ
  pub status : Connections

abbrev pub hear : Call → Listener → Listener
hear (peripheral_changed pipe connected) v = record v {
  connected = λ k. if k == pipe then connected else v.connected k;
}
hear (battery_changed pipe level) v = record v {
  battery = λ k. if k == pipe then level else v.battery k;
}
hear (status_changed connections) v = record v { status = connections }
hear (key_position e) v = v
hear (rotation source sensor_index val1 val2) v = v
hear (split_event source e) v = v
hear (input_disconnected pipe reg) v = v

abbrev pub hear_all : List Call → Listener → Listener
hear_all [] v = v
hear_all (call ∷ calls) v = hear_all calls (hear call v)

pub hear_all-append :
    (xs ys : List Call) (v : Listener) → hear_all (xs ++ ys) v ≡ hear_all ys (hear_all xs v)
hear_all-append [] ys v = refl
hear_all-append (x ∷ xs) ys v = hear_all-append xs ys (hear x v)

pub key_calls_lem : (es : List KeyEvent) (v : Listener) → hear_all (key_calls es) v ≡ v
key_calls_lem [] v = refl
key_calls_lem (e ∷ es) v = key_calls_lem es v

input_calls_lem : (pipe : ℕ) (regs : List ℕ) (v : Listener) → hear_all (input_calls pipe regs) v ≡ v
input_calls_lem pipe [] v = refl
input_calls_lem pipe (reg ∷ regs) v = input_calls_lem pipe regs v

abbrev pub Shown : ℕ → PipeState → Listener → Type 0
Shown pipe p v = (v.connected pipe ≡ p.connected) × (v.battery pipe ≡ p.battery_level)

-- The calls of a step on a pipe tell its listener of the new state, and nothing of another pipe or of
-- the status.
pub record Tells (pipe : ℕ) (v : Listener) (r : List Call × PipeState) : Type 0 where
  pub own : Shown pipe r.1 (hear_all r.0 v)
  pub others :
      (k : ℕ)
      → k ≢ pipe
      → ((hear_all r.0 v).connected k ≡ v.connected k) × ((hear_all r.0 v).battery k ≡ v.battery k)
  pub same_status : (hear_all r.0 v).status ≡ v.status

-- Calls that a listener does not hear, on a pipe whose shown fields stay.
pub quiet_lem :
    (pipe : ℕ) (v : Listener) (calls : List Call) (p q : PipeState)
    → hear_all calls v ≡ v
    → q.connected ≡ p.connected
    → q.battery_level ≡ p.battery_level
    → Shown pipe p v
    → Tells pipe v (calls, q)
quiet_lem pipe v calls p q silent c b (h, k) = record {
  own = (
    ap (λ (w : Listener). w.connected pipe) silent ∙ h ∙ sym c,
    ap (λ (w : Listener). w.battery pipe) silent ∙ k ∙ sym b,
  );
  others = λ j n.
      (ap (λ (w : Listener). w.connected j) silent, ap (λ (w : Listener). w.battery j) silent);
  same_status = ap (λ (w : Listener). w.status) silent;
}

release_stale_pipe-silent :
    (pipe : ℕ) (p : PipeState) (v : Listener) → hear_all (release_stale_pipe pipe p).0 v ≡ v
unfolding release_stale_pipe
release_stale_pipe-silent pipe p v =
    hear_all-append (key_calls (replay_tracked pipe no_positions p.tracked).0)
      (input_calls pipe (release_tables p.input).0) v
    ∙ ap (hear_all (input_calls pipe (release_tables p.input).0))
        (key_calls_lem (replay_tracked pipe no_positions p.tracked).0 v)
    ∙ input_calls_lem pipe (release_tables p.input).0 v

pub same_bool_eq : (a b : Bool) → same_bool a b ≡ true → a ≡ b
same_bool_eq true b h = sym h
same_bool_eq false true h = cc
same_bool_eq false false h = refl

-- One step after another on the same pipe.
pub Tells-trans :
    (pipe : ℕ) (v : Listener) (a b : List Call) (p q : PipeState)
    → Tells pipe v (a, p)
    → Tells pipe (hear_all a v) (b, q)
    → Tells pipe v (a ++ b, q)
Tells-trans pipe v a b p q t u =
    let e = hear_all-append a b v in
    record {
      own = (
        ap (λ (w : Listener). w.connected pipe) e ∙ u.own.0,
        ap (λ (w : Listener). w.battery pipe) e ∙ u.own.1,
      );
      others = λ k n. (
        ap (λ (w : Listener). w.connected k) e ∙ (u.others k n).0 ∙ (t.others k n).0,
        ap (λ (w : Listener). w.battery k) e ∙ (u.others k n).1 ∙ (t.others k n).1,
      );
      same_status = ap (λ (w : Listener). w.status) e ∙ u.same_status ∙ t.same_status;
    }

module _ (is_self : ℕ → Bool) (peripheral_timeout_ms : ℕ) (view : PipeView) where
  check_heard-Tells :
      (pipe : ℕ) (p : PipeState) (v : Listener)
      → Shown pipe p v
      → Tells pipe v (check_heard is_self peripheral_timeout_ms view pipe p)
  unfolding check_heard release_stale_pipe
  check_heard-Tells pipe p v s =
      let released = release_stale_pipe pipe p in
      if_either (Tells pipe v) (peer_active is_self peripheral_timeout_ms view pipe)
        (quiet_lem pipe v [] p (record p { stale = false }) refl refl refl s)
        (if_either (Tells pipe v) (not p.stale)
          (quiet_lem pipe v released.0 p released.1 (release_stale_pipe-silent pipe p v) refl refl
            s)
          (quiet_lem pipe v [] p p refl refl refl s))

  note_connected-Tells :
      (pipe : ℕ) (p : PipeState) (v : Listener)
      → Shown pipe p v
      → Tells pipe v (note_connected is_self peripheral_timeout_ms view pipe p)
  unfolding note_connected
  note_connected-Tells pipe p v (c, b) =
      let connected = view.heard pipe && not p.stale in
      if_either (Tells pipe v) (not (same_bool connected p.connected))
        {a = (peripheral_changed pipe connected ∷ [], record p { connected = connected })}
        (record {
          own = (ground arith, b);
          others = λ k n. (ground (arith, n), refl);
          same_status = refl;
        })
        (quiet_lem pipe v [] p p refl refl refl (c, b))

  check_pipe-Tells :
      (pipe : ℕ) (p : PipeState) (v : Listener)
      → Shown pipe p v
      → Tells pipe v (check_pipe is_self peripheral_timeout_ms view pipe p)
  unfolding check_pipe
  check_pipe-Tells pipe p v s =
      let r =
        if view.heard pipe
        then check_heard is_self peripheral_timeout_ms view pipe p
        else ([], p) in
      let first : Tells pipe v r =
        if_either (Tells pipe v) (view.heard pipe) (check_heard-Tells pipe p v s)
          (quiet_lem pipe v [] p p refl refl refl s) in
      let t = note_connected is_self peripheral_timeout_ms view pipe r.1 in
      if_either (Tells pipe v) (is_self pipe) (quiet_lem pipe v [] p p refl refl refl s) (
        Tells-trans pipe v r.0 t.0 r.1 t.1 first
          (note_connected-Tells pipe r.1 (hear_all r.0 v) first.own))

-- The listener knows every pipe, from `pipe` on.
abbrev pub AllShown : ℕ → List PipeState → Listener → Type 0
AllShown pipe [] v = Unit
AllShown pipe (p ∷ ps) v = Shown pipe p v × AllShown (suc pipe) ps v

-- Two listeners that agree from `pipe` on.
pub AllShown-agree :
    (pipe : ℕ) (ps : List PipeState) (v w : Listener)
    → ((k : ℕ) → pipe ≤ k → (w.connected k ≡ v.connected k) × (w.battery k ≡ v.battery k))
    → AllShown pipe ps v
    → AllShown pipe ps w
AllShown-agree pipe [] v w h s = tt
AllShown-agree pipe (p ∷ ps) v w h ((c, b), s) =
    let (hc, hb) = h pipe (omega arith) in
    ((hc ∙ c, hb ∙ b), AllShown-agree (suc pipe) ps v w (λ k l. h k (omega arith)) s)

-- What a call on some pipes tells: of those the new state, of the pipes before them nothing.
pub record TellsAll (pipe : ℕ) (v : Listener) (r : List Call × List PipeState) : Type 0 where
  pub all : AllShown pipe r.1 (hear_all r.0 v)
  pub before :
      (k : ℕ)
      → k < pipe
      → ((hear_all r.0 v).connected k ≡ v.connected k) × ((hear_all r.0 v).battery k ≡ v.battery k)
  pub same_status : (hear_all r.0 v).status ≡ v.status

-- A step on the first pipe, and what tells of the rest.
pub TellsAll-cons :
    (pipe : ℕ) (v : Listener) (p : PipeState) (ps : List PipeState) (r : List Call × PipeState)
    (q : List Call × List PipeState)
    → Tells pipe v r
    → TellsAll (suc pipe) (hear_all r.0 v) q
    → TellsAll pipe v (r.0 ++ q.0, r.1 ∷ q.1)
TellsAll-cons pipe v p ps r q t u =
    let e = hear_all-append r.0 q.0 v in
    let (c, b) = u.before pipe (omega arith) in
    record {
      all = subst (AllShown pipe (r.1 ∷ q.1)) (sym e) ((c ∙ t.own.0, b ∙ t.own.1), u.all);
      before = λ k l. (
        ap (λ (w : Listener). w.connected k) e
            ∙ (u.before k (omega arith)).0
            ∙ (t.others k (omega arith)).0,
        ap (λ (w : Listener). w.battery k) e
            ∙ (u.before k (omega arith)).1
            ∙ (t.others k (omega arith)).1,
      );
      same_status = ap (λ (w : Listener). w.status) e ∙ u.same_status ∙ t.same_status;
    }

module _ (is_self : ℕ → Bool) (peripheral_timeout_ms : ℕ) (view : PipeView) where
  pub check_pipes-TellsAll :
      (pipe : ℕ) (ps : List PipeState) (v : Listener)
      → AllShown pipe ps v
      → TellsAll pipe v (check_pipes is_self peripheral_timeout_ms view pipe ps)
  unfolding check_pipes
  check_pipes-TellsAll pipe [] v s = record {
    all = tt;
    before = λ k l. (refl, refl);
    same_status = refl;
  }
  check_pipes-TellsAll pipe (p ∷ ps) v (s, rest) =
      let r = check_pipe is_self peripheral_timeout_ms view pipe p in
      let first = check_pipe-Tells is_self peripheral_timeout_ms view pipe p v s in
      TellsAll-cons pipe v p ps r (check_pipes is_self peripheral_timeout_ms view (suc pipe) ps)
        first
        (check_pipes-TellsAll (suc pipe) ps (hear_all r.0 v) (
          AllShown-agree (suc pipe) ps v (hear_all r.0 v)
            (λ k l. first.others k (λ z. omega (arith, z))) rest))

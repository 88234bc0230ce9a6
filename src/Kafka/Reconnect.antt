-- ===== src/Kafka/Reconnect.antt =====
-- packages/kafka/src/reconnect.ts, `Reconnect`. An attempt is a call of `attempt`, whose end is an
-- event of its own; timers that fire and the calls of `start` and `stop` are events too. Delays are
-- milliseconds.
pub mod Laws
use nodejs_basics.Prelude.{
  ℕ, zero, suc, ◌+◌, ◌-◌, ◌*◌, Bool, true, false, List, [], ◌∷◌, Option, none, some, min,
  if◌then◌else◌,
}

abbrev pub base_ms : ℕ
base_ms = 1000

abbrev pub max_ms : ℕ
max_ms = 30000

-- `timer` is the handle `#timer` while its timer is armed. A later `setTimeout` overwrites the
-- handle: `orphans` counts the timers that are still armed and that `stop` cannot clear any more.
-- `running` counts the attempts in flight, `begun` those made so far, and `reported` holds the
-- delays given to `onRetry`, the latest first.
pub record Reconnect : Type 0 where
  pub delay : ℕ
  pub timer : Option ℕ
  pub orphans : ℕ
  pub stopped : Bool
  pub running : ℕ
  pub begun : ℕ
  pub reported : List ℕ

unfoldable pub new : Reconnect
new = record {
  delay = base_ms;
  timer = none;
  orphans = 0;
  stopped = false;
  running = 0;
  begun = 0;
  reported = [];
}

-- `#run` up to its `await`.
unfoldable pub begin_run : Reconnect → Reconnect
begin_run r = if r.stopped then r else record r { running = r.running + 1; begun = r.begun + 1 }

unfoldable pub start : Reconnect → Reconnect
start r = begin_run r

unfoldable pub stop : Reconnect → Reconnect
stop r = record r { stopped = true; timer = none }

-- What `#timer = setTimeout(…)` leaves behind.
abbrev pub orphaned : Option ℕ → ℕ
orphaned none = 0
orphaned (some _) = 1

-- `#run` after its `await`: the attempt resolved, or it threw.
unfoldable pub attempt_resolved : Reconnect → Reconnect
attempt_resolved r = record r { running = r.running - 1; delay = base_ms }

unfoldable pub attempt_threw : Reconnect → Reconnect
attempt_threw r =
    let ended = record r { running = r.running - 1 } in
    if r.stopped then ended else record ended {
      delay = min (r.delay * 2) max_ms;
      reported = r.delay ∷ r.reported;
      orphans = r.orphans + orphaned r.timer;
      timer = some r.delay;
    }

-- A timer fires: the one of the handle, or an orphan.
unfoldable pub timer_fired : Reconnect → Reconnect
timer_fired r = begin_run (record r { timer = none })

unfoldable pub orphan_fired : Reconnect → Reconnect
orphan_fired r = begin_run (record r { orphans = r.orphans - 1 })

pub data Event : Type 0 where
  starts stops resolves throws fires orphan_fires : Event

-- An event that cannot happen in a state (no attempt in flight, no timer armed) changes nothing.
abbrev when_armed : Option ℕ → Reconnect → Reconnect → Reconnect
when_armed none r s = r
when_armed (some _) r s = s

abbrev when_pos : ℕ → Reconnect → Reconnect → Reconnect
when_pos zero r s = r
when_pos (suc _) r s = s

unfoldable pub step : Reconnect → Event → Reconnect
step r starts = start r
step r stops = stop r
step r resolves = when_pos r.running r (attempt_resolved r)
step r throws = when_pos r.running r (attempt_threw r)
step r fires = when_armed r.timer r (timer_fired r)
step r orphan_fires = when_pos r.orphans r (orphan_fired r)

unfoldable pub run : Reconnect → List Event → Reconnect
run r [] = r
run r (e ∷ es) = run (step r e) es

-- ===== src/Web/Polling/Quiet.antt =====
-- A job view that is gone.
use battle_cloud.Common.{
  ℕ, suc, ◌+◌, ◌≤◌, ◌≡◌, refl, ◌∙◌, arith, false, List, [], ◌∷◌, ◌++◌, Option, Text,
}
use battle_cloud.Json.{Json}
use battle_cloud.Web.Polling.{
  Phase, asking, sleeping, stopped, Poller, Event, replied, timer, unmounted, mounted, moved, step,
  run,
}

-- The requests that a timer still holds.
abbrev pending : Phase → ℕ
pending asking = 0
pending sleeping = 1
pending stopped = 0

record IsQuiet (before after : Poller) : Type 0 where
  dead : after.live ≡ false
  same : after.shown ≡ before.shown
  requests : after.requests + pending after.phase ≤ before.requests + pending before.phase

moved-IsQuiet :
    (display : Option Json → Text) (phase : Phase) (poller : Poller) (event : Event)
    → poller.phase ≡ phase
    → poller.live ≡ false
    → IsQuiet poller (moved display phase poller event)
moved-IsQuiet display phase poller unmounted h k = record {
  dead = refl;
  same = refl;
  requests = omega arith;
}
moved-IsQuiet display asking poller (replied reply) h k =
    rw k (record { dead = refl; same = refl; requests = rw h (omega arith) })
moved-IsQuiet display asking poller timer h k = record {
  dead = k;
  same = refl;
  requests = omega arith;
}
moved-IsQuiet display sleeping poller (replied reply) h k = record {
  dead = k;
  same = refl;
  requests = omega arith;
}
moved-IsQuiet display sleeping poller timer h k = record {
  dead = k;
  same = refl;
  requests = rw h (omega arith);
}
moved-IsQuiet display stopped poller (replied reply) h k = record {
  dead = k;
  same = refl;
  requests = omega arith;
}
moved-IsQuiet display stopped poller timer h k = record {
  dead = k;
  same = refl;
  requests = omega arith;
}

run-IsQuiet :
    (display : Option Json → Text) (poller : Poller) (events : List Event)
    → poller.live ≡ false
    → IsQuiet poller (run display poller events)
unfolding run step
run-IsQuiet display poller [] h = record { dead = h; same = refl; requests = omega arith }
run-IsQuiet display poller (event ∷ events) h =
    let first = moved-IsQuiet display poller.phase poller event refl h in
    let rest = run-IsQuiet display (step display poller event) events first.dead in
    record {
      dead = rest.dead;
      same = rest.same ∙ first.same;
      requests = omega (arith, rest.requests, first.requests);
    }

run-append :
    (display : Option Json → Text) (poller : Poller) (events more : List Event)
    → run display poller (events ++ more) ≡ run display (run display poller events) more
unfolding run
run-append display poller [] more = refl
run-append display poller (event ∷ events) more =
    run-append display (step display poller event) events more

pending_le : (phase : Phase) → pending phase ≤ 1
pending_le asking = omega arith
pending_le sleeping = omega arith
pending_le stopped = omega arith

-- Once the job view is unmounted, whatever comes then leaves what it shows and where it has gone as
-- they were, and at most one more request is made: the one whose timer was set.
pub run-unmounted :
    (display : Option Json → Text) (before after : List Event)
    → (let here : Poller = run display mounted before in
        let later : Poller = run display mounted (before ++ unmounted ∷ after) in
        later.shown ≡ here.shown × later.requests ≤ suc here.requests)
unfolding run step
run-unmounted display before after =
    let here : Poller = run display mounted before in
    let quiet = run-IsQuiet display (record here { live = false }) after refl in
    rw (run-append display mounted before (unmounted ∷ after))
      (quiet.same, omega (arith, quiet.requests, pending_le here.phase))

-- ===== src/Autonomy/Missions/Idle.antt =====
-- Only two modes let a mission run.
use brainless_agent.Common.{
  String, Bool, true, false, Option, none, some, ◌≡◌, refl, ◌∙◌, ap, Result, ok, raise, Exec, pure,
  continue, ◌>>=◌, if◌then◌else◌, is_empty,
}
use brainless_agent.Common.Keeps.{Keeps, Keeps-bind}
use brainless_agent.Autonomy.Gates.{AutonomyMode}
use brainless_agent.Autonomy.World.{WorldSnapshot, diff}
use brainless_agent.Autonomy.Missions.{MissionStatus, Mission, load}
use brainless_agent.Autonomy.Missions.Operator.{
  OperatorWorld, AutonomousOperator, run_once, run_loaded, rests, turn, perceive, by_mode,
  on_outside, report_change, publish_event, seen_in, capture_world,
}

-- The modes in which the runner is called.
abbrev pub lets_run : AutonomyMode → Bool
lets_run AutonomyMode.autonomous = true
lets_run AutonomyMode.supervised = true
lets_run mode = false

abbrev pub Runner : (W V : Type 0) → Type 0
Runner W V = Mission V → W → Result MissionStatus × Mission V × W

-- The same world with another runner
abbrev pub with_runner : {W V : Type 0} → Runner W V → OperatorWorld W V → OperatorWorld W V
with_runner other env = record env { runner = other }

record InMode {W V : Type 0} (mode : AutonomyMode) (o : AutonomousOperator W V) : Type 0 where
  mode_is : o.mode ≡ mode

module _ {W V : Type 0} (env : OperatorWorld W V) where
  report_change-InMode :
      (mode : AutonomyMode) (i : Option String) (last : Option (WorldSnapshot V))
      (shot : WorldSnapshot V) (o : AutonomousOperator W V)
      → InMode mode o
      → InMode mode (report_change env i last shot o)
  unfolding report_change publish_event
  report_change-InMode mode i none shot o h = h
  report_change-InMode mode i (some last) shot o h =
      go (is_empty (diff env.values.same last shot)) _ (record { mode_is = h.mode_is })
    where
      go :
          (b : Bool) (o' : AutonomousOperator W V)
          → InMode mode o'
          → InMode mode (if b then o else o')
      go true o' k = h
      go false o' k = k

  perceive-InMode : (mode : AutonomyMode) (i : Option String) → Keeps (InMode mode) (perceive env i)
  unfolding perceive on_outside
  perceive-InMode mode i =
      Keeps-bind _ _ (record { from = λ o h. record { mode_is = h.mode_is } })
        (λ state. record {
          from = λ o h.
              let (shot, o') = capture_world env state o in
              record {
                mode_is =
                    (report_change-InMode mode i o'.last shot o'
                      (record { mode_is = h.mode_is })).mode_is;
              };
        })

  module _ (other : Runner W V) where
    by_mode-idle :
        (mode : AutonomyMode) (m : Mission V) (o : AutonomousOperator W V)
        → lets_run mode ≡ false
        → by_mode env mode m o ≡ by_mode (with_runner other env) mode m o
    unfolding by_mode
    by_mode-idle AutonomyMode.takeover m o e = refl
    by_mode-idle AutonomyMode.observe_only m o e = refl
    by_mode-idle AutonomyMode.assisted m o e = refl
    by_mode-idle AutonomyMode.watch m o e = refl
    by_mode-idle AutonomyMode.paused m o e = refl
    by_mode-idle AutonomyMode.autonomous m o e = cc
    by_mode-idle AutonomyMode.supervised m o e = cc

    turn-idle :
        (m : Mission V) (o : AutonomousOperator W V)
        → lets_run o.mode ≡ false
        → turn env m o ≡ turn (with_runner other env) m o
    unfolding turn ◌>>=◌ perceive
    turn-idle m o e =
        go (perceive env (some m.mission_id) o)
          ((perceive-InMode o.mode (some m.mission_id)).from o (record { mode_is = refl }))
      where
        go :
            (r : Result (WorldSnapshot V) × AutonomousOperator W V)
            → InMode o.mode r.1
            → continue r.0 (λ shot o'. by_mode env o'.mode (seen_in env shot m) o') r.1
              ≡ continue r.0
                  (λ shot o'.
                    by_mode
                      (with_runner other env)
                      o'.mode
                      (seen_in (with_runner other env) shot m)
                      o')
                  r.1
        go (ok shot, o') h =
            by_mode-idle o'.mode (seen_in env shot m) o' (ap lets_run h.mode_is ∙ e)
        go (raise x, o') h = refl

    -- A turn in a mode other than autonomous and supervised has the same outcome with any runner:
    -- the mission is not run.
    pub run_once-idle :
        (mission_id : String) (o : AutonomousOperator W V)
        → lets_run o.mode ≡ false
        → run_once env mission_id o ≡ run_once (with_runner other env) mission_id o
    unfolding run_once run_loaded ◌>>=◌
    run_once-idle mission_id o e = go (load mission_id o.store)
      where
        either :
            (b : Bool) (x y z : Exec (AutonomousOperator W V) (Mission V))
            → y o ≡ z o
            → (if b then x else y) o ≡ (if b then x else z) o
        either true x y z h = refl
        either false x y z h = h

        go :
            (r : Result (Option (Mission V)))
            → continue r (run_loaded env mission_id) o
              ≡ continue r (run_loaded (with_runner other env) mission_id) o
        go (raise x) = refl
        go (ok none) = refl
        go (ok (some m)) =
            either (rests env m.status) (pure m) (turn env m) (turn (with_runner other env) m)
              (turn-idle m o e)

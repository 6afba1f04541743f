-- ===== src/Server/Service/Switch.antt =====
-- How the service takes the queue out of use and gives it back (RotoWeaveServer/server/service.py):
-- `_activate_configuration`, `_begin_model_self_test` and `_end_model_self_test`. While the service sleeps or
-- works, other threads call the repository: those calls are arguments, in their order, and so are the stop
-- flag, the cancel flag and what the processor does. The health text and the start-up stages are left out.
pub mod Control
mod Tests
use rotoweave.Base.{
  ℕ, String, Bool, true, false, ◌&&◌, none, some, List, [], ◌∷◌, str_eq, if◌then◌else◌, ◌==◌,
}
use rotoweave.Server.Queue.Schema.{queued, running, Db}
use rotoweave.Server.Queue.Dispatch.{set_queue_control}
use rotoweave.Server.Queue.Admin.{stats}
use rotoweave.Server.Queue.Calls.{Call, run}

-- One round of a wait: the flags that it reads, and the calls that others make while it sleeps.
pub record Look : Type 0 where
  pub stopped : Bool
  pub cancelled : Bool
  pub others : List (ℕ × Call)

-- How a wait ends; it waits on where the rounds run out.
pub data Waited : Type 0 where
  ready stopped_in cancelled_in waiting : Db → Waited

abbrev pub look_at : Bool → Bool → Bool → Db → Waited → Waited
look_at true cancelled idle db rest = stopped_in db
look_at false true idle db rest = cancelled_in db
look_at false false true db rest = ready db
look_at false false false db rest = rest

-- `while not self._stop.is_set()`
unfoldable pub wait_until : (Db → Bool) → List Look → Db → Waited
unfolding run
wait_until idle [] db = waiting db
wait_until idle (l ∷ ls) db =
    look_at l.stopped l.cancelled (idle db) db (wait_until idle ls (run l.others db))

unfoldable pub set_mode : Bool → Bool → String → ℕ → Db → Db
unfolding set_queue_control
set_mode paused maintenance mode now db =
    (set_queue_control (some paused) (some maintenance) (some mode) none now db).1

abbrev pub none_in_work : Db → Bool
none_in_work db = stats queued db == 0 && stats running db == 0

abbrev pub none_running : Db → Bool
none_running db = stats running db == 0

-- What an activation meets: the processor's means and results, the configuration's profiles with a
-- receipt, the stop flag after the drain, the calls of others before and during the switch, and the
-- clock's readings.
pub record Setup : Type 0 where
  pub configures : Bool
  pub profiles : List String
  pub configured : Bool
  pub warmed : Bool
  pub stopped_after : Bool
  pub others_before : List (ℕ × Call)
  pub others_during : List (ℕ × Call)
  pub begun : ℕ
  pub switched : ℕ
  pub ended : ℕ

-- `draining`: the wait has not ended. `not_begun` and `broken` raise, before and in the switch.
pub data Activation : Type 0 where
  activated not_begun broken draining : Db → Activation

abbrev pub has_profile : List String → Bool
has_profile [] = false
has_profile (p ∷ ps) = true

abbrev pub back_to_normal : Setup → Db → Db
back_to_normal s db = set_mode false false "normal" s.ended db

-- From `switch_started = True`.
abbrev pub finish_switch : Bool → Setup → Db → Activation
finish_switch true s db = activated (back_to_normal s db)
finish_switch false s db = broken (set_mode true true "maintenance" s.ended db)

-- Once the mode is `switching`.
abbrev pub configure : Bool → Setup → Db → Activation
configure false s db = not_begun (back_to_normal s db)
configure true s db = finish_switch (s.configured && s.warmed) s (run s.others_during db)

abbrev pub switch : Bool → Setup → Db → Activation
switch true s db = not_begun (back_to_normal s db)
switch false s db =
    configure (s.configures && has_profile s.profiles) s
      (set_mode true true "switching" s.switched (run s.others_before db))

abbrev pub activate_drained : Setup → Waited → Activation
activate_drained s (ready db) = switch s.stopped_after s db
activate_drained s (stopped_in db) = not_begun (back_to_normal s db)
activate_drained s (cancelled_in db) = not_begun (back_to_normal s db)
activate_drained s (waiting db) = draining db

-- `_activate_configuration`, which has no cancel flag.
unfoldable pub activate_configuration : Setup → List Look → Db → Activation
unfolding wait_until set_mode run
activate_configuration s looks db =
    activate_drained s (wait_until none_in_work looks (set_mode false false "draining" s.begun db))

-- `_end_model_self_test`
unfoldable pub end_model_self_test : ℕ → Db → Db
unfolding set_mode
end_model_self_test now db =
    if str_eq db.control.mode "self-testing" then set_mode false false "normal" now db else db

-- `may_test` returns, and the other two raise.
pub data SelfTest : Type 0 where
  may_test test_cancelled test_stopped still_waiting : Db → SelfTest

abbrev pub begin_waited : ℕ → Waited → SelfTest
begin_waited now (ready db) = may_test db
begin_waited now (stopped_in db) = test_stopped (end_model_self_test now db)
begin_waited now (cancelled_in db) = test_cancelled (end_model_self_test now db)
begin_waited now (waiting db) = still_waiting db

-- `_begin_model_self_test`
unfoldable pub begin_model_self_test : ℕ → ℕ → List Look → Db → SelfTest
unfolding wait_until set_mode end_model_self_test
begin_model_self_test begun ended looks db =
    begin_waited ended (wait_until none_running looks (set_mode true true "self-testing" begun db))

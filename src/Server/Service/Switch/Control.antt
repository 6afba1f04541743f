-- ===== src/Server/Service/Switch/Control.antt =====
-- The control of the queue that an activation and a self-test leave.
use rotoweave.Base.{
  ℕ, String, Bool, true, false, ◌≡◌, refl, sym, ◌∙◌, ap, subst, ◌&&◌, none, some, List, [], ◌∷◌,
  str_eq, ◌==◌, inl, inr, Bool-cases, arith,
}
use rotoweave.Server.Queue.Schema.{running, Db}
use rotoweave.Server.Queue.Statements.{ok}
use rotoweave.Server.Queue.Dispatch.{claim_next}
use rotoweave.Server.Queue.Admin.{stats}
use rotoweave.Server.Queue.Calls.{run}
use rotoweave.Server.Queue.Claiming.{claims_nothing}
use rotoweave.Server.Queue.Operations.{set_queue_control_lem, controlled_db}
use rotoweave.Server.Service.Switch.{
  Look, Waited, ready, stopped_in, cancelled_in, waiting, look_at, wait_until, set_mode,
  none_in_work, none_running, Setup, Activation, activated, not_begun, broken, draining,
  has_profile, back_to_normal, finish_switch, configure, switch, activate_drained,
  activate_configuration, end_model_self_test, SelfTest, may_test, test_cancelled, test_stopped,
  still_waiting, begin_waited, begin_model_self_test,
}

-- The queue's flags and mode.
abbrev pub HasControl : Bool → Bool → String → Db → Type 0
HasControl paused maintenance mode db =
    (db.control.paused ≡ paused) × (db.control.maintenance ≡ maintenance) × (db.control.mode ≡ mode)

set_mode-controlled :
    (paused maintenance : Bool) (mode : String) (now : ℕ) (db : Db)
    → set_mode paused maintenance mode now db
      ≡ controlled_db (some paused) (some maintenance) (some mode) now db
unfolding set_mode
set_mode-controlled paused maintenance mode now db =
    ap (λ r. r.1) (set_queue_control_lem (some paused) (some maintenance) (some mode) none now db)

set_mode-HasControl :
    (paused maintenance : Bool) (mode : String) (now : ℕ) (db : Db)
    → HasControl paused maintenance mode (set_mode paused maintenance mode now db)
set_mode-HasControl paused maintenance mode now db =
    subst (HasControl paused maintenance mode)
      (sym (set_mode-controlled paused maintenance mode now db)) (refl, refl, refl)

look_at-ready :
    (idle : Db → Bool) (a b c : Bool) (db d : Db) (rest : Waited)
    → idle db ≡ c
    → (rest ≡ ready d → idle d ≡ true)
    → look_at a b c db rest ≡ ready d
    → idle d ≡ true
look_at-ready idle true b c db d rest q k r = cc
look_at-ready idle false true c db d rest q k r = cc
look_at-ready idle false false true db d rest q k r =
    let same : db ≡ d = cc in sym (ap idle same) ∙ q
look_at-ready idle false false false db d rest q k r = k r

wait_until-ready :
    (idle : Db → Bool) (ls : List Look) (db d : Db)
    → wait_until idle ls db ≡ ready d
    → idle d ≡ true
unfolding wait_until
wait_until-ready idle [] db d e = cc
wait_until-ready idle (l ∷ ls) db d e =
    look_at-ready idle l.stopped l.cancelled (idle db) db d (wait_until idle ls (run l.others db))
      refl (λ r. wait_until-ready idle ls (run l.others db) d r) e

-- The queue hands out nothing.
abbrev pub ClaimsNothing : Db → Type 0
ClaimsNothing db = (now : ℕ) → claim_next now db ≡ (ok none, db)

maintenance-ClaimsNothing :
    (mode : String) (db : Db) → HasControl true true mode db → ClaimsNothing db
maintenance-ClaimsNothing mode db h now = claims_nothing now db (inl h.0)

-- The wait for the drain ended in a database where no job waits or runs.
abbrev pub WasDrained : Setup → List Look → Db → Type 0
WasDrained s looks db =
    (d : Db) × (wait_until none_in_work looks (set_mode false false "draining" s.begun db)
      ≡ ready d)
    × (none_in_work d ≡ true)

-- What each end of an activation leaves.
abbrev pub IsLeft : Setup → List Look → Db → Activation → Type 0
IsLeft s looks db (activated d) = HasControl false false "normal" d × WasDrained s looks db
IsLeft s looks db (not_begun d) = HasControl false false "normal" d
IsLeft s looks db (broken d) =
    HasControl true true "maintenance" d × ClaimsNothing d × WasDrained s looks db
IsLeft s looks db (draining d) = Unit {0}

module _ (s : Setup) (looks : List Look) (db : Db) where
  not_begun-IsLeft : (d : Db) → IsLeft s looks db (not_begun (back_to_normal s d))
  not_begun-IsLeft d = set_mode-HasControl false false "normal" s.ended d

  finish_switch-IsLeft :
      (b : Bool) (d : Db) → WasDrained s looks db → IsLeft s looks db (finish_switch b s d)
  finish_switch-IsLeft true d w = (set_mode-HasControl false false "normal" s.ended d, w)
  finish_switch-IsLeft false d w =
      let h = set_mode-HasControl true true "maintenance" s.ended d in
      (h, maintenance-ClaimsNothing "maintenance" (set_mode true true "maintenance" s.ended d) h, w)

  configure-IsLeft :
      (b : Bool) (d : Db) → WasDrained s looks db → IsLeft s looks db (configure b s d)
  configure-IsLeft true d w =
      finish_switch-IsLeft (s.configured && s.warmed) (run s.others_during d) w
  configure-IsLeft false d w = not_begun-IsLeft d

  switch-IsLeft : (b : Bool) (d : Db) → WasDrained s looks db → IsLeft s looks db (switch b s d)
  switch-IsLeft true d w = not_begun-IsLeft d
  switch-IsLeft false d w =
      configure-IsLeft (s.configures && has_profile s.profiles)
        (set_mode true true "switching" s.switched (run s.others_before d)) w

  waited-IsLeft :
      (w : Waited)
      → wait_until none_in_work looks (set_mode false false "draining" s.begun db) ≡ w
      → IsLeft s looks db (activate_drained s w)
  waited-IsLeft (ready d) e =
      switch-IsLeft s.stopped_after d (d, e, wait_until-ready none_in_work looks _ d e)
  waited-IsLeft (stopped_in d) e = not_begun-IsLeft d
  waited-IsLeft (cancelled_in d) e = not_begun-IsLeft d
  waited-IsLeft (waiting d) e = tt

-- An activation that succeeds, or fails before the switch has begun, leaves the queue in normal use; one
-- that fails in the switch leaves it paused, in maintenance and handing out nothing. A switch begins only
-- after an instant at which no job waited or ran. This holds whatever others call meanwhile.
pub activate_configuration-IsLeft :
    (s : Setup) (looks : List Look) (db : Db)
    → IsLeft s looks db (activate_configuration s looks db)
unfolding activate_configuration
activate_configuration-IsLeft s looks db =
    waited-IsLeft s looks db
      (wait_until none_in_work looks (set_mode false false "draining" s.begun db)) refl

end_model_self_test-mode :
    (now : ℕ) (db : Db) → str_eq (end_model_self_test now db).control.mode "self-testing" ≡ false
unfolding end_model_self_test
end_model_self_test-mode now db = elim (Bool-cases (str_eq db.control.mode "self-testing")) [
  | inl e ↦
      rw e (ap (λ m. str_eq m "self-testing") (set_mode-HasControl false false "normal" now db).2)
  | inr e ↦ rw e e
]

-- What each end of the wait for a self-test leaves.
abbrev pub IsBegun : SelfTest → Type 0
IsBegun (may_test d) = stats running d ≡ 0
IsBegun (test_cancelled d) = str_eq d.control.mode "self-testing" ≡ false
IsBegun (test_stopped d) = str_eq d.control.mode "self-testing" ≡ false
IsBegun (still_waiting d) = Unit {0}

waited-IsBegun :
    (now : ℕ) (looks : List Look) (db : Db) (w : Waited)
    → wait_until none_running looks db ≡ w
    → IsBegun (begin_waited now w)
waited-IsBegun now looks db (ready d) e =
    let h : (stats running d == 0) ≡ true = wait_until-ready none_running looks db d e in
    ground (arith, h)
waited-IsBegun now looks db (stopped_in d) e = end_model_self_test-mode now d
waited-IsBegun now looks db (cancelled_in d) e = end_model_self_test-mode now d
waited-IsBegun now looks db (waiting d) e = tt

-- A self-test begins only when no job runs, and where it is cancelled or the service stops before that,
-- the queue is not left in the mode of a self-test, whatever others call meanwhile.
pub begin_model_self_test-IsBegun :
    (begun ended : ℕ) (looks : List Look) (db : Db)
    → IsBegun (begin_model_self_test begun ended looks db)
unfolding begin_model_self_test
begin_model_self_test-IsBegun begun ended looks db =
    waited-IsBegun ended looks (set_mode true true "self-testing" begun db)
      (wait_until none_running looks (set_mode true true "self-testing" begun db)) refl

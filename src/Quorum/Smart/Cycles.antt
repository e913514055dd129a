-- ===== src/Quorum/Smart/Cycles.antt =====
-- Where the smart elector's comparison is no order: it then ranks three followers in a circle, and
-- which of them is chosen is up to the sort.
use qumomf.Prelude.{◌≡◌, ap, ◌∙◌, true, false, some, arith}
use qumomf.Prelude.Int.{pos, ◌<ℤ◌}
use qumomf.Prelude.Float.{flt}
use qumomf.Vshard.Instance.{Instance, Upstream, idle}
use qumomf.Quorum.Smart.{in_delta, idle_diff_delta, less_lag, less, follows}
use qumomf.Prelude.{ℕ}

-- Two followers that the first two measures do not tell apart.
pub record IsAlike (conf_hash : ℕ) (a b : Instance) : Type 0 where
  pub left_hash : a.vshard_fingerprint ≡ conf_hash
  pub right_hash : b.vshard_fingerprint ≡ conf_hash
  pub left_upstream : Upstream
  pub left_is : a.upstream ≡ some left_upstream
  pub right_upstream : Upstream
  pub right_is : b.upstream ≡ some right_upstream
  pub same_status : follows left_upstream ≡ follows right_upstream

less-of_IsAlike :
    (conf_hash : ℕ) (a b : Instance)
    → IsAlike conf_hash a b
    → less conf_hash a b ≡ some (less_lag a b)
unfolding less
less-of_IsAlike conf_hash a b h = ground arith

behind_before_ahead :
    (a b : Instance)
    → pos 0 <ℤ a.lsn_behind_master
    → b.lsn_behind_master <ℤ pos 0
    → less_lag a b ≡ true
unfolding less_lag
behind_before_ahead a b h k = ground arith

ahead_before_level :
    (b c : Instance)
    → b.lsn_behind_master <ℤ pos 0
    → c.lsn_behind_master ≡ pos 0
    → less_lag b c ≡ true
unfolding less_lag
ahead_before_level b c h k = ground arith

level_before_behind :
    (c a : Instance)
    → c.lsn_behind_master ≡ pos 0
    → pos 0 <ℤ a.lsn_behind_master
    → less_lag c a ≡ true
unfolding less_lag
level_before_behind c a h k = ground arith

-- Of three followers with the master's configuration and equal upstream status, let `a` be behind
-- the master, `b` ahead of it and `c` level with it: then `a` ranks before `b`, `b` before `c` and
-- `c` before `a`. The test that should rank a follower with an LSN in front of the master last does
-- not see that `c` is level.
pub less-lsn_cycle :
    (conf_hash : ℕ) (a b c : Instance)
    → IsAlike conf_hash a b
    → IsAlike conf_hash b c
    → IsAlike conf_hash c a
    → pos 0 <ℤ a.lsn_behind_master
    → b.lsn_behind_master <ℤ pos 0
    → c.lsn_behind_master ≡ pos 0
    → (less conf_hash a b ≡ some true)
      × (less conf_hash b c ≡ some true)
      × (less conf_hash c a ≡ some true)
less-lsn_cycle conf_hash a b c ab bc ca ha hb hc = (
  less-of_IsAlike conf_hash a b ab ∙ ap some (behind_before_ahead a b ha hb),
  less-of_IsAlike conf_hash b c bc ∙ ap some (ahead_before_level b c hb hc),
  less-of_IsAlike conf_hash c a ca ∙ ap some (level_before_behind c a hc ha),
)

preferred_first :
    (a b : Instance)
    → a.lsn_behind_master ≡ b.lsn_behind_master
    → a.priority <ℤ b.priority
    → in_delta (idle b) (idle a) idle_diff_delta ≡ true
    → less_lag b a ≡ true
unfolding less_lag
preferred_first a b l p d = ground arith

fresher_first :
    (a c : Instance)
    → a.lsn_behind_master ≡ c.lsn_behind_master
    → in_delta (idle a) (idle c) idle_diff_delta ≡ false
    → flt (idle a) (idle c) ≡ true
    → less_lag a c ≡ true
unfolding less_lag
fresher_first a c l d f = ground arith

-- Of three followers with the master's configuration, equal upstream status and the same lag, let
-- the priorities grow from `a` over `b` to `c`, the idle times of `a` and `b` and those of `b` and
-- `c` be within the half second, and the idle time of `a` be smaller than that of `c` by more: then
-- `c` ranks before `b`, `b` before `a` and `a` before `c`.
pub less-priority_cycle :
    (conf_hash : ℕ) (a b c : Instance)
    → IsAlike conf_hash b a
    → IsAlike conf_hash c b
    → IsAlike conf_hash a c
    → a.lsn_behind_master ≡ b.lsn_behind_master
    → b.lsn_behind_master ≡ c.lsn_behind_master
    → a.priority <ℤ b.priority
    → b.priority <ℤ c.priority
    → in_delta (idle b) (idle a) idle_diff_delta ≡ true
    → in_delta (idle c) (idle b) idle_diff_delta ≡ true
    → in_delta (idle a) (idle c) idle_diff_delta ≡ false
    → flt (idle a) (idle c) ≡ true
    → (less conf_hash c b ≡ some true)
      × (less conf_hash b a ≡ some true)
      × (less conf_hash a c ≡ some true)
less-priority_cycle conf_hash a b c ba cb ac lab lbc pab pbc dba dcb dac f = (
  less-of_IsAlike conf_hash c b cb ∙ ap some (preferred_first b c lbc pbc dcb),
  less-of_IsAlike conf_hash b a ba ∙ ap some (preferred_first a b lab pab dba),
  less-of_IsAlike conf_hash a c ac ∙ ap some (fresher_first a c (lab ∙ lbc) dac f),
)

-- ===== src/Quorum/Tests.antt =====
-- Elections in the small replica set.
use mathlib.Core.Path.{subst}
use qumomf.Prelude.{
  ◌≡◌, refl, sym, All-of_mem, ◌≢◌, ◌↔◌, Bool, true, false, Option, none, some, List, [], ◌∷◌, Memᴰ,
  arith, String,
}
use qumomf.Prelude.Int.{ℤ, pos, negsuc}
use qumomf.Prelude.Float.{Float64, float_of_int, float_zero, float_half, flt, feq, max_float64}
use qumomf.Prelude.Sort.Insertion.{insertion}
use qumomf.Prelude.Result.{ok}
use qumomf.Vshard.Instance.{Instance, idle}
use qumomf.Vshard.ReplicaSet.{ReplicaSet, master}
use qumomf.Vshard.Fixtures.{upstream_to_master, follower, late_follower, old_master, broken_set}
use qumomf.Quorum.Candidates.{Options, candidates}
use qumomf.Quorum.Candidates.Eligible.{IsEligible, candidates-IsEligible}
use qumomf.Quorum.Idle
use qumomf.Quorum.Idle.Choice.{choose_master-IsLeastIdle, choose_master-finds}
use qumomf.Quorum.Smart
use qumomf.Quorum.Smart.Order.{HasUpstream, IsComparable}
use qumomf.Quorum.Smart.Cycles.{IsAlike, less-lsn_cycle}
use qumomf.Quorum.Smart.Choice.{choose_master-IsEligible, choose_master_best, choose_master_total}

abbrev opts : Options
opts = record {
  reasonable_follower_lsn_lag = pos 500;
  reasonable_follower_idle = float_of_int (pos 60);
}

idle_elects : Idle.choose_master opts broken_set ≡ ok "l"
unfolding Idle.choose_master candidates qumomf.Quorum.Candidates.filter qumomf.Prelude.filter
    qumomf.Vshard.ReplicaSet.alive_followers qumomf.Vshard.ReplicaSet.is_alive_follower feq
    float_of_int float_zero flt idle Idle.min_uuid max_float64
idle_elects = refl

smart_elects : Smart.choose_master insertion opts broken_set ≡ some (ok "f")
unfolding Smart.choose_master candidates qumomf.Quorum.Candidates.filter qumomf.Prelude.filter
    qumomf.Vshard.ReplicaSet.alive_followers qumomf.Vshard.ReplicaSet.is_alive_follower feq
    float_of_int float_zero flt idle master qumomf.Prelude.find insertion Smart.less
smart_elects = refl

elected_among : candidates opts broken_set ≡ late_follower ∷ follower ∷ []
unfolding candidates qumomf.Quorum.Candidates.filter qumomf.Prelude.filter
    qumomf.Vshard.ReplicaSet.alive_followers qumomf.Vshard.ReplicaSet.is_alive_follower feq
    float_of_int float_zero flt idle
elected_among = refl

-- What holds of both followers holds of everyone who is eligible.
of_both :
    (P : Instance → Type 0)
    → P late_follower
    → P follower
    → (other : Instance) → IsEligible opts broken_set other
    → P other
of_both P l f other e =
    All-of_mem P (late_follower ∷ follower ∷ []) (l, (f, tt))
      (subst (λ is. Memᴰ other is) elected_among
        ((candidates-IsEligible opts broken_set other).1 e))

eligible : IsEligible opts broken_set follower
eligible =
    (candidates-IsEligible opts broken_set follower).0
      (subst (λ is. Memᴰ follower is) (sym elected_among) (Memᴰ.tail (Memᴰ.head refl)))

candidates-IsEligible_example :
    Memᴰ follower (candidates opts broken_set) ↔ IsEligible opts broken_set follower
candidates-IsEligible_example = candidates-IsEligible opts broken_set follower

choose_master-IsLeastIdle_example :
    (inst : Instance) × (inst.uuid ≡ "l")
    × IsEligible opts broken_set inst
    × ((other : Instance) → IsEligible opts broken_set other → flt (idle other) (idle inst) ≡ false)
choose_master-IsLeastIdle_example = choose_master-IsLeastIdle opts broken_set "l" idle_elects

short_idle : flt (idle follower) max_float64 ≡ true
unfolding flt idle float_of_int max_float64
short_idle = refl

choose_master-finds_example : (uuid : String) × (Idle.choose_master opts broken_set ≡ ok uuid)
choose_master-finds_example =
    choose_master-finds opts broken_set follower eligible short_idle
      (of_both (λ other. other.uuid ≢ "") (λ e. cc) (λ e. cc))

choose_master-IsEligible_example :
    (inst : Instance) × (inst.uuid ≡ "f") × IsEligible opts broken_set inst
choose_master-IsEligible_example =
    choose_master-IsEligible insertion opts broken_set "f" smart_elects

IsComparable-late : IsComparable (pos 0) late_follower
unfolding idle float_of_int
IsComparable-late = record {
  upstream = tt;
  behind = omega arith;
  number = tt;
  same_priority = refl;
}

IsComparable-follower : IsComparable (pos 0) follower
unfolding idle float_of_int
IsComparable-follower = record {
  upstream = tt;
  behind = omega arith;
  number = tt;
  same_priority = refl;
}

choose_master_best_example :
    (old : Instance) × (master broken_set ≡ ok old)
    × (inst : Instance) × (inst.uuid ≡ "f")
    × IsEligible opts broken_set inst
    × ((other : Instance)
        → IsEligible opts broken_set other
        → Smart.less old.vshard_fingerprint other inst ≡ some false)
choose_master_best_example =
    choose_master_best insertion opts broken_set "f" (pos 0)
      (of_both (λ other. IsComparable (pos 0) other) IsComparable-late IsComparable-follower)
      smart_elects

knows_master : master broken_set ≡ ok old_master
unfolding master qumomf.Prelude.find
knows_master = refl

choose_master_total_example :
    (uuid : String) × (Smart.choose_master insertion opts broken_set ≡ some (ok uuid))
choose_master_total_example =
    choose_master_total insertion opts broken_set old_master follower knows_master eligible
      (of_both (λ other. HasUpstream other.upstream) tt tt)

abbrev idles : Float64 → ℤ → ℤ → Instance
idles t priority lag = record follower {
  upstream = some (record upstream_to_master { idle = t });
  priority = priority;
  lsn_behind_master = lag;
}

alike : (t u : Float64) (p q x y : ℤ) → IsAlike 0 (idles t p x) (idles u q y)
alike t u p q x y = record {
  left_hash = refl;
  right_hash = refl;
  left_upstream = record upstream_to_master { idle = t };
  left_is = refl;
  right_upstream = record upstream_to_master { idle = u };
  right_is = refl;
  same_status = refl;
}

abbrev lagging : ℤ → Instance
lagging lag = idles float_zero (pos 0) lag

less-lsn_cycle_example :
    (Smart.less 0 (lagging (pos 7)) (lagging (negsuc 2)) ≡ some true)
    × (Smart.less 0 (lagging (negsuc 2)) (lagging (pos 0)) ≡ some true)
    × (Smart.less 0 (lagging (pos 0)) (lagging (pos 7)) ≡ some true)
less-lsn_cycle_example =
    less-lsn_cycle 0 (lagging (pos 7)) (lagging (negsuc 2)) (lagging (pos 0))
      (alike float_zero float_zero (pos 0) (pos 0) (pos 7) (negsuc 2))
      (alike float_zero float_zero (pos 0) (pos 0) (negsuc 2) (pos 0))
      (alike float_zero float_zero (pos 0) (pos 0) (pos 0) (pos 7)) (omega arith) (omega arith) refl

abbrev zero_second : Float64
zero_second = float_of_int (pos 0)

abbrev one_second : Float64
one_second = float_of_int (pos 1)

abbrev ranked : Float64 → ℤ → Instance
ranked t priority = idles t priority (pos 0)

near_b :
    Smart.in_delta
      (idle (ranked float_half (pos 1)))
      (idle (ranked zero_second (pos 0)))
      Smart.idle_diff_delta
    ≡ true
unfolding Smart.in_delta qumomf.Prelude.Float.fle qumomf.Prelude.Float.fneg float_half
    qumomf.Prelude.Float.fsub idle float_of_int
near_b = refl

near_c :
    Smart.in_delta
      (idle (ranked one_second (pos 2)))
      (idle (ranked float_half (pos 1)))
      Smart.idle_diff_delta
    ≡ true
unfolding Smart.in_delta qumomf.Prelude.Float.fle qumomf.Prelude.Float.fneg float_half
    qumomf.Prelude.Float.fsub idle float_of_int
near_c = refl

far_c :
    Smart.in_delta
      (idle (ranked zero_second (pos 0)))
      (idle (ranked one_second (pos 2)))
      Smart.idle_diff_delta
    ≡ false
unfolding Smart.in_delta qumomf.Prelude.Float.fle qumomf.Prelude.Float.fneg float_half
    qumomf.Prelude.Float.fsub idle float_of_int
far_c = refl

fresher : flt (idle (ranked zero_second (pos 0))) (idle (ranked one_second (pos 2))) ≡ true
unfolding flt idle float_of_int
fresher = refl

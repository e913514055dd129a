-- ===== src/Quorum/Smart/Order.antt =====
-- Where the smart elector's comparison is an order: followers that report an upstream, are not ahead
-- of the master, have idle times that are numbers, and one priority.
use qumomf.Prelude.{ℕ, ◌≡◌, ◌⊎◌, Bool, true, false, Option, none, some, eqb, arith, if◌then◌else◌}
use qumomf.Prelude.Int.{ℤ, pos, ◌≤ℤ◌, ltb_ℤ}
use qumomf.Prelude.Float.{IsNumber, flt, flt_irrefl, flt_trans, flt_cotrans}
use qumomf.Prelude.Sort.{IsStrictWeak, Answers}
use qumomf.Vshard.Instance.{Instance, Upstream, idle}
use qumomf.Quorum.Smart.{less_lag, less_upstream, follows, less}

-- `Less` as a total function: how it answers if both instances have an upstream.
abbrev following : Option Upstream → Bool
following none = false
following (some u) = follows u

-- Compare by a Boolean first: true before false.
abbrev before : Bool → Bool → Bool → Bool
before true true rest = rest
before true false rest = true
before false true rest = false
before false false rest = rest

unfoldable pub rank_less : ℕ → Instance → Instance → Bool
rank_less conf_hash left right =
    before (eqb left.vshard_fingerprint conf_hash) (eqb right.vshard_fingerprint conf_hash)
      (before (following left.upstream) (following right.upstream) (less_lag left right))

abbrev pub HasUpstream : Option Upstream → Type 0
HasUpstream none = ⊥
HasUpstream (some u) = Unit

pub record IsComparable (priority : ℤ) (inst : Instance) : Type 0 where
  pub upstream : HasUpstream inst.upstream
  pub behind : pos 0 ≤ℤ inst.lsn_behind_master
  pub number : IsNumber (idle inst)
  pub same_priority : inst.priority ≡ priority

module _ (conf_hash : ℕ) where
  upstream_answers :
      (u v : Option Upstream) (rest : Bool)
      → HasUpstream u
      → HasUpstream v
      → less_upstream u v rest ≡ some (before (following u) (following v) rest)
  upstream_answers (some u) (some v) rest h k = ground arith
  upstream_answers none v rest h k = absurd h
  upstream_answers (some u) none rest h k = absurd k

  pub less-rank_less :
      (left right : Instance)
      → HasUpstream left.upstream
      → HasUpstream right.upstream
      → less conf_hash left right ≡ some (rank_less conf_hash left right)
  unfolding less rank_less
  less-rank_less left right h k =
      ground (arith, upstream_answers left.upstream right.upstream (less_lag left right) h k)

-- With one priority and no follower ahead of the master, the later tests compare two numbers.
lag_idle :
    (p : ℤ) (left right : Instance)
    → IsComparable p left
    → IsComparable p right
    → less_lag left right ≡ (
        if ltb_ℤ left.lsn_behind_master right.lsn_behind_master
        then true
        else if ltb_ℤ right.lsn_behind_master left.lsn_behind_master
        then false
        else flt (idle left) (idle right))
unfolding less_lag
lag_idle p left right h k = ground arith

before_irrefl : (a r : Bool) → r ≡ false → before a a r ≡ false
before_irrefl a r h = ground arith

before_trans :
    (a b c r s t : Bool)
    → (r ≡ true → s ≡ true → t ≡ true)
    → before a b r ≡ true
    → before b c s ≡ true
    → before a c t ≡ true
before_trans a b c r s t f h k = ground arith

before_cotrans :
    (a b c r s t : Bool)
    → (t ≡ true → (r ≡ true) ⊎ (s ≡ true))
    → before a c t ≡ true
    → (before a b r ≡ true) ⊎ (before b c s ≡ true)
before_cotrans a b c r s t f h = ground arith

-- Compare by an integer first.
abbrev smaller : ℤ → ℤ → Bool → Bool
smaller a b rest = if ltb_ℤ a b then true else if ltb_ℤ b a then false else rest

smaller_irrefl : (a : ℤ) (r : Bool) → r ≡ false → smaller a a r ≡ false
smaller_irrefl a r h = ground arith

smaller_trans :
    (a b c : ℤ) (r s t : Bool)
    → (r ≡ true → s ≡ true → t ≡ true)
    → smaller a b r ≡ true
    → smaller b c s ≡ true
    → smaller a c t ≡ true
smaller_trans a b c r s t f h k = ground arith

smaller_cotrans :
    (a b c : ℤ) (r s t : Bool)
    → (t ≡ true → (r ≡ true) ⊎ (s ≡ true))
    → smaller a c t ≡ true
    → (smaller a b r ≡ true) ⊎ (smaller b c s ≡ true)
smaller_cotrans a b c r s t f h = ground arith

module _ (conf_hash : ℕ) (p : ℤ) where
  lag_irrefl : (x : Instance) → IsComparable p x → less_lag x x ≡ false
  lag_irrefl x h =
      rw (lag_idle p x x h h)
        (smaller_irrefl x.lsn_behind_master (flt (idle x) (idle x)) (flt_irrefl (idle x)))

  lag_trans :
      (x y z : Instance)
      → IsComparable p x
      → IsComparable p y
      → IsComparable p z
      → less_lag x y ≡ true
      → less_lag y z ≡ true
      → less_lag x z ≡ true
  lag_trans x y z hx hy hz h k = rw (lag_idle p x z hx hz) (
      smaller_trans x.lsn_behind_master y.lsn_behind_master z.lsn_behind_master
        (flt (idle x) (idle y)) (flt (idle y) (idle z)) (flt (idle x) (idle z))
        (flt_trans (idle x) (idle y) (idle z)) (rw (lag_idle p x y hx hy) at h)
        (rw (lag_idle p y z hy hz) at k))

  lag_cotrans :
      (x y z : Instance)
      → IsComparable p x
      → IsComparable p y
      → IsComparable p z
      → less_lag x z ≡ true
      → (less_lag x y ≡ true) ⊎ (less_lag y z ≡ true)
  lag_cotrans x y z hx hy hz h =
      rw (lag_idle p x y hx hy, lag_idle p y z hy hz)
        (smaller_cotrans x.lsn_behind_master y.lsn_behind_master z.lsn_behind_master
          (flt (idle x) (idle y)) (flt (idle y) (idle z)) (flt (idle x) (idle z))
          (flt_cotrans (idle x) (idle y) (idle z) hy.number) (rw (lag_idle p x z hx hz) at h))

  abbrev same : Instance → Bool
  same x = eqb x.vshard_fingerprint conf_hash

  abbrev flows : Instance → Bool
  flows x = following x.upstream

  -- On comparable followers the smart elector's comparison is a strict weak order.
  pub rank_less-IsStrictWeak : IsStrictWeak (IsComparable p) (rank_less conf_hash)
  unfolding rank_less
  rank_less-IsStrictWeak = record {
    irrefl = λ x h.
        before_irrefl (same x) (before (flows x) (flows x) (less_lag x x))
          (before_irrefl (flows x) (less_lag x x) (lag_irrefl x h));
    trans = λ x y z hx hy hz.
        before_trans (same x) (same y) (same z) (before (flows x) (flows y) (less_lag x y))
          (before (flows y) (flows z) (less_lag y z)) (before (flows x) (flows z) (less_lag x z))
          (before_trans (flows x) (flows y) (flows z) (less_lag x y) (less_lag y z) (less_lag x z)
            (lag_trans x y z hx hy hz));
    cotrans = λ x y z hx hy hz.
        before_cotrans (same x) (same y) (same z) (before (flows x) (flows y) (less_lag x y))
          (before (flows y) (flows z) (less_lag y z)) (before (flows x) (flows z) (less_lag x z))
          (before_cotrans (flows x) (flows y) (flows z) (less_lag x y) (less_lag y z) (less_lag x z)
            (lag_cotrans x y z hx hy hz));
  }

  pub less-Answers : Answers (IsComparable p) (less conf_hash) (rank_less conf_hash)
  less-Answers x y hx hy = less-rank_less conf_hash x y hx.upstream hy.upstream

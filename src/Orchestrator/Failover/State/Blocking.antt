-- ===== src/Orchestrator/Failover/State/Blocking.antt =====
-- How long a recovery that was registered blocks the next one.
use qumomf.Prelude.{
  ℕ, ◌+◌, ◌≤◌, ◌<◌, String, ◌==◌, eq_iff, ◌≡◌, refl, sym, ap, ◌∙◌, Bool, true, false, some, List,
  [], ◌∷◌, Memᴰ, length, Bool-cases, inl, inr, arith,
}
use mathlib.Core.Path.{subst}
use qumomf.Orchestrator.Recovery.{Recovery, seconds, scope_key, expired}
use qumomf.Orchestrator.World.{Env, World, read_clock, tick}
use qumomf.Orchestrator.Failover.State.{Failover, has_blocked_from, has_blocked_recovery}

-- Looking for a recovery that blocks leaves no trace, and ends.
pub has_blocked_from_total :
    (bs : List Recovery) (key : String) (env : Env) (w : World)
    → (b : Bool) × (w' : World) × (has_blocked_from bs key env w ≡ some (b, w'))
      × (w'.trace ≡ w.trace)
unfolding has_blocked_from read_clock
has_blocked_from_total [] key env w = (false, w, refl, refl)
has_blocked_from_total (r ∷ bs) key env w = elim (Bool-cases (scope_key r == key)) [
  | inl e ↦ elim (Bool-cases (expired (env.now w.step) r)) [
    | inl x ↦
        let (b, w', p, t) = has_blocked_from_total bs key env (tick w) in (b, w', rw (e, x) p, t)
    | inr x ↦ (true, tick w, rw (e, x) refl, refl)
  ]
  | inr e ↦ let (b, w', p, t) = has_blocked_from_total bs key env w in (b, w', rw e p, t)
]

-- The clock has not passed the expiration of a recovery at any of the next readings.
abbrev pub NotYet : Env → World → ℕ → Recovery → Type 0
NotYet env w k r = (n : ℕ) → n < w.step + k → seconds (env.now n) ≤ r.expiration

pub not_expired : (now : ℕ) (r : Recovery) → seconds now ≤ r.expiration → expired now r ≡ false
unfolding expired
not_expired now r h = ground arith

blocked_from :
    (bs : List Recovery) (key : String) (env : Env) (w : World) {r : Recovery}
    → Memᴰ r bs
    → scope_key r ≡ key
    → NotYet env w (length bs) r
    → (w' : World) × (has_blocked_from bs key env w ≡ some (true, w')) × (w'.trace ≡ w.trace)
unfolding has_blocked_from read_clock
blocked_from [] key env w m k h = elim m [ ]
blocked_from (b ∷ bs) key env w {r} (Memᴰ.head e) k h = (
  tick w,
  rw
      (
        (eq_iff (scope_key b) key).1 (ap scope_key (sym e) ∙ k),
        not_expired (env.now w.step) b
            (subst (λ x. seconds (env.now w.step) ≤ x.expiration) e (h w.step (omega arith))),
      )
      refl,
  refl,
)
blocked_from (b ∷ bs) key env w (Memᴰ.tail m) k h = elim (Bool-cases (scope_key b == key)) [
  | inl e ↦ elim (Bool-cases (expired (env.now w.step) b)) [
    | inl x ↦
        let (w', p, t) = blocked_from bs key env (tick w) m k (λ n l. h n (omega arith)) in
        (w', rw (e, x) p, t)
    | inr x ↦ (tick w, rw (e, x) refl, refl)
  ]
  | inr e ↦
      let (w', p, t) = blocked_from bs key env w m k (λ n l. h n (omega arith)) in (w', rw e p, t)
]

-- A registered recovery blocks its key until the clock has passed its expiration.
pub has_blocked_recovery-registered :
    (f : Failover) (env : Env) (w : World) (r : Recovery)
    → Memᴰ r f.recoveries
    → NotYet env w (length f.recoveries) r
    → (w' : World) × (has_blocked_recovery f (scope_key r) env w ≡ some (true, w'))
      × (w'.trace ≡ w.trace)
unfolding has_blocked_recovery
has_blocked_recovery-registered f env w r m h =
    blocked_from f.recoveries (scope_key r) env w m refl h

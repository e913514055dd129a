-- ===== src/Orchestrator/Failover/State/Cleanup.antt =====
-- What a cleanup of the remembered recoveries keeps.
use qumomf.Prelude.{
  ◌≤◌, ◌≡◌, refl, ◌∙◌, Bool, true, false, not, some, List, [], ◌∷◌, Memᴰ, length, arith,
  if◌then◌else◌,
}
use mathlib.Core.Path.{subst}
use qumomf.Orchestrator.Recovery.{Recovery, seconds, expired}
use qumomf.Orchestrator.World.{Env, World, read_clock, tick}
use qumomf.Orchestrator.Failover.State.{Failover, alive_from, cleanup}
use qumomf.Orchestrator.Failover.State.Blocking.{NotYet, not_expired}

-- A part of the recoveries with all of those that have not expired.
abbrev pub KeepsAlive : List Recovery → List Recovery → Env → World → Type 0
KeepsAlive rs bs env w =
    ((r : Recovery) → Memᴰ r rs → Memᴰ r bs)
    × ((r : Recovery) → Memᴰ r bs → NotYet env w (length bs) r → Memᴰ r rs)

abbrev kept : Bool → Recovery → List Recovery → List Recovery
kept expired b alive = if not expired then b ∷ alive else alive

kept_member : (x : Bool) (b r : Recovery) (rs : List Recovery) → Memᴰ r rs → Memᴰ r (kept x b rs)
kept_member true b r rs m = m
kept_member false b r rs m = Memᴰ.tail m

kept_from :
    (x : Bool) (b r : Recovery) (rs bs : List Recovery)
    → (Memᴰ r rs → Memᴰ r bs)
    → Memᴰ r (kept x b rs)
    → Memᴰ r (b ∷ bs)
kept_from true b r rs bs f m = Memᴰ.tail (f m)
kept_from false b r rs bs f (Memᴰ.head e) = Memᴰ.head e
kept_from false b r rs bs f (Memᴰ.tail m) = Memᴰ.tail (f m)

kept_head :
    (x : Bool) (b r : Recovery) (rs : List Recovery) → x ≡ false → r ≡ b → Memᴰ r (kept x b rs)
kept_head true b r rs e k = cc
kept_head false b r rs e k = Memᴰ.head k

alive_from-KeepsAlive :
    (bs : List Recovery) (env : Env) (w : World)
    → (rs : List Recovery) × (w' : World) × (alive_from bs env w ≡ some (rs, w'))
      × (w'.trace ≡ w.trace)
      × KeepsAlive rs bs env w
unfolding alive_from read_clock
alive_from-KeepsAlive [] env w = ([], w, refl, refl, ((λ r m. m), λ r m h. m))
alive_from-KeepsAlive (b ∷ bs) env w =
    let (rs, w', e, t, (sub, sup)) = alive_from-KeepsAlive bs env (tick w) in
    let x = expired (env.now w.step) b in
    (
      kept x b rs,
      w',
      rw e refl,
      t,
      ((λ r m. kept_from x b r rs bs (sub r) m), λ r m h. keep x rs refl sup r m h),
    )
  where
    keep :
        (x : Bool) (rs : List Recovery)
        → x ≡ expired (env.now w.step) b
        → ((r : Recovery) → Memᴰ r bs → NotYet env (tick w) (length bs) r → Memᴰ r rs)
        → (r : Recovery) → Memᴰ r (b ∷ bs)
        → NotYet env w (length (b ∷ bs)) r
        → Memᴰ r (kept x b rs)
    keep x rs k sup r (Memᴰ.head e) h =
        kept_head x b r rs
          (k
            ∙ not_expired (env.now w.step) b
                (subst (λ y. seconds (env.now w.step) ≤ y.expiration) e (h w.step (omega arith))))
          e
    keep x rs k sup r (Memᴰ.tail m) h = kept_member x b r rs (sup r m (λ n l. h n (omega arith)))

-- A cleanup that is not forced ends, leaves no trace, invents no recovery, and keeps every recovery
-- that has not expired when the clock is read.
pub cleanup-KeepsAlive :
    (f : Failover) (env : Env) (w : World)
    → (f' : Failover) × (w' : World) × (cleanup false f env w ≡ some (f', w'))
      × (w'.trace ≡ w.trace)
      × KeepsAlive f'.recoveries f.recoveries env w
unfolding cleanup
cleanup-KeepsAlive f env w =
    let (rs, w', e, t, k) = alive_from-KeepsAlive f.recoveries env w in
    (record f { recoveries = rs }, w', rw e refl, t, k)

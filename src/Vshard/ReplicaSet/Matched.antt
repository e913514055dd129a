-- ===== src/Vshard/ReplicaSet/Matched.antt =====
-- Instances that agree in the fields that `SameAs` compares, one by one.
use mathlib.Core.Path.{subst}
use qumomf.Prelude.{
  ℕ, suc, ◌&&◌, eq_iff, ◌≡◌, refl, sym, ap, ◌↔◌, Bool, true, false, List, [], ◌∷◌, Permᴰ, length,
  eqb, arith,
}
use qumomf.Prelude.Int.{eqb_ℤ_iff}
use qumomf.Vshard.Instance.{Instance, same_bool, same_instance}
use qumomf.Vshard.ReplicaSet.{all_same}
use qumomf.Vshard.ReplicaSet.Laws.{Alike}

-- The fields that count.
abbrev pub SameFields : Instance → Instance → Type 0
SameFields a b =
    (a.uuid ≡ b.uuid)
    × (a.uri ≡ b.uri)
    × (a.vshard_fingerprint ≡ b.vshard_fingerprint)
    × (a.id ≡ b.id)
    × (a.readonly ≡ b.readonly)
    × (a.storage_info.replication ≡ b.storage_info.replication)
    × (a.storage_info.status ≡ b.storage_info.status)

abbrev pub Matched : List Instance → List Instance → Type 0
Matched [] [] = Unit
Matched (a ∷ as') (b ∷ bs) = SameFields a b × Matched as' bs
Matched _ _ = ⊥

and_iff :
    (b c : Bool) {P Q : Type 0} → (b ≡ true) ↔ P → (c ≡ true) ↔ Q → ((b && c) ≡ true) ↔ (P × Q)
and_iff true c f g = ((λ h. (f.0 refl, g.0 h)), λ h. g.1 h.1)
and_iff false c f g = ((λ h. cc), λ h. f.1 h.0)

pub eqb_iff : (m n : ℕ) → (eqb m n ≡ true) ↔ (m ≡ n)
eqb_iff m n = ground arith

same_bool_iff : (a b : Bool) → (same_bool a b ≡ true) ↔ (a ≡ b)
same_bool_iff true b = ((λ h. sym h), λ h. sym h)
same_bool_iff false true = ((λ h. cc), λ h. cc)
same_bool_iff false false = ((λ h. refl), λ h. refl)

same_instance_iff : (a b : Instance) → (same_instance a b ≡ true) ↔ SameFields a b
unfolding same_instance
same_instance_iff a b =
    let nested = and_iff _ _ (eq_iff a.uuid b.uuid) (
      and_iff _ _ (eq_iff a.uri b.uri) (
        and_iff _ _ (eqb_iff a.vshard_fingerprint b.vshard_fingerprint) (
          and_iff _ _ (eqb_iff a.id b.id) (
            and_iff _ _ (same_bool_iff a.readonly b.readonly) (
              and_iff _ _ (eq_iff a.storage_info.replication b.storage_info.replication)
                (eqb_ℤ_iff a.storage_info.status b.storage_info.status)))))) in
    (
      (λ h. let (u, (v, (w, (x, (y, (z, t)))))) = nested.0 h in (u, v, w, x, y, z, t)),
      λ h. nested.1 (h.0, (h.1, (h.2, (h.3, (h.4, (h.5, h.6)))))),
    )

pub Alike-Matched : (xs ys : List Instance) → Alike xs ys → Matched xs ys
Alike-Matched [] [] h = tt
Alike-Matched [] (b ∷ bs) h = h
Alike-Matched (a ∷ as') [] h = h
Alike-Matched (a ∷ as') (b ∷ bs) (e, h) = ((same_instance_iff a b).0 e, Alike-Matched as' bs h)

pub Matched-all_same : (xs ys : List Instance) → Matched xs ys → all_same xs ys ≡ true
unfolding all_same
Matched-all_same [] [] h = refl
Matched-all_same [] (b ∷ bs) h = refl
Matched-all_same (a ∷ as') [] h = refl
Matched-all_same (a ∷ as') (b ∷ bs) (e, h) =
    rw ((same_instance_iff a b).1 e) (Matched-all_same as' bs h)

pub length-Matched : (xs ys : List Instance) → Matched xs ys → length xs ≡ length ys
length-Matched [] [] h = refl
length-Matched [] (b ∷ bs) h = elim h [ ]
length-Matched (a ∷ as') [] h = elim h [ ]
length-Matched (a ∷ as') (b ∷ bs) (e, h) = ap suc (length-Matched as' bs h)

-- What is rearranged on one side can be on the other.
pub Matched-perm :
    {xs xs' : List Instance} (ys : List Instance)
    → Permᴰ xs xs'
    → Matched xs ys
    → (ys' : List Instance) × Permᴰ ys ys' × Matched xs' ys'
Matched-perm [] Permᴰ.nil h = ([], Permᴰ.nil, tt)
Matched-perm (b ∷ bs) Permᴰ.nil h = elim h [ ]
Matched-perm [] (Permᴰ.cons e p) h = elim h [ ]
Matched-perm (b ∷ bs) (Permᴰ.cons e p) (f, h) =
    let (bs', q, k) = Matched-perm bs p h in
    (b ∷ bs', Permᴰ.cons refl q, (subst (λ x. SameFields x b) e f, k))
Matched-perm [] (Permᴰ.swap e g) h = elim h [ ]
Matched-perm (b ∷ []) (Permᴰ.swap e g) h = elim h.1 [ ]
Matched-perm (b ∷ c ∷ bs) (Permᴰ.swap e g) (f, (k, h)) = (
  c ∷ b ∷ bs,
  Permᴰ.swap refl refl,
  (subst (λ x. SameFields x c) g k, (subst (λ x. SameFields x b) e f, h)),
)
Matched-perm ys (Permᴰ.trans p q) h =
    let (bs, r, k) = Matched-perm ys p h in
    let (cs, s, l) = Matched-perm bs q k in (cs, Permᴰ.trans r s, l)

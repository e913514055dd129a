-- ===== src/Vshard/Fingerprint.antt =====
-- The script of `vshardInstanceInfoQuery` in internal/vshard/cluster.go that a node runs to make the
-- fingerprint of its shard's configuration. The digest and Lua's `table.sort` are parameters.
mod Tests
use mathlib.Core.List.Perm
use mathlib.Core.List.{Perm}
use mathlib.Core.List.Permᴰ
use mathlib.Core.HLevel.{⊥_prop}
use mathlib.Core.Logic.{∥∥₁_elim}
use qumomf.Prelude.{
  ℕ, String, ◌==◌, eq_iff, eq_refl, ◌≡◌, refl, sym, ap, ◌∙◌, Bool-cases, true, false, inl, inr,
  List, [], ◌∷◌, Memᴰ, mem-perm, Permᴰ, All, All-of_mem, Ordered,
}
use mathlib.Core.Path.{subst}

-- A table with texts for its keys: the keys in the order in which `pairs` gives them, and the values.
pub record LuaTable (A : Type 0) : Type 0 where
  pub keys : List String
  pub at : String → A

-- `digest.crc32`.
pub record Crc32 (State : Type 0) : Type 0 where
  pub new_digest : State
  pub update : State → String → State
  pub result : State → ℕ

-- `table.sort` rearranges texts into an ascending order, in which none are equal but the same.
pub record TableSort : Type 1 where
  pub sort : List String → List String
  pub le : String → String → Type 0
  pub sort_perm : (keys : List String) → Permᴰ (sort keys) keys
  pub sort_ordered : (keys : List String) → Ordered le (sort keys)
  pub antisym : (x y : String) → le x y → le y x → x ≡ y

module _ {State : Type 0} (crc32 : Crc32 State) (table : TableSort) where
  -- The values are as `tostring` prints them.
  unfoldable pub update_values : LuaTable String → List String → State → State
  update_values inst [] c = c
  update_values inst (vk ∷ keys) c = update_values inst keys (crc32.update c (inst.at vk))

  unfoldable pub update_instances : LuaTable (LuaTable String) → List String → State → State
  unfolding update_values
  update_instances shard_cfg [] c = c
  update_instances shard_cfg (ik ∷ inst_keys) c =
      let inst = shard_cfg.at ik in
      update_instances shard_cfg inst_keys
        (update_values inst (table.sort inst.keys) (crc32.update c ik))

  unfoldable pub fingerprint : LuaTable (LuaTable String) → ℕ
  unfolding update_instances
  fingerprint shard_cfg =
      crc32.result (update_instances shard_cfg (table.sort shard_cfg.keys) crc32.new_digest)

module _ (table : TableSort) where
  -- The same key is first in two ascending lists with the same keys.
  same_head :
      (x y : String) (xs ys : List String)
      → Perm (x ∷ xs) (y ∷ ys)
      → Ordered table.le (x ∷ xs)
      → Ordered table.le (y ∷ ys)
      → x ≡ y
  same_head x y xs ys p ox oy = elim (Bool-cases (x == y)) [
    | inl e ↦ (eq_iff x y).0 e
    | inr e ↦
        elim (∥∥₁_elim p ⊥_prop (λ d.
          differ e (mem-perm d (Memᴰ.head refl)) (mem-perm (Permᴰ.symm d) (Memᴰ.head refl)))) [ ]
  ]
    where
      differ : (x == y) ≡ false → Memᴰ x (y ∷ ys) → Memᴰ y (x ∷ xs) → ⊥
      differ e (Memᴰ.head q) n = let k = (eq_iff x y).1 q in cc
      differ e (Memᴰ.tail m) (Memᴰ.head q) = let k = (eq_iff x y).1 (sym q) in cc
      differ e (Memᴰ.tail m) (Memᴰ.tail n) =
          let k = (eq_iff x y).1 (
            table.antisym x y (All-of_mem (table.le x) xs ox.0 n)
              (All-of_mem (table.le y) ys oy.0 m)) in
          cc

  ascending_unique :
      (xs ys : List String) → Perm xs ys → Ordered table.le xs → Ordered table.le ys → xs ≡ ys
  ascending_unique [] ys p ox oy = Perm.nil-eq p
  ascending_unique (x ∷ xs) [] p ox oy = Perm.eq-nil p
  ascending_unique (x ∷ xs) (y ∷ ys) p ox oy =
      let e : x ≡ y = same_head x y xs ys p ox oy in
      let q : Perm xs ys = Perm.cons_inv (subst (λ z. Perm (x ∷ xs) (z ∷ ys)) (sym e) p) in
      ap (λ z. z ∷ xs) e ∙ ap (λ zs. y ∷ zs) (ascending_unique xs ys q ox.1 oy.1)

  -- A table is sorted to the same keys, whatever the order in which it is gone through.
  sort_unique : (xs ys : List String) → Perm xs ys → table.sort xs ≡ table.sort ys
  sort_unique xs ys p =
      ascending_unique (table.sort xs) (table.sort ys)
        (Perm.trans ∣ table.sort_perm xs ∣₁ (Perm.trans p (Perm.symm ∣ table.sort_perm ys ∣₁)))
        (table.sort_ordered xs) (table.sort_ordered ys)

-- Two tables with the same keys, in any order, and the same values at them.
abbrev pub IsSameTable : {A : Type 0} → (A → A → Type 0) → LuaTable A → LuaTable A → Type 0
IsSameTable Same a b = Perm a.keys b.keys × ((k : String) → Memᴰ k a.keys → Same (a.at k) (b.at k))

module _ {State : Type 0} (crc32 : Crc32 State) (table : TableSort) where
  values-same :
      (a b : LuaTable String) (keys : List String) (c : State)
      → ((k : String) → Memᴰ k keys → a.at k ≡ b.at k)
      → update_values crc32 table a keys c ≡ update_values crc32 table b keys c
  unfolding update_values
  values-same a b [] c h = refl
  values-same a b (k ∷ keys) c h =
      rw (h k (Memᴰ.head refl))
        (values-same a b keys (crc32.update c (b.at k)) (λ x m. h x (Memᴰ.tail m)))

  instance-same :
      (a b : LuaTable String) (c : State)
      → IsSameTable (λ (x y : String). x ≡ y) a b
      → update_values crc32 table a (table.sort a.keys) c
        ≡ update_values crc32 table b (table.sort b.keys) c
  instance-same a b c (p, h) =
      values-same a b (table.sort a.keys) c (λ k m. h k (mem-perm (table.sort_perm a.keys) m))
      ∙ ap (λ keys. update_values crc32 table b keys c) (sort_unique table a.keys b.keys p)

  instances-same :
      (a b : LuaTable (LuaTable String)) (keys : List String) (c : State)
      → ((k : String) → Memᴰ k keys → IsSameTable (λ (x y : String). x ≡ y) (a.at k) (b.at k))
      → update_instances crc32 table a keys c ≡ update_instances crc32 table b keys c
  unfolding update_instances
  instances-same a b [] c h = refl
  instances-same a b (k ∷ keys) c h =
      ap (λ s. update_instances crc32 table a keys s)
        (instance-same (a.at k) (b.at k) (crc32.update c k) (h k (Memᴰ.head refl)))
      ∙ instances-same a b keys _ (λ x m. h x (Memᴰ.tail m))

  -- The fingerprint is one of the configuration as a table of tables: it does not depend on the order
  -- in which a node goes through the instances, nor on the one in which it goes through the options of
  -- an instance.
  pub fingerprint-IsSameTable :
      (a b : LuaTable (LuaTable String))
      → IsSameTable (IsSameTable (λ (x y : String). x ≡ y)) a b
      → fingerprint crc32 table a ≡ fingerprint crc32 table b
  unfolding fingerprint
  fingerprint-IsSameTable a b (p, h) = ap crc32.result (
      instances-same a b (table.sort a.keys) crc32.new_digest
        (λ k m. h k (mem-perm (table.sort_perm a.keys) m))
      ∙ ap (λ keys. update_instances crc32 table b keys crc32.new_digest)
          (sort_unique table a.keys b.keys p))

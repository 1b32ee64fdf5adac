-- ===== src/Store/Hash/Order.antt =====
-- The hash of the stores and the order in which the `HashMap` of stores is walked.
use mathlib.Core.List.{Permᴰ}
use doge_sdk.Base.{suc, true, false, ◌≡◌, refl, ap, ◌∙◌, List, [], ◌∷◌, length, map, arith}
use doge_sdk.Base.Bytes.{Bytes, le_bytes, cmp_refl, eq_of_cmp, lt_of_gt, gt_of_lt, lt_trans}
use doge_sdk.Trees.External.{External}
use doge_sdk.Trees.Merkle
use doge_sdk.Store.Hash.{
  le_pair, StoreInfo, Pair, insert_pair, sort, to_pair, to_bytes, hash_store_infos,
}

le_pair_total : (p q : Pair) → le_pair p q ≡ false → le_pair q p ≡ true
unfolding le_pair
le_pair_total p q h = ground (
  arith,
  lt_of_gt p.key q.key,
  eq_of_cmp p.key q.key,
  cmp_refl p.key,
  cmp_refl q.key,
  lt_of_gt p.value q.value,
)

le_pair_antisymm : (p q : Pair) → le_pair p q ≡ true → le_pair q p ≡ true → p ≡ q
unfolding le_pair
le_pair_antisymm p q h k =
    let same_key : p.key ≡ q.key = ground (arith, eq_of_cmp p.key q.key, gt_of_lt p.key q.key) in
    let same_value : p.value ≡ q.value =
      ground
        (arith, same_key, cmp_refl p.key, eq_of_cmp p.value q.value, gt_of_lt p.value q.value) in
    λ i. record { key = same_key i; value = same_value i }

le_bytes_trans : (a b c : Bytes) → le_bytes a b ≡ true → le_bytes b c ≡ true → le_bytes a c ≡ true
le_bytes_trans a b c h k = ground (arith, lt_trans a b c, eq_of_cmp a b, eq_of_cmp b c, cmp_refl a)

le_pair_trans : (p q r : Pair) → le_pair p q ≡ true → le_pair q r ≡ true → le_pair p r ≡ true
unfolding le_pair
le_pair_trans p q r h k = ground (
  arith,
  lt_trans p.key q.key r.key,
  eq_of_cmp p.key q.key,
  eq_of_cmp q.key r.key,
  cmp_refl p.key,
  le_bytes_trans p.value q.value r.value,
)

insert_pair_comm :
    (p q : Pair) (pairs : List Pair)
    → insert_pair p (insert_pair q pairs) ≡ insert_pair q (insert_pair p pairs)
unfolding insert_pair
insert_pair_comm p q [] = ground (arith, le_pair_total p q, le_pair_antisymm p q)
insert_pair_comm p q (r ∷ pairs) = ground (
  arith,
  insert_pair_comm p q pairs,
  le_pair_total p q,
  le_pair_antisymm p q,
  le_pair_total p r,
  le_pair_total q r,
  le_pair_trans p q r,
  le_pair_trans q p r,
)

sort-Perm : (ps qs : List Pair) → Permᴰ ps qs → sort ps ≡ sort qs
unfolding sort
sort-Perm ps qs Permᴰ.nil = refl
sort-Perm ps qs (Permᴰ.cons {b = b} {l₁ = l} {l₂ = m} e d) =
    rw e (ap (insert_pair b) (sort-Perm l m d))
sort-Perm ps qs (Permᴰ.swap {a = a} {b = b} {l = l} e f) =
    rw (← e, ← f) (insert_pair_comm a b (sort l))
sort-Perm ps qs (Permᴰ.trans {l₂ = m} d e) = sort-Perm ps m d ∙ sort-Perm m qs e

Perm-map : {A B : Type 0} (f : A → B) (l m : List A) → Permᴰ l m → Permᴰ (map f l) (map f m)
Perm-map f l m Permᴰ.nil = Permᴰ.nil
Perm-map f l m (Permᴰ.cons {l₁ = l'} {l₂ = m'} e d) = Permᴰ.cons (ap f e) (Perm-map f l' m' d)
Perm-map f l m (Permᴰ.swap {l = l'} e e') = Permᴰ.swap (ap f e) (ap f e')
Perm-map f l m (Permᴰ.trans {l₂ = n} d e) = Permᴰ.trans (Perm-map f l n d) (Perm-map f n m e)

length-Perm : {A : Type 0} (l m : List A) → Permᴰ l m → length l ≡ length m
length-Perm l m Permᴰ.nil = refl
length-Perm l m (Permᴰ.cons {l₁ = l'} {l₂ = m'} e d) = ap suc (length-Perm l' m' d)
length-Perm l m (Permᴰ.swap e e') = refl
length-Perm l m (Permᴰ.trans {l₂ = n} d e) = length-Perm l n d ∙ length-Perm n m e

module _ ⦃x : External⦄ where
  -- The hash of the stores is the same in whatever order they are listed.
  pub hash_store_infos-Perm :
      (infos others : List StoreInfo)
      → Permᴰ infos others
      → hash_store_infos infos ≡ hash_store_infos others
  unfolding hash_store_infos
  hash_store_infos-Perm [] [] d = refl
  hash_store_infos-Perm [] (i ∷ others) d = absurd (omega (arith, length-Perm _ _ d))
  hash_store_infos-Perm (i ∷ infos) [] d = absurd (omega (arith, length-Perm _ _ d))
  hash_store_infos-Perm (i ∷ infos) (j ∷ others) d =
      ap (λ pairs. Merkle.root_hash (suc (length (map to_bytes pairs))) (map to_bytes pairs))
        (sort-Perm _ _ (Perm-map to_pair (i ∷ infos) (j ∷ others) d))

-- ===== src/Trees/Iavl/Save.antt =====
-- `NodeDB::save_tree` as a list of writes, and what the database holds after it.
use doge_sdk.Base.{
  ◌≡◌, refl, sym, ap, ◌∙◌, Option, none, some, List, [], ◌∷◌, ◌++◌, All, All-append_left,
  All-append_right,
}
use std.Path.{subst}
use doge_sdk.Base.Bytes.{Bytes}
use doge_sdk.Database.Record.{Database}
use doge_sdk.Trees.External.{External}
use doge_sdk.Trees.Outcome.{ok, expect, bind-eq-ok, ok-injective}
use doge_sdk.Trees.Iavl.Node.{Node, leaf, inner, Child, absent, loaded, clear_children, serialize}
use doge_sdk.Trees.Iavl.Node.Codec.{InRange}
use doge_sdk.Trees.Iavl.NodeDb.{get_node_key, get_node, save_node, recursive_tree_save, save_child}
use doge_sdk.Trees.Iavl.Rotate.{load}
use doge_sdk.Trees.Iavl.Shape.{Shape, Loads}

-- The nodes in memory, each under the hash that it is saved under, in the order of the writes.
unfoldable mutual
  pub pending : Node → Bytes → List (Bytes × Node)
  pending (leaf key value version) h = (h, leaf key value version) ∷ []
  pending (inner l r m) h =
      pending_child l m.left_hash ++ (pending_child r m.right_hash ++ (h, inner l r m) ∷ [])

  pub pending_child : Child → Bytes → List (Bytes × Node)
  pending_child absent h = []
  pending_child (loaded n) h = pending n h

module _ ⦃x : External⦄ {S : Type 0} ⦃d : Database S⦄ where
  unfoldable pub put_nodes : S → List (Bytes × Node) → S
  put_nodes db [] = db
  put_nodes db ((h, n) ∷ rest) = put_nodes (save_node db n h) rest

  put_nodes-append :
      (db : S) (xs ys : List (Bytes × Node))
      → put_nodes db (xs ++ ys) ≡ put_nodes (put_nodes db xs) ys
  unfolding put_nodes
  put_nodes-append db [] ys = refl
  put_nodes-append db (w ∷ xs) ys = put_nodes-append (save_node db w.1 w.0) xs ys

  -- A tree is saved by the writes of its nodes in memory.
  mutual
    unfolding recursive_tree_save put_nodes pending

    pub recursive_tree_save-eq-put_nodes :
        (db : S) (n : Node) (h : Bytes) → recursive_tree_save db n h ≡ put_nodes db (pending n h)
    recursive_tree_save-eq-put_nodes db (leaf key value version) h = refl
    recursive_tree_save-eq-put_nodes db (inner l r m) h =
        let left = pending_child l m.left_hash in
        let right = pending_child r m.right_hash in
        let last = (h, inner l r m) ∷ [] in
        let e1 = save_child-eq-put_nodes db l m.left_hash in
        let e2 = save_child-eq-put_nodes (put_nodes db left) r m.right_hash in
        ap (λ s. save_node (save_child s r m.right_hash) (inner l r m) h) e1
        ∙ ap (λ s. save_node s (inner l r m) h) e2
        ∙ sym (
            put_nodes-append db left (right ++ last)
            ∙ put_nodes-append (put_nodes db left) right last)

    save_child-eq-put_nodes :
        (db : S) (c : Child) (h : Bytes) → save_child db c h ≡ put_nodes db (pending_child c h)
    save_child-eq-put_nodes db absent h = refl
    save_child-eq-put_nodes db (loaded n) h = recursive_tree_save-eq-put_nodes db n h

pub expect-eq-ok : {A : Type 0} (o : Option A) (a : A) → expect o ≡ ok a → o ≡ some a
expect-eq-ok none a h = cc
expect-eq-ok (some b) a h = cc

-- `content` says which bytes belong under a hash. The database keeps to it.
abbrev pub IsAddressed :
    ⦃x : External⦄ → {S : Type 0} → ⦃d : Database S⦄ → (Bytes → Bytes) → S → Type 0
IsAddressed ⦃d = d⦄ content db =
    (h bytes : Bytes) → d.get db (get_node_key h) ≡ some bytes → bytes ≡ content h

-- The nodes in memory keep to it, and can be read back.
abbrev pub IsSaveable : ⦃x : External⦄ → (Bytes → Bytes) → List (Bytes × Node) → Type 0
IsSaveable content = All (λ w. InRange w.1 × (serialize w.1 ≡ content w.0))

module _ ⦃x : External⦄ {S : Type 0} ⦃d : Database S⦄ where
  -- Every node that the first database gives, the second one gives too.
  abbrev pub Keeps : S → S → Type 0
  Keeps db db' = (h : Bytes) (n : Node) → get_node db h ≡ ok (some n) → get_node db' h ≡ ok (some n)

  load-absent :
      (db : S) (h : Bytes) (n : Node) → load db absent h ≡ ok n → get_node db h ≡ ok (some n)
  unfolding load
  load-absent db h n e =
      let (found, e1, e2) = bind-eq-ok (get_node db h) expect e in
      e1 ∙ ap (λ o. ok o) (expect-eq-ok found n e2)

  pub get_node-load :
      (db : S) (h : Bytes) (n : Node) → get_node db h ≡ ok (some n) → load db absent h ≡ ok n
  unfolding load
  get_node-load db h n e = rw (load, e) refl

  load-Keeps :
      (db db' : S) (c : Child) (h : Bytes) (n : Node)
      → Keeps db db'
      → load db c h ≡ ok n
      → load db' c h ≡ ok n
  unfolding load
  load-Keeps db db' absent h n k e = get_node-load db' h n (k h n (load-absent db h n e))
  load-Keeps db db' (loaded c) h n k e = e

  -- What stands for a tree stands for it in a database that keeps the nodes.
  pub Loads-Keeps :
      (db db' : S) (n : Node) (t : Shape) → Keeps db db' → Loads db n t → Loads db' n t
  Loads-Keeps db db' n t k (Loads.leaf key value version) = Loads.leaf key value version
  Loads-Keeps db db' n t k (Loads.inner l r m {nl} {nr} {tl} {tr} el er a b) =
      Loads.inner l r m (load-Keeps db db' l m.left_hash nl k el)
        (load-Keeps db db' r m.right_hash nr k er) (Loads-Keeps db db' nl tl k a)
        (Loads-Keeps db db' nr tr k b)

  -- Every node of the list is stored.
  abbrev pub AreStored : S → List (Bytes × Node) → Type 0
  AreStored db = All (λ w. get_node db w.0 ≡ ok (some (clear_children w.1)))

  pub AreStored-root :
      (db : S) (n : Node) (h : Bytes)
      → AreStored db (pending n h)
      → get_node db h ≡ ok (some (clear_children n))
  unfolding pending
  AreStored-root db (leaf key value version) h s = s.0
  AreStored-root db (inner l r m) h s =
      let right =
        All-append_right _ (pending_child l m.left_hash)
          (pending_child r m.right_hash ++ (h, inner l r m) ∷ []) s in
      (All-append_right _ (pending_child r m.right_hash) ((h, inner l r m) ∷ []) right).0

  -- A child is found under its hash, if it was before or has been stored.
  load-child :
      (db db' : S) (c : Child) (h : Bytes) (n : Node) (t : Shape)
      → Keeps db db'
      → load db c h ≡ ok n
      → AreStored db' (pending_child c h)
      → Loads db n t
      → (AreStored db' (pending n h) → Loads db' (clear_children n) t)
      → (n' : Node) × (load db' absent h ≡ ok n') × Loads db' n' t
  unfolding load pending
  load-child db db' absent h n t k e s l saved =
      (n, load-Keeps db db' absent h n k e, Loads-Keeps db db' n t k l)
  load-child db db' (loaded c) h n t k e s l saved =
      let same : c ≡ n = ok-injective e in
      let s' = subst (λ m. AreStored db' (pending m h)) same s in
      (
        clear_children n,
        get_node-load db' h (clear_children n) (AreStored-root db' n h s'),
        saved s',
      )

  -- A node stands for its tree without the children in memory, where all of them are stored.
  pub Loads-clear_children :
      (db db' : S) (n : Node) (h : Bytes) (t : Shape)
      → Keeps db db'
      → AreStored db' (pending n h)
      → Loads db n t
      → Loads db' (clear_children n) t
  unfolding clear_children pending
  Loads-clear_children db db' n h t k s (Loads.leaf key value version) =
      Loads.leaf key value version
  Loads-clear_children db db' n h t k s (Loads.inner l r m {nl} {nr} {tl} {tr} el er a b) =
      let left = pending_child l m.left_hash in
      let right = pending_child r m.right_hash in
      let sl = All-append_left _ left (right ++ (h, inner l r m) ∷ []) s in
      let sr =
        All-append_left _ right ((h, inner l r m) ∷ [])
          (All-append_right _ left (right ++ (h, inner l r m) ∷ []) s) in
      let (nl', fl, a') =
        load-child db db' l m.left_hash nl tl k el sl a
          (λ q. Loads-clear_children db db' nl m.left_hash tl k q a) in
      let (nr', fr, b') =
        load-child db db' r m.right_hash nr tr k er sr b
          (λ q. Loads-clear_children db db' nr m.right_hash tr k q b) in
      Loads.inner absent absent m fl fr a' b'

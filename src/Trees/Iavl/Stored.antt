-- ===== src/Trees/Iavl/Stored.antt =====
-- What the database holds after nodes are saved in it.
use doge_sdk.Base.{
  ◌≡◌, refl, sym, ap, ◌∙◌, true, ◌⊎◌, inl, inr, Option-cases, some, Bool-cases, List, [], ◌∷◌,
  arith,
}
use doge_sdk.Base.Bytes.{Bytes, eq_bytes, eq_of_cmp, cmp_refl}
use doge_sdk.Database.Record.{Database, IsLawful}
use doge_sdk.Trees.External.{External, IsLawful as IsLawfulExternal}
use doge_sdk.Trees.Outcome.{ok, expect_ok, ◌>>=◌}
use doge_sdk.Trees.Iavl.Node.{Node, clear_children, serialize, deserialize}
use doge_sdk.Trees.Iavl.Node.Codec.{deserialize-serialize}
use doge_sdk.Trees.Iavl.NodeDb.{get_node_key, get_node, save_node}
use doge_sdk.Trees.Iavl.Save.{IsAddressed, IsSaveable, put_nodes, Keeps, AreStored}

some-injective : {A : Type 0} {a b : A} → some a ≡ some b → a ≡ b
some-injective h = cc

node_key-eq : (j h : Bytes) → eq_bytes (get_node_key j) (get_node_key h) ≡ true → j ≡ h
unfolding get_node_key
node_key-eq j h e = let same : 2 ∷ j ≡ 2 ∷ h = eq_of_cmp (2 ∷ j) (2 ∷ h) (ground arith) in cc same

module _ ⦃x : External⦄ {S : Type 0} ⦃d : Database S⦄ (law : IsLawful d)
    (content : Bytes → Bytes) where
  -- What the node's hash gives, and what any other does.
  get-save_node :
      (db : S) (n : Node) (h j : Bytes)
      → (j ≡ h) × (d.get (save_node db n h) (get_node_key j) ≡ some (serialize n))
        ⊎ (d.get (save_node db n h) (get_node_key j) ≡ d.get db (get_node_key j))
  unfolding save_node
  get-save_node db n h j =
      let put = law.get-put db (get_node_key j) (get_node_key h) (serialize n) in
      elim (Bool-cases (eq_bytes (get_node_key j) (get_node_key h))) [
        | inl e ↦ inl (node_key-eq j h e, put ∙ (rw e refl))
        | inr e ↦ inr (put ∙ (rw e refl))
      ]

  get-save_node_own :
      (db : S) (n : Node) (h : Bytes)
      → d.get (save_node db n h) (get_node_key h) ≡ some (serialize n)
  unfolding save_node
  get-save_node_own db n h =
      law.get-put db (get_node_key h) (get_node_key h) (serialize n)
      ∙ rw (eq_bytes, cmp_refl (get_node_key h)) refl

  -- Bytes that are stored stay, and the database keeps to the content.
  pub save_node-kept :
      (db : S) (n : Node) (h j bytes : Bytes)
      → IsAddressed content db
      → serialize n ≡ content h
      → d.get db (get_node_key j) ≡ some bytes
      → d.get (save_node db n h) (get_node_key j) ≡ some bytes
  save_node-kept db n h j bytes a e g = elim (get-save_node db n h j) [
    | inl (same, put) ↦ put ∙ ap (λ b. some b) (e ∙ ap content (sym same) ∙ sym (a j bytes g))
    | inr put ↦ put ∙ g
  ]

  save_node-IsAddressed :
      (db : S) (n : Node) (h : Bytes)
      → IsAddressed content db
      → serialize n ≡ content h
      → IsAddressed content (save_node db n h)
  save_node-IsAddressed db n h a e j bytes g = elim (get-save_node db n h j) [
    | inl (same, put) ↦
        let own : serialize n ≡ bytes = some-injective (sym put ∙ g) in
        sym own ∙ e ∙ ap content (sym same)
    | inr put ↦ a j bytes (sym put ∙ g)
  ]

  put_nodes-kept :
      (db : S) (ws : List (Bytes × Node)) (j bytes : Bytes)
      → IsAddressed content db
      → IsSaveable content ws
      → d.get db (get_node_key j) ≡ some bytes
      → d.get (put_nodes db ws) (get_node_key j) ≡ some bytes
  unfolding put_nodes
  put_nodes-kept db [] j bytes a s g = g
  put_nodes-kept db ((h, n) ∷ ws) j bytes a s g =
      put_nodes-kept (save_node db n h) ws j bytes (save_node-IsAddressed db n h a s.0.1) s.1
        (save_node-kept db n h j bytes a s.0.1 g)

  pub put_nodes-IsAddressed :
      (db : S) (ws : List (Bytes × Node))
      → IsAddressed content db
      → IsSaveable content ws
      → IsAddressed content (put_nodes db ws)
  unfolding put_nodes
  put_nodes-IsAddressed db [] a s = a
  put_nodes-IsAddressed db ((h, n) ∷ ws) a s =
      put_nodes-IsAddressed (save_node db n h) ws (save_node-IsAddressed db n h a s.0.1) s.1

  get_node-deserialize :
      (db : S) (h bytes : Bytes) (n : Node)
      → d.get db (get_node_key h) ≡ some bytes
      → deserialize bytes ≡ ok n
      → get_node db h ≡ ok (some n)
  unfolding get_node
  get_node-deserialize db h bytes n g e = rw (get_node, g, e) refl

  pub get_node-some :
      (db : S) (h : Bytes) (n : Node)
      → get_node db h ≡ ok (some n)
      → (bytes : Bytes) × (d.get db (get_node_key h) ≡ some bytes)
        × (get_node db h ≡ (do n ← expect_ok (deserialize bytes); ok (some n)))
  unfolding get_node
  get_node-some db h n e = elim (Option-cases (d.get db (get_node_key h))) [
    | inl k ↦ ground (arith, e, k)
    | inr (bytes, k) ↦ (bytes, k, rw (get_node, k) refl)
  ]

  -- The nodes that the database gives are given still.
  pub put_nodes-Keeps :
      (db : S) (ws : List (Bytes × Node))
      → IsAddressed content db
      → IsSaveable content ws
      → Keeps db (put_nodes db ws)
  unfolding get_node
  put_nodes-Keeps db ws a s h n g =
      let (bytes, k, e) = get_node-some db h n g in
      rw (get_node, put_nodes-kept db ws h bytes a s k) (sym e ∙ g)

  pub put_nodes-AreStored :
      IsLawfulExternal x
      → (db : S) (ws : List (Bytes × Node)) → IsAddressed content db
      → IsSaveable content ws
      → AreStored (put_nodes db ws) ws
  unfolding put_nodes
  put_nodes-AreStored crates db [] a s = tt
  put_nodes-AreStored crates db ((h, n) ∷ ws) a s =
      let a' = save_node-IsAddressed db n h a s.0.1 in
      let g =
        put_nodes-kept (save_node db n h) ws h (serialize n) a' s.1 (get-save_node_own db n h) in
      (
        get_node-deserialize (put_nodes (save_node db n h) ws) h (serialize n) (clear_children n) g
            (deserialize-serialize crates n s.0.0),
        put_nodes-AreStored crates (save_node db n h) ws a' s.1,
      )

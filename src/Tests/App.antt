-- ===== src/Tests/App.antt =====
-- The application at concrete inputs: a message is a byte, and 9 fails after it has written.
use doge_sdk.Base.{
  ℕ, ◌+◌, ◌%◌, ◌^◌, All, ◌≡◌, refl, sym, ap, ◌∙◌, ◌⊎◌, none, some, List, [], ◌∷◌, ◌==◌,
  if◌then◌else◌,
}
use doge_sdk.Base.Bytes.{Bytes, cmp}
use doge_sdk.Base.BTreeMap.{insert}
use doge_sdk.Trees.Iavl.TreeLaws.{set_all}
use doge_sdk.Trees.Iavl.Set.{recursive_set}
use doge_sdk.Database.Prefix.{Separate}
use doge_sdk.Store.MultiStore.Commit.{commit_over, db_of}
use doge_sdk.Store.MultiStore.Isolation.{SameView, AreClean, names as names_of, commit_over-leaves}
use doge_sdk.Database.Memory.{MemDb, mem_database, mem_database-IsLawful, new, prefix_iterator}
use doge_sdk.Trees.Outcome.{Outcome, ok, ok-injective}
use doge_sdk.Store.KvStore
use doge_sdk.Store.KvStore.{KvStore}
use doge_sdk.Trees.Iavl.Tree
use doge_sdk.Database.Prefix.{prefix_database}
use doge_sdk.Store.MultiStore
use doge_sdk.Store.MultiStore.{MultiStore, IsSettled, clear_tx_caches, write_then_clear_tx_caches}
use doge_sdk.Base.Tried.{Tried, done, failed}
use doge_sdk.App.{TxContext, Handlers, BaseApp, run_tx}
use doge_sdk.App.Atomic.{OnlyPending, IsKept, run_tx-IsKept}
use doge_sdk.App.Sync.{InSync}
use doge_sdk.App.Failed.{AnteOnly, run_tx-failed}
use doge_sdk.App.Calls
use doge_sdk.App.Calls.{
  Chain, InitContext, Reach, started, called, begin_block_step, deliver_tx_step, commit_step,
}
use doge_sdk.App.Reach.{AllPending, Reach-InSync}
use doge_sdk.Tests.Crates.{crates}

abbrev Context : Type 0
Context = TxContext MemDb ℕ ℕ

-- Puts a byte in the transaction cache of every store.
abbrev pend : ℕ → List (Bytes × KvStore MemDb) → List (Bytes × KvStore MemDb)
pend n [] = []
pend n ((k, s) ∷ rest) = (k, record s { tx_cache = (n ∷ [], n ∷ []) ∷ [] }) ∷ pend n rest

abbrev write : ℕ → Context → Context
write n ctx = record ctx {
  multi_store = record ctx.multi_store { stores = pend n ctx.multi_store.stores };
  events = n ∷ ctx.events;
}

unfoldable handlers : Handlers MemDb ℕ ℕ Bytes ℕ ℕ
handlers = record {
  from_bytes = λ raw. ok (done raw);
  get_msgs = λ tx. tx;
  must_contain_a_message = 1;
  validate_basic = λ msg. done tt;
  ante = λ ctx tx. ok (done tt, write 0 ctx);
  handle_tx = λ ctx msg. ok (if msg == 9 then failed 2 else done tt, write msg ctx);
}

clear-pend :
    (n : ℕ) (stores : List (Bytes × KvStore MemDb))
    → MultiStore.clear_stores (pend n stores) ≡ MultiStore.clear_stores stores
unfolding MultiStore.clear_stores
clear-pend n [] = refl
clear-pend n ((k, s) ∷ rest) = ap (λ r. (k, record s { tx_cache = [] }) ∷ r) (clear-pend n rest)

clear-write :
    (n : ℕ) (ctx ctx' : Context) (r r' : Tried ℕ Unit)
    → ◌≡◌ {A = Outcome (Tried ℕ Unit × Context)} (ok (r', write n ctx)) (ok (r, ctx'))
    → clear_tx_caches ctx'.multi_store ≡ clear_tx_caches ctx.multi_store
unfolding clear_tx_caches
clear-write n ctx ctx' r r' h =
    sym (ap (λ (q : Tried ℕ Unit × Context). clear_tx_caches (q.1).multi_store) (ok-injective h))
    ∙ ap (λ s. record ctx.multi_store { stores = s }) (clear-pend n ctx.multi_store.stores)

handlers-OnlyPending : OnlyPending handlers
unfolding handlers
handlers-OnlyPending = record {
  clear-ante = λ ctx ctx' tx r h. clear-write 0 ctx ctx' r (done tt) h;
  clear-handle_tx =
      λ ctx ctx' msg r h. clear-write msg ctx ctx' r (if msg == 9 then failed 2 else done tt) h;
}

unfoldable chain : Chain MemDb ℕ ℕ ℕ Bytes ℕ ℕ ℕ Bytes
chain = record {
  handlers = handlers;
  header_try_from = λ n. some n;
  parse_genesis = λ b. some b;
  set_consensus_params = λ ctx params. ok ctx;
  handle_init_genesis = λ ctx genesis. ok ctx;
  handle_query = λ m path key. ok (done key);
}

chain-AllPending : AllPending chain
unfolding chain
chain-AllPending = record {
  handlers-OnlyPending = handlers-OnlyPending;
  clear-set_consensus_params = λ ctx ctx' params h.
      sym (ap (λ (u : InitContext MemDb ℕ). clear_tx_caches u.multi_store) (ok-injective h));
  clear-handle_init_genesis = λ ctx ctx' genesis h.
      sym (ap (λ (u : InitContext MemDb ℕ). clear_tx_caches u.multi_store) (ok-injective h));
}

-- One store, "b", over an empty database, and the calls of one block.
abbrev store_names : List Bytes
store_names = (98 ∷ []) ∷ []

abbrev app_of : {A : Type 0} → Outcome (A × BaseApp MemDb ℕ) → BaseApp MemDb ℕ → BaseApp MemDb ℕ
app_of (ok (r, a)) other = a
app_of _ other = other

abbrev opened : Outcome (BaseApp MemDb ℕ) → BaseApp MemDb ℕ
opened (ok a) = a
opened _ = record {
  multi_store = record { head_version = 0; head_commit_hash = []; stores = [] };
  height = 0;
  block_header = none;
}

unfoldable app : BaseApp MemDb ℕ
unfolding Calls.new
app = opened (Calls.new new store_names)

app-started : Calls.new new store_names ≡ ok app
unfolding app Calls.new KvStore.new Tree.new prefix_database mem_database prefix_iterator
app-started = refl

unfoldable app_in_block : BaseApp MemDb ℕ
unfolding Calls.begin_block
app_in_block = opened (Calls.begin_block chain app (some 5))

app-in_block : Calls.begin_block chain app (some 5) ≡ ok app_in_block
unfolding app_in_block Calls.begin_block Calls.set_block_header chain
app-in_block = refl

in_block-IsSettled : IsSettled app_in_block.multi_store
unfolding app app_in_block Calls.begin_block Calls.set_block_header chain Calls.new KvStore.new
    Tree.new prefix_database mem_database prefix_iterator clear_tx_caches MultiStore.clear_stores
in_block-IsSettled = refl

-- The second message fails after both have written.
unfoldable app_after_failure : BaseApp MemDb ℕ
unfolding run_tx
app_after_failure = app_of (run_tx handlers app_in_block (3 ∷ 9 ∷ [])) app_in_block

run_tx-of_failure : run_tx handlers app_in_block (3 ∷ 9 ∷ []) ≡ ok (failed 2, app_after_failure)
unfolding app_after_failure run_tx handlers app_in_block Calls.begin_block Calls.set_block_header
    chain
run_tx-of_failure = refl

run_tx-failed_example :
    (app_after_failure ≡ app_in_block)
    ⊎ ((header : ℕ) × (tx : Bytes) × (handlers.from_bytes (3 ∷ 9 ∷ []) ≡ ok (done tx))
        × (app_in_block.block_header ≡ some header)
        × AnteOnly handlers handlers-OnlyPending app_in_block app_after_failure header
            (3 ∷ 9 ∷ [])
            tx)
run_tx-failed_example =
    run_tx-failed handlers handlers-OnlyPending app_in_block app_after_failure (3 ∷ 9 ∷ []) 2
      in_block-IsSettled run_tx-of_failure

run_tx-IsKept_example : IsKept handlers handlers-OnlyPending app_in_block app_after_failure
run_tx-IsKept_example =
    run_tx-IsKept handlers handlers-OnlyPending app_in_block app_after_failure (3 ∷ 9 ∷ [])
      (failed 2) in_block-IsSettled run_tx-of_failure

unfoldable app_delivered : BaseApp MemDb ℕ
unfolding Calls.deliver_tx
app_delivered = app_of (Calls.deliver_tx chain app_in_block (3 ∷ 4 ∷ [])) app_in_block

deliver_tx-of_pair :
    Calls.deliver_tx chain app_in_block (3 ∷ 4 ∷ [])
    ≡ ok (record { code = 0; events = 4 ∷ 3 ∷ [] }, app_delivered)
unfolding app_delivered Calls.deliver_tx run_tx handlers app_in_block Calls.begin_block
    Calls.set_block_header chain
deliver_tx-of_pair = refl

app_reached : Reach chain 255 new store_names app_delivered
app_reached =
    called (called (started app-started) (begin_block_step (some 5) app-in_block))
      (deliver_tx_step (3 ∷ 4 ∷ []) (record { code = 0; events = 4 ∷ 3 ∷ [] }) deliver_tx-of_pair)

-- The commit of what was delivered.
unfoldable app_committed : BaseApp MemDb ℕ
unfolding Calls.commit
app_committed = app_of (Calls.commit 255 app_delivered) app_delivered

abbrev response_of : Outcome (Calls.ResponseCommit × BaseApp MemDb ℕ) → Calls.ResponseCommit
response_of (ok (r, a)) = r
response_of _ = record { app_hash = []; retain_height = 0 }

unfoldable response : Calls.ResponseCommit
unfolding Calls.commit
response = response_of (Calls.commit 255 app_delivered)

commit-of_delivered : Calls.commit 255 app_delivered ≡ ok (response, app_committed)
unfolding response app_committed app_delivered Calls.commit Calls.deliver_tx run_tx handlers
    app_in_block Calls.begin_block Calls.set_block_header chain app Calls.new KvStore.new Tree.new
    prefix_database mem_database prefix_iterator MultiStore.clear_stores KvStore.commit
    write_then_clear_tx_caches set_all insert cmp recursive_set Tree.save_version
    KvStore.last_committed_version
commit-of_delivered = refl

Reach-InSync_example : InSync store_names app_committed
Reach-InSync_example =
    Reach-InSync chain chain-AllPending mem_database-IsLawful 255 new store_names app_committed
      (called app_reached (commit_step response commit-of_delivered))

commit_over-of_delivered :
    commit_over 255 new app_delivered.multi_store
    ≡ ok (response.app_hash, app_committed.multi_store)
unfolding response app_committed app_delivered Calls.commit Calls.deliver_tx run_tx handlers
    app_in_block Calls.begin_block Calls.set_block_header chain app Calls.new KvStore.new Tree.new
    prefix_database mem_database prefix_iterator MultiStore.clear_stores KvStore.commit
    write_then_clear_tx_caches set_all insert cmp recursive_set Tree.save_version
    KvStore.last_committed_version commit_over
commit_over-of_delivered = refl

commit_over-leaves_example :
    (db' : MemDb) × (app_committed.multi_store.head_version
      ≡ (app_delivered.multi_store.head_version + 1) % 2 ^ 64)
    × (app_committed.multi_store.head_commit_hash ≡ response.app_hash)
    × (names_of app_committed.multi_store.stores ≡ names_of app_delivered.multi_store.stores)
    × AreClean app_committed.multi_store.stores
    × All (λ e. db_of e.1 ≡ db') app_committed.multi_store.stores
    × ((q : Bytes)
        → All (λ p. Separate q p) (names_of app_delivered.multi_store.stores)
        → SameView q new db')
commit_over-leaves_example =
    commit_over-leaves mem_database-IsLawful 255 new app_delivered.multi_store
      app_committed.multi_store response.app_hash commit_over-of_delivered

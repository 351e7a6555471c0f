-- ===== src/Chain/Reorg.antt =====
-- `_disconnect_block` on the storage that `_connect_block` left.
use scarlet_coin.Prelude.{
  ℕ, ◌+◌, ◌-◌, ◌≡◌, refl, ◌∙◌, sym, ap, subst, Bool, true, false, none, some, List, [], ◌∷◌, arith,
  append-nil, ltb, if◌then◌else◌, inl, inr, Bool-cases, Option-cases, All,
}
use scarlet_coin.Prelude.Bytes.{Bytes, bytes_eq, bytes_eq_iff, bytes_eq_refl}
use scarlet_coin.Outcome.{ok, map_ok-eq-ok, raise_if, >>=-eq-ok, >>_iff, connect_error}
use scarlet_coin.Crypto.{Crypto}
use scarlet_coin.Params.{ChainParams, subsidy}
use scarlet_coin.Transaction.Sanity.{outpoint_eq_iff, outpoint_eq_refl}
use scarlet_coin.Transaction.{OutPoint, outpoint_eq, Transaction, total_output}
use scarlet_coin.Transaction.Codec.{txid}
use scarlet_coin.Utxo.{Coin, CoinView, Coins, find, get_coin, overlay}
use scarlet_coin.Utxo.Tables.{IsTable}
use scarlet_coin.Utxo.Layers.{commit, find-commit, put_all}
use scarlet_coin.Block.{Block, coinbase_of}
use scarlet_coin.Block.Codec.{txids}
use scarlet_coin.Storage.{
  Storage, Spent, write_undo, BlockRow, TxLocation, HistoryRow, put_undo, get_undo, find_undo,
  delete_undo, mark, set_in_chain, active_at, prune_undo_behind, find_block, unindex_transactions,
}
use scarlet_coin.Storage.UndoTrip.{IsEntry, get_undo-put_undo}
use scarlet_coin.Chain.Index.{index_block, index_transaction}
use scarlet_coin.Chain.Connect.{
  Progress, undo_keep_blocks, start, write_block, connect_block, connect_transactions,
}
use scarlet_coin.Chain.Disconnect.{remove_outputs, undo_block, disconnect_block}
use scarlet_coin.Chain.Steps.{connect_transactions-Shows}
use scarlet_coin.Chain.Supply.{utxo-write_block, start-Shows}
use scarlet_coin.Chain.Undoing.{IsUndoing, among}
use scarlet_coin.Chain.Restore.{AreNew, connect_transactions-IsUndoable, restored}

find_block-mark :
    (id k : Bytes) (b : Bool) (rows : List BlockRow)
    → find_block id (mark k b rows) ≡ find_block id rows
unfolding find_block mark
find_block-mark id k b [] = refl
find_block-mark id k b (row ∷ rows) = ground (arith, find_block-mark id k b rows)

-- The rows of a block's id have its height.
abbrev pub HaveHeight : Bytes → ℕ → List BlockRow → Type 0
HaveHeight id height = All (λ (row : BlockRow). bytes_eq id row.id ≡ true → row.height ≡ height)

active_at-mark :
    (id : Bytes) (height at : ℕ) (rows : List BlockRow)
    → HaveHeight id height rows
    → active_at at (mark id true rows) ≡ some id
    → at ≡ height
unfolding active_at mark
active_at-mark id height at [] h e = cc
active_at-mark id height at (row ∷ rows) h e =
    ground (arith, active_at-mark id height at rows h.1, bytes_eq_refl id)

find_undo-delete_undo :
    (id k : Bytes) (rows : List (Bytes × Bytes))
    → bytes_eq k id ≡ false
    → find_undo id (delete_undo k rows) ≡ find_undo id rows
unfolding find_undo delete_undo
find_undo-delete_undo id k [] h = refl
find_undo-delete_undo id k ((q, bytes) ∷ rows) h =
    ground (
      arith,
      find_undo-delete_undo id k rows,
      bytes_eq_iff k q,
      bytes_eq_iff id q,
      bytes_eq_iff k id,
    )

get_undo_same :
    (id : Bytes) (s s' : Storage)
    → find_undo id s.undo ≡ find_undo id s'.undo
    → get_undo id s ≡ get_undo id s'
unfolding get_undo
get_undo_same id s s' e = rw (e, get_undo) refl

-- Pruning the undo data behind a block keeps its own.
get_undo-prune_undo_behind :
    (id : Bytes) (height : ℕ) (s : Storage) (rows : List BlockRow)
    → s.blocks ≡ mark id true rows
    → HaveHeight id height rows
    → get_undo id (prune_undo_behind height undo_keep_blocks s) ≡ get_undo id s
unfolding prune_undo_behind
get_undo-prune_undo_behind id height s rows e h = elim (Bool-cases (ltb height undo_keep_blocks)) [
  | inl x ↦ rw x refl
  | inr x ↦ elim (Option-cases (active_at (height - undo_keep_blocks) s.blocks)) [
    | inl y ↦ rw (x, y) refl
    | inr (k, y) ↦
        rw (x, y) (get_undo_same id _ s (find_undo-delete_undo id k s.undo (other k x y)))
  ]
]
  where
    other :
        (k : Bytes)
        → ltb height undo_keep_blocks ≡ false
        → active_at (height - undo_keep_blocks) s.blocks ≡ some k
        → bytes_eq k id ≡ false
    other k x y = elim (Bool-cases (bytes_eq k id)) [
      | inr z ↦ z
      | inl z ↦
          let same : k ≡ id = (bytes_eq_iff k id).0 z in
          let at : height - undo_keep_blocks ≡ height =
            active_at-mark id height (height - undo_keep_blocks) rows h (
              subst (λ t. active_at (height - undo_keep_blocks) t ≡ some id) e
                (y ∙ ap (λ t. some t) same)) in
          absurd (ground arith)
    ]

-- The index changes no other table.
index_block_keeps :
    {B : Type 0} (f : Storage → B)
    → ((s : Storage) (l : List TxLocation) (r : List HistoryRow)
        → f (record s { locations = l; history = r }) ≡ f s)
    → (c : Crypto) (id : Bytes) (height : ℕ) (spent : Coins) (position : ℕ) (txs : List Transaction)
      (s s' : Storage)
    → index_block c id height spent position txs s ≡ ok s'
    → f s' ≡ f s
unfolding index_block index_transaction
index_block_keeps f k c id height spent position [] s s' h = sym (ap f (value h))
  where
    value : {x y : Storage} → ok x ≡ ok y → x ≡ y
    value e = cc
index_block_keeps f k c id height spent position (tx ∷ txs) s s' h =
    let (s1, a, b) = >>=-eq-ok (index_transaction c id height spent position tx s) _ h in
    let (x, d, e) = >>=-eq-ok (txid c tx) _ a in
    index_block_keeps f k c id height spent (position + 1) txs s1 s' b
    ∙ (sym (ap f (value e)) ∙ k s _ _)
  where
    value : {x y : Storage} → ok x ≡ ok y → x ≡ y
    value e = cc

-- Entries that are all found in a table satisfy what its coins do.
All-find :
    (P : OutPoint × Coin → Type 0) (spent : Spent)
    → IsTable spent
    → ((p : OutPoint) (coin : Coin) → find p spent ≡ some coin → P (p, coin))
    → All P spent
unfolding find
All-find P [] t h = tt
All-find P ((p, coin) ∷ spent) t h =
    (h p coin (rw (outpoint_eq_refl p) refl), All-find P spent t.1 (λ q d x. h q d (later q d x)))
  where
    later :
        (q : OutPoint) (d : Coin)
        → find q spent ≡ some d
        → (if outpoint_eq q p then some coin else find q spent) ≡ some d
    later q d x = ground (arith, outpoint_eq_iff q p, t.0)

blocks-prune_undo_behind :
    (height depth : ℕ) (s : Storage) → (prune_undo_behind height depth s).blocks ≡ s.blocks
unfolding prune_undo_behind
blocks-prune_undo_behind height depth s = elim (Bool-cases (ltb height depth)) [
  | inl x ↦ rw x refl
  | inr x ↦ elim (Option-cases (active_at (height - depth) s.blocks)) [
    | inl y ↦ rw (x, y) refl
    | inr (id, y) ↦ rw (x, y) refl
  ]
]

start-IsUndoing : (s : Storage) → IsUndoing s.utxo (start s)
unfolding overlay get_coin find
start-IsUndoing s = record {
  table = tt;
  known = λ p coin x. absurd (cc x);
  gone = λ p coin x y. absurd (cc x);
  same = λ p x y. refl;
  new = λ p x. absurd (cc x);
}

-- The steps of `_disconnect_block`, each with the value that it computes.
abbrev undone_storage : Bytes → List Bytes → Spent → Coins → Storage → Storage
undone_storage id ids spent coins s =
    set_in_chain id false (unindex_transactions ids (record s { utxo = put_all spent coins }))

undone :
    (c : Crypto) (id : Bytes) (block : Block) (s : Storage) (coins : Coins) (ids : List Bytes)
    (spent : Spent)
    → find_block id s.blocks ≡ some block
    → remove_outputs c block.transactions s.utxo ≡ ok coins
    → txids c block.transactions ≡ ok ids
    → get_undo id s ≡ ok spent
    → disconnect_block c id s ≡ ok (block, undone_storage id ids spent coins s)
unfolding disconnect_block undo_block
undone c id block s coins ids spent found removed named read =
    rw (found, disconnect_block) (rw (removed, named, read) refl)

module _ (c : Crypto) (params : ChainParams) (height : ℕ) where
  -- What `write_block` leaves for `_disconnect_block` to read.
  written :
      (id : Bytes) (block : Block) (pr : Progress) (s s' : Storage)
      → All IsEntry pr.undo
      → HaveHeight id height s.blocks
      → write_block c params height id block pr s ≡ ok s'
      → (get_undo id s' ≡ ok pr.undo) × (find_block id s'.blocks ≡ find_block id s.blocks)
  unfolding write_block set_in_chain put_undo
  written id block pr s s' fine rows e =
      let (s1, e1, e2) =
        >>=-eq-ok (put_undo id pr.undo (record s { utxo = commit pr.coins s.utxo })) _ e in
      let (s2, e3, e4) =
        >>=-eq-ok (index_block c id height pr.spent 0 block.transactions s1) _ e2 in
      let last : prune_undo_behind height undo_keep_blocks (set_in_chain id true s2) ≡ s' = cc e4 in
      let (_, _, put) = map_ok-eq-ok _ (write_undo pr.undo) e1 in
      let blocks : s2.blocks ≡ s.blocks =
        index_block_keeps (λ (x : Storage). x.blocks) (λ t l r. refl) c id height pr.spent 0
          block.transactions s1 s2 e3
        ∙ ap (λ (x : Storage). x.blocks) (sym put) in
      let undo : s2.undo ≡ s1.undo =
        index_block_keeps (λ (x : Storage). x.undo) (λ t l r. refl) c id height pr.spent 0
          block.transactions s1 s2 e3 in
      (
        ap (get_undo id) (sym last)
            ∙ get_undo-prune_undo_behind id height (set_in_chain id true s2) s.blocks
                (ap (mark id true) blocks) rows
            ∙ get_undo_same id (set_in_chain id true s2) s1 (ap (find_undo id) undo)
            ∙ get_undo-put_undo id pr.undo (record s { utxo = commit pr.coins s.utxo }) s1 fine e1,
        ap (λ (x : Storage). find_block id x.blocks) (sym last)
            ∙ ap (find_block id)
                (blocks-prune_undo_behind height undo_keep_blocks (set_in_chain id true s2))
            ∙ find_block-mark id id true s2.blocks
            ∙ ap (find_block id) blocks,
      )

  -- Disconnecting a block right after it was connected succeeds, returns the block, and leaves each
  -- outpoint with the coin, or none, that it had before, provided that the coin table has one coin
  -- for each outpoint, with ids of 32 bytes, indexes of 32 bits and payloads of 20 bytes, that no
  -- output of the block was in it already, and that the block is stored under its id with its
  -- height.
  pub disconnect_block-connect_block :
      (id : Bytes) (block : Block) (s s' : Storage)
      → IsTable s.utxo
      → ((p : OutPoint) (coin : Coin) → find p s.utxo ≡ some coin → IsEntry (p, coin))
      → All (AreNew c s.utxo) block.transactions
      → find_block id s.blocks ≡ some block
      → HaveHeight id height s.blocks
      → connect_block c params height id block s ≡ ok s'
      → (s'' : Storage) × (disconnect_block c id s' ≡ ok (block, s''))
        × ((p : OutPoint) → find p s''.utxo ≡ find p s.utxo)
  unfolding connect_block set_in_chain unindex_transactions
  disconnect_block-connect_block id block s s' table fine fresh stored rows e =
      let (pr, e1, e2) =
        >>=-eq-ok (connect_transactions c params height block.transactions (start s)) _ e in
      let (cb, e3, e4) = >>=-eq-ok (coinbase_of block) _ e2 in
      let (_, e6) =
        (>>_iff (raise_if (ltb (subsidy params height + pr.fees) (total_output cb)) connect_error)
            _).0
          e4 in
      let (t, h, _) =
        connect_transactions-Shows c params height block.transactions (start s) pr _ s.utxo
          (start-Shows c params height s table) e1 in
      let (u, news, made, removes, ids, named) =
        connect_transactions-IsUndoable c params height s.utxo block.transactions (start s) pr fresh
          (start-IsUndoing s) e1 in
      let (read, kept) =
        written id block pr s s'
          (All-find IsEntry pr.undo u.table (λ p coin x. fine p coin (u.known p coin x))) rows e6 in
      let (coins, run, look) = removes s'.utxo in
      let whole = utxo-write_block c params height id block pr s s' e6 in
      let created : pr.created ≡ news = made ∙ append-nil news in
      (
        _,
        undone c id block s' coins ids pr.undo (kept ∙ stored) run named read,
        λ p.
            restored s.utxo pr p s'.utxo coins u
              (ap (find p) whole
                ∙ find-commit pr.coins s.utxo h.layered (λ q. ap (λ (v : CoinView). v q) h.over) p)
              (look p ∙ ap (λ l. if among p l then none else find p s'.utxo) (sym created)),
      )

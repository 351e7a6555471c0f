-- ===== src/Chain/Undoing.antt =====
-- What `_connect_block` notes in `undo`: the coins of the table before the block that it spends.
use scarlet_coin.Prelude.{
  ℕ, ◌+◌, ◌≡◌, refl, ◌∙◌, sym, ap, subst, Bool, true, false, ◌||◌, none, some, List, [], ◌∷◌, ◌++◌,
  arith, if◌then◌else◌, any, length, inl, inr, Bool-cases, Option-cases,
}
use scarlet_coin.Prelude.Bytes.{Bytes}
use scarlet_coin.Outcome.{ok, >>=-eq-ok}
use scarlet_coin.Transaction.{OutPoint, outpoint_eq, TxInput, TxOutput}
use scarlet_coin.Transaction.Sanity.{outpoint_eq_iff}
use scarlet_coin.Utxo.{
  Coin, Coins, CoinOverlay, first_of_two, find, put, get_coin, add, spend, add_outputs,
}
use scarlet_coin.Utxo.Tables.{IsTable, outpoint_eq_comm}
use scarlet_coin.Utxo.Layers.{get_coin-spend, get_coin-add}
use scarlet_coin.Chain.Connect.{Progress, spend_input, spend_inputs, outpoints}

abbrev pub among : OutPoint → List OutPoint → Bool
among p = any (outpoint_eq p)

pub among-append :
    (q : OutPoint) (xs ys : List OutPoint) → among q (xs ++ ys) ≡ (among q xs || among q ys)
among-append q [] ys = refl
among-append q (x ∷ xs) ys = ground (arith, among-append q xs ys)

find-append :
    (q p : OutPoint) (c : Coin) (m : Coins)
    → find q (m ++ ((p, c) ∷ []))
      ≡ first_of_two (find q m) (if outpoint_eq q p then some c else none)
unfolding find
find-append q p c [] = refl
find-append q p c ((r, d) ∷ m) = ground (arith, find-append q p c m)

append-IsTable :
    (p : OutPoint) (c : Coin) (m : Coins)
    → IsTable m
    → find p m ≡ none
    → IsTable (m ++ ((p, c) ∷ []))
unfolding find
append-IsTable p c [] t h = (refl, tt)
append-IsTable p c ((r, d) ∷ m) t h =
    ground (
      arith,
      append-IsTable p c m t.1,
      find-append r p c m,
      outpoint_eq_iff r p,
      outpoint_eq_iff p r,
    )

-- The new outputs change nothing at the other outpoints.
pub get_coin-add_outputs :
    (q : OutPoint) (id : Bytes) (height : ℕ) (coinbase : Bool) (index : ℕ) (outputs : List TxOutput)
    (o : CoinOverlay)
    → among q (outpoints id index (length outputs)) ≡ false
    → get_coin (add_outputs id height coinbase index outputs o) q ≡ get_coin o q
unfolding add_outputs outpoints
get_coin-add_outputs q id height coinbase index [] o x = refl
get_coin-add_outputs q id height coinbase index (out ∷ outputs) o x =
    let p : OutPoint = record { txid = id; index = index } in
    let c : Coin = record {
      value = out.value;
      output_type = out.type;
      payload = out.payload;
      height = height;
      is_coinbase = coinbase;
    } in
    get_coin-add_outputs q id height coinbase (index + 1) outputs (add p c o) (ground arith)
    ∙ rw (get_coin-add p q c o) (ground (arith, outpoint_eq_comm p q))

-- While the transactions of a block are connected to the table `m`: nothing that the block created
-- was in `m`, `undo` holds coins of `m` that are spent, and all else is as in `m`.
pub record IsUndoing (m : Coins) (pr : Progress) : Type 0 where
  pub table : IsTable pr.undo
  pub known : (p : OutPoint) (c : Coin) → find p pr.undo ≡ some c → find p m ≡ some c
  pub gone :
      (p : OutPoint) (c : Coin)
      → find p pr.undo ≡ some c
      → among p pr.created ≡ false
      → get_coin pr.coins p ≡ none
  pub same :
      (p : OutPoint)
      → find p pr.undo ≡ none
      → among p pr.created ≡ false
      → get_coin pr.coins p ≡ find p m
  pub new : (p : OutPoint) → among p pr.created ≡ true → find p m ≡ none

module _ (m : Coins) where
  -- A coin that the block created leaves no entry.
  spend_created :
      (p : OutPoint) (coin : Coin) (o : CoinOverlay) (spent : Coins) (pr : Progress)
      → IsUndoing m pr
      → spend p pr.coins ≡ ok (coin, o)
      → among p pr.created ≡ true
      → IsUndoing m (record pr { coins = o; spent = spent })
  spend_created p coin o spent pr h e x = record {
    table = h.table;
    known = h.known;
    gone = λ q c y z. ground (arith, get_coin-spend p q pr.coins o coin e, h.gone q c);
    same = λ q y z.
        ground (arith, get_coin-spend p q pr.coins o coin e, h.same q, outpoint_eq_iff p q);
    new = h.new;
  }

  -- Any other coin was in the table, and its entry is new.
  spend_known :
      (p : OutPoint) (coin : Coin) (o : CoinOverlay) (spent : Coins) (pr : Progress)
      → IsUndoing m pr
      → spend p pr.coins ≡ ok (coin, o)
      → among p pr.created ≡ false
      → IsUndoing m (record pr { coins = o; spent = spent; undo = pr.undo ++ ((p, coin) ∷ []) })
  spend_known p coin o spent pr h e x =
      let here : get_coin pr.coins p ≡ some coin = (get_coin-spend p p pr.coins o coin e).0 in
      let unspent : find p pr.undo ≡ none = elim (Option-cases (find p pr.undo)) [
        | inl y ↦ y
        | inr (c, y) ↦ absurd (cc (here, h.gone p c y x))
      ] in
      let was : find p m ≡ some coin = sym (h.same p unspent x) ∙ here in
      record {
        table = append-IsTable p coin pr.undo h.table unspent;
        known = λ q c y.
            ground (arith, was, h.known q c, find-append q p coin pr.undo, outpoint_eq_iff q p);
        gone = λ q c y z. ground (
          arith,
          get_coin-spend p q pr.coins o coin e,
          h.gone q c,
          find-append q p coin pr.undo,
          outpoint_eq_comm p q,
        );
        same = λ q y z. ground (
          arith,
          get_coin-spend p q pr.coins o coin e,
          h.same q,
          find-append q p coin pr.undo,
          outpoint_eq_comm p q,
        );
        new = h.new;
      }

  spend_input-IsUndoing :
      (p : OutPoint) (pr pr' : Progress)
      → IsUndoing m pr
      → spend_input p pr ≡ ok pr'
      → IsUndoing m pr' × (pr'.created ≡ pr.created)
  unfolding spend_input
  spend_input-IsUndoing p pr pr' h e =
      let ((coin, o), e1, e2) = >>=-eq-ok (spend p pr.coins) _ e in
      let last = value e2 in
      (subst (IsUndoing m) last (by_cases coin o e1), ap (λ (r : Progress). r.created) (sym last))
    where
      value : {x y : Progress} → ok x ≡ ok y → x ≡ y
      value e = cc

      by_cases :
          (coin : Coin) (o : CoinOverlay)
          → spend p pr.coins ≡ ok (coin, o)
          → IsUndoing m (record pr {
            coins = o;
            spent = put p coin pr.spent;
            undo = if among p pr.created then pr.undo else pr.undo ++ ((p, coin) ∷ []);
          })
      by_cases coin o e = elim (Bool-cases (among p pr.created)) [
        | inl x ↦ rw x (spend_created p coin o _ pr h e x)
        | inr x ↦ rw x (spend_known p coin o _ pr h e x)
      ]

  pub spend_inputs-IsUndoing :
      (is : List TxInput) (pr pr' : Progress)
      → IsUndoing m pr
      → spend_inputs is pr ≡ ok pr'
      → IsUndoing m pr' × (pr'.created ≡ pr.created)
  unfolding spend_inputs
  spend_inputs-IsUndoing [] pr pr' h e =
      let same : pr ≡ pr' = cc e in
      (subst (IsUndoing m) same h, ap (λ (r : Progress). r.created) (sym same))
  spend_inputs-IsUndoing (i ∷ is) pr pr' h e =
      let (pr1, e1, e2) = >>=-eq-ok (spend_input i.prevout pr) _ e in
      let (h1, c1) = spend_input-IsUndoing i.prevout pr pr1 h e1 in
      let (h2, c2) = spend_inputs-IsUndoing is pr1 pr' h1 e2 in (h2, c2 ∙ c1)

  pub fees-IsUndoing :
      (pr : Progress) (fees : ℕ) → IsUndoing m pr → IsUndoing m (record pr { fees = fees })
  fees-IsUndoing pr fees h = record {
    table = h.table;
    known = h.known;
    gone = h.gone;
    same = h.same;
    new = h.new;
  }

  pub created-IsUndoing :
      (pr : Progress) (news : List OutPoint) (o : CoinOverlay)
      → IsUndoing m pr
      → ((q : OutPoint) → among q news ≡ true → find q m ≡ none)
      → ((q : OutPoint) → among q news ≡ false → get_coin o q ≡ get_coin pr.coins q)
      → IsUndoing m (record pr { created = news ++ pr.created; coins = o })
  created-IsUndoing pr news o h fresh kept = record {
    table = h.table;
    known = h.known;
    gone = λ q c y z. ground (arith, among-append q news pr.created, h.gone q c, kept q);
    same = λ q y z. ground (arith, among-append q news pr.created, h.same q, kept q);
    new = λ q z. ground (arith, among-append q news pr.created, h.new q, fresh q);
  }

-- ===== src/Mempool/Children.antt =====
-- The stack of `remove`: what `push_children` puts on it.
use scarlet_coin.Prelude.{
  ℕ, zero, suc, ◌+◌, ◌≤◌, ◌<◌, ◌≡◌, refl, ◌∙◌, ap, subst, inl, inr, Bool, true, ◌||◌, some, List,
  [], ◌∷◌, ◌++◌, arith, any, length, Option-cases,
}
use scarlet_coin.Prelude.Bytes.{Bytes, bytes_eq, bytes_eq_refl}
use scarlet_coin.Prelude.Dict.{Dict, lookup}
use scarlet_coin.Transaction.{OutPoint, outpoint_eq}
use scarlet_coin.Mempool.{push_child, push_children}

abbrev pub mem : Bytes → List Bytes → Bool
mem id = any (bytes_eq id)

pub mem-append : (q : Bytes) (xs ys : List Bytes) → mem q (xs ++ ys) ≡ mem q xs || mem q ys
mem-append q [] ys = refl
mem-append q (x ∷ xs) ys = ground (arith, mem-append q xs ys)

-- The item of the child that an output has on the stack.
abbrev pub output_of : Bytes → ℕ → OutPoint
output_of id index = record { txid = id; index = index }

pub length-push_children :
    (id : Bytes) (index n : ℕ) (m : Dict OutPoint Bytes) (pending : List Bytes)
    → length (push_children id index n m pending) ≤ n + length pending
unfolding push_children push_child
length-push_children id index zero m pending = omega arith
length-push_children id index (suc n) m pending =
    elim (Option-cases (lookup outpoint_eq (output_of id index) m)) [
      | inl e ↦ rw (e) (omega (arith, length-push_children id (index + 1) n m pending))
      | inr (child, e) ↦
          rw (e) (omega (arith, length-push_children id (index + 1) n m (child ∷ pending)))
    ]

pub push_children_keeps :
    (q id : Bytes) (index n : ℕ) (m : Dict OutPoint Bytes) (pending : List Bytes)
    → mem q pending ≡ true
    → mem q (push_children id index n m pending) ≡ true
unfolding push_children push_child
push_children_keeps q id index zero m pending h = h
push_children_keeps q id index (suc n) m pending h =
    elim (Option-cases (lookup outpoint_eq (output_of id index) m)) [
      | inl e ↦ rw (e) (push_children_keeps q id (index + 1) n m pending h)
      | inr (child, e) ↦
          rw (e) (push_children_keeps q id (index + 1) n m (child ∷ pending) (ground arith))
    ]

pub push_children_finds :
    (q id : Bytes) (index n at : ℕ) (m : Dict OutPoint Bytes) (pending : List Bytes)
    → at < n
    → lookup outpoint_eq (output_of id (index + at)) m ≡ some q
    → mem q (push_children id index n m pending) ≡ true
unfolding push_children push_child
push_children_finds q id index zero at m pending le e = absurd (omega arith)
push_children_finds q id index (suc n) zero m pending le e =
    push_children_keeps q id (index + 1) n m _ (
      ap (λ o. mem q (push_child o pending))
        (subst (λ k. lookup outpoint_eq (output_of id k) m ≡ some q) (omega arith) e)
      ∙ ground (arith, bytes_eq_refl q))
push_children_finds q id index (suc n) (suc at) m pending le e =
    push_children_finds q id (index + 1) n at m _ (omega arith)
      (subst (λ k. lookup outpoint_eq (output_of id k) m ≡ some q) (omega arith) e)

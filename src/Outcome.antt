-- ===== src/Outcome.antt =====
-- Python's exceptions as values: one constructor for each exception class that the modelled code
-- raises or catches, without the message. `struct_error` is `struct.error` of the standard library
-- and `index_error` the one that a list raises.
use scarlet_coin.Prelude.{◌≡◌, refl, ◌↔◌, Bool, true, false, List, [], ◌∷◌}

pub data Error : Type 0 where
  value_error serialization_error transaction_error block_error script_error auxpow_error : Error
  validation_error missing_input_error premature_block_error invalid_key_error : Error
  struct_error key_error index_error connect_error : Error
  zero_division_error storage_error mempool_error insufficient_funds_error : Error
  -- not of Python: a loop of the model ended before the loop of the code
  unfinished : Error

pub data Result {ℓ} (A : Type ℓ) : Type ℓ where
  ok : A → Result A
  err : Error → Result A

-- `if b: raise e`
abbrev pub raise_if : Bool → Error → Result (Unit {0})
raise_if true e = err e
raise_if false e = ok tt

module _ {ℓ κ} {A : Type ℓ} {B : Type κ} where
  -- A pure step on the value of a call that may raise.
  abbrev pub map_ok : (A → B) → Result A → Result B
  map_ok step (ok value) = ok (step value)
  map_ok step (err raised) = err raised

-- One call after another: an exception ends the sequence.
infixl 5 ◌>>=◌ ◌>>◌
abbrev pub ◌>>=◌ {ℓ κ} : {A : Type ℓ} {B : Type κ} → Result A → (A → Result B) → Result B
ok value >>= next = next value
err raised >>= next = err raised

-- The same for a call that is made for its exceptions only.
abbrev pub ◌>>◌ {ℓ} : {B : Type ℓ} → Result (Unit {0}) → Result B → Result B
check >> next = check >>= λ _. next

-- A `for` loop whose body may raise, over the items in order.
abbrev pub each {ℓ} : {A : Type ℓ} → (A → Result (Unit {0})) → List A → Result (Unit {0})
each f [] = ok tt
each f (x ∷ xs) = f x >>= λ _. each f xs

-- Inversion of a successful bind.
pub >>=-eq-ok {ℓ κ} :
    {A : Type ℓ} {B : Type κ} (call : Result A) (next : A → Result B) {last : B}
    → (call >>= next) ≡ ok last
    → (value : A) × (call ≡ ok value) × (next value ≡ ok last)
>>=-eq-ok (err raised) next h = cc
>>=-eq-ok (ok value) next h = (value, refl, h)

pub map_ok-eq-ok {ℓ κ} :
    {A : Type ℓ} {B : Type κ} (f : A → B) (m : Result A) {b : B}
    → map_ok f m ≡ ok b
    → (a : A) × (m ≡ ok a) × (f a ≡ b)
map_ok-eq-ok f (ok a) h = (a, refl, cc)
map_ok-eq-ok f (err e) h = cc

pub raise_if_iff : (b : Bool) (e : Error) → (raise_if b e ≡ ok tt) ↔ (b ≡ false)
raise_if_iff true e = (λ h. cc, λ h. cc)
raise_if_iff false e = (λ h. refl, λ h. refl)

pub >>_iff {ℓ} :
    {B : Type ℓ} (m : Result (Unit {0})) (k : Result B) {b : B}
    → ((m >> k) ≡ ok b) ↔ ((m ≡ ok tt) × (k ≡ ok b))
>>_iff (ok a) k = (λ h. (refl, h), λ h. h.1)
>>_iff (err e) k = (λ h. cc, λ h. cc (h.0))

-- ===== src/Datastore/Yang.antt =====
-- What internal/datastore uses of internal/yangtree: the configuration tree behind its operations.
use go_lab_netconf.Base.{Bytes, String, Bool, true, List, ◌≡◌, refl, sym, subst, Option}
use go_lab_netconf.DomainErr.{AnyError}

-- yangtree.Change and notif.Change
pub record Change : Type 0 where
  pub path : Bytes
  pub operation : String

-- yangtree.Operation is a string; an empty one is read as a merge.
abbrev pub Operation : Type 0
Operation = String

pub data Result {ℓ} (A : Type ℓ) : Type ℓ where
  ok : A → Result A
  err : AnyError → Result A

-- A node is a value: the operations of yangtree clone before they write, and return no alias.
pub record Tree : Type 1 where
  pub Node : Type 0
  pub Value : Type 0
  -- `Node.IsZero`, `Node.Clone`, `Node.Equal`
  pub is_zero : Node → Bool
  pub clone : Node → Node
  pub equal : Node → Node → Bool
  -- `ParsePath` and `Node.Subtree`
  pub subtree : Bytes → Node → Result Node
  -- `Node.Apply`: on an error the node is left as it was
  pub apply : Operation → Bytes → Value → Node → Result Node
  -- `map[string]any{}`
  pub empty_map : Value
  pub validate : Node → Option AnyError
  pub diff : Node → Node → List Change
  -- The nodes that compare equal to themselves: those with no value, such as a NaN, that does not.
  pub IsRegular : Node → Type 0
  pub equal-clone : (n : Node) → IsRegular n → equal n (clone n) ≡ true
  pub equal-clone_left : (n : Node) → IsRegular n → equal (clone n) n ≡ true

-- A call whose error ends the caller.
infixl 5 ◌>>=◌ ◌>>◌
abbrev pub ◌>>=◌ {ℓ κ} : {A : Type ℓ} {B : Type κ} → Result A → (A → Result B) → Result B
ok a >>= f = f a
err e >>= f = err e

abbrev pub ◌>>◌ {ℓ κ} : {A : Type ℓ} {B : Type κ} → Result A → Result B → Result B
m >> k = m >>= λ _. k

IsOk {ℓ} : {A : Type ℓ} → Result A → Type 0
IsOk (ok a) = Unit
IsOk (err e) = ⊥

pub err≢ok {ℓ} : {A : Type ℓ} (e : AnyError) (a : A) → ¬ (err e ≡ ok a)
unfolding IsOk
err≢ok e a p = subst IsOk (sym p) _

-- What a call that succeeds says of its parts.
pub bind_ok {ℓ κ} :
    {A : Type ℓ} {B : Type κ} (r : Result A) (k : A → Result B) (b : B)
    → (r >>= k) ≡ ok b
    → (a : A) × (r ≡ ok a) × (k a ≡ ok b)
bind_ok (ok a) k b p = (a, refl, p)
bind_ok (err e) k b p = absurd (err≢ok e b p)

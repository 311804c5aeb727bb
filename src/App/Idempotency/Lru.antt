-- ===== src/App/Idempotency/Lru.antt =====
-- What internal/app/idempotency.go is to be: the applied requests, the last used one first, of which
-- those past the limit are forgotten.
use go_lab_netconf.Base.{ℕ, String, str_eq, List, [], ◌∷◌, Option, none, some, take, if◌then◌else◌}
use go_lab_netconf.App.Idempotency.{
  ApplyResult, clone_apply, Found, absent, hit, refused, key_reused,
}

-- Key, fingerprint and result.
abbrev pub Content : Type 0 → Type 0
Content Operation = String × String × ApplyResult Operation

abbrev pub Items : Type 0 → Type 0
Items Operation = List (Content Operation)

module _ {Operation : Type 0} where
  unfoldable pub find : String → Items Operation → Option (Content Operation)
  find k [] = none
  find k ((j, f, r) ∷ l) = if str_eq j k then some (j, f, r) else find k l

  unfoldable pub drop_key : String → Items Operation → Items Operation
  drop_key k [] = []
  drop_key k ((j, f, r) ∷ l) =
      let rest = drop_key k l in if str_eq j k then rest else (j, f, r) ∷ rest

  -- A request that was applied under the key is found if it is the same request, and is then the last
  -- used.
  unfoldable pub lru_lookup : String → String → Items Operation → Found Operation × Items Operation
  unfolding find drop_key
  lru_lookup key fp l = if str_eq key "" then (absent, l) else elim (find key l) [
    | none ↦ (absent, l)
    | some (k, f, r) ↦
        if str_eq f fp then (hit r, (k, f, r) ∷ drop_key key l) else (refused key_reused, l)
  ]

  -- A result takes the place of what its key had, as the last used.
  unfoldable pub lru_store :
      ℕ → String → String → Option (ApplyResult Operation) → Items Operation → Items Operation
  unfolding drop_key
  lru_store max key fp none l = l
  lru_store max key fp (some r) l =
      if str_eq key "" then l else take max ((key, fp, clone_apply r) ∷ drop_key key l)

  unfoldable pub lru_evict : String → Items Operation → Items Operation
  unfolding drop_key
  lru_evict key l = if str_eq key "" then l else drop_key key l

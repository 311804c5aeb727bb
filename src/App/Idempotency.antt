-- ===== src/App/Idempotency.antt =====
-- internal/app/idempotency.go: the least recently used cache of applied requests, a map into a doubly
-- linked list. Pointers are addresses of a heap whose cells are never given back; what a stored result
-- holds is a value, with a nil slice apart from an empty one. The service's cache is never nil.
pub mod Chain
pub mod Keys
pub mod Lru
pub mod Replay
pub mod Shape
pub mod Refinement
pub mod Represents
pub mod History
pub mod Insert
mod Tests
use go_lab_netconf.Base.{
  ℕ, suc, zero, Bytes, bytes, String, str_eq, Bool, true, false, List, [], ◌∷◌, map, Option, none,
  some, length, ltb, ◌==◌, if◌then◌else◌,
}
use go_lab_netconf.Base.Dict.{Dict, lookup, put, remove}
use go_lab_netconf.Base.Int.{ℤ, pos, negsuc}
use go_lab_netconf.DomainErr.{AnyError, validation_failed, FieldViolation}

-- `json.RawMessage` fields are nil or bytes.
pub record DiffEntry : Type 0 where
  pub path : Bytes
  pub op : String
  pub before : Option Bytes
  pub after : Option Bytes

pub record Plan (Operation : Type 0) : Type 0 where
  pub previous_revision : String
  pub candidate_revision : String
  pub drifted : Bool
  pub diff : Option (List DiffEntry)
  pub operations : Option (List Operation)

pub record ApplyResult (Operation : Type 0) : Type 0 where
  pub plan : Plan Operation
  pub applied : Bool
  pub generation : ℕ
  pub runtime_revision : String

-- `append([]T(nil), s...)`, which is nil also for an empty s.
unfoldable pub append_to_nil {ℓ} : {A : Type ℓ} → List A → Option (List A)
append_to_nil [] = none
append_to_nil (x ∷ xs) = some (x ∷ xs)

-- The same under the test `s != nil`.
unfoldable pub copy_slice {ℓ} : {A : Type ℓ} → Option (List A) → Option (List A)
unfolding append_to_nil
copy_slice none = none
copy_slice (some xs) = append_to_nil xs

clone_diff_entry : DiffEntry → DiffEntry
unfolding copy_slice
clone_diff_entry d = record d { before = copy_slice d.before; after = copy_slice d.after }

unfoldable pub clone_diff : Option (List DiffEntry) → Option (List DiffEntry)
unfolding clone_diff_entry
clone_diff none = none
clone_diff (some ds) = some (map clone_diff_entry ds)

abbrev pub default_idempotency_max : ℕ
default_idempotency_max = 256

points_to : Option ℕ → ℕ → Bool
points_to none a = false
points_to (some b) a = b == a

abbrev pub key_reused : AnyError
key_reused = validation_failed "idempotency key reused with a different request" (
    record {
      path = bytes "idempotencyKey";
      code = "invalid_value";
      message = "idempotency key reused with a different request";
    }
    ∷ [])

module _ (Operation : Type 0) where
  pub record IdempEntry : Type 0 where
    pub key : String
    pub fp : String
    pub apply : ApplyResult Operation
    pub prev : Option ℕ
    pub next : Option ℕ

  -- `fresh` and the addresses above it are not in use.
  pub record IdempCache : Type 0 where
    pub max : ℕ
    pub entries : Dict ℕ
    pub head : Option ℕ
    pub tail : Option ℕ
    pub heap : ℕ → IdempEntry
    pub fresh : ℕ

  -- The nil result, the entry, or the error.
  pub data Found : Type 0 where
    absent : Found
    hit : ApplyResult Operation → Found
    refused : AnyError → Found

  -- What a heap holds where nothing was allocated.
  abbrev pub zero_entry : IdempEntry
  zero_entry = record {
    key = "";
    fp = "";
    apply = record {
      plan = record {
        previous_revision = "";
        candidate_revision = "";
        drifted = false;
        diff = none;
        operations = none;
      };
      applied = false;
      generation = 0;
      runtime_revision = "";
    };
    prev = none;
    next = none;
  }

  unfoldable pub new_idemp_cache : ℤ → IdempCache
  new_idemp_cache max = record {
    max = elim max [
      | pos zero ↦ default_idempotency_max
      | pos (suc n) ↦ suc n
      | negsuc _ ↦ default_idempotency_max
    ];
    entries = [];
    head = none;
    tail = none;
    heap = λ _. zero_entry;
    fresh = 0;
  }

module _ {Operation : Type 0} where
  unfoldable pub clone_plan : Plan Operation → Plan Operation
  unfolding clone_diff copy_slice
  clone_plan p = record p { diff = clone_diff p.diff; operations = copy_slice p.operations }

  unfoldable pub clone_apply : ApplyResult Operation → ApplyResult Operation
  unfolding clone_plan
  clone_apply r = record r { plan = clone_plan r.plan }

  abbrev pub write :
      (ℕ → IdempEntry Operation) → ℕ → IdempEntry Operation → ℕ → IdempEntry Operation
  write h a e b = if b == a then e else h b

  -- The two halves of `unlinkLocked`, then the entry's own pointers.
  unfoldable pub unlink_prev : ℕ → IdempCache Operation → IdempCache Operation
  unlink_prev a c = elim (c.heap a).prev [
    | some b ↦ record c { heap = write c.heap b (record (c.heap b) { next = (c.heap a).next }) }
    | none ↦ record c { head = (c.heap a).next }
  ]

  unfoldable pub unlink_next : ℕ → IdempCache Operation → IdempCache Operation
  unlink_next a c = elim (c.heap a).next [
    | some b ↦ record c { heap = write c.heap b (record (c.heap b) { prev = (c.heap a).prev }) }
    | none ↦ record c { tail = (c.heap a).prev }
  ]

  unfoldable pub forget_links : ℕ → IdempCache Operation → IdempCache Operation
  forget_links a c = record c {
    heap = write c.heap a (record (c.heap a) { prev = none; next = none });
  }

  unfoldable pub unlink : ℕ → IdempCache Operation → IdempCache Operation
  unfolding unlink_prev unlink_next forget_links
  unlink a c = forget_links a (unlink_next a (unlink_prev a c))

  -- What `insertFrontLocked` and `moveFrontLocked` share: the entry becomes the head.
  unfoldable pub link_front : ℕ → IdempCache Operation → IdempCache Operation
  link_front a c =
      let h = write c.heap a (record (c.heap a) { prev = none; next = c.head }) in
      record c {
        heap = elim c.head [ some b ↦ write h b (record (h b) { prev = some a }) | none ↦ h ];
        head = some a;
        tail = elim c.tail [ some t ↦ some t | none ↦ some a ];
      }

  unfoldable pub move_front : ℕ → IdempCache Operation → IdempCache Operation
  unfolding points_to
  move_front a c = if points_to c.head a then c else link_front a (unlink a c)

  unfoldable pub remove_entry : ℕ → IdempCache Operation → IdempCache Operation
  remove_entry a c = unlink a (record c { entries = remove (c.heap a).key c.entries })

  -- The loop at the end of `insertFrontLocked`, on fuel.
  unfoldable pub evict_over : ℕ → IdempCache Operation → IdempCache Operation
  evict_over zero c = c
  evict_over (suc n) c = elim (ltb c.max (length c.entries)) [
    | true ↦ elim c.tail [ some t ↦ evict_over n (remove_entry t c) | none ↦ c ]
    | false ↦ c
  ]

  -- An entry that is there under the key goes first.
  unfoldable pub remove_old : String → IdempCache Operation → IdempCache Operation
  remove_old key c = elim (lookup key c.entries) [ some old ↦ remove_entry old c | none ↦ c ]

  -- `&idempEntry{…}`
  unfoldable pub allocate :
      String → String → ApplyResult Operation → IdempCache Operation → IdempCache Operation
  allocate key fp apply c =
      let e : IdempEntry Operation = record {
        key = key;
        fp = fp;
        apply = apply;
        prev = none;
        next = none;
      } in
      record c { heap = write c.heap c.fresh e; fresh = suc c.fresh }

  unfoldable pub register : ℕ → IdempCache Operation → IdempCache Operation
  register a c = record c { entries = put (c.heap a).key a c.entries }

  -- `insertFrontLocked`; each round of its loop drops an entry.
  unfoldable pub insert_front : ℕ → IdempCache Operation → IdempCache Operation
  unfolding evict_over link_front register remove_old
  insert_front a c =
      let linked = link_front a (register a (remove_old (c.heap a).key c)) in
      evict_over (length linked.entries) linked

  unfoldable pub lookup_apply :
      String → String → IdempCache Operation → Found Operation × IdempCache Operation
  unfolding move_front
  lookup_apply key fp c = if str_eq key "" then (absent, c) else elim (lookup key c.entries) [
    | none ↦ (absent, c)
    | some a ↦
        if str_eq (c.heap a).fp fp
        then (hit (c.heap a).apply, move_front a c)
        else (refused key_reused, c)
  ]

  unfoldable pub insert_new :
      String → String → ApplyResult Operation → IdempCache Operation → IdempCache Operation
  unfolding allocate insert_front
  insert_new key fp r c = insert_front c.fresh (allocate key fp (clone_apply r) c)

  unfoldable pub update_apply :
      ℕ → ApplyResult Operation → IdempCache Operation → IdempCache Operation
  update_apply a r c =
      move_front a
        (record c { heap = write c.heap a (record (c.heap a) { apply = clone_apply r }) })

  -- `storeApply`; no result is none.
  unfoldable pub store_apply :
      String → String → Option (ApplyResult Operation) → IdempCache Operation → IdempCache Operation
  unfolding insert_new update_apply
  store_apply key fp none c = c
  store_apply key fp (some r) c = if str_eq key "" then c else elim (lookup key c.entries) [
    | none ↦ insert_new key fp r c
    | some a ↦ if str_eq (c.heap a).fp fp then update_apply a r c else insert_new key fp r c
  ]

  unfoldable pub evict : String → IdempCache Operation → IdempCache Operation
  unfolding remove_entry
  evict key c =
      if str_eq key ""
      then c
      else elim (lookup key c.entries) [ none ↦ c | some a ↦ remove_entry a c ]

  unfoldable pub clear : IdempCache Operation → IdempCache Operation
  clear c = record c { entries = []; head = none; tail = none }

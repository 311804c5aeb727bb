-- ===== src/NcServer/Requests.antt =====
-- The handlers of internal/ncserver/dispatch.go against the methods of datastore.Handle: which call a
-- request makes, and what its reply tells of it.
pub mod Unasked
pub mod Handlers
use go_lab_netconf.Base.{
  String, str_eq, Bool, true, false, not, ◌||◌, [], Option, none, some, ◌≡◌, refl, ◌⊎◌, inl, inr,
  ◌≢◌, sym, ap, ◌∙◌, eq_iff, if◌then◌else◌, arith,
}
use mathlib.Core.Bool.{false≢true}
use go_lab_netconf.DomainErr.{AnyError}
use go_lab_netconf.NcRpc.{Rpc, Error, Reply}
use go_lab_netconf.Datastore.Yang.{Tree}
use go_lab_netconf.Datastore.Names
use go_lab_netconf.Datastore.Names.{Name}
use go_lab_netconf.Datastore.{Context, Handle}
use go_lab_netconf.Datastore.Calls.{
  Call, gets, edits, writes_running, copies, deletes, commits, discards, locks, unlocks, step,
  after, error_of, IsBy,
}
use go_lab_netconf.NcServer.{
  map_err, ok_reply, err_reply, Resolved, named, refused, store_name, Parsed, parsed, failed, Codec,
  Session, Dispatched, replies,
}

pub both_branches {ℓ κ} :
    {A : Type ℓ} (P : A → Type κ) (b : Bool) {x y : A} → P x → P y → P (if b then x else y)
both_branches P true p q = p
both_branches P false p q = q

-- Each branch with what the test says in it.
pub tested {ℓ κ} :
    {A : Type ℓ} (P : A → Type κ) (b : Bool) {x y : A}
    → (b ≡ true → P x)
    → (b ≡ false → P y)
    → P (if b then x else y)
tested P true p q = p refl
tested P false p q = q refl

pub either_parse {ℓ κ} :
    {A : Type ℓ} {B : Type κ} (P : B → Type 0) (r : Parsed A) {f : String → B} {g : A → B}
    → ((m : String) → r ≡ failed m → P (f m))
    → ((a : A) → r ≡ parsed a → P (g a))
    → P (elim r [ failed m ↦ f m | parsed a ↦ g a ])
either_parse P (failed m) p q = p m refl
either_parse P (parsed a) p q = q a refl

abbrev pub IsStore : Name → Type 0
IsStore x = (x ≡ Names.running) ⊎ ((x ≡ Names.candidate) ⊎ (x ≡ Names.startup))

-- What a store's name comes to: itself, or an error when it names no store.
abbrev pub Resolves : Name → Resolved → Type 0
Resolves name (named x) = (x ≡ name) × IsStore name
Resolves name (refused e) = ¬ IsStore name

abbrev names_store : Name → Bool
names_store x = str_eq x Names.running || str_eq x Names.candidate || str_eq x Names.startup

IsStore-names : (x : Name) → IsStore x → names_store x ≡ true
IsStore-names x m = elim m [
  | inl e ↦ ap names_store e
  | inr k ↦ elim k [ inl e ↦ ap names_store e | inr e ↦ ap names_store e ]
]

names-IsStore : (x : Name) → names_store x ≡ true → IsStore x
names-IsStore x p =
    ground (arith, eq_iff x Names.running, eq_iff x Names.candidate, eq_iff x Names.startup)

-- A name that is another one, which names no store.
pub names_nothing : (x y : Name) → str_eq x y ≡ true → names_store y ≡ false → ¬ IsStore x
names_nothing x y e p m =
    false≢true (sym p ∙ sym (ap names_store ((eq_iff x y).0 e)) ∙ IsStore-names x m)

pub store_name-Resolves : (name : Name) → Resolves name (store_name name true)
unfolding store_name
store_name-Resolves name =
    tested (Resolves name) (str_eq name "") (λ e. names_nothing name "" e refl)
      λ _.
        tested (Resolves name) (str_eq name "url") (λ e. names_nothing name "url" e refl)
          λ _.
            tested (Resolves name) (names_store name) (λ e. (refl, names-IsStore name e))
              λ e m. false≢true (sym e ∙ IsStore-names name m)

-- What a reply says of the outcome of the call that a request with the id made.
abbrev pub Tells : String → Option AnyError → Reply → Type 0
Tells id none r = r ≡ ok_reply id
Tells id (some e) r = r ≡ err_reply id (map_err e)

-- The context of the session's calls.
abbrev pub session_context : Session → Option AnyError → Context
session_context s ctx_error = record { error = ctx_error; session = s.id }

-- The requests that make no call that changes a handle.
abbrev pub reading : String → Bool
reading name =
    str_eq name "get"
    || str_eq name "get-config"
    || str_eq name "validate"
    || str_eq name "close-session"
    || str_eq name "kill-session"
    || str_eq name "create-subscription"

abbrev pub IsReading : String → Type 0
IsReading name = reading name ≡ true

-- A test of a text that equals another one.
pub test_at : (f : String → Bool) (x y : String) → str_eq x y ≡ true → f x ≡ f y
test_at f x y e = ap f ((eq_iff x y).0 e)

module _ (T : Tree) (X : Codec T) (s : Session) (rpc : Rpc) where
  -- The operation that asks for a call.
  abbrev pub asking : Call T → String
  asking (edits x op) = "edit-config"
  asking (copies src dst) = "copy-config"
  asking (deletes x) = "delete-config"
  asking (locks x t) = "lock"
  asking (unlocks x t) = "unlock"
  asking commits = "commit"
  asking discards = "discard-changes"
  asking _ = ""

  -- The operation of an edit: merge is the default.
  abbrev pub IsDefault : String → Type 0
  IsDefault op =
      ((rpc.default_op ≡ "replace") × (op ≡ "replace"))
      ⊎ (((rpc.default_op ≡ "") ⊎ (rpc.default_op ≡ "merge")) × (op ≡ "merge"))

  -- The call has the request's arguments, and the session as the holder of a lock.
  abbrev pub Fits : Call T → Type 0
  Fits (edits x op) =
      (x ≡ Names.candidate)
      × (rpc.target ≡ "candidate")
      × (op.path ≡ [])
      × (X.decode_config rpc.config ≡ parsed op.value)
      × IsDefault op.op
  Fits (copies src dst) =
      (src ≡ rpc.source) × (dst ≡ rpc.target) × IsStore rpc.source × IsStore rpc.target
  Fits (deletes x) = (x ≡ rpc.target) × IsStore rpc.target
  Fits (locks x t) = (x ≡ rpc.target) × IsStore rpc.target × (t ≡ s.id)
  Fits (unlocks x t) = (x ≡ rpc.target) × IsStore rpc.target × (t ≡ s.id)
  Fits commits = Unit
  Fits discards = Unit
  Fits _ = ⊥

  -- The calls that a request asks for are made by its session.
  pub Fits-IsBy :
      (ctx_error : Option AnyError) (c : Call T)
      → Fits c
      → IsBy T s.id (session_context s ctx_error) c
  Fits-IsBy ctx_error (edits x op) f = refl
  Fits-IsBy ctx_error (copies src dst) f = refl
  Fits-IsBy ctx_error (deletes x) f = refl
  Fits-IsBy ctx_error (locks x t) (a, b, same) = same
  Fits-IsBy ctx_error (unlocks x t) (a, b, same) = same
  Fits-IsBy ctx_error commits f = refl
  Fits-IsBy ctx_error discards f = refl
  Fits-IsBy ctx_error (gets x path) f = absurd f
  Fits-IsBy ctx_error (writes_running op) f = absurd f

  -- The request asks for this call.
  abbrev pub Asks : Call T → Type 0
  Asks c = (rpc.name ≡ asking c) × Fits c

  -- The request asks for no call.
  abbrev pub AsksNothing : Type 0
  AsksNothing = (c : Call T) → ¬ Asks c

  -- Why a request is refused before any call: it has no message-id, or it changes something and the
  -- user may not write, or no call fits it and it is no reading request.
  abbrev pub IsRefusable : Type 0
  IsRefusable =
      (rpc.message_id ≡ "")
      ⊎ (((s.access ≢ "read-write") × (IsReading rpc.name → rpc.name ≡ "kill-session"))
          ⊎ (AsksNothing × ¬ IsReading rpc.name))

module _ (T : Tree) (X : Codec T) (h : Handle T) (s : Session) (ctx_error : Option AnyError)
    (rpc : Rpc) where
  abbrev pub own : Context
  own = session_context s ctx_error

  -- A request of a user who may write that asks for a call is that call, with its effect, its event and
  -- its outcome as the reply; a reading request leaves the handle alone, and so does a request that is
  -- refused, whose reply is an error.
  pub data IsHandled (d : Dispatched T) : Type 0 where
    reads :
        IsReading rpc.name
        → d.handle ≡ h
        → d.event ≡ none
        → (d.cancelled ≡ none) ⊎ ((rpc.name ≡ "kill-session") × (d.cancelled ≡ some rpc.session_id))
        → IsHandled d
    refuses :
        (id : String) (e : Error)
        → IsRefusable T X s rpc
        → d ≡ replies T X h (err_reply id e)
        → IsHandled d
    calls :
        (c : Call T)
        → Asks T X s rpc c
        → s.access ≡ "read-write"
        → rpc.message_id ≢ ""
        → d.handle ≡ after T h own c
        → d.event ≡ (step T h own c).1
        → d.cancelled ≡ none
        → Tells rpc.message_id (error_of T h own c) d.reply
        → IsHandled d

-- ===== src/NcRpc/Decode/Fuel.antt =====
-- The loops of internal/ncrpc/decode.go end: the rounds that they have are enough.
use go_lab_netconf.Base.{
  ℕ, zero, suc, ◌<◌, ◌≤◌, String, str_eq, Bool, true, false, List, [], ◌∷◌, ◌++◌, Option, some, ◌≡◌,
  refl, arith, length, if◌then◌else◌,
}
use go_lab_netconf.NcRpc.{Rpc, Reply, Hello, Parsed, parsed, failed, ◌>>=◌}
use go_lab_netconf.NcRpc.Decode.{
  Start, start, end, chars, Tokens, XmlDecoder, Handler, at_end, children, each_child, caps_child,
  decode_caps, hello_child, datastore_child, decode_datastore, op_child, decode_op, rpc_child,
  reply_child, typed_filter,
}

-- What succeeds leaves no more than `n` tokens.
abbrev pub Leaves : {S : Type 0} → ℕ → Parsed (S × Tokens) → Type 0
Leaves n (parsed r) = length r.1 ≤ n
Leaves n (failed e) = Unit

abbrev pub LeavesTokens : ℕ → Parsed Tokens → Type 0
LeavesTokens n (parsed ts) = length ts ≤ n
LeavesTokens n (failed e) = Unit

-- `Skip` and `DecodeElement` read on.
pub record Consumes (D : XmlDecoder) : Type 0 where
  pub skip : (ts : Tokens) → LeavesTokens (length ts) (D.skip ts)
  pub decode_text : (ts : Tokens) → Leaves (length ts) (D.decode_text ts)
  pub decode_inner : (ts : Tokens) → Leaves (length ts) (D.decode_inner ts)
  pub decode_filter : (t : Start) (ts : Tokens) → Leaves (length ts) (D.decode_filter t ts)
  pub decode_error : (ts : Tokens) → Leaves (length ts) (D.decode_error ts)

-- The runs of the loop that a decoder makes over the children of an element, without a bound on its
-- rounds, and what they come to. Every token is read once, a child's by the handler.
pub data Ends (D : XmlDecoder) (ending : Option String) {S : Type 0} (name : String) (f : Handler S)
    : S → Tokens → Parsed (S × Tokens) → Type 0 where
  ended : {s : S} → Ends D ending name f s [] (failed (at_end D ending))
  passed :
      {s : S} {r : Parsed (S × Tokens)} (c : String) (ts : Tokens)
      → Ends D ending name f s ts r
      → Ends D ending name f s (chars c ∷ ts) r
  closed :
      {s : S} (m : String) (ts : Tokens)
      → str_eq m name ≡ true
      → Ends D ending name f s (end m ∷ ts) (parsed (s, ts))
  stray :
      {s : S} {r : Parsed (S × Tokens)} (m : String) (ts : Tokens)
      → str_eq m name ≡ false
      → Ends D ending name f s ts r
      → Ends D ending name f s (end m ∷ ts) r
  handled :
      {s : S} {r : Parsed (S × Tokens)} (t : Start) (s' : S) (ts' ts : Tokens)
      → f s t ts ≡ parsed (s', ts')
      → Ends D ending name f s' ts' r
      → Ends D ending name f s (start t ∷ ts) r
  refused :
      {s : S} (t : Start) (m : String) (ts : Tokens)
      → f s t ts ≡ failed m
      → Ends D ending name f s (start t ∷ ts) (failed m)

abbrev IsShrinking : {S : Type 0} → Handler S → Type 0
IsShrinking {S} f = (s : S) (t : Start) (ts : Tokens) → Leaves (length ts) (f s t ts)

Leaves-if :
    {S : Type 0} (n : ℕ) (b : Bool) (x y : Parsed (S × Tokens))
    → Leaves n x
    → Leaves n y
    → Leaves n (if b then x else y)
Leaves-if n true x y p q = p
Leaves-if n false x y p q = q

Leaves-bind :
    {A S : Type 0} (n : ℕ) (m : Parsed (A × Tokens)) (g : A → S)
    → Leaves n m
    → Leaves n (◌>>=◌ {B = S × Tokens} m (λ d. parsed (g d.0, d.1)))
Leaves-bind n (parsed r) g p = p
Leaves-bind n (failed e) g p = tt

Leaves-skip :
    {S : Type 0} (n : ℕ) (m : Parsed Tokens) (s : S)
    → LeavesTokens n m
    → Leaves n (◌>>=◌ {B = S × Tokens} m (λ rest. parsed (s, rest)))
Leaves-skip n (parsed r) s p = p
Leaves-skip n (failed e) s p = tt

Leaves-more : {S : Type 0} (n m : ℕ) (x : Parsed (S × Tokens)) → n ≤ m → Leaves n x → Leaves m x
Leaves-more n m (parsed r) le p = omega arith
Leaves-more n m (failed e) le p = tt

module _ (D : XmlDecoder) (ending : Option String) where
  module _ {S : Type 0} (name : String) (f : Handler S) (h : IsShrinking f) where
    goes_on :
        (n : ℕ)
        → ((s : S) (ts : Tokens) → Leaves (length ts) (children D ending n name f s ts))
        → (ts : Tokens) (m : Parsed (S × Tokens)) → Leaves (length ts) m
        → Leaves (suc (length ts)) (m >>= λ r. children D ending n name f r.0 r.1)
    goes_on n ih ts (parsed r) p =
        Leaves-more (length r.1) (suc (length ts)) (children D ending n name f r.0 r.1)
          (omega arith) (ih r.0 r.1)
    goes_on n ih ts (failed e) p = tt

    children-Leaves :
        (n : ℕ) (s : S) (ts : Tokens) → Leaves (length ts) (children D ending n name f s ts)
    unfolding children
    children-Leaves zero s ts = tt
    children-Leaves (suc n) s [] = tt
    children-Leaves (suc n) s (chars c ∷ ts) =
        Leaves-more (length ts) (suc (length ts)) (children D ending n name f s ts) (omega arith)
          (children-Leaves n s ts)
    children-Leaves (suc n) s (end m ∷ ts) =
        Leaves-if (suc (length ts)) (str_eq m name) (parsed (s, ts))
          (children D ending n name f s ts) (omega arith)
          (Leaves-more (length ts) (suc (length ts)) (children D ending n name f s ts) (omega arith)
            (children-Leaves n s ts))
    children-Leaves (suc n) s (start t ∷ ts) =
        goes_on n (children-Leaves n) ts (f s t ts) (h s t ts)

    goes_on_Ends :
        (n : ℕ)
        → ((s : S) (ts : Tokens)
            → length ts < n
            → Ends D ending name f s ts (children D ending n name f s ts))
        → (s : S) (t : Start) (ts : Tokens) (x : Parsed (S × Tokens)) → f s t ts ≡ x
        → Leaves (length ts) x
        → length ts < n
        → Ends D ending name f s (start t ∷ ts) (x >>= λ r. children D ending n name f r.0 r.1)
    goes_on_Ends n ih s t ts (parsed r) e p lt = handled t r.0 r.1 ts e (ih r.0 r.1 (omega arith))
    goes_on_Ends n ih s t ts (failed m) e p lt = refused t m ts e

    end_Ends :
        (m : String) (b : Bool) (s : S) (ts : Tokens) (x : Parsed (S × Tokens))
        → str_eq m name ≡ b
        → Ends D ending name f s ts x
        → Ends D ending name f s (end m ∷ ts) (if b then parsed (s, ts) else x)
    end_Ends m true s ts x e later = closed m ts e
    end_Ends m false s ts x e later = stray m ts e later

    -- A round for each token and one more is enough.
    children-Ends :
        (n : ℕ) (s : S) (ts : Tokens)
        → length ts < n
        → Ends D ending name f s ts (children D ending n name f s ts)
    unfolding children
    children-Ends zero s ts p = absurd (omega arith)
    children-Ends (suc n) s [] p = ended
    children-Ends (suc n) s (chars c ∷ ts) p = passed c ts (children-Ends n s ts (omega arith))
    children-Ends (suc n) s (end k ∷ ts) p =
        end_Ends k (str_eq k name) s ts (children D ending n name f s ts) refl
          (children-Ends n s ts (omega arith))
    children-Ends (suc n) s (start t ∷ ts) p =
        goes_on_Ends n (children-Ends n) s t ts (f s t ts) refl (h s t ts) (omega arith)

  module _ (R : Consumes D) where
    caps_child-IsShrinking : IsShrinking (caps_child D ending)
    unfolding caps_child
    caps_child-IsShrinking caps t ts =
        Leaves-if (length ts) (str_eq t.name "capability") _ _
          (Leaves-bind (length ts) (D.decode_text ts) (λ s. caps ++ s ∷ []) (R.decode_text ts))
          (Leaves-skip (length ts) (D.skip ts) caps (R.skip ts))

    hello_child-IsShrinking : IsShrinking (hello_child D ending)
    unfolding hello_child decode_caps
    hello_child-IsShrinking h t ts =
        Leaves-if (length ts) (str_eq t.name "capabilities") _ _
          (Leaves-bind (length ts) (decode_caps D ending t.name ts)
            (λ c. record h { capabilities = c })
            (children-Leaves t.name (caps_child D ending) caps_child-IsShrinking (suc (length ts))
              [] ts))
          (Leaves-if (length ts) (str_eq t.name "session-id") _ _
            (Leaves-bind (length ts) (D.decode_text ts) (λ i. record h { session_id = i })
              (R.decode_text ts))
            (Leaves-skip (length ts) (D.skip ts) h (R.skip ts)))

    datastore_child-IsShrinking : IsShrinking (datastore_child D ending)
    unfolding datastore_child
    datastore_child-IsShrinking name t ts =
        Leaves-if (length ts) _ _ _ (Leaves-skip (length ts) (D.skip ts) t.name (R.skip ts))
          (Leaves-skip (length ts) (D.skip ts) name (R.skip ts))

    decode_datastore-Leaves :
        (name : String) (ts : Tokens) → Leaves (length ts) (decode_datastore D ending name ts)
    unfolding decode_datastore
    decode_datastore-Leaves name ts =
        children-Leaves name (datastore_child D ending) datastore_child-IsShrinking
          (suc (length ts)) "" ts

    op_child-IsShrinking : IsShrinking (op_child D ending)
    unfolding op_child
    op_child-IsShrinking r t ts =
        let n = length ts in
        let store = decode_datastore D ending t.name ts in
        let leaf = D.decode_text ts in
        Leaves-if n (str_eq t.name "source") _ _
          (Leaves-bind n store (λ d. record r { source = d }) (decode_datastore-Leaves t.name ts))
          (Leaves-if n (str_eq t.name "target") _ _
            (Leaves-bind n store (λ d. record r { target = d }) (decode_datastore-Leaves t.name ts))
            (Leaves-if n (str_eq t.name "filter") _ _
              (Leaves-bind n (D.decode_filter t ts)
                (λ d. record r { filter = some (typed_filter d) }) (R.decode_filter t ts))
              (Leaves-if n (str_eq t.name "default-operation") _ _
                (Leaves-bind n leaf (λ d. record r { default_op = d }) (R.decode_text ts))
                (Leaves-if n (str_eq t.name "config") _ _
                  (Leaves-bind n (D.decode_inner ts) (λ d. record r { config = d })
                    (R.decode_inner ts))
                  (Leaves-if n (str_eq t.name "session-id") _ _
                    (Leaves-bind n leaf (λ d. record r { session_id = d }) (R.decode_text ts))
                    (Leaves-if n (str_eq t.name "stream") _ _
                      (Leaves-bind n leaf (λ d. record r { stream = d }) (R.decode_text ts))
                      (Leaves-skip n (D.skip ts) r (R.skip ts))))))))

    rpc_child-IsShrinking : IsShrinking (rpc_child D ending)
    unfolding rpc_child decode_op
    rpc_child-IsShrinking r t ts =
        Leaves-if (length ts) (str_eq r.name "") _ _
          (children-Leaves t.name (op_child D ending) op_child-IsShrinking (suc (length ts))
            (record r { name = t.name; namespace = t.space }) ts)
          (Leaves-skip (length ts) (D.skip ts) r (R.skip ts))

    reply_child-IsShrinking : IsShrinking (reply_child D ending)
    unfolding reply_child
    reply_child-IsShrinking r t ts =
        let n = length ts in
        Leaves-if n (str_eq t.name "ok") _ _
          (Leaves-skip n (D.skip ts) (record r { is_ok = true }) (R.skip ts))
          (Leaves-if n (str_eq t.name "data") _ _
            (Leaves-bind n (D.decode_inner ts) (λ d. record r { payload = some d })
              (R.decode_inner ts))
            (Leaves-if n (str_eq t.name "rpc-error") _ _
              (Leaves-bind n (D.decode_error ts) (λ e. record r { errors = r.errors ++ e ∷ [] })
                (R.decode_error ts))
              (Leaves-skip n (D.skip ts) r (R.skip ts))))

-- Each loop of the decoders, over a decoder that reads on, comes to the end of a run without a bound on
-- its rounds: the rounds that it has, one for each token and one more, are enough.
pub loops_end :
    (D : XmlDecoder) (ending : Option String)
    → Consumes D
    → (name : String) (ts : Tokens)
    → ((s : List String)
        → Ends D ending name
            (caps_child D ending)
            s
            ts
            (each_child D ending name (caps_child D ending) s ts))
      × ((s : Hello)
          → Ends D ending name
              (hello_child D ending)
              s
              ts
              (each_child D ending name (hello_child D ending) s ts))
      × ((s : String)
          → Ends D ending name
              (datastore_child D ending)
              s
              ts
              (each_child D ending name (datastore_child D ending) s ts))
      × ((s : Rpc)
          → Ends D ending name
              (op_child D ending)
              s
              ts
              (each_child D ending name (op_child D ending) s ts))
      × ((s : Rpc)
          → Ends D ending name
              (rpc_child D ending)
              s
              ts
              (each_child D ending name (rpc_child D ending) s ts))
      × ((s : Reply)
          → Ends D ending name
              (reply_child D ending)
              s
              ts
              (each_child D ending name (reply_child D ending) s ts))
loops_end D ending R name ts =
    let k = suc (length ts) in
    let enough : length ts < k = omega arith in
    (
      λ s.
          children-Ends D ending name (caps_child D ending) (caps_child-IsShrinking D ending R) k s
            ts enough,
      λ s.
          children-Ends D ending name (hello_child D ending) (hello_child-IsShrinking D ending R) k
            s ts enough,
      λ s.
          children-Ends D ending name (datastore_child D ending)
            (datastore_child-IsShrinking D ending R) k s ts enough,
      λ s.
          children-Ends D ending name (op_child D ending) (op_child-IsShrinking D ending R) k s ts
            enough,
      λ s.
          children-Ends D ending name (rpc_child D ending) (rpc_child-IsShrinking D ending R) k s ts
            enough,
      λ s.
          children-Ends D ending name (reply_child D ending) (reply_child-IsShrinking D ending R) k
            s ts enough,
    )

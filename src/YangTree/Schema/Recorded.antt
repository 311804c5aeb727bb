-- ===== src/YangTree/Schema/Recorded.antt =====
-- internal/yangtree/schema.go: each leaf of a compiled schema is found under its path.
use go_lab_netconf.Base.{
  ℕ, suc, Bytes, bytes_eq_iff, str_eq, Bool, true, false, not, ◌||◌, List, [], ◌∷◌, ◌++◌, Option,
  none, some, ◌≡◌, refl, ap, subst, ◌∙◌, length, ◌==◌, All, arith,
}
use mathlib.Core.Bool.{false≢true}
use go_lab_netconf.DomainErr.{AnyError}
use go_lab_netconf.Datastore.Yang.{Result, ok, err, ◌>>=◌, ◌>>◌, err≢ok}
use go_lab_netconf.YangTree.Value.{Floats}
use go_lab_netconf.YangTree.Path.{InstancePath, Unicode, schema_string, parse_path}
use go_lab_netconf.YangTree.Schema.{Regexps, Check, ensure, Entry, Schema, at_key}
use go_lab_netconf.YangTree.Schema
use go_lab_netconf.YangTree.Schema.Build.{
  SchemaLeaf, known_schema_type, is_taken, leaf_error, leaf_range, leaf_pattern, leaf_checks,
  made_entry, leaf_entry, add_leaves, new_schema,
}

module _ {ℓ κ} {A : Type ℓ} (P : A → Type κ) where
  -- What a result has if there is one.
  abbrev Holds : Result A → Type κ
  Holds (err e) = Unit
  Holds (ok a) = P a

Holds-bind {ℓ κ μ} :
    {A : Type ℓ} {B : Type μ} (P : B → Type κ) (r : Result A) (k : A → Result B)
    → ((a : A) → r ≡ ok a → Holds P (k a))
    → Holds P (r >>= k)
Holds-bind P (err e) k q = _
Holds-bind P (ok a) k q = q a refl

ensure_passed : (b : Bool) (e : AnyError) (u : Unit {0}) → ensure b e ≡ ok u → b ≡ true
ensure_passed true e u q = refl
ensure_passed false e u q = absurd (err≢ok e u q)

module _ (F : Floats) (U : Unicode) (R : Regexps) where
  at_key-append :
      (k : Bytes) (s t : Schema F R) (e : Entry F R)
      → at_key F R k s ≡ some e
      → at_key F R k (s ++ t) ≡ some e
  unfolding at_key
  at_key-append k [] t e p = ground arith
  at_key-append k ((j, d) ∷ s) t e p = ground (arith, at_key-append k s t e)

  at_key-last :
      (k : Bytes) (s : Schema F R) (e : Entry F R)
      → at_key F R k s ≡ none
      → at_key F R k (s ++ (k, e) ∷ []) ≡ some e
  unfolding at_key
  at_key-last k [] e p = ground (arith, bytes_eq_iff k k)
  at_key-last k ((j, d) ∷ s) e p = ground (arith, at_key-last k s e)

  -- An entry that has what the leaf says.
  abbrev IsOf : SchemaLeaf → InstancePath → Entry F R → Type 0
  IsOf leaf p e =
      (e.path ≡ p)
      × (e.typ ≡ leaf.typ)
      × (e.access ≡ leaf.access)
      × (e.value_from ≡ leaf.value_from)
      × (known_schema_type e.typ ≡ true)

  abbrev IsEntry : SchemaLeaf → Schema F R → Bytes × Entry F R → Type 0
  IsEntry leaf s (k, e) =
      (at_key F R k s ≡ none)
      × ((p : InstancePath) × (parse_path U leaf.path ≡ ok p)
          × (k ≡ schema_string p)
          × IsOf leaf p e)

  untaken : (o : Option (Entry F R)) → not (is_taken F U R o) ≡ true → o ≡ none
  unfolding is_taken
  untaken none p = refl
  untaken (some e) p = absurd (false≢true p)

  checked :
      (taken known from : Bool) (e d c : AnyError) (u : Unit {0})
      → (ensure taken e >> (ensure known d >> ensure from c)) ≡ ok u
      → (taken ≡ true) × (known ≡ true)
  checked true true from e d c u q = (refl, refl)
  checked true false from e d c u q = absurd (err≢ok d u q)
  checked false known from e d c u q = absurd (err≢ok e u q)

  leaf_checks-ok :
      (leaf : SchemaLeaf) (p : InstancePath) (s : Schema F R) (u : Unit {0})
      → leaf_checks F U R leaf p s ≡ ok u
      → (at_key F R (schema_string p) s ≡ none) × (known_schema_type leaf.typ ≡ true)
  unfolding leaf_checks
  leaf_checks-ok leaf p s u q =
      let (free, known) =
        checked (not (is_taken F U R (at_key F R (schema_string p) s))) (known_schema_type leaf.typ)
          (str_eq leaf.value_from "" || str_eq leaf.value_from "processUptime")
          (leaf_error "duplicate schema path" leaf.path "duplicate_id")
          (leaf_error "unsupported compact schema type" leaf.path "invalid_value")
          (leaf_error "valueFrom must be processUptime" leaf.path "invalid_value") u q in
      (untaken (at_key F R (schema_string p) s) free, known)

  -- An entry that has what the leaf says, but for the known type.
  abbrev IsMade : SchemaLeaf → InstancePath → Entry F R → Type 0
  IsMade leaf p e =
      (e.path ≡ p)
      × (e.typ ≡ leaf.typ)
      × (e.access ≡ leaf.access)
      × (e.value_from ≡ leaf.value_from)

  made_entry-IsMade :
      (leaf : SchemaLeaf) (p : InstancePath) → Holds (IsMade leaf p) (made_entry F U R leaf p)
  unfolding made_entry
  made_entry-IsMade leaf p = Holds-bind (IsMade leaf p) (leaf_range F U R leaf) _ (λ (low, high) q.
      Holds-bind (IsMade leaf p) (leaf_pattern F U R leaf) _ (λ re q'. (refl, refl, refl, refl)))

  leaf_entry-IsEntry :
      (i : ℕ) (leaf : SchemaLeaf) (s : Schema F R)
      → Holds (IsEntry leaf s) (leaf_entry F U R i leaf s)
  unfolding leaf_entry
  leaf_entry-IsEntry i leaf s =
      let P = IsEntry leaf s in
      Holds-bind P (ensure (not (length (U.trim_space leaf.path) == 0)) _) _ (λ u q.
        Holds-bind P (parse_path U leaf.path) _ (λ p parsed.
          Holds-bind P (leaf_checks F U R leaf p s) _ (λ u checked.
            Holds-bind P (made_entry F U R leaf p) (λ e. ok (schema_string p, e))
              (λ e made.
                let (free, known) = leaf_checks-ok leaf p s u checked in
                let (path, typ, access, from) =
                  subst (Holds (IsMade leaf p)) made (made_entry-IsMade leaf p) in
                (
                  free,
                  (p, parsed, refl, (path, typ, access, from, ap known_schema_type typ ∙ known)),
                )))))

  -- The leaf is found under its path.
  abbrev pub IsRecorded : Schema F R → SchemaLeaf → Type 0
  IsRecorded s leaf =
      (p : InstancePath) × (parse_path U leaf.path ≡ ok p)
      × ((e : Entry F R) × (Schema.lookup F R (some s) p ≡ some e) × IsOf leaf p e)

  -- A longer schema that has what the first one has.
  abbrev Extends : Schema F R → Schema F R → Type 0
  Extends s s' = (k : Bytes) (e : Entry F R) → at_key F R k s ≡ some e → at_key F R k s' ≡ some e

  abbrev AddsAll : List SchemaLeaf → Schema F R → Schema F R → Type 0
  AddsAll leaves s s' = Extends s s' × All (IsRecorded s') leaves

  recorded :
      (leaf : SchemaLeaf) (s s' : Schema F R) (k : Bytes) (e : Entry F R)
      → IsEntry leaf s (k, e)
      → Extends (s ++ (k, e) ∷ []) s'
      → IsRecorded s' leaf
  unfolding Schema.lookup
  recorded leaf s s' k e (free, (p, parsed, key, same)) more = (
    p,
    parsed,
    (e, subst (λ j. at_key F R j s' ≡ some e) key (more k e (at_key-last k s e free)), same),
  )

  more_leaves :
      (leaf : SchemaLeaf) (leaves : List SchemaLeaf) (s : Schema F R) (k : Bytes) (e : Entry F R)
      → IsEntry leaf s (k, e)
      → (r : Result (Schema F R)) → Holds (AddsAll leaves (s ++ (k, e) ∷ [])) r
      → Holds (AddsAll (leaf ∷ leaves) s) r
  more_leaves leaf leaves s k e here (err d) q = _
  more_leaves leaf leaves s k e here (ok s') (more, rest) = (
    λ j d q. more j d (at_key-append j s ((k, e) ∷ []) d q),
    (recorded leaf s s' k e here more, rest),
  )

  add_leaves-AddsAll :
      (i : ℕ) (leaves : List SchemaLeaf) (s : Schema F R)
      → Holds (AddsAll leaves s) (add_leaves F U R i leaves s)
  unfolding add_leaves
  add_leaves-AddsAll i [] s = (λ k e q. q, tt)
  add_leaves-AddsAll i (leaf ∷ leaves) s =
      Holds-bind (AddsAll (leaf ∷ leaves) s) (leaf_entry F U R i leaf s) _ (λ (k, e) made.
        let here = subst (Holds (IsEntry leaf s)) made (leaf_entry-IsEntry i leaf s) in
        more_leaves leaf leaves s k e here (add_leaves F U R (suc i) leaves (s ++ (k, e) ∷ []))
          (add_leaves-AddsAll (suc i) leaves (s ++ (k, e) ∷ [])))

  -- After a schema is compiled, each of its leaves is found under its parsed path, with the type, the
  -- access and the getter that the leaf says, and the type is one of the compact types.
  pub lookup-new_schema :
      (leaves : List SchemaLeaf) (s : Schema F R)
      → new_schema F U R leaves ≡ ok s
      → All (IsRecorded s) leaves
  unfolding new_schema
  lookup-new_schema leaves s made =
      let (more, all) = subst (Holds (AddsAll leaves [])) made (add_leaves-AddsAll 0 leaves []) in
      all

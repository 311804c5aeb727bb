-- ===== src/YangTree/Lists.antt =====
-- internal/yangtree/value.go and edit.go: list entries and their keys, and the merge of values.
use go_lab_netconf.Base.{
  ℕ, zero, suc, Bytes, bytes_eq, Bool, true, false, ◌&&◌, List, [], ◌∷◌, Option, none, some,
  if◌then◌else◌,
}
use go_lab_netconf.YangTree.Value.{
  Floats, Value, null, text, boolean, slice, mapping, Items, nil, cons, Fields, end, field, clone,
  clone_fields, as_map, field_at, put_field,
}
use go_lab_netconf.YangTree.Path.{Key}

module _ (F : Floats) where
  -- fmt.Sprint, of the values that are neither text nor Boolean
  abbrev pub Sprint : Type 0
  Sprint = Value F → Bytes

  abbrev pub append_item : Items F → Value F → Items F
  append_item nil y = cons y nil
  append_item (cons x xs) y = cons x (append_item xs y)

  -- xs[i] = y, which the code does inside the bounds only
  unfoldable pub set_item : ℕ → Value F → Items F → Items F
  set_item i y nil = nil
  set_item zero y (cons x xs) = cons y xs
  set_item (suc i) y (cons x xs) = cons x (set_item i y xs)

  -- append(xs[:i], xs[i+1:]...)
  unfoldable pub drop_item : ℕ → Items F → Items F
  drop_item i nil = nil
  drop_item zero (cons x xs) = xs
  drop_item (suc i) (cons x xs) = cons x (drop_item i xs)

  unfoldable pub put_keys : List Key → Fields F → Fields F
  put_keys [] m = m
  put_keys (k ∷ ks) m = put_keys ks (put_field F k.name (text k.value) m)

  -- `entryWithKeys`
  unfoldable pub entry_with_keys : List Key → Fields F
  unfolding put_keys
  entry_with_keys keys = put_keys keys end

  module _ (sprint : Sprint) where
    unfoldable pub stringify : Value F → Bytes
    stringify (text s) = s
    stringify (boolean true) = b't' ∷ b'r' ∷ b'u' ∷ b'e' ∷ []
    stringify (boolean false) = b'f' ∷ b'a' ∷ b'l' ∷ b's' ∷ b'e' ∷ []
    stringify v = sprint v

    matches_key : Option (Value F) → Bytes → Bool
    unfolding stringify
    matches_key none s = false
    matches_key (some v) s = bytes_eq (stringify v) s

    unfoldable pub match_keys : Fields F → List Key → Bool
    unfolding matches_key
    match_keys m [] = true
    match_keys m (k ∷ ks) = matches_key (field_at F k.name m) k.value && match_keys m ks

    next_index : Option (ℕ × Fields F) → Option (ℕ × Fields F)
    next_index none = none
    next_index (some (i, m)) = some (suc i, m)

    -- `listIndex`: the first entry that has the keys, and its place.
    unfoldable pub list_index : Items F → List Key → Option (ℕ × Fields F)
    unfolding match_keys next_index
    list_index nil keys = none
    list_index (cons (mapping m) xs) keys =
        let later = next_index (list_index xs keys) in
        if match_keys m keys then some (0, m) else later
    list_index (cons x xs) keys = next_index (list_index xs keys)

    -- The keys of an entry by the first of the customary names that it has.
    customary_keys : Fields F → List Bytes → List Key
    unfolding stringify
    customary_keys m [] = []
    customary_keys m (kn ∷ names) = elim (field_at F kn m) [
      | some v ↦ record { name = kn; value = stringify v } ∷ []
      | none ↦ customary_keys m names
    ]

    -- Else its first text field, in the order of iteration.
    text_key : Fields F → List Key
    text_key end = []
    text_key (field k (text s) fs) = record { name = k; value = s } ∷ []
    text_key (field k v fs) = text_key fs

    abbrev or_else : List Key → List Key → List Key
    or_else [] keys = keys
    or_else (k ∷ ks) keys = k ∷ ks

    abbrev customary_names : List Bytes
    customary_names =
        (b'n' ∷ b'a' ∷ b'm' ∷ b'e' ∷ [])
        ∷ (b'i' ∷ b'd' ∷ [])
        ∷ (b'i' ∷ b'n' ∷ b'd' ∷ b'e' ∷ b'x' ∷ [])
        ∷ (b'k' ∷ b'e' ∷ b'y' ∷ [])
        ∷ []

    -- `keysForItem`
    unfoldable pub keys_for_item : Fields F → List Key
    unfolding customary_keys text_key
    keys_for_item m = or_else (customary_keys m customary_names) (text_key m)

    -- The entry of a list that an item of a merge falls on; an item without keys is a new one.
    unfoldable pub partner : Items F → Fields F → Option (ℕ × Fields F)
    unfolding keys_for_item list_index
    partner out m = elim (keys_for_item m) [ [] ↦ none | k ∷ ks ↦ list_index out (k ∷ ks) ]

    abbrev pub slice_or_nil : Value F → Items F
    slice_or_nil (slice xs) = xs
    slice_or_nil _ = nil

    unfoldable mutual
      unfolding clone partner set_item

      pub merge_values : Value F → Value F → Value F
      merge_values dst null = dst
      merge_values dst (mapping sm) = elim (as_map F dst) [
        | some dm ↦ mapping (merge_maps dm sm)
        | none ↦ mapping (clone_fields F sm)
      ]
      merge_values dst (slice ss) = slice (merge_lists (slice_or_nil dst) ss)
      merge_values dst v = clone F v

      pub merge_maps : Fields F → Fields F → Fields F
      merge_maps dst end = dst
      merge_maps dst (field k sv src) =
          let next : Value F = elim (field_at F k dst) [
            | some dv ↦ merge_values dv sv
            | none ↦ clone F sv
          ] in
          merge_maps (put_field F k next dst) src

      -- Two maps that share their keys are merged by `mergeMaps`, which is what `mergeValues` does of them.
      pub merge_lists : Items F → Items F → Items F
      merge_lists out nil = out
      merge_lists out (cons (mapping m) src) = elim (partner out m) [
        | some (i, existing) ↦ merge_lists (set_item i (mapping (merge_maps existing m)) out) src
        | none ↦ merge_lists (append_item out (mapping (clone_fields F m))) src
      ]
      merge_lists out (cons item src) = merge_lists (append_item out (clone F item)) src

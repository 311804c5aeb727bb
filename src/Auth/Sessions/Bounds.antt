-- ===== src/Auth/Sessions/Bounds.antt =====
-- internal/auth/session.go: the size of the session table, and which session makes room.
use go_lab_netconf.Base.{
  Bytes, ℕ, suc, ◌≤◌, String, str_eq, eq_iff, Bool, true, false, ◌||◌, Bool-cases, inl, inr, [],
  ◌∷◌, ◌≡◌, ◌≢◌, refl, sym, subst, All, length, ltb, leb, if◌then◌else◌, arith,
}
use go_lab_netconf.Base.Dict
use go_lab_netconf.Base.Dict.{Dict}
use go_lab_netconf.Auth.{Principal}
use go_lab_netconf.Auth.Sessions.{
  Entry, SessionConfig, Store, expired, live_entries, oldest_from, evict_oldest, create, new_entry,
}

-- No key is empty; `Create` makes keys of 64 hexadecimal digits.
abbrev pub IsKeyed : Dict Entry → Type 0
IsKeyed = All (λ p. p.0 ≢ "")

length-live_entries :
    (cfg : SessionConfig) (now : ℕ) (m : Dict Entry) → length (live_entries cfg now m) ≤ length m
unfolding live_entries
length-live_entries cfg now [] = omega arith
length-live_entries cfg now ((k, rec) ∷ m) = ground (arith, length-live_entries cfg now m)

length-put :
    (k : String) (rec : Entry) (m : Dict Entry) → length (Dict.put k rec m) ≤ suc (length m)
unfolding Dict.put
length-put k rec [] = omega arith
length-put k rec ((j, r) ∷ m) = ground (arith, length-put k rec m)

pub length-remove : (k : String) (m : Dict Entry) → length (Dict.remove k m) ≤ length m
unfolding Dict.remove
length-remove k [] = omega arith
length-remove k ((j, r) ∷ m) = ground (arith, length-remove k m)

has_key : String → Dict Entry → Bool
has_key k [] = false
has_key k ((j, rec) ∷ m) = str_eq j k || has_key k m

length-remove_present :
    (k : String) (m : Dict Entry) → has_key k m ≡ true → suc (length (Dict.remove k m)) ≤ length m
unfolding Dict.remove has_key
length-remove_present k [] p = ground arith
length-remove_present k ((j, r) ∷ m) p =
    ground (arith, length-remove k m, length-remove_present k m)

live_entries-IsKeyed :
    (cfg : SessionConfig) (now : ℕ) (m : Dict Entry) → IsKeyed m → IsKeyed (live_entries cfg now m)
unfolding live_entries
live_entries-IsKeyed cfg now [] p = p
live_entries-IsKeyed cfg now ((k, rec) ∷ m) (here, rest) =
    let later = live_entries-IsKeyed cfg now m rest in
    elim (Bool-cases (expired cfg rec now)) [
      | inl old ↦ rw old later
      | inr fresh ↦ rw fresh (here, later)
    ]

pub put-IsKeyed :
    (k : String) (rec : Entry) (m : Dict Entry) → k ≢ "" → IsKeyed m → IsKeyed (Dict.put k rec m)
unfolding Dict.put
put-IsKeyed k rec [] ne p = (ne, p)
put-IsKeyed k rec ((j, r) ∷ m) ne (here, rest) =
    let later = put-IsKeyed k rec m ne rest in
    elim (Bool-cases (str_eq j k)) [
      | inl same ↦ rw same (here, rest)
      | inr other ↦ rw other (here, later)
    ]

pub remove-IsKeyed : (k : String) (m : Dict Entry) → IsKeyed m → IsKeyed (Dict.remove k m)
unfolding Dict.remove
remove-IsKeyed k [] p = p
remove-IsKeyed k ((j, r) ∷ m) (here, rest) =
    let later = remove-IsKeyed k m rest in
    elim (Bool-cases (str_eq j k)) [ inl same ↦ rw same later | inr other ↦ rw other (here, later) ]

oldest_from-older :
    (key k : String) (oldest : ℕ) (rec : Entry) (m : Dict Entry)
    → ltb rec.last_seen oldest ≡ true
    → oldest_from key oldest ((k, rec) ∷ m) ≡ oldest_from k rec.last_seen m
unfolding oldest_from
oldest_from-older key k oldest rec m p = rw p refl

oldest_from-newer :
    (key k : String) (oldest : ℕ) (rec : Entry) (m : Dict Entry)
    → ltb rec.last_seen oldest ≡ false
    → oldest_from key oldest ((k, rec) ∷ m) ≡ oldest_from key oldest m
unfolding oldest_from
oldest_from-newer key k oldest rec m p = rw p refl

-- The search ends at the key it began with, or at one of the table.
oldest_from-key :
    (key : String) (oldest : ℕ) (m : Dict Entry)
    → (str_eq key (oldest_from key oldest m).0 || has_key (oldest_from key oldest m).0 m) ≡ true
unfolding has_key
oldest_from-key key oldest [] = unfold oldest_from in ground (arith, eq_iff key key)
oldest_from-key key oldest ((k, rec) ∷ m) = elim (Bool-cases (ltb rec.last_seen oldest)) [
  | inl older ↦
      let found = oldest_from-key k rec.last_seen m in
      subst (λ f. (str_eq key f.0 || has_key f.0 ((k, rec) ∷ m)) ≡ true)
        (sym (oldest_from-older key k oldest rec m older)) (ground arith)
  | inr newer ↦
      let found = oldest_from-key key oldest m in
      subst (λ f. (str_eq key f.0 || has_key f.0 ((k, rec) ∷ m)) ≡ true)
        (sym (oldest_from-newer key k oldest rec m newer)) (ground arith)
]

has_key-nonempty : (k : String) (m : Dict Entry) → IsKeyed m → has_key k m ≡ true → k ≢ ""
unfolding has_key
has_key-nonempty k [] keyed p = ground arith
has_key-nonempty k ((j, rec) ∷ m) (here, rest) p =
    let later = has_key-nonempty k m rest in λ e. ground (arith, eq_iff j k)

-- An eviction makes room in a table that is not empty.
length-evict_oldest :
    (m : Dict Entry) → IsKeyed m → 1 ≤ length m → suc (length (evict_oldest m)) ≤ length m
unfolding evict_oldest
length-evict_oldest [] keyed p = ground arith
length-evict_oldest ((k, rec) ∷ m) keyed p =
    let found = (oldest_from k rec.last_seen m).0 in
    let present : has_key found ((k, rec) ∷ m) ≡ true =
      (unfold has_key in oldest_from-key k rec.last_seen m) in
    let named = has_key-nonempty found ((k, rec) ∷ m) keyed present in
    let smaller = length-remove_present found ((k, rec) ∷ m) present in
    ground (arith, eq_iff found "")

evict_oldest-IsKeyed : (m : Dict Entry) → IsKeyed m → IsKeyed (evict_oldest m)
unfolding evict_oldest
evict_oldest-IsKeyed [] p = p
evict_oldest-IsKeyed ((k, rec) ∷ m) p =
    let found = (oldest_from k rec.last_seen m).0 in
    elim (Bool-cases (str_eq found "")) [
      | inl none_found ↦ rw none_found p
      | inr some_found ↦ rw some_found (remove-IsKeyed found ((k, rec) ∷ m) p)
    ]

-- The table is within its size, and its keys are not empty.
abbrev pub IsBounded : Store → Type 0
IsBounded s = (length s.sessions ≤ s.cfg.max) × (1 ≤ s.cfg.max) × IsKeyed s.sessions

room : ℕ → Dict Entry → Dict Entry
room max live = if leb max (length live) then evict_oldest live else live

length-room :
    (max : ℕ) (live : Dict Entry)
    → IsKeyed live
    → length live ≤ max
    → 1 ≤ max
    → suc (length (room max live)) ≤ max
unfolding room
length-room max live keyed p q = let smaller = length-evict_oldest live keyed in ground arith

room-IsKeyed : (max : ℕ) (live : Dict Entry) → IsKeyed live → IsKeyed (room max live)
unfolding room
room-IsKeyed max live keyed = elim (Bool-cases (leb max (length live))) [
  | inl full ↦ rw full (evict_oldest-IsKeyed live keyed)
  | inr free ↦ rw free keyed
]

pub create-IsBounded :
    (s : Store) (now : ℕ) (p : Principal) (cookie : String) (csrf : Bytes) (public_id : String)
    → cookie ≢ ""
    → IsBounded s
    → IsBounded (create s now p cookie csrf public_id)
unfolding create
create-IsBounded s now p cookie csrf public_id ne (size, some_room, keyed) =
    let live = live_entries s.cfg now s.sessions in
    let rec = new_entry p csrf public_id now in
    let live_keyed = live_entries-IsKeyed s.cfg now s.sessions keyed in
    let fewer = length-live_entries s.cfg now s.sessions in
    let free = length-room s.cfg.max live live_keyed (omega arith) some_room in
    let grown = length-put cookie rec (room s.cfg.max live) in
    unfold room in
    (
      omega arith,
      some_room,
      put-IsKeyed cookie rec (room s.cfg.max live) ne (room-IsKeyed s.cfg.max live live_keyed),
    )

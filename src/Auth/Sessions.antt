-- ===== src/Auth/Sessions.antt =====
-- internal/auth/session.go: the table of browser sessions. A time is its nanoseconds since a fixed
-- one, and the random values of `Create` are its arguments.
use go_lab_netconf.Base.{
  Bytes, ◌==◌, ℕ, ◌+◌, ◌-◌, ◌*◌, String, str_eq, Bool, true, false, not, ◌&&◌, ◌||◌, List, [], ◌∷◌,
  Option, none, some, length, ltb, leb, if◌then◌else◌,
}
use go_lab_netconf.Base.Dict
use go_lab_netconf.Base.Dict.{Dict}
use go_lab_netconf.Auth.{Digests, Principal, class_token}
pub mod Bounds
pub mod Runs
pub mod Lifetime

pub record SessionConfig : Type 0 where
  pub idle : ℕ
  pub absolute : ℕ
  pub max : ℕ

pub record Session : Type 0 where
  pub id : String
  pub token_id : String
  pub role : String
  pub scopes : List String
  pub created_at : ℕ
  pub last_seen : ℕ

-- `record`: its times are those of its public part, which the code writes together.
pub record Entry : Type 0 where
  pub public : Session
  pub csrf : Bytes
  pub created_at : ℕ
  pub last_seen : ℕ

pub record Store : Type 0 where
  pub sessions : Dict Entry
  pub cfg : SessionConfig

abbrev pub hour : ℕ
hour = 3600000000000

abbrev pub default_session_config : SessionConfig
default_session_config = record { idle = 4 * hour; absolute = 12 * hour; max = 64 }

abbrev pub or_default : ℕ → ℕ → ℕ
or_default n d = if leb n 0 then d else n

-- `NewStore`; a value below 1 stands for itself as 0.
unfoldable pub new_store : SessionConfig → Store
new_store cfg = record {
  sessions = [];
  cfg = record {
    idle = or_default cfg.idle default_session_config.idle;
    absolute = or_default cfg.absolute default_session_config.absolute;
    max = or_default cfg.max default_session_config.max;
  };
}

-- `expiredLocked`. A clock that went back gives no expiry, as a difference of 0 does.
unfoldable pub expired : SessionConfig → Entry → ℕ → Bool
expired cfg rec now = ltb cfg.idle (now - rec.last_seen) || ltb cfg.absolute (now - rec.created_at)

unfoldable pub live_entries : SessionConfig → ℕ → Dict Entry → Dict Entry
live_entries cfg now [] = []
live_entries cfg now ((k, rec) ∷ m) =
    let rest = live_entries cfg now m in if expired cfg rec now then rest else (k, rec) ∷ rest

-- The loop of `evictOldestLocked`, from the key and time it has found so far.
unfoldable pub oldest_from : String → ℕ → Dict Entry → String × ℕ
oldest_from key oldest [] = (key, oldest)
oldest_from key oldest ((k, rec) ∷ m) =
    let (key', oldest') = if ltb rec.last_seen oldest then (k, rec.last_seen) else (key, oldest) in
    oldest_from key' oldest' m

unfoldable pub evict_oldest : Dict Entry → Dict Entry
evict_oldest [] = []
evict_oldest ((k, rec) ∷ m) =
    let (key, oldest) = oldest_from k rec.last_seen m in
    if str_eq key "" then (k, rec) ∷ m else Dict.remove key ((k, rec) ∷ m)

abbrev pub new_entry : Principal → Bytes → String → ℕ → Entry
new_entry p csrf public_id now = record {
  public = record {
    id = public_id;
    token_id = p.id;
    role = p.role;
    scopes = p.scopes;
    created_at = now;
    last_seen = now;
  };
  csrf = csrf;
  created_at = now;
  last_seen = now;
}

-- `Create` with its random values at hand
unfoldable pub create : Store → ℕ → Principal → String → Bytes → String → Store
create s now p cookie csrf public_id =
    let live = live_entries s.cfg now s.sessions in
    let room = if leb s.cfg.max (length live) then evict_oldest live else live in
    record s { sessions = Dict.put cookie (new_entry p csrf public_id now) room }

abbrev pub touch : ℕ → Entry → Entry
touch now rec = record rec { last_seen = now; public = record rec.public { last_seen = now } }

unfoldable pub lookup : Store → ℕ → String → Option (Session × Bytes) × Store
lookup s now cookie = if str_eq cookie "" then (none, s) else elim (Dict.lookup cookie s.sessions) [
  | none ↦ (none, s)
  | some rec ↦
      if expired s.cfg rec now
      then (none, record s { sessions = Dict.remove cookie s.sessions })
      else (
        some ((touch now rec).public, rec.csrf),
        record s { sessions = Dict.put cookie (touch now rec) s.sessions },
      )
]

unfoldable pub delete : Store → String → Store
delete s cookie =
    if str_eq cookie "" then s else record s { sessions = Dict.remove cookie s.sessions }

unfoldable pub clear : Store → Store
clear s = record s { sessions = [] }

unfoldable pub valid_csrf : Digests → Store → ℕ → String → Bytes → Bool × Store
valid_csrf D s now cookie presented =
    if str_eq cookie "" || length presented == 0
    then (false, s)
    else elim (Dict.lookup cookie s.sessions) [
      | none ↦ (false, s)
      | some rec ↦
          if expired s.cfg rec now
          then (false, record s { sessions = Dict.remove cookie s.sessions })
          else (D.equal_digest (D.digest_secret rec.csrf) (D.digest_secret presented), s)
    ]

unfoldable pub expires_at : Store → Session → ℕ
expires_at s sess =
    let idle = sess.last_seen + s.cfg.idle in
    let absolute = sess.created_at + s.cfg.absolute in if ltb idle absolute then idle else absolute

unfoldable pub principal_from_session : Session → Principal
principal_from_session sess = record {
  id = sess.token_id;
  class = class_token;
  role = sess.role;
  scopes = sess.scopes;
}

-- The methods that write, with the time at which each is called.
pub data Call : Type 0 where
  creates : ℕ → Principal → String → Bytes → String → Call
  looks_up : ℕ → String → Call
  deletes : String → Call
  clears : Call
  checks_csrf : ℕ → String → Bytes → Call

unfoldable pub after : Digests → Store → Call → Store
after D s (creates now p cookie csrf public_id) = create s now p cookie csrf public_id
after D s (looks_up now cookie) = (lookup s now cookie).1
after D s (deletes cookie) = delete s cookie
after D s clears = clear s
after D s (checks_csrf now cookie presented) = (valid_csrf D s now cookie presented).1

unfoldable pub run : Digests → Store → List Call → Store
run D s [] = s
run D s (c ∷ cs) = run D (after D s c) cs

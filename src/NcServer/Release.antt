-- ===== src/NcServer/Release.antt =====
-- `dropLocks` of internal/ncserver/server.go: what the end of a session gives back.
use go_lab_netconf.Base.{
  String, ◌||◌, str_eq, eq_iff, Option, none, some, ◌≡◌, refl, if◌then◌else◌, arith,
}
use go_lab_netconf.Base.Dict.{lookup-remove}
use go_lab_netconf.Datastore.Yang.{Tree, ok}
use go_lab_netconf.Datastore.Names
use go_lab_netconf.Datastore.Names.{Name}
use go_lab_netconf.Datastore.{Handle, store, unlock, locked}
use go_lab_netconf.NcServer.{Session, background, drop_locks}

-- The holder once session `s` has given up what it holds.
abbrev pub given_up : String → Option String → Option String
given_up s none = none
given_up s (some t) = if str_eq t s then none else some t

module _ (T : Tree) (s : Session) where
  -- An unlock of a store, whether it succeeds or not, takes at most that store's lock.
  unlock-locked :
      (h : Handle T) (x y : Name) (n : T.Node)
      → store T h x ≡ ok n
      → locked T (unlock T h background x s.id).1 y
        ≡ (if str_eq x y then given_up s.id (locked T h y) else locked T h y)
  unfolding unlock locked
  unlock-locked h x y n p = ground (arith, eq_iff x y, lookup-remove x y h.locks)

  unlock-rest :
      (h h' : Handle T) (x : Name)
      → record h { locks = h'.locks } ≡ h'
      → record (unlock T h background x s.id).1 { locks = h'.locks } ≡ h'
  unfolding unlock
  unlock-rest h h' x p = ground arith

  -- The end of a session gives back each lock that it holds on the three stores, keeps every other
  -- lock, and changes nothing else.
  pub drop_locks_effect :
      (h : Handle T)
      → ((y : Name)
          → locked T (drop_locks T s h) y ≡ (
              if str_eq Names.running y || str_eq Names.candidate y || str_eq Names.startup y
              then given_up s.id (locked T h y)
              else locked T h y))
        × (record (drop_locks T s h) { locks = h.locks } ≡ h)
  unfolding drop_locks store
  drop_locks_effect h =
      let after_running = (unlock T h background Names.running s.id).1 in
      let after_candidate = (unlock T after_running background Names.candidate s.id).1 in
      (
        λ y. ground (
          arith,
          eq_iff Names.running y,
          eq_iff Names.candidate y,
          eq_iff Names.startup y,
          unlock-locked h Names.running y h.running refl,
          unlock-locked after_running Names.candidate y after_running.candidate refl,
          unlock-locked after_candidate Names.startup y after_candidate.startup refl,
        ),
        unlock-rest after_candidate h Names.startup
            (unlock-rest after_running h Names.candidate (unlock-rest h h Names.running refl)),
      )

-- ===== src/Datastore/Names.antt =====
-- The datastore names of internal/datastore/datastore.go. Any other string names no datastore.
use go_lab_netconf.Base.{String}

abbrev pub Name : Type 0
Name = String

abbrev pub running : Name
running = "running"

abbrev pub candidate : Name
candidate = "candidate"

abbrev pub startup : Name
startup = "startup"

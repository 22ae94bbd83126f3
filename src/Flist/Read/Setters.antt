-- ===== src/Flist/Read/Setters.antt =====
-- The setters of FlistReader (protocol/flist.go). That of `incRecurse` sets what is never read.
use go_rsyncfs.Base.{Bool}
use go_rsyncfs.Flist.Read.{FlistReader}

abbrev pub set_atimes : Bool → FlistReader → FlistReader
set_atimes enabled r = record r { settings = record (r.settings) { has_atimes = enabled } }

abbrev pub set_crtimes : Bool → FlistReader → FlistReader
set_crtimes enabled r = record r { settings = record (r.settings) { has_crtimes = enabled } }

abbrev pub set_preserve_uid : Bool → FlistReader → FlistReader
set_preserve_uid enabled r = record r { settings = record (r.settings) { preserve_uid = enabled } }

abbrev pub set_preserve_gid : Bool → FlistReader → FlistReader
set_preserve_gid enabled r = record r { settings = record (r.settings) { preserve_gid = enabled } }

abbrev pub set_preserve_devices : Bool → FlistReader → FlistReader
set_preserve_devices enabled r = record r {
  settings = record (r.settings) { preserve_devices = enabled };
}

abbrev pub set_preserve_links : Bool → FlistReader → FlistReader
set_preserve_links enabled r = record r {
  settings = record (r.settings) { preserve_links = enabled };
}

abbrev pub set_preserve_hardlinks : Bool → FlistReader → FlistReader
set_preserve_hardlinks enabled r = record r {
  settings = record (r.settings) { preserve_hardlinks = enabled };
}

abbrev pub set_always_checksum : Bool → FlistReader → FlistReader
set_always_checksum enabled r = record r {
  settings = record (r.settings) { always_checksum = enabled };
}

-- ===== src/Flist/Write/Setters.antt =====
-- The setters of FlistWriter (protocol/flist.go).
use go_rsyncfs.Base.{Bool}
use go_rsyncfs.Flist.Write.{FlistWriter}

abbrev pub set_atimes : Bool → FlistWriter → FlistWriter
set_atimes enabled w = record w { settings = record (w.settings) { has_atimes = enabled } }

abbrev pub set_crtimes : Bool → FlistWriter → FlistWriter
set_crtimes enabled w = record w { settings = record (w.settings) { has_crtimes = enabled } }

abbrev pub set_preserve_uid : Bool → FlistWriter → FlistWriter
set_preserve_uid enabled w = record w { settings = record (w.settings) { preserve_uid = enabled } }

abbrev pub set_preserve_gid : Bool → FlistWriter → FlistWriter
set_preserve_gid enabled w = record w { settings = record (w.settings) { preserve_gid = enabled } }

abbrev pub set_preserve_devices : Bool → FlistWriter → FlistWriter
set_preserve_devices enabled w = record w {
  settings = record (w.settings) { preserve_devices = enabled };
}

abbrev pub set_preserve_links : Bool → FlistWriter → FlistWriter
set_preserve_links enabled w = record w {
  settings = record (w.settings) { preserve_links = enabled };
}

abbrev pub set_preserve_hardlinks : Bool → FlistWriter → FlistWriter
set_preserve_hardlinks enabled w = record w {
  settings = record (w.settings) { preserve_hardlinks = enabled };
}

abbrev pub set_always_checksum : Bool → FlistWriter → FlistWriter
set_always_checksum enabled w = record w {
  settings = record (w.settings) { always_checksum = enabled };
}

abbrev pub set_id0_names : Bool → FlistWriter → FlistWriter
set_id0_names enabled w = record w { id0_names = enabled }

-- ===== src/Client/FileList/Examples.antt =====
-- A concrete file list, and the theorem at it.
use go_rsyncfs.Base.{◌+◌, ◌^◌, ◌≢◌, true, [], ◌∷◌}
use go_rsyncfs.Io.{err, out_of_fuel}
use go_rsyncfs.Sender.FileList.{FileEntry}
use go_rsyncfs.Client.FileList.{Session, read_file_list}
use go_rsyncfs.Client.FileList.Total.{read_file_list-Ends}

abbrev session : Session
session = record { version = 31; varint_flist = true; id0_names = true }

abbrev root_dir : FileEntry
root_dir = record {
  name = b'.' ∷ [];
  mode = 2 ^ 31 + 0x1ed;
  size = 4096;
  mod_unix = 1700000000;
  mod_nanosecond = 0;
  link_target = [];
  uid = 0;
  gid = 0;
  dev = 1;
  ino = 2;
  nlink = 3;
}

abbrev one_link : FileEntry
one_link = record {
  name = b'l' ∷ [];
  mode = 2 ^ 27 + 0x1ff;
  size = 1;
  mod_unix = 1700000001;
  mod_nanosecond = 7;
  link_target = b't' ∷ [];
  uid = 1000;
  gid = 1000;
  dev = 1;
  ino = 3;
  nlink = 1;
}

-- A list that breaks off.
read_file_list-Ends_example : read_file_list session (3 ∷ 1 ∷ []) ≢ err out_of_fuel []
read_file_list-Ends_example = read_file_list-Ends session (3 ∷ 1 ∷ []) []

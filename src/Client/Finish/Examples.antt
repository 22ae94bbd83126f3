-- ===== src/Client/Finish/Examples.antt =====
-- A session of version 31 with a directory of nothing, and the theorem at it.
use go_rsyncfs.Base.{◌+◌, ◌^◌, ◌≡◌, true, false, [], ◌∷◌, ◌++◌, arith}
use go_rsyncfs.Io.{ok, fail, transfer_refused}
use go_rsyncfs.Wire.Ndx.{new_ndx_state}
use go_rsyncfs.Sender.FileList.{TransferState, send_file_list}
use go_rsyncfs.Sender.Filters.{rules_text}
use go_rsyncfs.Sender.Session.{do_server_sender}
use go_rsyncfs.Client.Finish.{finish_session}
use go_rsyncfs.Client.Finish.Agrees.{client_end, sender_end, finish_session-do_server_sender}

abbrev one_directory : TransferState
one_directory = record {
  ver = 31;
  varint = true;
  id0_names = false;
  preserve = (true, true);
  preserve_links = true;
  preserve_devices = true;
  preserve_hlinks = false;
  entries =
      record {
        name = b'.' ∷ [];
        mode = 2 ^ 31 + 0x1ed;
        size = 4096;
        mod_unix = 1700000000;
        mod_nanosecond = 0;
        link_target = [];
        uid = 0;
        gid = 0;
        dev = 1;
        ino = 2;
        nlink = 3;
      }
      ∷ [];
}

finish_session-do_server_sender_example :
    (do_server_sender one_directory
        (λ e sel s. fail transfer_refused)
        (rules_text ((b'+' ∷ []) ∷ []) ++ (client_end 31 ++ (7 ∷ [])))
      ≡ ok (send_file_list one_directory ++ sender_end one_directory) (7 ∷ []))
    × (finish_session
          (record { version = 31; ndx = new_ndx_state; recv_ndx = new_ndx_state })
          (sender_end one_directory ++ [])
        ≡ ok (client_end 31) [])
finish_session-do_server_sender_example =
    finish_session-do_server_sender one_directory (λ e sel s. fail transfer_refused) new_ndx_state
      new_ndx_state ((b'+' ∷ []) ∷ []) (7 ∷ []) [] (omega arith) ((omega arith, omega arith), tt)

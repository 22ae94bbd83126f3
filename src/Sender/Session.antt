-- ===== src/Sender/Session.antt =====
-- doServerSender (server-send.go), from the filter list to the goodbye. The walk of the file system
-- has given the entries of `st`; what goes to the mux writer is the result.
use go_rsyncfs.Base.{◌<◌, ◌≡◌, refl, List, [], ◌∷◌, ◌++◌, Bytes, All, length, arith}
use go_rsyncfs.Io.{Reader, ok, ◌>>=◌, return}
use go_rsyncfs.Wire.Ndx.{NdxState}
use go_rsyncfs.Selector.{Selector}
use go_rsyncfs.Sender.FileList.{FileEntry, TransferState, send_file_list}
use go_rsyncfs.Sender.Filters.{recv_filter_list, IsRule, rules_text, recv_filter_list-rules_text}
use go_rsyncfs.Sender.Finish.{serve_to_end}

-- A walk that found nothing ends the session at once.
unfoldable pub if_any : List FileEntry → Reader Bytes → Reader Bytes
if_any [] serve = return []
if_any (e ∷ es) serve = serve

unfoldable pub serve_list :
    TransferState → (FileEntry → Selector → NdxState → Reader (Bytes × NdxState)) → Reader Bytes
serve_list st send_file =
    serve_to_end st send_file >>= (λ later. return (send_file_list st ++ later))

unfoldable pub do_server_sender :
    TransferState → (FileEntry → Selector → NdxState → Reader (Bytes × NdxState)) → Reader Bytes
do_server_sender st send_file = do
  filters ← recv_filter_list
  if_any st.entries (serve_list st send_file)

any_served : (es : List FileEntry) (serve : Reader Bytes) → 0 < length es → if_any es serve ≡ serve
unfolding if_any
any_served [] serve some_entries = absurd (omega arith)
any_served (e ∷ es) serve some_entries = refl

module _ (st : TransferState)
    (send_file : FileEntry → Selector → NdxState → Reader (Bytes × NdxState))
    (some_entries : 0 < length st.entries) where
  -- Behind the rules of a client the sender gives its list, and then what it gives to the end.
  pub do_server_sender-list :
      (rules : List Bytes) (s rest later : Bytes)
      → All IsRule rules
      → serve_to_end st send_file s ≡ ok later rest
      → do_server_sender st send_file (rules_text rules ++ s) ≡ ok (send_file_list st ++ later) rest
  unfolding do_server_sender serve_list
  do_server_sender-list rules s rest later fine e =
      rw (recv_filter_list-rules_text rules s fine)
        (rw (any_served st.entries (serve_list st send_file) some_entries, serve_list, e) refl)

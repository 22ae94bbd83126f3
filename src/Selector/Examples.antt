-- ===== src/Selector/Examples.antt =====
-- A concrete transfer request, and the theorem at it.
use go_rsyncfs.Base.{◌+◌, ◌^◌, ◌≡◌, [], ◌∷◌, ◌++◌, arith}
use go_rsyncfs.Io.{ok}
use go_rsyncfs.Wire.Ndx.{new_ndx_state}
use go_rsyncfs.Selector.{Selector, read_selector, write_selector}
use go_rsyncfs.Selector.RoundTrip.{IsSelector, read_selector-write_selector}

-- A transfer with a basis type and a name.
abbrev request : Selector
request = record {
  ndx = 5;
  iflags = 2 ^ 15 + 2 ^ 12 + 2 ^ 11;
  basis_type = 0x83;
  xname = b'a' ∷ b'b' ∷ [];
}

request-IsSelector : IsSelector 31 request
request-IsSelector = record {
  ndx_fits = omega arith;
  iflags_sent = λ e. omega arith;
  iflags_default = λ e. cc;
  no_basis_type = λ e. cc;
  no_xname = λ e. cc;
  xname_fits = omega arith;
}

read_selector-write_selector_example :
    read_selector new_ndx_state 31 ((write_selector new_ndx_state 31 request).0.0 ++ (7 ∷ []))
    ≡ ok (request, (write_selector new_ndx_state 31 request).1) (7 ∷ [])
read_selector-write_selector_example =
    read_selector-write_selector new_ndx_state 31 request (7 ∷ []) (omega arith) request-IsSelector

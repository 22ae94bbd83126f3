-- ===== src/Client/Finish.antt =====
-- The end of a session (client-open.go finishSession): what the client reads, and the bytes that it
-- wrote in the meantime.
pub mod Parts
pub mod Agrees
pub mod Examples
use go_rsyncfs.Base.{
  ℕ, zero, suc, ◌+◌, Bool, not, List, [], ◌∷◌, ◌++◌, Bytes, ltb, leb, ◌==◌, if◌then◌else◌,
}
use go_rsyncfs.Io.{Reader, ◌>>=◌, return, fail, invalid_packet}
use go_rsyncfs.Wire.Fixed.{write_int32, read_int32, read_longint}
use go_rsyncfs.Wire.Var.{read_varlong}
use go_rsyncfs.Wire.Ndx.{NdxState, ndx_done, write_ndx}
use go_rsyncfs.Selector.{read_selector}

-- The state of a session at its end: `ndx` for what it writes, `recvNdx` for what it reads.
pub record EndState : Type 0 where
  pub version : ℕ
  pub ndx : NdxState
  pub recv_ndx : NdxState

unfoldable pub write_phase_ndx : EndState → Bytes × EndState
write_phase_ndx c =
    if leb 30 c.version
    then ((write_ndx c.ndx ndx_done).0, record c { ndx = (write_ndx c.ndx ndx_done).1 })
    else (write_int32 ndx_done, c)

unfoldable pub read_phase_ndx : EndState → Reader EndState
read_phase_ndx c =
    if leb 29 c.version
    then (do
      (sel, recv_ndx) ← read_selector c.recv_ndx c.version
      if not (sel.ndx == ndx_done)
          then fail invalid_packet
          else return (record c { recv_ndx = recv_ndx }))
    else (do v ← read_int32; if not (v == ndx_done) then fail invalid_packet else return c)

-- The loop over the phases.
unfoldable pub finish_phases : ℕ → EndState → Reader (Bytes × EndState)
finish_phases zero c = return ([], c)
finish_phases (suc n) c = do
  c' ← read_phase_ndx (write_phase_ndx c).1
  (later, c'') ← finish_phases n c'
  return ((write_phase_ndx c).0 ++ later, c'')

unfoldable pub read_stat : ℕ → Reader ℕ
read_stat version = if leb 30 version then read_varlong 3 else read_longint

unfoldable pub read_stats_from : ℕ → ℕ → Reader (Unit {0})
unfolding read_stat
read_stats_from version zero = return tt
read_stats_from version (suc n) = do v ← read_stat version; read_stats_from version n

unfoldable pub read_stats : ℕ → Reader (Unit {0})
unfolding read_stats_from
read_stats version = read_stats_from version (if leb 29 version then 5 else 3)

unfoldable pub final_goodbye : EndState → Reader Bytes
final_goodbye c =
    if ltb c.version 29
    then return (write_int32 ndx_done)
    else if leb 31 c.version
    then (do
      c' ← read_phase_ndx (write_phase_ndx c).1
      return ((write_phase_ndx c).0 ++ (write_phase_ndx c').0))
    else return (write_phase_ndx c).0

unfoldable pub finish_session : EndState → Reader Bytes
finish_session c = do
  (phases, c') ← finish_phases ((if leb 29 c.version then 2 else 1) + 1) c
  end ← read_stats c'.version
  goodbye ← final_goodbye c'
  return (phases ++ goodbye)

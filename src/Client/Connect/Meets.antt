-- ===== src/Client/Connect/Meets.antt =====
-- The handshakes of the client and the server against each other.
use go_rsyncfs.Base.{
  ℕ, ◌^◌, ◌<◌, ◌≡◌, refl, ap, ◌∙◌, List, [], ◌++◌, append_assoc, Option, none, some, Bytes, arith,
}
use go_rsyncfs.Io.{Result, ok}
use go_rsyncfs.Io.Exchange.{Exchange, ◌>>=◌, return, send, receive}
use go_rsyncfs.Args.{read_args, write_args}
use go_rsyncfs.Greet.{Greeting, Agreed, apply_defaults}
use go_rsyncfs.Handshake.{write_compat_flags}
use go_rsyncfs.Client.Connect.Parts.{
  if_true, chain, finish, server_greets, client_greets, request_read, CanConnect, args_read,
  result_of, filters_text, mux_of, filters_sent, session_of,
}
use go_rsyncfs.Client.Connect.Auth.{Entered, Admits-Entered}
use go_rsyncfs.Client.Connect.Settles.{
  agreed_flags, flags_sent, offer_bytes, common_checksum, checksum_agreed, checksum_settled,
  seed_sent, seed_received,
}
use go_rsyncfs.Handshake.Greetings.{write_greeting}
use go_rsyncfs.Handshake.Answers.{write_module_request, write_checksum_seed}
use go_rsyncfs.Handshake.Answers.Passes.{IsCoding}
use go_rsyncfs.Server.{ServerModule}
use go_rsyncfs.Server.Handshake.{
  greet_client, read_request, authenticate, send_compat_flags, agree_checksum, send_seed,
  nonzero_seed, HandshakeResult, set_up, select_module, do_handshake, has_compat,
}
use go_rsyncfs.Client.Connect.{
  Client, greet_server, enter_module, transfer_args, settle_checksum, read_seed, send_filters,
  open_session, run_handshake, Connected,
}

module _ (encode : Bytes → Bytes) (decode : Bytes → Option Bytes) (coding : IsCoding encode decode)
    (server : Greeting) (modules : List ServerModule) (c : Client) (m : ServerModule)
    (agreed : Agreed) (asked : Bytes) (random_seed : ℕ)
    (can : CanConnect server modules c m agreed asked random_seed) where
  abbrev version : ℕ
  version = agreed.version

  abbrev arguments_text : Bytes
  arguments_text = (write_args (transfer_args c.module_name version) version).0

  abbrev flags_text : Bytes
  flags_text = write_compat_flags (agreed_flags version) version

  abbrev seed_text : Bytes
  seed_text = write_checksum_seed (nonzero_seed random_seed)

  entered : Entered encode decode random_seed c m agreed.digest asked
  entered = Admits-Entered encode decode coding c agreed.digest asked m random_seed can.admits

  server_sets_up :
      (s : Bytes)
      → set_up encode decode asked random_seed version m
          (entered.to_server ++ (arguments_text ++ (offer_bytes version ++ s)))
        ≡ (
          entered.to_client ++ (flags_text ++ (offer_bytes version ++ seed_text)),
          ok (result_of m c.module_name version random_seed) s,
        )
  unfolding set_up
  server_sets_up s =
      let args = transfer_args c.module_name version in
      chain (authenticate encode decode asked random_seed m) _
        (entered.to_server ++ (arguments_text ++ (offer_bytes version ++ s)))
        (arguments_text ++ (offer_bytes version ++ s)) entered.to_client _ tt _
        (entered.server_side (arguments_text ++ (offer_bytes version ++ s)))
        (chain (receive (read_args version)) _ (arguments_text ++ (offer_bytes version ++ s))
          (offer_bytes version ++ s) [] _ args _
          (ap (λ (r : Result (List Bytes)). ([], r))
            (args_read c.module_name (offer_bytes version ++ s) version can.arguments))
          (chain (send_compat_flags version args) _ (offer_bytes version ++ s)
            (offer_bytes version ++ s) flags_text _ (agreed_flags version) _
            (flags_sent c.module_name (offer_bytes version ++ s) version)
            (chain (agree_checksum version (agreed_flags version)) _ (offer_bytes version ++ s) s
              (offer_bytes version) _ (common_checksum version) _ (checksum_agreed version s)
              (finish (send_seed version (nonzero_seed random_seed)) s s seed_text none _
                (seed_sent version (nonzero_seed random_seed) s can.recent)))))

  selected :
      (s : Bytes)
      → select_module encode decode asked random_seed modules version (some c.module_name) s
        ≡ (set_up encode decode asked random_seed version m >>= (λ x. return (some x))) s
  unfolding select_module
  selected s =
      rw (select_module, can.no_list, can.found)
        (ap (λ (e : Exchange (Option HandshakeResult)). e s) (if_true m.root_opens _ _ can.opens))

  server_accepts :
      (s : Bytes)
      → do_handshake encode decode asked random_seed server modules (
          write_greeting (apply_defaults c.greeting)
          ++ ((write_module_request c.module_name).0
              ++ (entered.to_server ++ (arguments_text ++ (offer_bytes version ++ s)))))
        ≡ (
          write_greeting (apply_defaults server)
              ++ (entered.to_client ++ (flags_text ++ (offer_bytes version ++ seed_text))),
          ok (some (result_of m c.module_name version random_seed)) s,
        )
  unfolding do_handshake
  server_accepts s =
      let told = entered.to_server ++ (arguments_text ++ (offer_bytes version ++ s)) in
      let asks = (write_module_request c.module_name).0 ++ told in
      chain (greet_client server) _ (write_greeting (apply_defaults c.greeting) ++ asks) asks
        (write_greeting (apply_defaults server)) _ version _
        (server_greets server c.greeting agreed can.fine_server can.fine_client can.agree asks)
        (chain read_request _ asks told [] _ (some c.module_name) _
          (request_read c.module_name told can.one_line)
          (selected told
            ∙ finish (set_up encode decode asked random_seed version m) told s _ _ some
                (server_sets_up s)))

  session_opens :
      (t : Bytes)
      → open_session agreed (flags_text ++ (offer_bytes version ++ (seed_text ++ t)))
        ≡ (offer_bytes version ++ filters_text version, ok (session_of agreed random_seed) t)
  unfolding open_session
  session_opens t =
      let seeds = seed_text ++ t in
      let small : nonzero_seed random_seed < 2 ^ 32 = ground (arith, can.seed_fits) in
      chain (settle_checksum version) _ (flags_text ++ (offer_bytes version ++ seeds)) seeds
        (offer_bytes version) _ (agreed_flags version, common_checksum version) _
        (checksum_settled version seeds)
        (chain (receive (read_seed version)) _ seeds t [] _ (nonzero_seed random_seed, []) _
          (ap (λ (r : Result (ℕ × Bytes)). ([], r))
            (seed_received version (nonzero_seed random_seed) t can.recent small))
          (finish (send_filters version) t t (filters_text version) (mux_of version) _
            (filters_sent version t)))

  client_enters :
      (t : Bytes)
      → run_handshake encode decode c (
          write_greeting (apply_defaults server)
          ++ (entered.to_client ++ (flags_text ++ (offer_bytes version ++ (seed_text ++ t)))))
        ≡ (
          write_greeting (apply_defaults c.greeting)
              ++ ((write_module_request c.module_name).0
                  ++ (entered.to_server
                      ++ (arguments_text ++ (offer_bytes version ++ filters_text version)))),
          ok (session_of agreed random_seed) t,
        )
  unfolding run_handshake
  client_enters t =
      let flags = flags_text ++ (offer_bytes version ++ (seed_text ++ t)) in
      let told = entered.to_client ++ flags in
      chain (greet_server c.greeting) _ (write_greeting (apply_defaults server) ++ told) told
        (write_greeting (apply_defaults c.greeting)) _ agreed _
        (client_greets server c.greeting agreed can.fine_server can.fine_client can.agree told)
        (chain (send (write_module_request c.module_name).0)
          (λ x.
            enter_module encode decode c agreed.digest
            >>= (λ y. send arguments_text >>= (λ z. open_session agreed)))
          told told (write_module_request c.module_name).0 _ tt _ refl
          (chain (enter_module encode decode c agreed.digest)
            (λ y. send arguments_text >>= (λ z. open_session agreed)) told flags entered.to_server _
            tt _ (entered.client_side flags)
            (chain (send arguments_text) (λ z. open_session agreed) flags flags arguments_text _ tt
              _ refl (session_opens t))))

  -- The handshake of a client with this server comes through, with or without authentication, from
  -- version 23 on: what each side writes, but for the client's empty filter list, is what the other
  -- one reads and no more, and both end with the same version, checksum, seed and flags. The
  -- greetings fit their text and agree, the module is there and takes the client, and the
  -- arguments have no delimiter in them.
  pub run_handshake-do_handshake :
      (rest more : Bytes)
      → (to_server : Bytes) × (to_client : Bytes) × (result : HandshakeResult)
        × (session : Connected) × (do_handshake encode decode asked random_seed server modules
              (to_server ++ rest)
            ≡ (to_client, ok (some result) rest))
        × (run_handshake encode decode c (to_client ++ more)
            ≡ (to_server ++ filters_text version, ok session more))
        × (result.server_module ≡ m)
        × (session.version ≡ result.ver)
        × (session.checksum ≡ result.checksum)
        × (session.seed ≡ result.seed)
        × (has_compat session.compat_flags 7 ≡ result.varint)
        × (has_compat session.compat_flags 5 ≡ result.seed_fix)
        × (has_compat session.compat_flags 8 ≡ result.id0_names)
  run_handshake-do_handshake rest more = (
    write_greeting (apply_defaults c.greeting)
        ++ ((write_module_request c.module_name).0
            ++ (entered.to_server ++ (arguments_text ++ offer_bytes version))),
    write_greeting (apply_defaults server)
        ++ (entered.to_client ++ (flags_text ++ (offer_bytes version ++ seed_text))),
    result_of m c.module_name version random_seed,
    session_of agreed random_seed,
    simp append_assoc (server_accepts rest),
    simp append_assoc (client_enters more),
    refl,
    refl,
    refl,
    refl,
    refl,
    refl,
    refl,
  )

-- ===== src/Tests/Program.antt =====
-- Runs of main.c, of stun_client.c and of what http_server.c tells of the network.
use smart_lock_intercom.Base.{
  ℕ, ◌≡◌, ◌≢◌, refl, inl, inr, ◌⊎◌, true, false, Option, some, none, List, [], ◌∷◌, ◌++◌, Bytes,
  arith,
}
use smart_lock_intercom.CString.{codes}
use smart_lock_intercom.Status.{success, other}
use smart_lock_intercom.Stun.{
  Stun, StunAnswers, stun_discover, stun_get_public_addr, stun_resp_handler,
}
use smart_lock_intercom.Stun.Steps.{closed, Reachable, here, next, discovers, responds}
use smart_lock_intercom.Stun.Discovery.{Holds, stun_discover-Settles}
use smart_lock_intercom.RelayClient.{Relay, relay_client_get_server, relay_client_is_connected}
use smart_lock_intercom.RelayClient.Steps.{zeroed}
use smart_lock_intercom.Http.{nat_info}
use smart_lock_intercom.Http.Nat.{nat_pieces, handle_nat_info}
use smart_lock_intercom.Libre.{concat}
use smart_lock_intercom.Http.Nat.Whole.{handle_nat_info_whole}
use smart_lock_intercom.Program.{
  Options, default_options, parse_args, resolve_www_path, Program, Startup, start, running, cleanup,
}
use smart_lock_intercom.Program.Arguments.{args_of, at_end, parse_args-args_of}
use smart_lock_intercom.Program.Life.{protects, start-protects, cleanup_lem}
use smart_lock_intercom.Tests.Data.{world, crowded}
use smart_lock_intercom.Tests.Calls.{quiet, called}

abbrev replies : StunAnswers
replies = record {
  numeric = false;
  resolves = true;
  listen = success;
  alloc = success;
  request = success;
}

-- The STUN instance cannot be made.
abbrev refuses : StunAnswers
refuses = record replies { alloc = other 1 }

stun_discover-Settles_example :
    let r = stun_discover refuses true closed in
    (stun_get_public_addr r.0 ≡ none)
    × (((r.1 ≡ success) × Holds true r.0) ⊎ ((r.1 ≢ success) × Holds false r.0))
stun_discover-Settles_example = stun_discover-Settles refuses true closed refl refl refl

abbrev known : Stun
known =
    (stun_resp_handler
      (record {
        err = success;
        scode = 0;
        xor_mapped = some (codes "203.0.113.5" ∷ codes ":" ∷ codes "8555" ∷ []);
        mapped = none;
      })
      (stun_discover replies true closed).0).0

out : (stun_discover replies true closed).0.ct ≡ true
unfolding stun_discover
out = refl

known-Reachable : Reachable known
known-Reachable = next (next here (discovers replies true closed)) (responds _ _ out)

abbrev relay : Relay
relay = record zeroed { running = true; relay_addr = codes "relay:443" }

handle_nat_info_whole_example :
    handle_nat_info known relay
    ≡ nat_info (
        concat (
          nat_pieces
            (stun_get_public_addr known)
            (relay_client_get_server relay)
            (relay_client_is_connected relay)))
handle_nat_info_whole_example = handle_nat_info_whole known relay known-Reachable (omega arith)

abbrev options : Options
options = record default_options {
  auth_user = some (codes "u");
  auth_pass = some (codes "p");
  relay_port = 8443;
}

parse_args-args_of_example :
    parse_args (args_of (codes "8443") options (at_end (some (codes "--stun")))) default_options
    ≡ options
unfolding smart_lock_intercom.Base.Int.to_word smart_lock_intercom.CString.atoi
parse_args-args_of_example = parse_args-args_of (codes "8443") options (some (codes "--stun")) refl

abbrev program : Program
program = record {
  intercom = quiet;
  world = record world {
    auth = record { username = []; password = []; nonce = []; enabled = false };
  };
  stun = closed;
  relay = zeroed;
}

abbrev env : Startup
env = record {
  libre = success;
  readlink = none;
  http = success;
  rtsp = some 8555;
  source = none;
  rtsp_error = success;
  rand = λ k. k;
  stun = replies;
  resolves = true;
  connects = some 3;
}

-- `--user u --pass p`.
abbrev argv : List Bytes
argv = codes "--user" ∷ codes "u" ∷ codes "--pass" ∷ codes "p" ∷ []

abbrev started : Program
started = smart_lock_intercom.Program.start_services env (parse_args argv default_options) (
    smart_lock_intercom.Program.serves_rtsp env
      (smart_lock_intercom.Program.serves_http env program))

starts : start env argv program ≡ running started
unfolding start smart_lock_intercom.Rtsp.Server.rtsp_server_init
starts = refl

start-protects_example :
    let o = parse_args argv default_options in
    started.world.auth.enabled ≡ protects o.auth_user o.auth_pass
start-protects_example = start-protects env argv program refl starts

-- A call is on and two RTSP clients are there.
abbrev busy : Program
busy = record program { intercom = called; world = crowded }

cleanup_lem_example :
    let q = cleanup busy in
    (q.world.clients ≡ [])
    × (q.world.tmr_audio ≡ false)
    × (q.world.tmr_video ≡ false)
    × (q.relay.tc ≡ none)
    × (q.relay.tmr_reconnect ≡ none)
    × (q.stun.ct ≡ false)
    × (q.stun.stun ≡ false)
    × (q.stun.us ≡ false)
    × (q.intercom.sess ≡ called.sess)
cleanup_lem_example = cleanup_lem busy

-- ===== src/Program/Arguments.antt =====
-- The arguments of main.c, printed and read.
use smart_lock_intercom.Base.{◌≡◌, refl, Option, some, none, List, [], ◌∷◌, ◌++◌, Bytes}
use smart_lock_intercom.Base.Int.{to_word}
use smart_lock_intercom.CString.{codes, atoi}
use smart_lock_intercom.Program.{Options, default_options, set_option, parse_args}

-- A flag with its value, if there is one.
abbrev pub given : Bytes → Option Bytes → List Bytes
given flag none = []
given flag (some value) = flag ∷ value ∷ []

-- The arguments for some options before others, `port` being a text for the port.
abbrev pub args_of : Bytes → Options → List Bytes → List Bytes
args_of port o rest =
    given (codes "--user") o.auth_user
    ++ (given (codes "--pass") o.auth_pass
        ++ (given (codes "--relay") o.relay_host
            ++ (codes "--relay-port"
                ∷ port
                ∷ (given (codes "--device-id") o.device_id
                    ++ (codes "--relay-token"
                        ∷ o.relay_token
                        ∷ (given (codes "--stun") o.stun_server ++ rest))))))

abbrev or_else : Option Bytes → Option Bytes → Option Bytes
or_else none old = old
or_else (some v) old = some v

module _ (rest : List Bytes) (o : Options) where
  parse_user :
      (v : Option Bytes)
      → parse_args (given (codes "--user") v ++ rest) o
        ≡ parse_args rest (record o { auth_user = or_else v o.auth_user })
  unfolding parse_args set_option
  parse_user none = refl
  parse_user (some v) = refl

  parse_pass :
      (v : Option Bytes)
      → parse_args (given (codes "--pass") v ++ rest) o
        ≡ parse_args rest (record o { auth_pass = or_else v o.auth_pass })
  unfolding parse_args set_option
  parse_pass none = refl
  parse_pass (some v) = refl

  parse_relay :
      (v : Option Bytes)
      → parse_args (given (codes "--relay") v ++ rest) o
        ≡ parse_args rest (record o { relay_host = or_else v o.relay_host })
  unfolding parse_args set_option
  parse_relay none = refl
  parse_relay (some v) = refl

  parse_id :
      (v : Option Bytes)
      → parse_args (given (codes "--device-id") v ++ rest) o
        ≡ parse_args rest (record o { device_id = or_else v o.device_id })
  unfolding parse_args set_option
  parse_id none = refl
  parse_id (some v) = refl

  parse_stun :
      (v : Option Bytes)
      → parse_args (given (codes "--stun") v ++ rest) o
        ≡ parse_args rest (record o { stun_server = or_else v o.stun_server })
  unfolding parse_args set_option
  parse_stun none = refl
  parse_stun (some v) = refl

  parse_port :
      (v : Bytes)
      → parse_args (codes "--relay-port" ∷ v ∷ rest) o
        ≡ parse_args rest (record o { relay_port = to_word 16 (atoi v) })
  unfolding parse_args set_option
  parse_port v = refl

  parse_token :
      (v : Bytes)
      → parse_args (codes "--relay-token" ∷ v ∷ rest) o
        ≡ parse_args rest (record o { relay_token = v })
  unfolding parse_args set_option
  parse_token v = refl

or_none : (v : Option Bytes) → or_else v none ≡ v
or_none none = refl
or_none (some v) = refl

parse_args-args_of_rest :
    (port : Bytes) (o : Options) (rest : List Bytes)
    → to_word 16 (atoi port) ≡ o.relay_port
    → parse_args (args_of port o rest) default_options ≡ parse_args rest o
parse_args-args_of_rest port o rest h =
    let o1 = record default_options { auth_user = o.auth_user } in
    let o2 = record o1 { auth_pass = o.auth_pass } in
    let o3 = record o2 { relay_host = o.relay_host } in
    let o4 = record o3 { relay_port = o.relay_port } in
    let o5 = record o4 { device_id = o.device_id } in
    let o6 = record o5 { relay_token = o.relay_token } in
    rw (parse_user, or_none)
      (rw (parse_pass, or_none)
        (rw (parse_relay, or_none)
          (rw (parse_port, h)
            (rw (parse_id, or_none) (rw (parse_token) (rw (parse_stun, or_none) refl))))))

-- A last argument that has no value behind it, or no argument.
abbrev pub at_end : Option Bytes → List Bytes
at_end none = []
at_end (some arg) = arg ∷ []

-- Options that are written out as flags with their values, the port as a text that `atoi` reads as
-- it, are read back as they were, also with a flag behind them that has no value.
pub parse_args-args_of :
    (port : Bytes) (o : Options) (last : Option Bytes)
    → to_word 16 (atoi port) ≡ o.relay_port
    → parse_args (args_of port o (at_end last)) default_options ≡ o
unfolding parse_args
parse_args-args_of port o none h = parse_args-args_of_rest port o [] h
parse_args-args_of port o (some arg) h = parse_args-args_of_rest port o (arg ∷ []) h

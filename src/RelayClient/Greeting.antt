-- ===== src/RelayClient/Greeting.antt =====
-- What relay_client.c sends when it is connected, and what relay_server.c makes of it.
use smart_lock_intercom.Base.{
  ℕ, ◌-◌, ◌≤◌, ◌≡◌, refl, sym, ap, ◌∙◌, true, some, List, [], ◌∷◌, ◌++◌, append_assoc, Bytes,
  le→ltb, length, length-append, arith,
}
use smart_lock_intercom.CString.{codes}
use smart_lock_intercom.Libre.{print_pieces, snprintf}
use smart_lock_intercom.RelayServer.Command.{
  registers, max_line, readline, auth_token, valid_id, parse_command,
}
use smart_lock_intercom.RelayServer.Command.Lines.{IsLine, readline-line}
use smart_lock_intercom.RelayServer.Command.Access.{register_line, parse_command_registers}
use smart_lock_intercom.RelayClient.{Relay, reg_msg}

-- A piece that fits is printed whole.
print_pieces-fits :
    (room : ℕ) (p : Bytes) (ps : List Bytes)
    → length p ≤ room
    → print_pieces room (p ∷ ps) ≡ p ++ print_pieces (room - length p) ps
unfolding print_pieces
print_pieces-fits room p ps le = rw (le→ltb room (length p) le) refl

print_pieces-nil : (room : ℕ) → print_pieces room [] ≡ []
unfolding print_pieces
print_pieces-nil room = refl

valid_id-IsLine : (id : Bytes) → valid_id id ≡ true → IsLine id
unfolding valid_id
valid_id-IsLine [] h = tt
valid_id-IsLine (c ∷ id) h = ((λ e. absurd (ground arith)), valid_id-IsLine id (ground arith))

append-IsLine : (xs ys : Bytes) → IsLine xs → IsLine ys → IsLine (xs ++ ys)
append-IsLine [] ys a b = b
append-IsLine (x ∷ xs) ys a b = (a.0, append-IsLine xs ys a.1 b)

reg_msg-line :
    (id : Bytes)
    → length id ≤ 63
    → snprintf 256 (codes "REGISTER " ∷ id ∷ codes " " ∷ auth_token ∷ codes "\r\n" ∷ [])
      ≡ register_line id ++ (13 ∷ 10 ∷ [])
reg_msg-line id le =
    let a =
      print_pieces-fits 255 (codes "REGISTER ") (id ∷ codes " " ∷ auth_token ∷ codes "\r\n" ∷ [])
        (omega arith) in
    let b = print_pieces-fits 246 id (codes " " ∷ auth_token ∷ codes "\r\n" ∷ []) (omega arith) in
    let room = 246 - length id in
    let c = print_pieces-fits room (codes " ") (auth_token ∷ codes "\r\n" ∷ []) (omega arith) in
    let d = print_pieces-fits (room - 1) auth_token (codes "\r\n" ∷ []) (omega arith) in
    let e = print_pieces-fits (room - 1 - 13) (codes "\r\n") [] (omega arith) in
    let f = print_pieces-nil (room - 1 - 13 - 2) in
    let tail : print_pieces room (codes " " ∷ auth_token ∷ codes "\r\n" ∷ [])
        ≡ (b' ' ∷ auth_token) ++ (13 ∷ 10 ∷ []) =
      c
      ∙ ap (λ t. codes " " ++ t)
          (d ∙ ap (λ t. auth_token ++ t) (e ∙ ap (λ t. codes "\r\n" ++ t) f)) in
    a
    ∙ ap (λ t. codes "REGISTER " ++ t)
        (b ∙ ap (λ t. id ++ t) tail ∙ sym (append_assoc id (b' ' ∷ auth_token) (13 ∷ 10 ∷ [])))

register_line-IsLine : (id : Bytes) → valid_id id ≡ true → IsLine (register_line id)
register_line-IsLine id h =
    append-IsLine (codes "REGISTER ") (id ++ (b' ' ∷ auth_token)) (ground arith)
      (append-IsLine id (b' ' ∷ auth_token) (valid_id-IsLine id h) (ground arith))

-- What the client sends when it is connected is one line to the relay server, which takes it as
-- the registration of the client's id, if the id consists of at most 63 letters, digits, dashes and
-- underscores and the client has the shared secret. What is sent behind it is left on the
-- connection.
pub reg_msg-registers :
    (r : Relay) (rest : Bytes)
    → length r.device_id ≤ 63
    → valid_id r.device_id ≡ true
    → r.auth_token ≡ auth_token
    → (readline max_line (reg_msg r ++ rest) ≡ some (register_line r.device_id, rest))
      × (parse_command (register_line r.device_id) ≡ registers r.device_id)
unfolding reg_msg
reg_msg-registers r rest le good secret =
    let id = r.device_id in
    let text : reg_msg r ≡ register_line id ++ (13 ∷ 10 ∷ []) =
      ap (λ t. snprintf 256 (codes "REGISTER " ∷ id ∷ codes " " ∷ t ∷ codes "\r\n" ∷ [])) secret
      ∙ reg_msg-line id le in
    (
      ap (λ t. readline max_line (t ++ rest)) text
          ∙ ap (readline max_line) (append_assoc (register_line id) (13 ∷ 10 ∷ []) rest)
          ∙ readline-line (register_line id) rest (register_line-IsLine id good)
              (omega (arith, length-append id (b' ' ∷ auth_token))),
      (parse_command_registers (register_line id) id).1 (refl, good),
    )

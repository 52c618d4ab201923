-- ===== src/RelayServer/Command/Access.antt =====
-- Who can register with relay_server.c.
use smart_lock_intercom.Base.{
  ◌≡◌, ◌↔◌, refl, sym, ap, ◌∙◌, inl, inr, true, false, some, [], ◌∷◌, ◌++◌, Bytes, ◌==◌, arith,
  drop, Bool-cases, Option-cases,
}
use smart_lock_intercom.CString.{codes, has_prefix, strchr, str_eq}
use smart_lock_intercom.CString.Find.{strchr_lem, strchr-head}
use smart_lock_intercom.CString.Equality.{str_eq_iff, str_eq_refl}
use smart_lock_intercom.RelayServer.Command.{
  registers, auth_token, valid_id, parse_register, parse_command,
}
use smart_lock_intercom.RelayServer.Command.Lines.{has_prefix-split}

-- A registration of a device with the secret.
abbrev pub register_line : Bytes → Bytes
register_line id = codes "REGISTER " ++ (id ++ (b' ' ∷ auth_token))

registers-inv : {a b : Bytes} → registers a ≡ registers b → a ≡ b
registers-inv e = cc e

parse_register_sound :
    (args id : Bytes)
    → parse_register args ≡ registers id
    → (args ≡ id ++ (b' ' ∷ auth_token)) × (valid_id id ≡ true)
unfolding parse_register
parse_register_sound args id e = elim (Option-cases (strchr args b' ')) [
  | inl no_token ↦ absurd (let f = rw (no_token, parse_register) at e in cc f)
  | inr ((device_id, rest), found) ↦ elim (Bool-cases (str_eq (drop 1 rest) auth_token)) [
    | inr wrong ↦ absurd (let f = rw (found, wrong, parse_register) at e in cc f)
    | inl right ↦ elim (Bool-cases (valid_id device_id)) [
      | inr bad ↦ absurd (let f = rw (found, right, bad, parse_register) at e in cc f)
      | inl good ↦
          let same : device_id ≡ id =
            registers-inv (rw (found, right, good, parse_register) at e) in
          let token = (str_eq_iff (drop 1 rest) auth_token).0 right in
          let tail = strchr-head args b' ' found ∙ ap (◌∷◌ b' ') token in
          (
            strchr_lem args b' ' found
                ∙ ap (λ t. device_id ++ t) tail
                ∙ ap (λ i. i ++ (b' ' ∷ auth_token)) same,
            rw (sym same) good,
          )
    ]
  ]
]

strchr-valid :
    (id rest : Bytes)
    → valid_id id ≡ true
    → strchr (id ++ (b' ' ∷ rest)) b' ' ≡ some (id, b' ' ∷ rest)
unfolding strchr valid_id
strchr-valid [] rest h = refl
strchr-valid (c ∷ cs) rest h =
    let other : (c == b' ') ≡ false = ground arith in
    let good : valid_id cs ≡ true = ground arith in rw (other, strchr-valid cs rest good) refl

parse_register_complete :
    (id : Bytes) → valid_id id ≡ true → parse_register (id ++ (b' ' ∷ auth_token)) ≡ registers id
unfolding parse_register
parse_register_complete id h =
    rw (strchr-valid id auth_token h, str_eq_refl auth_token, h, parse_register) refl

register_line-parsed :
    (id : Bytes) → valid_id id ≡ true → parse_command (register_line id) ≡ registers id
unfolding parse_command has_prefix
register_line-parsed id h = parse_register_complete id h

-- A line registers a device exactly if it is REGISTER, the device's id and the shared secret, each
-- behind one blank, and the id consists of letters, digits, dashes and underscores.
pub parse_command_registers :
    (line id : Bytes)
    → (parse_command line ≡ registers id) ↔ ((line ≡ register_line id) × (valid_id id ≡ true))
unfolding parse_command
parse_command_registers line id = (forward, backward)
  where
    forward : parse_command line ≡ registers id → (line ≡ register_line id) × (valid_id id ≡ true)
    forward e = elim (Bool-cases (has_prefix line (codes "REGISTER "))) [
      | inl register_ ↦
          let (args, good) = parse_register_sound (drop 9 line) id (rw register_ at e) in
          (
            has_prefix-split line (codes "REGISTER ") register_
                ∙ ap (λ t. codes "REGISTER " ++ t) args,
            good,
          )
      | inr other ↦ elim (Bool-cases (has_prefix line (codes "CONNECT "))) [
        | inr neither ↦ absurd (let f = rw (other, neither) at e in cc f)
        | inl connect_ ↦ elim (Bool-cases (valid_id (drop 8 line))) [
          | inl good ↦ absurd (let f = rw (other, connect_, good) at e in cc f)
          | inr bad ↦ absurd (let f = rw (other, connect_, bad) at e in cc f)
        ]
      ]
    ]

    backward : (line ≡ register_line id) × (valid_id id ≡ true) → parse_command line ≡ registers id
    backward (e, h) = rw e (register_line-parsed id h)

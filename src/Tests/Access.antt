-- ===== src/Tests/Access.antt =====
-- Runs of the authentication of rtsp_auth.c and of the gate of rtsp_server.c.
use smart_lock_intercom.Base.{ap, arith, none, [], ◌∷◌, ◌≡◌, ◌≢◌, ◌⊎◌, refl, sym, some}
use smart_lock_intercom.CString.{codes, has_prefix_nocase}
use smart_lock_intercom.Status.{success, eacces}
use smart_lock_intercom.Auth.{
  AuthState, Credentials, parse_credentials, expected_response, generate_nonce, nonce_len, rotate,
  rtsp_auth_check, rtsp_auth_challenge,
}
use smart_lock_intercom.Auth.Challenge.{IsDigest}
use smart_lock_intercom.Auth.Digest.{HasRoom, rfc_digest, digest_uri}
use smart_lock_intercom.Auth.Access.{Authorizes, check-success}
use smart_lock_intercom.Auth.Replay.{Attempt, attempt, after, rtsp_auth_check_replay}
use smart_lock_intercom.Rtsp.State.{challenge, no_body, rtsp_reply}
use smart_lock_intercom.Rtsp.Dispatch.{method_of, serve, dispatch_request}
use smart_lock_intercom.Rtsp.Dispatch.Gate.{dispatch_request-Authorizes}
use smart_lock_intercom.Tests.Data.{md5, pcm2ulaw, auth_on, ans, world, player, authorization, req}

md5-IsDigest : IsDigest md5
md5-IsDigest t = refl

abbrev credentials : Credentials
credentials = record {
  username = codes "u";
  realm = codes "SmartLock";
  nonce = codes "n";
  response = codes "07070707070707070707070707070707";
  uri = codes "x";
}

parsed : parse_credentials authorization ≡ some credentials
unfolding parse_credentials smart_lock_intercom.Auth.parse_digest_field
    smart_lock_intercom.CString.strstr smart_lock_intercom.CString.strchr
    smart_lock_intercom.Libre.print_pieces
parsed = refl

digest :
    rfc_digest md5
      (codes "u")
      credentials.realm
      (codes "p")
      credentials.nonce
      (codes "PLAY")
      (digest_uri (codes "PLAY") credentials.uri)
    ≡ credentials.response
unfolding smart_lock_intercom.Auth.hex_bytes
digest = refl

proof : Authorizes md5 (codes "PLAY") auth_on authorization
unfolding has_prefix_nocase
proof = (refl, credentials, parsed, record { user = refl; fresh = refl; digest = sym digest })

room : HasRoom (codes "PLAY") auth_on
room = record { user_le = omega arith; password_le = omega arith; method_le = omega arith }

new_nonce : generate_nonce ans.rand nonce_len ≢ auth_on.nonce
unfolding generate_nonce
new_nonce e = cc e

abbrev first : Attempt
first = record {
  rand = ans.rand;
  stale = ans.stale;
  method = codes "PLAY";
  uri = codes "x";
  header = some authorization;
}

-- Somebody tries without a header in between.
abbrev other : Attempt
other = record first { header = none }

first-accepted : (attempt md5 first auth_on).0 ≡ success
first-accepted =
    ap (λ r. r.0)
      (check-success md5 ans.rand ans.stale (codes "PLAY") (codes "x") authorization auth_on
        md5-IsDigest room refl proof)

rtsp_auth_check_replay_example :
    let later = after md5 (other ∷ []) (attempt md5 first auth_on).1 in
    rtsp_auth_check md5 ans.rand ans.stale (codes "PLAY") (codes "x") (some authorization) later
    ≡ (eacces, later)
rtsp_auth_check_replay_example =
    rtsp_auth_check_replay md5 first authorization auth_on (other ∷ []) ans.rand ans.stale
      (codes "PLAY") (codes "x") refl refl first-accepted (new_nonce, (new_nonce, tt))

dispatch_request-Authorizes_example :
    (Authorizes md5 req.method world.auth req.authorization
      × (dispatch_request md5 pcm2ulaw ans req world player
          ≡ serve pcm2ulaw ans
              (method_of req.method)
              req
              (record world { auth = rotate ans.rand world.auth })
              player))
    ⊎ ((¬ Authorizes md5 req.method world.auth req.authorization)
        × (dispatch_request md5 pcm2ulaw ans req world player ≡ record {
          world = world;
          client = some player;
          outputs =
              rtsp_reply ans player req.cseq 401
                (challenge (rtsp_auth_challenge 256 world.auth))
                no_body;
        }))
dispatch_request-Authorizes_example =
    dispatch_request-Authorizes md5 pcm2ulaw ans req world player md5-IsDigest refl room (λ e. cc e)
      (λ e. cc e)

-- ===== src/Rtsp/Dispatch/Gate.antt =====
-- Which requests `dispatch_rtsp` of rtsp_server.c serves when there is authentication.
use smart_lock_intercom.Base.{
  if_intro, ◌≢◌, ℕ, ◌≡◌, ◌⊎◌, refl, inl, inr, true, false, some, [], ◌∷◌, Bytes,
}
use smart_lock_intercom.Base.Int.{ℤ}
use smart_lock_intercom.CString.{codes, str_eq, has_prefix_nocase}
use smart_lock_intercom.CString.Equality.{str_eq_iff}
use smart_lock_intercom.Status.{success, eacces}
use smart_lock_intercom.Auth.{AuthState, rtsp_auth_check, rtsp_auth_challenge, rotate}
use smart_lock_intercom.Auth.Digest.{HasRoom}
use smart_lock_intercom.Auth.Challenge.{IsDigest}
use smart_lock_intercom.Auth.Access.{Authorizes, rtsp_auth_check-Authorizes}
use smart_lock_intercom.Rtsp.Request.{RtspReq}
use smart_lock_intercom.Rtsp.State.{RtspClient, World, Answers, challenge, no_body, rtsp_reply}
use smart_lock_intercom.Rtsp.Dispatch.{
  Method, method_of, is_open, serve, auth_header, dispatch_request,
}

module _ (md5 : Bytes → Bytes) (rand stale : ℕ → ℕ) (method uri : Bytes) (a : AuthState)
    (is_digest : IsDigest md5) (room : HasRoom method a) (on : a.enabled ≡ true) where
  -- The header of a request, which is none if it is empty.
  checked :
      (hdr : Bytes)
      → (Authorizes md5 method a hdr
          × (rtsp_auth_check md5 rand stale method uri (auth_header hdr) a
              ≡ (success, rotate rand a)))
        ⊎ ((¬ Authorizes md5 method a hdr)
            × (rtsp_auth_check md5 rand stale method uri (auth_header hdr) a ≡ (eacces, a)))
  unfolding rtsp_auth_check has_prefix_nocase
  checked [] = inr ((λ proof. cc (proof.0)), rw on refl)
  checked (x ∷ xs) =
      rtsp_auth_check-Authorizes md5 rand stale method uri (x ∷ xs) a is_digest room on

-- Only the two methods need no authentication.
needs_auth :
    (m : Bytes) → m ≢ codes "OPTIONS" → m ≢ codes "GET_PARAMETER" → is_open (method_of m) ≡ false
unfolding method_of
needs_auth m no_options no_get =
    let P = λ (t : Method). is_open t ≡ false in
    let same = λ (t : Bytes). λ (h : str_eq m t ≡ true). (str_eq_iff m t).0 h in
    if_intro P (str_eq m (codes "OPTIONS")) (λ h. absurd (no_options (same (codes "OPTIONS") h)))
      (λ _.
        if_intro P (str_eq m (codes "DESCRIBE")) (λ _. refl)
          (λ _.
            if_intro P (str_eq m (codes "SETUP")) (λ _. refl)
              (λ _.
                if_intro P (str_eq m (codes "PLAY")) (λ _. refl)
                  (λ _.
                    if_intro P (str_eq m (codes "TEARDOWN")) (λ _. refl)
                      (λ _.
                        if_intro P (str_eq m (codes "GET_PARAMETER"))
                          (λ h. absurd (no_get (same (codes "GET_PARAMETER") h))) (λ _. refl))))))

module _ (md5 : Bytes → Bytes) (pcm2ulaw : ℤ → ℕ) (ans : Answers) (req : RtspReq) (w : World)
    (c : RtspClient) where
  dispatch-refused :
      rtsp_auth_check md5 ans.rand ans.stale req.method req.uri
          (auth_header req.authorization)
          w.auth
        ≡ (eacces, w.auth)
      → w.auth.enabled ≡ true
      → is_open (method_of req.method) ≡ false
      → dispatch_request md5 pcm2ulaw ans req w c ≡ record {
        world = w;
        client = some c;
        outputs =
            rtsp_reply ans c req.cseq 401 (challenge (rtsp_auth_challenge 256 w.auth)) no_body;
      }
  unfolding dispatch_request
  dispatch-refused e on needed = rw (needed, e, on) refl

  dispatch-granted :
      rtsp_auth_check md5 ans.rand ans.stale req.method req.uri
          (auth_header req.authorization)
          w.auth
        ≡ (success, rotate ans.rand w.auth)
      → w.auth.enabled ≡ true
      → is_open (method_of req.method) ≡ false
      → dispatch_request md5 pcm2ulaw ans req w c
        ≡ serve pcm2ulaw ans
            (method_of req.method)
            req
            (record w { auth = rotate ans.rand w.auth })
            c
  unfolding dispatch_request
  dispatch-granted e on needed = rw (needed, e, on) refl

  -- With authentication on, a request whose method is neither OPTIONS nor GET_PARAMETER is served
  -- if its Authorization header proves knowledge of the password for the nonce that is out, and
  -- there is a new nonce from then on; if the header does not, nothing changes in the server or its
  -- client, and the answer is 401 with a challenge. User, password and method fit their arrays, and
  -- a digest of MD5 has 16 bytes.
  pub dispatch_request-Authorizes :
      IsDigest md5
      → w.auth.enabled ≡ true
      → HasRoom req.method w.auth
      → req.method ≢ codes "OPTIONS"
      → req.method ≢ codes "GET_PARAMETER"
      → (Authorizes md5 req.method w.auth req.authorization
          × (dispatch_request md5 pcm2ulaw ans req w c
              ≡ serve pcm2ulaw ans
                  (method_of req.method)
                  req
                  (record w { auth = rotate ans.rand w.auth })
                  c))
        ⊎ ((¬ Authorizes md5 req.method w.auth req.authorization)
            × (dispatch_request md5 pcm2ulaw ans req w c ≡ record {
              world = w;
              client = some c;
              outputs =
                  rtsp_reply ans c req.cseq 401
                    (challenge (rtsp_auth_challenge 256 w.auth))
                    no_body;
            }))
  dispatch_request-Authorizes is_digest on room no_options no_get =
      let needed = needs_auth req.method no_options no_get in
      elim (checked md5 ans.rand ans.stale req.method req.uri w.auth is_digest room on
        req.authorization) [
          | inl (proof, e) ↦ inl (proof, dispatch-granted e on needed)
          | inr (no_proof, e) ↦ inr (no_proof, dispatch-refused e on needed)
        ]
